-- ===== src/Template/Tim/Merge/Parts.antt =====
-- The elements that the loops of TIM_SORT_MERGE move.
use ksort.Base.{ℕ, ◌+◌, ◌≤◌, ◌<◌, ◌≡◌, sym, List, some, arith}
use ksort.Run.{Returns, Returns-bind, Returns-map}
use ksort.Array.{length, get_elem?, set, key_at}
use ksort.Array.Hole.{load-Returns, store-Returns}
use ksort.Array.Laws.{key_at-some}
use ksort.Array.Slice.{slice, length-slice, key_at-slice}
use ksort.Template.{copy_to}
use ksort.Template.Bitonic.{value}
use ksort.Template.Merge.{emit}

-- element `i` of `xs`, written to `ys` at `k`
pub record IsMoved (xs : List ℕ) (i : ℕ) (ys : List ℕ) (k : ℕ) (zs : List ℕ) : Type 0 where
  pub element : ℕ
  pub found : get_elem? xs i ≡ some element
  pub set_to : zs ≡ set ys k element

pub emit-IsMoved :
    (ys xs : List ℕ) (k i : ℕ)
    → i < length xs
    → k < length ys
    → Returns (IsMoved xs i ys k) (emit ys xs k i)
unfolding emit
emit-IsMoved ys xs k i h g = Returns-bind (load-Returns xs i h) λ x e.
    Returns-map (store-Returns ys k x g) λ zs e'. record { element = x; found = e; set_to = e' }

pub copy_to-IsMoved :
    (xs : List ℕ) (k i : ℕ)
    → i < length xs
    → k < length xs
    → Returns (IsMoved xs i xs k) (copy_to xs k i)
unfolding copy_to
copy_to-IsMoved xs k i h g = Returns-bind (load-Returns xs i h) λ x e.
    Returns-map (store-Returns xs k x g) λ zs e'. record { element = x; found = e; set_to = e' }

-- the element that was moved, by its value
pub IsMoved-value :
    {xs ys zs : List ℕ} {i k : ℕ} (w : IsMoved xs i ys k zs) → w.element ≡ key_at value xs i
IsMoved-value {xs} {i = i} w = sym (key_at-some value xs i w.element w.found)

-- a bound of the element in front of a part is one of its first element
pub below_part :
    (left n : ℕ) (xs : List ℕ) (v : ℕ)
    → left + n ≤ length xs
    → (0 < n → v ≤ key_at value xs left)
    → 0 < length (slice left n xs)
    → v ≤ key_at value (slice left n xs) 0
below_part left n xs v f h z =
    let some_left : 0 < n = omega (arith, length-slice left n xs f) in
    let place : left + 0 ≡ left = omega arith in
    rw (key_at-slice value left n xs 0 some_left, place) (h some_left)
