-- ===== src/Template/Insertion/Shift.antt =====
-- The elements move up by one place, and the hole goes down to the place of the element.
use ksort.Base.{
  ℕ, zero, suc, ◌+◌, ◌-◌, ◌≤◌, ◌<◌, ◌≡◌, ◌≢◌, List, arith, leb, ltb, ◌&&◌, ◌==◌, if◌then◌else◌,
}
use ksort.Run.{Returns, returns, Returns-bind, Returns-map, Returns-if}
use ksort.Array.{length, key_at}
use ksort.Array.Hole.{IsHoled, move_hole, load-Returns, store-Returns}
use ksort.Array.Laws.{key_at-some, key_at-set}
use ksort.Template.{copy_to}
use ksort.Template.Bitonic.{value}
use ksort.Template.Insertion.{shift_up}

-- `dst[to] = dst[from]`, with the hole at `to`: it goes to `from`.
pub record IsCopied (hi : ℕ) (xs ys : List ℕ) (to from tmp : ℕ) (zs : List ℕ) : Type 0 where
  pub holed : IsHoled value 0 hi xs zs from tmp
  pub at :
      (k : ℕ) → key_at value zs k ≡ (if to == k then key_at value ys from else key_at value ys k)

pub copy_to-IsCopied :
    (hi : ℕ) (xs ys : List ℕ) (to from tmp : ℕ)
    → hi ≤ length xs
    → IsHoled value 0 hi xs ys to tmp
    → from < hi
    → to ≢ from
    → Returns (IsCopied hi xs ys to from tmp) (copy_to ys to from)
unfolding copy_to
copy_to-IsCopied hi xs ys to from tmp f v h n =
    Returns-bind (load-Returns ys from (omega (arith, v.size))) λ y e.
      Returns-map (store-Returns ys to y (omega (arith, v.size, v.high))) λ zs e'. rw e' (record {
        holed = move_hole value from y f v (omega arith) h n e;
        at = λ k. ground (
          arith,
          key_at-set value ys to k y (omega (arith, v.size, v.high)),
          key_at-some value ys from y e,
        );
      })

-- the elements from the hole at `h` up to `i` have moved up by one place
pub record IsShifted (hi : ℕ) (xs : List ℕ) (i h tmp : ℕ) (ys : List ℕ) : Type 0 where
  pub holed : IsHoled value 0 hi xs ys h tmp
  pub at :
      (k : ℕ)
      → key_at value ys k
        ≡ (if ltb h k && leb k i then key_at value xs (k - 1) else key_at value xs k)

pub shift_once :
    (hi : ℕ) (xs ys : List ℕ) (i j tmp : ℕ)
    → hi ≤ length xs
    → j < i
    → IsShifted hi xs i (j + 1) tmp ys
    → Returns (IsShifted hi xs i j tmp) (copy_to ys (j + 1) j)
shift_once hi xs ys i j tmp f l v =
    Returns-map
      (copy_to-IsCopied hi xs ys (j + 1) j tmp f v.holed (omega (arith, v.holed.high))
        (omega arith))
      λ zs c. record { holed = c.holed; at = λ k. ground (arith, c.at k, v.at k, v.at j) }

pub shift_up-IsShifted :
    (hi : ℕ) (xs ys : List ℕ) (i j location tmp : ℕ)
    → hi ≤ length xs
    → j < i
    → location ≤ j + 1
    → IsShifted hi xs i (j + 1) tmp ys
    → Returns (IsShifted hi xs i location tmp) (shift_up j location ys)
unfolding shift_up
shift_up-IsShifted hi xs ys i zero location tmp f l h v =
    Returns-if (leb location 0)
      (λ b. let e : location ≡ 0 = ground arith in rw e (shift_once hi xs ys i 0 tmp f l v))
      λ b. let e : location ≡ 1 = ground arith in rw e (returns v)
shift_up-IsShifted hi xs ys i (suc j) location tmp f l h v =
    Returns-if (leb location (suc j))
      (λ b. Returns-bind (shift_once hi xs ys i (suc j) tmp f l v) λ zs w.
        let next : suc j ≡ j + 1 = omega arith in
        shift_up-IsShifted hi xs zs i j location tmp f (omega arith) (ground arith) (rw next at w))
      λ b. let e : location ≡ suc j + 1 = ground arith in rw e (returns v)
