-- ===== src/Template/Merge/Loop.antt =====
-- The loop of MERGE_SORT_RECURSIVE writes a merge of the two halves to the buffer.
use mathlib.Core.List.{append_assoc, append-nil}
use native.Mathlib.Decide.{dec_lt}
use ksort.Base.{
  ℕ, zero, suc, ◌+◌, ◌-◌, ◌≤◌, ◌<◌, ◌≡◌, ◌∙◌, refl, ap, sym, List, [], ◌∷◌, ◌++◌, some, arith, ltb,
  is_positive,
}
use ksort.Run.{◌>>=◌, Returns, returns, Returns-bind, Returns-map, Returns-if}
use ksort.Array.{length, get_elem?, set, key_at}
use ksort.Array.Access.{compare_at-Compared}
use ksort.Array.Hole.{load-Returns, store-Returns}
use ksort.Array.Laws.{key_at-some, length-set}
use ksort.Array.Slice.{take, slice, slice-cons, key_at-slice, take-set}
use ksort.Template.{sort_cmp}
use ksort.Template.Bitonic.{value}
use ksort.Template.Bitonic.Exchange.{sort_cmp-IsThreeWay}
use ksort.Template.Merge.{emit, merge_loop}
use ksort.Template.Merge.Merged.{Merged, done, from_left, from_right}

-- the `rest` elements from `out` on are a merge of `l` and `r`
pub record IsMerge (out rest : ℕ) (l r new new' : List ℕ) : Type 0 where
  pub size : length new' ≡ length new
  pub merge : List ℕ
  pub merged : Merged l r merge
  pub written : take (out + rest) new' ≡ take out new ++ merge

-- `newdst[out] = dst[i]`, and what `new` holds then
record IsEmitted (xs new : List ℕ) (out i : ℕ) (new' : List ℕ) : Type 0 where
  element : ℕ
  found : get_elem? xs i ≡ some element
  set_to : new' ≡ set new out element

emit-IsEmitted :
    (xs new : List ℕ) (out i : ℕ)
    → i < length xs
    → out < length new
    → Returns (IsEmitted xs new out i) (emit new xs out i)
unfolding emit
emit-IsEmitted xs new out i h g = Returns-bind (load-Returns xs i h) λ x e.
    Returns-map (store-Returns new out x g)
      λ new' e'. record { element = x; found = e; set_to = e' }

-- one element more at the front of the merge
written-cons :
    (out rest : ℕ) (new new' merge : List ℕ) (v : ℕ)
    → out < length new
    → take (out + 1 + rest) new' ≡ take (out + 1) (set new out v) ++ merge
    → take (out + suc rest) new' ≡ take out new ++ (v ∷ merge)
written-cons out rest new new' merge v h e =
    let same : out + suc rest ≡ out + 1 + rest = omega arith in
    rw same (e ∙ rw (take-set out new v h) (append_assoc (take out new) (v ∷ []) merge))

slice-next :
    (base n i : ℕ) (xs : List ℕ) (x : ℕ)
    → i < n
    → get_elem? xs (base + i) ≡ some x
    → slice (base + i) (n - i) xs ≡ x ∷ slice (base + (i + 1)) (n - (i + 1)) xs
slice-next base n i xs x h e =
    let count : n - i ≡ suc (n - (i + 1)) = omega arith in
    let place : base + (i + 1) ≡ base + i + 1 = omega arith in
    rw (count, place) (slice-cons (base + i) (n - (i + 1)) xs x e)

-- `v` may be taken before what is left of a half
below_slice :
    (base n i : ℕ) (xs : List ℕ) (v : ℕ)
    → base + n ≤ length xs
    → (i < n → v ≤ key_at value xs (base + i))
    → 0 < length (slice (base + i) (n - i) xs)
    → v ≤ key_at value (slice (base + i) (n - i) xs) 0
below_slice base n i xs v f h z = elim (dec_lt i n) [
  | yes l ↦
      let place : base + i + 0 ≡ base + i = omega arith in
      rw (key_at-slice value (base + i) (n - i) xs 0 (omega arith), place) (h l)
  | no g ↦ let none_left : n - i ≡ 0 = omega arith in absurd (omega (arith, rw none_left at z))
]

module _ (xs : List ℕ) (base middle size : ℕ) (f : base + size ≤ length xs)
    (half : middle ≤ size) where
  abbrev left_part : ℕ → List ℕ
  left_part i = slice (base + i) (middle - i) xs

  abbrev right_part : ℕ → List ℕ
  right_part j = slice (base + j) (size - j) xs

  take_left :
      (rest out i j : ℕ) (new new1 new' : List ℕ)
      → i < middle
      → out < length new
      → (j < size → key_at value xs (base + i) ≤ key_at value xs (base + j))
      → IsEmitted xs new out (base + i) new1
      → IsMerge (out + 1) rest (left_part (i + 1)) (right_part j) new1 new'
      → IsMerge out (suc rest) (left_part i) (right_part j) new new'
  take_left rest out i j new new1 new' h g c e w =
      let v = e.element in
      let low = key_at-some value xs (base + i) v e.found in
      record {
        size = w.size ∙ ap length e.set_to ∙ length-set new out v;
        merge = v ∷ w.merge;
        merged =
            rw (slice-next base middle i xs v h e.found)
              (from_left v (below_slice base size j xs v f λ l. omega (arith, c l, low)) w.merged);
        written = written-cons out rest new new' w.merge v g (rw e.set_to at w.written);
      }

  take_right :
      (rest out i j : ℕ) (new new1 new' : List ℕ)
      → j < size
      → out < length new
      → (i < middle → key_at value xs (base + j) ≤ key_at value xs (base + i))
      → IsEmitted xs new out (base + j) new1
      → IsMerge (out + 1) rest (left_part i) (right_part (j + 1)) new1 new'
      → IsMerge out (suc rest) (left_part i) (right_part j) new new'
  take_right rest out i j new new1 new' h g c e w =
      let v = e.element in
      let low = key_at-some value xs (base + j) v e.found in
      record {
        size = w.size ∙ ap length e.set_to ∙ length-set new out v;
        merge = v ∷ w.merge;
        merged = rw (slice-next base size j xs v h e.found) (
            from_right v (below_slice base middle i xs v (omega arith) λ l. omega (arith, c l, low))
              w.merged);
        written = written-cons out rest new new' w.merge v g (rw e.set_to at w.written);
      }

  pub merge_loop-IsMerge :
      (rest out i j : ℕ) (new : List ℕ)
      → i ≤ middle
      → middle ≤ j
      → j ≤ size
      → rest ≡ middle - i + (size - j)
      → out + rest ≤ length new
      → Returns
          (IsMerge out rest (left_part i) (right_part j) new)
          (merge_loop rest new xs base middle size out i j)
  unfolding merge_loop
  merge_loop-IsMerge zero out i j new hi hj hs e g =
      let place : out + 0 ≡ out = omega arith in
      let no_left : middle - i ≡ 0 = omega arith in
      let no_right : size - j ≡ 0 = omega arith in
      returns (record {
        size = refl;
        merge = [];
        merged = rw (no_left, no_right) done;
        written = rw place (sym (append-nil (take out new)));
      })
  merge_loop-IsMerge (suc rest) out i j new hi hj hs e g =
      let go_left : i < middle
          → (j < size → key_at value xs (base + i) ≤ key_at value xs (base + j))
          → Returns (IsMerge out (suc rest) (left_part i) (right_part j) new) (
              emit new xs out (base + i) >>= λ new'.
              merge_loop rest new' xs base middle size (out + 1) (i + 1) j) =
        λ l c.
          Returns-bind (emit-IsEmitted xs new out (base + i) (omega arith) (omega arith)) λ new1 w.
            Returns-map
              (merge_loop-IsMerge rest (out + 1) (i + 1) j new1 (omega arith) hj hs (omega arith)
                (omega (arith, length-set new out w.element, ap length w.set_to)))
              λ new' q. take_left rest out i j new new1 new' l (omega arith) c w q in
      let go_right : j < size
          → (i < middle → key_at value xs (base + j) ≤ key_at value xs (base + i))
          → Returns (IsMerge out (suc rest) (left_part i) (right_part j) new) (
              emit new xs out (base + j) >>= λ new'.
              merge_loop rest new' xs base middle size (out + 1) i (j + 1)) =
        λ l c.
          Returns-bind (emit-IsEmitted xs new out (base + j) (omega arith) (omega arith)) λ new1 w.
            Returns-map
              (merge_loop-IsMerge rest (out + 1) i (j + 1) new1 hi (omega arith) (omega arith)
                (omega arith) (omega (arith, length-set new out w.element, ap length w.set_to)))
              λ new' q. take_right rest out i j new new1 new' l (omega arith) c w q in
      Returns-if (ltb i middle)
        (λ b.
          Returns-if (ltb j size)
            (λ b'.
              Returns-bind
                (compare_at-Compared value xs (base + i) (base + j) (ground arith) (ground arith)
                  sort_cmp sort_cmp-IsThreeWay)
                λ z c.
                  Returns-if (is_positive z)
                    (λ p. go_right (ground arith) λ l. ground (arith, c.positive))
                    λ p. go_left (ground arith) λ l. ground (arith, c.positive))
            λ b'. go_left (ground arith) λ l. absurd (ground arith))
        λ b. go_right (ground arith) λ l. absurd (ground arith)
