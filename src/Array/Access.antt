-- ===== src/Array/Access.antt =====
-- Comparisons and exchanges at indices inside the array return, and what they return.
use mathlib.Core.List.Perm
use ksort.Base.{
  ℕ, ◌<◌, ◌≡◌, ◌∙◌, List, some, ℤ, pos, negsuc, arith, ltb, leb, is_negative, is_positive,
  is_nonnegative, is_nonzero,
}
use ksort.Run.{Returns, returns}
use ksort.Array.{length, get_elem?, set, compare_at, swap_at, key_at, IsThreeWay, IsLess, IsSwapped}
use ksort.Array.Laws.{get_elem?-some, get_elem?-set, length-set, set-perm, key_at-some, key_at-set}

-- The tests on a comparator's result, in terms of the keys of the two elements.
pub record Compared (a b : ℕ) (z : ℤ) : Type 0 where
  pub negative : is_negative z ≡ ltb a b
  pub positive : is_positive z ≡ ltb b a
  pub nonnegative : is_nonnegative z ≡ leb b a

nonnegative-negative : (z : ℤ) (a b : ℕ) → is_negative z ≡ ltb a b → is_nonnegative z ≡ leb b a
nonnegative-negative (pos n) a b h = ground arith
nonnegative-negative (negsuc n) a b h = ground arith

module _ {A : Type 0} (key : A → ℕ) (xs : List A) (i j : ℕ) (hi : i < length xs)
    (hj : j < length xs) where
  pub compare_at-Compared :
      (cmp : A → A → ℤ)
      → IsThreeWay key cmp
      → Returns (Compared (key_at key xs i) (key_at key xs j)) (compare_at cmp xs i j)
  unfolding compare_at
  compare_at-Compared cmp t =
      let (x, ex) = get_elem?-some xs i hi in
      let (y, ey) = get_elem?-some xs j hj in
      rw (ex, ey, key_at-some key xs i x ex, key_at-some key xs j y ey)
        (returns (record {
          negative = t.below x y;
          positive = t.above x y;
          nonnegative = nonnegative-negative _ _ _ (t.below x y);
        }))

  pub compare_at-less :
      (cmp : A → A → ℤ)
      → IsLess key cmp
      → Returns
          (λ z. is_nonzero z ≡ ltb (key_at key xs i) (key_at key xs j))
          (compare_at cmp xs i j)
  unfolding compare_at
  compare_at-less cmp t =
      let (x, ex) = get_elem?-some xs i hi in
      let (y, ey) = get_elem?-some xs j hj in
      rw (ex, ey, key_at-some key xs i x ex, key_at-some key xs j y ey) (returns (t x y))

  pub swap_at-IsSwapped : Returns (IsSwapped key xs i j) (swap_at xs i j)
  unfolding swap_at
  swap_at-IsSwapped =
      let (x, ex) = get_elem?-some xs i hi in
      let (y, ey) = get_elem?-some xs j hj in
      let b = set xs i y in
      let kept : get_elem? b j ≡ some y = ground (arith, get_elem?-set xs i j y) in
      let second = set-perm b j y x kept in
      let first = set-perm xs i x y ex in
      let jb : j < length b = rw length-set hj in
      rw (ex, ey)
        (returns (record {
          size = length-set b j x ∙ length-set xs i y;
          perm = Perm.cons_inv (Perm.trans second first);
          at = λ k. ground (
            arith,
            key_at-set key b j k x jb,
            key_at-set key xs i k y hi,
            key_at-some key xs i x ex,
            key_at-some key xs j y ey,
          );
        }))
