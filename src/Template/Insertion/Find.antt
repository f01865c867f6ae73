-- ===== src/Template/Insertion/Find.antt =====
-- BINARY_INSERTION_FIND finds the place of `x` among the first `size` elements, which ascend.
use ksort.Base.{
  ℕ, zero, suc, ◌+◌, ◌-◌, ◌/◌, ◌≤◌, ◌<◌, ◌≡◌, refl, List, arith, ltb, leb, is_negative, is_positive,
}
use ksort.Run.{Returns, returns, Returns-bind, Returns-map, Returns-if}
use ksort.Array.{length, key_at, load, IsSortedIn}
use ksort.Array.Hole.{load-Returns}
use ksort.Array.Laws.{key_at-some}
use ksort.Template.{sort_cmp}
use ksort.Template.Bitonic.{value}
use ksort.Template.Bitonic.Exchange.{sort_cmp-IsThreeWay}
use ksort.Template.Insertion.{find_loop, binary_insertion_find}

-- no element in front of `p` is above `x`, and every one from `p` up to `i` is
pub record IsPlaceOf (xs : List ℕ) (x i p : ℕ) : Type 0 where
  pub inside : p ≤ i
  pub front : (k : ℕ) → k < p → key_at value xs k ≤ x
  pub back : (k : ℕ) → p ≤ k → k < i → x < key_at value xs k

-- a read of an element, as a number
pub load-value :
    (xs : List ℕ) (i : ℕ) → i < length xs → Returns (λ x. x ≡ key_at value xs i) (load xs i)
load-value xs i h =
    Returns-map (load-Returns xs i h) λ x e. ground (arith, key_at-some value xs i x e)

pub below_cmp : (x y : ℕ) → is_negative (sort_cmp x y) ≡ ltb x y
below_cmp x y = let t = sort_cmp-IsThreeWay in t.below x y

pub above_cmp : (x y : ℕ) → is_positive (sort_cmp x y) ≡ ltb y x
above_cmp x y = let t = sort_cmp-IsThreeWay in t.above x y

module _ (xs : List ℕ) (x size : ℕ) (f : size ≤ length xs) (s : IsSortedIn value xs 0 size) where
  find_loop-IsPlaceOf :
      (fuel cx l c r : ℕ)
      → r ≤ l + fuel
      → l < r
      → r < size
      → c ≡ l + (r - l) / 2
      → key_at value xs l ≤ x
      → x < key_at value xs r
      → cx ≡ key_at value xs c
      → Returns (IsPlaceOf xs x size) (find_loop fuel xs x cx l c r)
  unfolding find_loop
  find_loop-IsPlaceOf zero cx l c r e h g m lx rx cur = absurd (omega arith)
  find_loop-IsPlaceOf (suc fuel) cx l c r e h g m lx rx cur =
      Returns-if (is_negative (sort_cmp x cx))
        (λ b.
          let below : x < key_at value xs c = ground (arith, below_cmp x cx) in
          Returns-if (leb (c - l) 1)
            (λ d. returns (record {
              inside = omega arith;
              front = λ k q. ground (arith, s k l);
              back = λ k q t. ground (arith, s c k);
            }))
            λ d. Returns-bind (load-value xs (l + (c - l) / 2) (omega (arith, f))) λ y t.
              find_loop-IsPlaceOf fuel y l (l + (c - l) / 2) c (omega arith) (ground arith)
                (omega arith) refl lx below t)
        λ b.
          let above : key_at value xs c ≤ x = ground (arith, below_cmp x cx) in
          Returns-if (leb (r - c) 1)
            (λ d. returns (record {
              inside = omega arith;
              front = λ k q. ground (arith, s k c);
              back = λ k q t. ground (arith, s r k);
            }))
            λ d. Returns-bind (load-value xs (c + (r - c) / 2) (omega (arith, f))) λ y t.
              find_loop-IsPlaceOf fuel y c (c + (r - c) / 2) r (ground arith) (omega arith) g refl
                above rx t

  -- For an element below the last of the ascending ones, BINARY_INSERTION_FIND returns its place behind
  -- those that are not above it.
  pub binary_insertion_find-IsPlaceOf :
      0 < size
      → x < key_at value xs (size - 1)
      → Returns (IsPlaceOf xs x size) (binary_insertion_find xs x size)
  unfolding binary_insertion_find
  binary_insertion_find-IsPlaceOf z lt =
      Returns-bind (load-value xs 0 (omega (arith, f))) λ first e.
        Returns-if (is_negative (sort_cmp x first))
          (λ b. returns (record {
            inside = omega arith;
            front = λ k q. absurd (omega arith);
            back = λ k q t. ground (arith, s 0 k, below_cmp x first);
          }))
          λ b. Returns-bind (load-value xs (size - 1) (omega (arith, f))) λ last e'.
            Returns-if (is_positive (sort_cmp x last))
              (λ c. absurd (ground (arith, above_cmp x last)))
              λ c.
                let from : key_at value xs 0 ≤ x = ground (arith, below_cmp x first) in
                Returns-bind (load-value xs ((size - 1) / 2) (omega (arith, f))) λ cx t.
                  find_loop-IsPlaceOf size cx 0 ((size - 1) / 2) (size - 1) (omega arith)
                    (ground arith) (omega arith) (omega arith) from lt t
