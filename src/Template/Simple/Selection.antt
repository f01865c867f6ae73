-- ===== src/Template/Simple/Selection.antt =====
-- SELECTION_SORT sorts.
use native.Mathlib.Decide.{dec_lt}
use ksort.Base.{ℕ, zero, suc, ◌+◌, ◌≤◌, ◌<◌, ◌≡◌, List, leb, arith, is_negative}
use ksort.Run.{Returns, returns, Returns-bind, Returns-map, Returns-if}
use ksort.Array.{length, key_at, IsPermutedIn, IsSortedIn, IsSortedRange}
use ksort.Array.Access.{compare_at-Compared, swap_at-IsSwapped}
use ksort.Array.Range.{
  IsPermutedIn-refl, IsPermutedIn-trans, IsPermutedIn-widen, IsSwapped-IsPermutedIn,
}
use ksort.Template.{sort_cmp}
use ksort.Template.Bitonic.{value}
use ksort.Template.Bitonic.Exchange.{sort_cmp-IsThreeWay}
use ksort.Template.Simple.{select_at, select_loop, selection_loop, selection_sort}

-- element `i` is not above those behind it in front of `j`
abbrev IsLeast : List ℕ → ℕ → ℕ → Type 0
IsLeast xs i j = (k : ℕ) → i ≤ k → k < j → key_at value xs i ≤ key_at value xs k

module _ (hi : ℕ) where
  select_at-IsLeast :
      (xs : List ℕ) (i j : ℕ)
      → hi ≤ length xs
      → i < j
      → j < hi
      → IsLeast xs i j
      → Returns (λ ys. IsPermutedIn value i hi xs ys × IsLeast ys i (j + 1)) (select_at xs i j)
  unfolding select_at
  select_at-IsLeast xs i j f h g l =
      Returns-bind
        (compare_at-Compared value xs j i (omega arith) (omega arith) sort_cmp sort_cmp-IsThreeWay)
        λ z c.
          Returns-if (is_negative z)
            (λ b. Returns-map (swap_at-IsSwapped value xs i j (omega arith) (omega arith)) λ ys s. (
              IsSwapped-IsPermutedIn (omega arith) (omega arith) (omega arith) (omega arith) s,
              λ k p q. ground (arith, s.at i, s.at k, l k, c.negative),
            ))
            λ b. returns (IsPermutedIn-refl i hi xs, λ k p q. ground (arith, l k, c.negative))

  select_loop-IsLeast :
      (rest : ℕ) (xs : List ℕ) (i j : ℕ)
      → hi ≤ length xs
      → i < j
      → j + rest ≡ hi
      → IsLeast xs i j
      → Returns (λ ys. IsPermutedIn value i hi xs ys × IsLeast ys i hi) (select_loop rest xs i j)
  unfolding select_loop
  select_loop-IsLeast zero xs i j f h e l =
      returns (IsPermutedIn-refl i hi xs, λ k p q. l k p (omega arith))
  select_loop-IsLeast (suc rest) xs i j f h e l =
      Returns-bind (select_at-IsLeast xs i j f h (omega arith) l) λ ys p.
        Returns-map
          (select_loop-IsLeast rest ys i (j + 1) (omega (arith, p.0.size)) (omega arith)
            (omega arith) p.1)
          λ zs q. (IsPermutedIn-trans p.0 q.0, q.1)

  -- the elements in front of `i` ascend and none is above one behind them
  record IsSelected (xs : List ℕ) (i : ℕ) : Type 0 where
    sorted : IsSortedIn value xs 0 i
    below : (j k : ℕ) → j < i → i ≤ k → k < hi → key_at value xs j ≤ key_at value xs k

  select_next :
      (xs ys : List ℕ) (i : ℕ)
      → i < hi
      → IsSelected xs i
      → IsPermutedIn value i hi xs ys
      → IsLeast ys i hi
      → IsSelected ys (i + 1)
  select_next xs ys i h s p l =
      let (m, from, to, e) = p.within i (omega arith) h in
      record {
        sorted = λ j k a b c. elim (dec_lt k i) [
          | yes q ↦ ground (arith, p.before j, p.before k, s.sorted j k)
          | no q ↦ let same : k ≡ i = omega arith in ground (arith, p.before j, s.below j m)
        ];
        below = λ j k a b c.
            let (n, from', to', e') = p.within k (omega arith) c in
            ground (arith, l k, p.before j, s.below j n);
      }

  selection_loop-sorts :
      (rest : ℕ) (xs : List ℕ) (i : ℕ)
      → hi ≤ length xs
      → i + rest ≡ hi
      → IsSelected xs i
      → Returns (IsSortedRange value 0 hi xs) (selection_loop rest xs i)
  unfolding selection_loop
  selection_loop-sorts zero xs i f e s =
      returns (IsPermutedIn-refl 0 hi xs, λ j k a b c. s.sorted j k a b (omega arith))
  selection_loop-sorts (suc rest) xs i f e s =
      Returns-bind
        (select_loop-IsLeast rest xs i (i + 1) f (omega arith) (omega arith)
          λ k p q. let same : k ≡ i = omega arith in rw same (omega arith))
        λ ys p.
          Returns-map
            (selection_loop-sorts rest ys (i + 1) (omega (arith, p.0.size)) (omega arith)
              (select_next xs ys i (omega arith) s p.0 p.1))
            λ zs q.
              (IsPermutedIn-trans (IsPermutedIn-widen (omega arith) (omega arith) p.0) q.0, q.1)

-- For an array with that many elements, SELECTION_SORT returns with the first `size` elements in
-- ascending order, rearranged among themselves, and touches no other element.
pub selection_sort-sorts :
    (xs : List ℕ) (size : ℕ)
    → size ≤ length xs
    → Returns (IsSortedRange value 0 size xs) (selection_sort xs size)
unfolding selection_sort
selection_sort-sorts xs size f =
    Returns-if (leb size 1)
      (λ b. returns (
        IsPermutedIn-refl 0 size xs,
        λ j k p q r. let same : j ≡ k = ground arith in rw same (omega arith),
      ))
      λ b. selection_loop-sorts size size xs 0 f (omega arith) (record {
        sorted = λ j k p q r. absurd (omega arith);
        below = λ j k p q r. absurd (omega arith);
      })
