-- ===== src/Template/Simple/Bubble.antt =====
-- BUBBLE_SORT sorts.
use native.Mathlib.Decide.{dec_lt}
use ksort.Base.{ℕ, zero, suc, ◌+◌, ◌-◌, ◌≤◌, ◌<◌, ◌≡◌, ◌==◌, List, arith, is_positive}
use ksort.Run.{Returns, returns, Returns-bind, Returns-map, Returns-if}
use ksort.Array.{length, key_at, IsPermutedIn, IsSortedRange}
use ksort.Array.Access.{compare_at-Compared, swap_at-IsSwapped}
use ksort.Array.Range.{
  IsPermutedIn-refl, IsPermutedIn-trans, IsPermutedIn-widen, IsSwapped-IsPermutedIn,
}
use ksort.Template.{sort_cmp}
use ksort.Template.Bitonic.{value}
use ksort.Template.Bitonic.Exchange.{sort_cmp-IsThreeWay}
use ksort.Template.Simple.{bubble_at, bubble_loop, bubble_rounds, bubble_sort}

-- no element from `n` up to `hi` is below one in front of it
abbrev pub IsSettled : List ℕ → ℕ → ℕ → Type 0
IsSettled xs n hi = (a b : ℕ) → a ≤ b → n ≤ b → b < hi → key_at value xs a ≤ key_at value xs b

record IsBubbled (hi : ℕ) (xs ys : List ℕ) (i newn : ℕ) : Type 0 where
  permuted : IsPermutedIn value 0 hi xs ys
  settled : IsSettled ys newn i
  less : newn < i

bubble_at-IsBubbled :
    (hi : ℕ) (xs : List ℕ) (i newn : ℕ)
    → hi ≤ length xs
    → 0 < i
    → i < hi
    → newn < i
    → IsSettled xs newn i
    → Returns (λ r. IsBubbled hi xs r.0 (i + 1) r.1) (bubble_at xs i newn)
unfolding bubble_at
bubble_at-IsBubbled hi xs i newn f z h l s =
    Returns-bind
      (compare_at-Compared value xs (i - 1) i (omega arith) (omega arith) sort_cmp
        sort_cmp-IsThreeWay)
      λ v c.
        Returns-if (is_positive v)
          (λ b.
            Returns-bind (swap_at-IsSwapped value xs (i - 1) i (omega arith) (omega arith)) λ ys w.
              returns (record {
                permuted =
                    IsSwapped-IsPermutedIn (omega arith) (omega arith) (omega arith) (omega arith)
                      w;
                settled = λ p q le from lt. ground (arith, w.at p, w.at q, s p (i - 1), c.positive);
                less = omega arith;
              }))
          λ b. returns (record {
            permuted = IsPermutedIn-refl 0 hi xs;
            settled = λ p q le from lt. ground (arith, s p q, s p (i - 1), c.positive);
            less = omega arith;
          })

bubble_loop-IsBubbled :
    (hi rest : ℕ) (xs : List ℕ) (i newn : ℕ)
    → hi ≤ length xs
    → 0 < i
    → i + rest ≡ hi
    → newn < i
    → IsSettled xs newn i
    → Returns (λ r. IsBubbled hi xs r.0 hi r.1) (bubble_loop rest xs i newn)
unfolding bubble_loop
bubble_loop-IsBubbled hi zero xs i newn f z e l s = returns (record {
  permuted = IsPermutedIn-refl 0 hi xs;
  settled = λ p q le from lt. s p q le from (omega arith);
  less = omega arith;
})
bubble_loop-IsBubbled hi (suc rest) xs i newn f z e l s =
    Returns-bind (bubble_at-IsBubbled hi xs i newn f z (omega arith) l s) λ r v.
      Returns-map
        (bubble_loop-IsBubbled hi rest r.0 (i + 1) r.1 (omega (arith, v.permuted.size))
          (omega arith) (omega arith) v.less v.settled)
        λ t w. record {
          permuted = IsPermutedIn-trans v.permuted w.permuted;
          settled = w.settled;
          less = w.less;
        }

-- a rearrangement in front of `n` leaves what is settled so
pub IsSettled-kept :
    (size n : ℕ) (xs ys : List ℕ)
    → IsSettled xs n size
    → IsPermutedIn value 0 n xs ys
    → IsSettled ys n size
IsSettled-kept size n xs ys s v a b le from lt = elim (dec_lt a n) [
  | yes q ↦ let (m, x, y, e) = v.within a (omega arith) q in ground (arith, v.beyond b, s m b)
  | no q ↦ ground (arith, v.beyond a, v.beyond b, s a b)
]

IsSettled-behind :
    (size n : ℕ) (xs ys : List ℕ) (newn : ℕ)
    → IsSettled xs n size
    → IsBubbled n xs ys n newn
    → IsSettled ys newn size
IsSettled-behind size n xs ys newn s v a b le from lt = elim (dec_lt b n) [
  | yes q ↦ v.settled a b le from q
  | no q ↦ IsSettled-kept size n xs ys s v.permuted a b le (omega arith) lt
]

bubble_rounds-sorts :
    (size fuel : ℕ) (xs : List ℕ) (n : ℕ)
    → size ≤ length xs
    → n ≤ size
    → n < fuel
    → IsSettled xs n size
    → Returns (IsSortedRange value 0 size xs) (bubble_rounds fuel xs n)
unfolding bubble_rounds
bubble_rounds-sorts size zero xs n f h l s = absurd (omega arith)
bubble_rounds-sorts size (suc fuel) xs n f h l s =
    Returns-if (n == 0)
      (λ b. returns (IsPermutedIn-refl 0 size xs, λ i j p q r. s i j q (ground arith) r))
      λ b.
        let some : 0 < n = ground arith in
        Returns-bind
          (bubble_loop-IsBubbled n (n - 1) xs 1 0 (omega arith) (omega arith) (omega arith)
            (omega arith) λ p q le from lt. let same : p ≡ q = omega arith in rw same (omega arith))
          λ r v.
            Returns-map
              (bubble_rounds-sorts size fuel r.0 r.1 (omega (arith, v.permuted.size))
                (omega (arith, v.less)) (omega (arith, v.less))
                (IsSettled-behind size n xs r.0 r.1 s v))
              λ zs q. (IsPermutedIn-trans (IsPermutedIn-widen (omega arith) h v.permuted) q.0, q.1)

-- For an array with that many elements, BUBBLE_SORT returns with the first `size` elements in
-- ascending order, rearranged among themselves, and touches no other element.
pub bubble_sort-sorts :
    (xs : List ℕ) (size : ℕ)
    → size ≤ length xs
    → Returns (IsSortedRange value 0 size xs) (bubble_sort xs size)
unfolding bubble_sort
bubble_sort-sorts xs size f =
    bubble_rounds-sorts size (size + 1) xs size f (omega arith) (omega arith)
      λ p q le from lt. absurd (omega arith)
