-- ===== src/Template/Stable/Sorts.antt =====
-- REC_STABLE_SORT sorts its array.
use ksort.Base.{
  ℕ, zero, suc, ◌+◌, ◌-◌, ◌*◌, ◌^◌, ◌≤◌, ◌<◌, ◌≡◌, refl, List, arith, ltb, is_positive,
}
use ksort.Run.{Returns, returns, Returns-bind, Returns-map, Returns-if}
use ksort.Array.{length, IsPermutedIn, IsSortedRange}
use ksort.Array.Access.{compare_at-Compared, swap_at-IsSwapped}
use ksort.Array.Range.{IsPermutedIn-refl, IsSwapped-IsPermutedIn}
use ksort.Template.{sort_cmp, cswap}
use ksort.Template.Bitonic.{value}
use ksort.Template.Bitonic.Exchange.{sort_cmp-IsThreeWay}
use ksort.Template.Stable.{pair_loop, height_loop, rec_stable_sort}
use ksort.Template.Stable.Ints.{fits_int-ok}
use ksort.Template.Stable.Blocks.{
  Multiple, Multiple-next, AllBlocks, IsHalfway, merged-IsHalfway, halfway_end,
  block_loop-AllBlocks,
}

-- a block of all elements
whole_block :
    (xs ys : List ℕ) (h size : ℕ)
    → size ≤ h
    → IsPermutedIn value 0 size xs ys
    → AllBlocks ys size h
    → IsSortedRange value 0 size xs ys
whole_block xs ys h size l w a = (w, λ i j b c d. a 0 (0, omega arith) i j b c (omega arith) d)

height_loop-sorts :
    (fuel : ℕ) (xs ys : List ℕ) (h size : ℕ)
    → size - h < fuel
    → 0 < h
    → size ≤ 2 ^ 30
    → size ≤ length xs
    → IsPermutedIn value 0 size xs ys
    → AllBlocks ys size h
    → Returns (IsSortedRange value 0 size xs) (height_loop fuel ys h size)
unfolding height_loop
height_loop-sorts zero xs ys h size e z g f w a = absurd (omega arith)
height_loop-sorts (suc fuel) xs ys h size e z g f w a =
    Returns-if (ltb h size)
      (λ b.
        let zero_at : 0 ≡ 0 * (2 * h) = omega arith in
        let double : h * 2 ≡ 2 * h = omega arith in
        let lt : h < size = ground arith in
        let in_range : 2 * h < 2 ^ 31 = omega arith in
        rw (double, fits_int-ok (2 * h) in_range)
          (Returns-bind
            (block_loop-AllBlocks (size + 1) xs ys 0 h size (omega arith) z in_range (omega arith) g
              f (0, zero_at)
              (record {
                permuted = w;
                front = λ p m l. absurd (omega arith);
                back = λ p m l. a p m;
              }))
            λ zs q.
              height_loop-sorts fuel xs zs (2 * h) size (omega arith) (omega arith) g f q.0 q.1))
      λ b. returns (whole_block xs ys h size (ground arith) w a)

cswap-next :
    (xs : List ℕ) (p : ℕ)
    → p + 2 ≤ length xs
    → Returns (IsSortedRange value p (p + 2) xs) (cswap xs (p + 1 - 1) (p + 1))
unfolding cswap
cswap-next xs p h =
    let first : p + 1 - 1 ≡ p = omega arith in
    Returns-bind
      (compare_at-Compared value xs (p + 1 - 1) (p + 1) (omega arith) (omega arith) sort_cmp
        sort_cmp-IsThreeWay)
      λ z c.
        Returns-if (is_positive z)
          (λ e.
            Returns-map (swap_at-IsSwapped value xs (p + 1 - 1) (p + 1) (omega arith) (omega arith))
              λ ys s. (
                IsSwapped-IsPermutedIn (omega arith) (omega arith) (omega arith) (omega arith) s,
                λ i j a b d.
                    let s' = rw first at s in
                    let c' = rw first at c.positive in ground (arith, s'.at i, s'.at j, c'),
              ))
          λ e. returns (
            IsPermutedIn-refl p (p + 2) xs,
            λ i j a b d. let c' = rw first at c.positive in ground (arith, c'),
          )

pair_loop-AllBlocks :
    (fuel : ℕ) (xs ys : List ℕ) (p size : ℕ)
    → size < fuel + p
    → p ≤ size
    → size ≤ 2 ^ 30
    → size ≤ length xs
    → Multiple 2 p
    → IsHalfway xs ys size 1 p
    → Returns
        (λ zs. IsPermutedIn value 0 size xs zs × AllBlocks zs size 2)
        (pair_loop fuel ys (p + 1) size)
unfolding pair_loop
pair_loop-AllBlocks zero xs ys p size e l g f m w = absurd (omega arith)
pair_loop-AllBlocks (suc fuel) xs ys p size e l g f m w =
    Returns-if (ltb (p + 1) size)
      (λ b.
        let next : p + 1 + 2 ≡ p + 2 + 1 = omega arith in
        let fits : p + 2 ≤ size = ground arith in
        let in_range : p + 2 + 1 < 2 ^ 31 = omega arith in
        Returns-bind (cswap-next ys p (omega (arith, w.permuted.size))) λ zs s.
          rw (next, fits_int-ok (p + 2 + 1) in_range)
            (pair_loop-AllBlocks fuel xs zs (p + 2) size (omega arith) fits g f
              (Multiple-next 2 p m)
              (merged-IsHalfway xs ys zs size 1 p 2 m fits (omega arith) (λ u. absurd (omega arith))
                w s)))
      λ b. returns (halfway_end xs ys size 1 p m (ground arith) w)

-- For an array with that many elements, of which there are at most 2^30, REC_STABLE_SORT returns with the
-- first `size` elements in ascending order, rearranged among themselves, and touches no other element; no
-- `int` of it overflows.
pub rec_stable_sort-sorts :
    (xs : List ℕ) (size : ℕ)
    → size ≤ 2 ^ 30
    → size ≤ length xs
    → Returns (IsSortedRange value 0 size xs) (rec_stable_sort xs size)
unfolding rec_stable_sort
rec_stable_sort-sorts xs size g f =
    let start : 0 + 1 ≡ 1 = omega arith in
    let single : IsHalfway xs xs size 1 0 = record {
      permuted = IsPermutedIn-refl 0 size xs;
      front = λ p m l. absurd (omega arith);
      back = λ p m l i j a b c d. let same : i ≡ j = omega arith in rw same (omega arith);
    } in
    Returns-bind
      (pair_loop-AllBlocks (size + 1) xs xs 0 size (omega arith) (omega arith) g f (0, refl) single)
      λ ys q. height_loop-sorts (size + 1) xs ys 2 size (omega arith) (omega arith) g f q.0 q.1
