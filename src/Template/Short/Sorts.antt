-- ===== src/Template/Short/Sorts.antt =====
-- The branches for short arrays sort.
use ksort.Base.{
  is_negative, ℕ, zero, suc, ◌+◌, ◌-◌, ◌≤◌, ◌<◌, ◌≡◌, inl, inr, List, Bool, true, false, arith, ltb,
}
use ksort.Run.{Run, returns, Returns, Returns-bind, Returns-map, Returns-if}
use ksort.Array.{length, key_at, IsSwapped, IsSortedIn, IsSortedRange}
use ksort.Array.Access.{compare_at-Compared, swap_at-IsSwapped}
use ksort.Array.Range.{IsPermutedIn-refl, IsPermutedIn-trans}
use ksort.Pdqsort.Insertion.Sift.{SiftInv, SiftEnd, SiftEnd-sorted, swap_SiftInv, swap_kept}
use ksort.Pdqsort.Insertion.Sorts.{start_SiftInv, single_sorted, chain}
use ksort.Template.{sort_cmp}
use ksort.Template.Bitonic.{value}
use ksort.Template.Bitonic.Exchange.{sort_cmp-IsThreeWay}
use ksort.Template.Small.Sorts.{bitonic_sort-sorts}
use ksort.Template.Short.{
  merge_sort_in_place, grail_common_sort, grail_sort, buffer_length, grail_sort_dyn_buffer, sink,
  sort_ins_loop, sort_ins, sqrt_sort,
}

other_way : (xs ys : List ℕ) (i j : ℕ) → IsSwapped value xs i j ys → IsSwapped value xs j i ys
other_way xs ys i j s = record { size = s.size; perm = s.perm; at = λ k. ground (arith, s.at k) }

sink-SiftEnd :
    (xs : List ℕ) (cur k : ℕ)
    → SiftInv value 0 cur k xs
    → Returns (λ ys. (m : ℕ) × SiftEnd value 0 cur xs ys m) (sink k xs)
unfolding sink
sink-SiftEnd xs cur zero v =
    returns
      (0, record { kept = IsPermutedIn-refl 0 (cur + 1) xs; inv = v; stop = inl (omega arith) })
sink-SiftEnd xs cur (suc k) v =
    let up : k + 1 ≡ suc k = omega arith in
    let down : suc k - 1 ≡ k = omega arith in
    Returns-bind
      (compare_at-Compared value xs (k + 1) k (omega (arith, v.high, v.inside))
        (omega (arith, v.high, v.inside)) sort_cmp sort_cmp-IsThreeWay)
      λ z c.
        let n : is_negative z ≡ ltb (key_at value xs (suc k)) (key_at value xs k) =
          rw up at c.negative in
        Returns-if (is_negative z)
          (λ g.
            let lt : key_at value xs (suc k) < key_at value xs (suc k - 1) =
              rw down (ground (arith, n, g)) in
            Returns-bind
              (swap_at-IsSwapped value xs k (k + 1) (omega (arith, v.high, v.inside))
                (omega (arith, v.high, v.inside)))
              λ ys s.
                let s' : IsSwapped value xs (suc k) (suc k - 1) ys =
                  rw down (other_way xs ys k (suc k) (rw up at s)) in
                let w : SiftInv value 0 cur k ys =
                  rw down at (swap_SiftInv value v (omega arith) lt s') in
                Returns-map (sink-SiftEnd ys cur k w) λ zs e. (
                  e.0,
                  record {
                    kept = IsPermutedIn-trans (swap_kept value v (omega arith) s') e.1.kept;
                    inv = e.1.inv;
                    stop = e.1.stop;
                  },
                ))
          λ g. returns (
            suc k,
            record {
              kept = IsPermutedIn-refl 0 (cur + 1) xs;
              inv = v;
              stop = inr (rw down (ground (arith, n, g)));
            },
          )

sort_ins_loop-sorts :
    (fuel : ℕ) (xs : List ℕ) (i len : ℕ)
    → len < i + fuel
    → 0 < i
    → i ≤ len
    → len ≤ length xs
    → IsSortedIn value xs 0 i
    → Returns (IsSortedRange value 0 len xs) (sort_ins_loop fuel xs i len)
unfolding sort_ins_loop
sort_ins_loop-sorts zero xs i len f h g l s = absurd (omega arith)
sort_ins_loop-sorts (suc fuel) xs i len f h g l s =
    Returns-if (ltb i len)
      (λ e.
        let below : i < len = ground arith in
        Returns-bind
          (Returns-map (sink-SiftEnd xs i i (start_SiftInv value s (omega arith) (omega arith)))
            λ ys r. SiftEnd-sorted value r.1)
          λ ys w.
            Returns-map
              (sort_ins_loop-sorts fuel ys (i + 1) len (omega arith) (omega arith) (omega arith)
                (omega (arith, w.0.size)) w.1)
              λ zs q. chain value i (omega arith) w.0 q)
      λ e. let same : i ≡ len = ground arith in returns (IsPermutedIn-refl 0 len xs, rw same at s)

-- For an array with that many elements, and at least one, SQRT_SORT_SORT_INS returns with the first `len`
-- elements in ascending order, rearranged among themselves, and touches no other element.
pub sort_ins-sorts :
    (xs : List ℕ) (len : ℕ)
    → 1 ≤ len
    → len ≤ length xs
    → Returns (IsSortedRange value 0 len xs) (sort_ins xs len)
unfolding sort_ins
sort_ins-sorts xs len h f =
    sort_ins_loop-sorts (len + 1) xs 1 len (omega arith) (omega arith) h f
      (single_sorted value 0 xs)

pub sqrt_sort-ten :
    (longer : List ℕ → ℕ → Run (List ℕ)) (xs : List ℕ)
    → length xs ≡ 10
    → Returns (IsSortedRange value 0 10 xs) (sqrt_sort longer true true xs 10)
unfolding sqrt_sort buffer_length
sqrt_sort-ten longer xs e = sort_ins-sorts xs 10 (omega arith) (omega (arith, e))

pub merge_sort_in_place-ten :
    (longer : List ℕ → ℕ → Run (List ℕ)) (xs : List ℕ)
    → length xs ≡ 10
    → Returns (IsSortedRange value 0 10 xs) (merge_sort_in_place longer xs 10)
unfolding merge_sort_in_place
merge_sort_in_place-ten longer xs e = bitonic_sort-sorts xs 10 e

pub grail_sort-ten :
    (longer : List ℕ → ℕ → ℕ → Run (List ℕ)) (xs : List ℕ)
    → length xs ≡ 10
    → Returns (IsSortedRange value 0 10 xs) (grail_sort longer xs 10)
unfolding grail_sort grail_common_sort
grail_sort-ten longer xs e = bitonic_sort-sorts xs 10 e

pub grail_sort_dyn_buffer-ten :
    (longer : List ℕ → ℕ → ℕ → Run (List ℕ)) (memory : Bool) (xs : List ℕ)
    → length xs ≡ 10
    → Returns (IsSortedRange value 0 10 xs) (grail_sort_dyn_buffer longer memory xs 10)
unfolding grail_sort_dyn_buffer grail_common_sort buffer_length
grail_sort_dyn_buffer-ten longer true xs e = bitonic_sort-sorts xs 10 e
grail_sort_dyn_buffer-ten longer false xs e = bitonic_sort-sorts xs 10 e
