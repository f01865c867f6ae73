-- ===== src/Pdqsort/Loop/Safe.antt =====
-- `pdqsort_loop` returns at any depth, with one more element behind the range.
use native.Mathlib.Decide.{dec_lt}
use ksort.Base.{
  ℕ, zero, suc, ◌+◌, ◌-◌, ◌/◌, ◌≤◌, ◌<◌, ◌≡◌, refl, List, arith, ◌==◌, ltb, ℤ, Bool, true, false,
  ◌||◌,
}
use ksort.Run.{Run, Returns, returns, Returns-bind, Returns-map, Returns-if}
use mathlib.Core.Bool.{true≢false}
use ksort.Words.{sub64, log2}
use ksort.Array.{length, key_at, IsLess, IsPermutedIn}
use ksort.Array.Range.{IsPermutedIn-trans, IsPermutedIn-widen}
use ksort.Compare.{cmpint64}
use ksort.Fallback.Safe.{heap_fallback-IsPermutedIn}
use ksort.Pdqsort.Insertion.Partial.{partial_insertion_sort-IsTried}
use ksort.Pdqsort.Partition.Left.{partition_left-IsPartition}
use ksort.Pdqsort.Partition.Right.{IsPivoted, partition_right-IsPivoted}
use ksort.Pdqsort.Loop.{try_sorted, pdqsort_round, pdqsort_loop, sort_pdqsort}
use ksort.Pdqsort.Loop.Choose.{
  break_left-IsPermutedIn, break_right-IsPermutedIn, choose_pivot-IsChosen,
}
use ksort.Pdqsort.Loop.Joined.{
  IsFronted, IsFronted-kept, IsFronted-shorter, pivot-IsFronted, pivot-left, pivot-right,
}
use ksort.Pdqsort.Loop.Steps.{partition-IsPivoted, small_sorts, is_repeated-false}

module _ {A : Type 0} (key : A → ℕ) where
  -- behind the pivot nothing is below what the left side may leave at its place
  pivot_front :
      {begin end m : ℕ} {xs ys zs : List A}
      → IsPivoted key begin end xs ys m
      → IsPermutedIn key begin (m + 1) ys zs
      → IsFronted key zs (m + 1) end false
  pivot_front {begin} {end} {m} {ys = ys} v p e = (
    omega arith,
    λ b h k l g.
        let (n, ln, gn, en) = p.within b (omega (arith, v.low)) (omega arith) in
        let front : key_at key ys n ≤ key_at key ys m = elim (dec_lt n m) [
          | yes lt ↦ v.front n ln lt
          | no ge ↦ let same : n ≡ m = omega arith in rw same (omega arith)
        ] in
        omega (arith, en, front, v.rear k (omega arith) g, p.beyond k l),
  )

  -- a rearrangement of a part of the range and of the element behind it
  widened :
      {begin end lo hi : ℕ} {xs ys zs : List A}
      → IsPermutedIn key begin end xs ys
      → begin ≤ lo
      → hi ≤ end + 1
      → IsPermutedIn key lo hi ys zs
      → IsPermutedIn key begin (end + 1) xs zs
  widened p h g q =
      IsPermutedIn-trans (IsPermutedIn-widen (omega arith) (omega arith) p)
        (IsPermutedIn-widen h g q)

  module _ (cmp_func : A → A → ℤ) (less : IsLess key cmp_func) where
    try_sorted-safe :
        (rest : List A → Run (List A)) (xs ys : List A) (begin pivot end : ℕ) (already : Bool)
        → IsPivoted key begin end xs ys pivot
        → end ≤ length ys
        → ((zs : List A)
            → IsPivoted key begin end xs zs pivot
            → Returns (IsPermutedIn key begin (end + 1) xs) (rest zs))
        → Returns
            (IsPermutedIn key begin (end + 1) xs)
            (try_sorted cmp_func rest ys begin pivot end already)
    unfolding try_sorted
    try_sorted-safe rest xs ys begin pivot end false v l go = go ys v
    try_sorted-safe rest xs ys begin pivot end true v l go =
        Returns-bind
          (partial_insertion_sort-IsTried key cmp_func less ys begin pivot v.low
            (omega (arith, v.high)))
          λ p tried.
            let left = pivot-left key v tried.0 in
            Returns-if p.1
              (λ e.
                Returns-bind
                  (partial_insertion_sort-IsTried key cmp_func less p.0 (pivot + 1) end
                    (omega (arith, v.high)) (omega (arith, tried.0.size)))
                  λ q tried'.
                    let both = pivot-right key left tried'.0 in
                    Returns-if q.1
                      (λ _. returns (IsPermutedIn-widen (omega arith) (omega arith) both.kept))
                      λ _. go q.0 both)
              λ _. go p.0 left

    pdqsort_round-safe :
        (word_at : A → ℕ) (rest : List A → ℕ → Run (List A)) (xs ys : List A) (begin pivot end : ℕ)
        (already : Bool) (max_depth : ℕ)
        → IsPivoted key begin end xs ys pivot
        → end < length ys
        → ((zs : List A) (depth : ℕ)
            → IsPivoted key begin end xs zs pivot
            → Returns (IsPermutedIn key begin (end + 1) xs) (rest zs depth))
        → Returns
            (IsPermutedIn key begin (end + 1) xs)
            (pdqsort_round cmp_func true word_at rest ys begin pivot end already max_depth)
    unfolding pdqsort_round
    pdqsort_round-safe word_at rest xs ys begin pivot end already max_depth v l go =
        Returns-if
          (ltb (pivot - begin) ((end - begin) / 8) || ltb (end - (pivot + 1)) ((end - begin) / 8))
          (λ _.
            Returns-if (sub64 max_depth 1 == 0)
              (λ e.
                let last : begin + (end - begin) ≡ end = omega (arith, v.low, v.high) in
                Returns-map
                  (heap_fallback-IsPermutedIn key (λ x y. cmpint64 (word_at x) (word_at y)) begin ys
                    (end - begin) (omega (arith, last)))
                  λ zs p. widened v.kept (omega arith) (omega (arith, last)) p)
              λ e.
                Returns-bind
                  (break_left-IsPermutedIn key ys begin pivot v.low (omega (arith, v.high)))
                  λ zs p.
                    let left = pivot-left key v p in
                    Returns-bind
                      (break_right-IsPermutedIn key zs pivot end v.high (omega (arith, p.size)))
                      λ us q. go us (sub64 max_depth 1) (pivot-right key left q))
          λ _.
            try_sorted-safe (λ zs. rest zs max_depth) xs ys begin pivot end already v (omega arith)
              λ zs u. go zs max_depth u

    -- For a strict order test, memory for the fallback and one more element behind the range, pdqsort_loop
    -- returns on any depth:
    -- the elements of the range and the one behind it are rearranged among themselves, and no other is
    -- touched; where the range is not the leftmost, the element in front of it must be above none of its
    -- elements.
    pub pdqsort_loop-safe :
        (word_at : A → ℕ) (fuel : ℕ) (xs : List A) (begin end max_depth : ℕ) (leftmost : Bool)
        → end - begin < fuel
        → begin ≤ end
        → end < length xs
        → IsFronted key xs begin end leftmost
        → Returns
            (IsPermutedIn key begin (end + 1) xs)
            (pdqsort_loop cmp_func true word_at fuel xs begin end max_depth leftmost)
    unfolding pdqsort_loop
    pdqsort_loop-safe word_at zero xs begin end max_depth leftmost f h l front =
        absurd (omega arith)
    pdqsort_loop-safe word_at (suc fuel) xs begin end max_depth leftmost f h l front =
        Returns-if (ltb (end - begin) 24)
          (λ _.
            Returns-map (small_sorts key cmp_func less xs begin end leftmost h (omega arith) front)
              λ ys p. IsPermutedIn-widen (omega arith) (omega arith) p.0)
          λ e.
            let big : begin + 24 ≤ end = ground arith in
            Returns-bind (choose_pivot-IsChosen key cmp_func less xs begin end big (omega arith))
              λ ys c.
                let size : end < length ys = omega (arith, c.0.size) in
                let front' = IsFronted-kept key c.0 front in
                Returns-bind
                  (is_repeated-false key cmp_func less ys begin end leftmost (omega arith)
                    (omega arith) front')
                  λ b r.
                    Returns-if b
                      (λ g.
                        Returns-bind
                          (partition_left-IsPartition key cmp_func less ys begin end (omega arith)
                            (omega arith))
                          λ p v.
                            Returns-map
                              (pdqsort_loop-safe word_at fuel p.0 (p.1 + 1) end max_depth leftmost
                                (omega (arith, v.low, v.high)) (omega (arith, v.high))
                                (omega (arith, v.kept.size))
                                (λ _. pivot-IsFronted key (partition-IsPivoted key v) refl))
                              λ zs q.
                                widened (IsPermutedIn-trans c.0 v.kept) (omega (arith, v.low))
                                  (omega arith) q)
                      λ _.
                        let (t, lt, gt, le) = c.1 in
                        Returns-bind
                          (partition_right-IsPivoted key cmp_func less ys begin end t lt gt
                            (omega arith) le)
                          λ p v.
                            Returns-map
                              (pdqsort_round-safe word_at _ ys p.0 begin p.1 end p.2 max_depth v
                                (omega (arith, v.kept.size))
                                λ zs depth u.
                                  Returns-bind
                                    (pdqsort_loop-safe word_at fuel zs begin p.1 depth leftmost
                                      (omega (arith, v.low, v.high)) v.low
                                      (omega (arith, u.kept.size, u.high))
                                      (IsFronted-shorter key zs (omega (arith, v.high))
                                        (IsFronted-kept key u.kept front')))
                                    λ us q.
                                      Returns-map
                                        (pdqsort_loop-safe word_at fuel us (p.1 + 1) end depth false
                                          (omega (arith, v.low, v.high)) (omega (arith, v.high))
                                          (omega (arith, u.kept.size, q.size)) (pivot_front u q))
                                        λ vs q'.
                                          IsPermutedIn-trans
                                            (widened u.kept (omega arith) (omega (arith, v.high)) q)
                                            (IsPermutedIn-widen (omega (arith, v.low)) (omega arith)
                                              q'))
                              λ zs q. widened c.0 (omega arith) (omega arith) q

    -- For a strict order test, a kmalloc that finds memory for the fallback, and one readable element behind
    -- the first `num`, sort_pdqsort returns,
    -- whatever the order of the elements: these num + 1 elements are rearranged among themselves, and no
    -- other is touched.
    pub sort_pdqsort-safe :
        (word_at : A → ℕ) (xs : List A) (num : ℕ)
        → num < length xs
        → Returns (IsPermutedIn key 0 (num + 1) xs) (sort_pdqsort cmp_func true word_at xs num)
    unfolding sort_pdqsort
    sort_pdqsort-safe word_at xs num l =
        pdqsort_loop-safe word_at (num + 1) xs 0 num (log2 64 num) true (omega arith) (omega arith)
          l λ e. absurd (true≢false e)
