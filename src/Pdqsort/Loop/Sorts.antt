-- ===== src/Pdqsort/Loop/Sorts.antt =====
-- `pdqsort_loop` sorts, as long as the depth lasts.
use ksort.Base.{
  ℕ, zero, suc, ◌+◌, ◌-◌, ◌/◌, ◌≤◌, ◌<◌, ◌≡◌, refl, List, arith, ◌==◌, ltb, ℤ, Bool, false, ◌||◌,
}
use ksort.Run.{Run, Returns, Returns-bind, Returns-map, Returns-if}
use ksort.Words.{word, sub64}
use ksort.Array.{length, IsLess, IsSortedRange}
use ksort.Pdqsort.Insertion.Sorts.{insertion_sort-sorts}
use ksort.Pdqsort.Partition.Left.{partition_left-IsPartition}
use ksort.Pdqsort.Partition.Right.{IsPivoted, partition_right-IsPivoted}
use ksort.Pdqsort.Loop.{pdqsort_round, pdqsort_loop, sort_pdqsort}
use ksort.Pdqsort.Loop.Choose.{
  break_left-IsPermutedIn, break_right-IsPermutedIn, choose_pivot-IsChosen,
}
use ksort.Pdqsort.Loop.Joined.{
  IsFronted, IsFronted-kept, IsFronted-shorter, pivot-IsFronted, pivot-left, pivot-right,
  join_sorted,
}
use ksort.Pdqsort.Loop.Steps.{
  after_permuted, partition-IsPivoted, repeated_sorted, small_sorts, is_repeated-false,
  try_sorted-sorts,
}

module _ {A : Type 0} (key : A → ℕ) (cmp_func : A → A → ℤ) (less : IsLess key cmp_func) where
  pdqsort_round-sorts :
      (memory : Bool) (word_at : A → ℕ) (rest : List A → ℕ → Run (List A)) (xs ys : List A)
      (begin pivot end : ℕ) (already : Bool) (max_depth : ℕ)
      → IsPivoted key begin end xs ys pivot
      → end ≤ length ys
      → 1 < max_depth
      → max_depth < word
      → ((zs : List A) (depth : ℕ)
          → IsPivoted key begin end xs zs pivot
          → max_depth ≤ depth + 1
          → depth < word
          → Returns (IsSortedRange key begin end xs) (rest zs depth))
      → Returns
          (IsSortedRange key begin end xs)
          (pdqsort_round cmp_func memory word_at rest ys begin pivot end already max_depth)
  unfolding pdqsort_round sub64
  pdqsort_round-sorts memory word_at rest xs ys begin pivot end already max_depth v l h w go =
      Returns-if
        (ltb (pivot - begin) ((end - begin) / 8) || ltb (end - (pivot + 1)) ((end - begin) / 8))
        (λ _.
          Returns-if (sub64 max_depth 1 == 0) (λ e. absurd (ground arith))
            λ e.
              Returns-bind
                (break_left-IsPermutedIn key ys begin pivot v.low (omega (arith, v.high)))
                λ zs p.
                  let left = pivot-left key v p in
                  Returns-bind
                    (break_right-IsPermutedIn key zs pivot end v.high (omega (arith, p.size)))
                    λ us q.
                      go us (sub64 max_depth 1) (pivot-right key left q) (omega arith)
                        (omega arith))
        λ _.
          try_sorted-sorts key cmp_func less (λ zs. rest zs max_depth) xs ys begin pivot end already
            v l λ zs u. go zs max_depth u (omega arith) w

  -- For a strict order test, pdqsort_loop on a depth above the range's length and below 2 ^ 64 returns with the range in
  -- ascending order, rearranged among itself, and touches no other element; where the range is not the
  -- leftmost, the element in front of it must be above none of its elements.
  pub pdqsort_loop-sorts :
      (memory : Bool) (word_at : A → ℕ) (fuel : ℕ) (xs : List A) (begin end max_depth : ℕ)
      (leftmost : Bool)
      → end - begin < fuel
      → begin ≤ end
      → end ≤ length xs
      → end - begin < max_depth
      → max_depth < word
      → IsFronted key xs begin end leftmost
      → Returns
          (IsSortedRange key begin end xs)
          (pdqsort_loop cmp_func memory word_at fuel xs begin end max_depth leftmost)
  unfolding pdqsort_loop
  pdqsort_loop-sorts memory word_at zero xs begin end max_depth leftmost f h l d w front =
      absurd (omega arith)
  pdqsort_loop-sorts memory word_at (suc fuel) xs begin end max_depth leftmost f h l d w front =
      Returns-if (ltb (end - begin) 24)
        (λ _. small_sorts key cmp_func less xs begin end leftmost h l front)
        λ e.
          let big : begin + 24 ≤ end = ground arith in
          Returns-bind (choose_pivot-IsChosen key cmp_func less xs begin end big l) λ ys c.
            let size : end ≤ length ys = omega (arith, c.0.size) in
            let front' = IsFronted-kept key c.0 front in
            Returns-bind
              (is_repeated-false key cmp_func less ys begin end leftmost (omega arith) size front')
              λ b r.
                Returns-if b
                  (λ g.
                    let (not_left, le) = r g in
                    let front'' : IsFronted key ys begin end false = rw not_left at front' in
                    Returns-bind
                      (partition_left-IsPartition key cmp_func less ys begin end (omega arith) size)
                      λ p v.
                        Returns-map
                          (pdqsort_loop-sorts memory word_at fuel p.0 (p.1 + 1) end max_depth
                            leftmost (omega (arith, v.low, v.high)) (omega (arith, v.high))
                            (omega (arith, v.kept.size)) (omega (arith, v.low)) w
                            (λ _. pivot-IsFronted key (partition-IsPivoted key v) refl))
                          λ zs q. after_permuted key c.0 (repeated_sorted key v front'' le q))
                  λ _.
                    let (t, lt, gt, le) = c.1 in
                    Returns-bind
                      (partition_right-IsPivoted key cmp_func less ys begin end t lt gt size le)
                      λ p v.
                        Returns-map
                          (pdqsort_round-sorts memory word_at _ ys p.0 begin p.1 end p.2 max_depth v
                            (omega (arith, v.kept.size)) (omega arith) w
                            λ zs depth u dh dw.
                              Returns-bind
                                (pdqsort_loop-sorts memory word_at fuel zs begin p.1 depth leftmost
                                  (omega (arith, v.low, v.high)) v.low
                                  (omega (arith, u.kept.size, u.high))
                                  (omega (arith, v.low, v.high)) dw
                                  (IsFronted-shorter key zs (omega (arith, v.high))
                                    (IsFronted-kept key u.kept front')))
                                λ us q.
                                  Returns-map
                                    (pdqsort_loop-sorts memory word_at fuel us (p.1 + 1) end depth
                                      false (omega (arith, v.low, v.high)) (omega (arith, v.high))
                                      (omega (arith, u.kept.size, q.0.size))
                                      (omega (arith, v.low, v.high)) dw
                                      (pivot-IsFronted key (pivot-left key u q.0)))
                                    λ vs q'. join_sorted key u q q')
                          λ zs q. after_permuted key c.0 q

  -- For a strict order test and fewer than 24 elements, sort_pdqsort returns with the first `num` elements
  -- in ascending order, rearranged among themselves, and touches no other element.
  pub sort_pdqsort-sorts :
      (memory : Bool) (word_at : A → ℕ) (xs : List A) (num : ℕ)
      → num < 24
      → num ≤ length xs
      → Returns (IsSortedRange key 0 num xs) (sort_pdqsort cmp_func memory word_at xs num)
  unfolding sort_pdqsort pdqsort_loop
  sort_pdqsort-sorts memory word_at xs num h l =
      let round : num + 1 ≡ suc num = omega arith in
      rw round (
        Returns-if (ltb (num - 0) 24)
          (λ _. insertion_sort-sorts key cmp_func less xs 0 num (omega arith) l)
          λ e. absurd (ground arith))
