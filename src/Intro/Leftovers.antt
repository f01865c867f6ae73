-- ===== src/Intro/Leftovers.antt =====
-- The last pass of `sort_intro` sorts whatever the quicksort leaves, from four elements on.
use ksort.Base.{ℕ, zero, suc, ◌+◌, ◌-◌, ◌≤◌, ◌<◌, ◌≡◌, inl, inr, List, arith, ltb, leb, ℤ}
use ksort.Run.{returns, Returns, Returns-bind, Returns-map, Returns-if}
use ksort.Array.{length, key_at, IsThreeWay, IsSortedIn, IsSortedRange}
use ksort.Array.Access.{compare_at-Compared, swap_at-IsSwapped}
use ksort.Array.Range.{IsPermutedIn-refl, IsPermutedIn-trans}
use ksort.Pdqsort.Insertion.Sift.{SiftInv, SiftEnd, SiftEnd-sorted, swap_SiftInv, swap_kept}
use ksort.Pdqsort.Insertion.Sorts.{start_SiftInv, single_sorted, chain}
use ksort.Intro.{gap_sift, gap_loop, gaps, gap_round, gap_rounds, sort_leftovers}

module _ {A : Type 0} (key : A → ℕ) (cmp_func : A → A → ℤ) (three : IsThreeWay key cmp_func) where
  gap_sift-SiftEnd :
      (fuel : ℕ) (xs : List A) (cur k : ℕ)
      → k < fuel
      → SiftInv key 0 cur k xs
      → Returns (λ ys. (m : ℕ) × SiftEnd key 0 cur xs ys m) (gap_sift cmp_func fuel xs 1 k)
  unfolding gap_sift
  gap_sift-SiftEnd zero xs cur k f v = absurd (omega arith)
  gap_sift-SiftEnd (suc fuel) xs cur k f v =
      let same = IsPermutedIn-refl 0 (cur + 1) xs in
      Returns-if (leb 1 k)
        (λ h.
          let front : 0 < k = ground arith in
          Returns-bind
            (compare_at-Compared key xs (k - 1) k (omega (arith, v.high, v.inside))
              (omega (arith, v.high, v.inside)) cmp_func three)
            λ z c.
              Returns-if _
                (λ g.
                  let lt : key_at key xs k < key_at key xs (k - 1) = ground (arith, c.positive) in
                  Returns-bind
                    (swap_at-IsSwapped key xs k (k - 1) (omega (arith, v.high, v.inside))
                      (omega (arith, v.high, v.inside)))
                    λ ys s.
                      Returns-map
                        (gap_sift-SiftEnd fuel ys cur (k - 1) (omega arith)
                          (swap_SiftInv key v front lt s))
                        λ zs e. (
                          e.0,
                          record {
                            kept = IsPermutedIn-trans (swap_kept key v front s) e.1.kept;
                            inv = e.1.inv;
                            stop = e.1.stop;
                          },
                        ))
                λ g.
                  returns
                    (k, record { kept = same; inv = v; stop = inr (ground (arith, c.positive)) }))
        λ h. returns (k, record { kept = same; inv = v; stop = inl (ground arith) })

  gap_loop-sorts :
      (fuel : ℕ) (xs : List A) (j num : ℕ)
      → num < j + fuel
      → 0 < j
      → j ≤ num
      → num ≤ length xs
      → IsSortedIn key xs 0 j
      → Returns (IsSortedRange key 0 num xs) (gap_loop cmp_func fuel xs 1 j num)
  unfolding gap_loop
  gap_loop-sorts zero xs j num f h g l s = absurd (omega arith)
  gap_loop-sorts (suc fuel) xs j num f h g l s =
      Returns-if (ltb j num)
        (λ e.
          let below : j < num = ground arith in
          Returns-bind
            (Returns-map
              (gap_sift-SiftEnd (j + 1) xs j j (omega arith)
                (start_SiftInv key s (omega arith) (omega arith)))
              λ ys r. SiftEnd-sorted key r.1)
            λ ys w.
              Returns-map
                (gap_loop-sorts fuel ys (j + 1) num (omega arith) (omega arith) (omega arith)
                  (omega (arith, w.0.size)) w.1)
                λ zs q. chain key j (omega arith) w.0 q)
        λ e. let same : j ≡ num = ground arith in returns (IsPermutedIn-refl 0 num xs, rw same at s)

  -- For a three-way comparator by a key and four elements or more, the last pass of sort_intro returns
  -- with the first `num` elements in ascending order, rearranged among themselves, and touches no other
  -- element.
  pub sort_leftovers-sorts :
      (xs : List A) (num : ℕ)
      → 4 ≤ num
      → num ≤ length xs
      → Returns (IsSortedRange key 0 num xs) (sort_leftovers cmp_func xs num)
  unfolding sort_leftovers gap_rounds gap_round gaps
  sort_leftovers-sorts xs num h l =
      Returns-if (ltb num 4) (λ e. absurd (ground arith))
        λ e.
          gap_loop-sorts (num + 1) xs 1 num (omega arith) (omega arith) (omega arith) l
            (single_sorted key 0 xs)
