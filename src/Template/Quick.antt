-- ===== src/Template/Quick.antt =====
-- sort.h: the quicksort. Positions are words: `right` wraps around to 2^64 - 1 in front of index 0.
pub mod Partition
pub mod Pivot
pub mod Sorts
use ksort.Base.{
  ℕ, zero, suc, ◌+◌, ◌-◌, ◌/◌, ◌%◌, List, Bool, true, false, ◌||◌, leb, ltb, ◌==◌, if◌then◌else◌,
  is_negative, is_nonzero,
}
use ksort.Words.{word, sub64, log2}
use ksort.Run.{Run, ok, out_of_fuel, ◌>>=◌}
use ksort.Array.{load, compare_at, swap_at}
use ksort.Array.Slice.{on_slice}
use ksort.Template.{sort_cmp}
use ksort.Template.Small.{bitonic_sort}
use ksort.Template.Heapsort.{ksort_heap_sort}

-- a test of `SORT_CMP(dst[i], dst[j]) < 0`
unfoldable pub is_below : List ℕ → ℕ → ℕ → Run Bool
unfolding compare_at sort_cmp
is_below xs i j = do z ← compare_at sort_cmp xs i j; ok (is_negative z)

-- MEDIAN
unfoldable pub median : List ℕ → ℕ → ℕ → ℕ → Run ℕ
unfolding is_below
median xs a b c = do
  ab ← is_below xs a b
  if ab
      then (do
        bc ← is_below xs b c
        if bc then ok b else (do ac ← is_below xs a c; if ac then ok c else ok a))
      else (do
        ac ← is_below xs a b
        if ac then ok a else (do bc ← is_below xs b c; if bc then ok c else ok b))

-- the loop of QUICK_SORT_PARTITION, from `i` on; `seen` is whether `not_all_same` is not 0
unfoldable pub partition_loop : ℕ → List ℕ → ℕ → ℕ → ℕ → Bool → Run (List ℕ × ℕ × Bool)
unfolding sort_cmp load swap_at
partition_loop zero xs value i index seen = ok (xs, index, seen)
partition_loop (suc rest) xs value i index seen = do
  x ← load xs i
  let cmp = sort_cmp x value
  let seen' = seen || is_nonzero cmp
  if is_negative cmp
      then (do ys ← swap_at xs i index; partition_loop rest ys value (i + 1) (index + 1) seen')
      else partition_loop rest xs value (i + 1) index seen'

-- `SIZE_MAX`
abbrev pub size_max : ℕ
size_max = word - 1

-- QUICK_SORT_PARTITION
unfoldable pub quick_partition : List ℕ → ℕ → ℕ → ℕ → Run (List ℕ × ℕ)
unfolding load swap_at partition_loop
quick_partition xs left right pivot = do
  value ← load xs pivot
  ys ← swap_at xs pivot right
  r ← partition_loop (right - left) ys value left left false
  zs ← swap_at r.0 right r.1
  if r.2 then ok (zs, r.1) else ok (zs, size_max)

-- `max_loops`; for equal ends CLZ is undefined, and the value is not used
unfoldable pub max_loops : ℕ → ℕ → ℕ
max_loops left right = log2 64 (sub64 right left) + 1

-- the two medians that choose the pivot
unfoldable pub quick_pivot : List ℕ → ℕ → ℕ → Run ℕ
unfolding median
quick_pivot xs left right =
    let middle = left + (right - left) / 2 in
    do
      pivot ← median xs left middle right
      median xs (left + (middle - left) / 2) pivot (middle + (right - middle) / 2)

-- the loop of QUICK_SORT_RECURSIVE; a call of it starts with `loop_count` 0
unfoldable pub quick_recursive : ℕ → List ℕ → ℕ → ℕ → ℕ → ℕ → Run (List ℕ)
unfolding on_slice bitonic_sort ksort_heap_sort quick_pivot quick_partition max_loops sub64
quick_recursive zero xs left right loop_count loops = out_of_fuel
quick_recursive (suc fuel) xs left right loop_count loops =
    if leb right left
    then ok xs
    else if leb ((sub64 right left + 1) % word) 16
    then on_slice bitonic_sort xs left ((sub64 right left + 1) % word)
    else if leb loops (loop_count + 1)
    then on_slice ksort_heap_sort xs left ((sub64 right left + 1) % word)
    else (do
      pivot ← quick_pivot xs left right
      r ← quick_partition xs left right pivot
      let m = r.1
      if m == size_max
          then ok r.0
          else if ltb (sub64 (sub64 right m) 1) (sub64 (sub64 m 1) left)
          then (do
            ys ← quick_recursive fuel r.0 (m + 1) right 0 (max_loops (m + 1) right)
            quick_recursive fuel ys left (sub64 m 1) (loop_count + 1) loops)
          else (do
            ys ← quick_recursive fuel r.0 left (sub64 m 1) 0 (max_loops left (sub64 m 1))
            quick_recursive fuel ys (m + 1) right (loop_count + 1) loops))

-- QUICK_SORT
unfoldable pub quick_sort : List ℕ → ℕ → Run (List ℕ)
unfolding quick_recursive max_loops
quick_sort xs size =
    if leb size 1
    then ok xs
    else quick_recursive (size + 1) xs 0 (size - 1) 0 (max_loops 0 (size - 1))
