-- ===== src/Template/Heapsort.antt =====
-- sort.h: the heap sort. Element 0 stands above element 1, and element k above 2 k and 2 k + 1.
pub mod Sift
pub mod Sorts
use ksort.Base.{ℕ, zero, suc, ◌+◌, ◌-◌, ◌*◌, ◌/◌, List, leb, ltb, if◌then◌else◌, is_negative}
use ksort.Run.{Run, ok, out_of_fuel, ◌>>=◌}
use ksort.Array.{compare_at, swap_at}
use ksort.Template.{sort_cmp}

-- the child that HEAP_SIFT_DOWN compares `root` with
unfoldable pub sift_child : List ℕ → ℕ → ℕ → Run ℕ
unfolding sort_cmp compare_at
sift_child xs root end =
    let child = root * 2 in
    if ltb child end
    then (do
      z ← compare_at sort_cmp xs child (child + 1)
      if is_negative z then ok (child + 1) else ok child)
    else ok child

-- the loop of HEAP_SIFT_DOWN
unfoldable pub heap_sift_down : ℕ → List ℕ → ℕ → ℕ → Run (List ℕ)
unfolding sift_child sort_cmp compare_at swap_at
heap_sift_down zero xs root end = out_of_fuel
heap_sift_down (suc fuel) xs root end =
    if leb (root * 2) end
    then (do
      child ← sift_child xs root end
      z ← compare_at sort_cmp xs root child
      if is_negative z
          then (do ys ← swap_at xs root child; heap_sift_down fuel ys child end)
          else ok xs)
    else ok xs

-- the loop of HEAPIFY, from `start` down
unfoldable pub heapify_from : ℕ → List ℕ → ℕ → Run (List ℕ)
unfolding heap_sift_down
heapify_from zero xs end = heap_sift_down (end + 2) xs 0 end
heapify_from (suc start) xs end = do
  ys ← heap_sift_down (end + 2) xs (suc start) end
  heapify_from start ys end

-- the loop of HEAP_SORT
unfoldable pub extract_from : ℕ → List ℕ → Run (List ℕ)
unfolding swap_at heap_sift_down
extract_from zero xs = ok xs
extract_from (suc end) xs = do
  ys ← swap_at xs (suc end) 0
  zs ← heap_sift_down (end + 2) ys 0 end
  extract_from end zs

-- HEAP_SORT
unfoldable pub ksort_heap_sort : List ℕ → ℕ → Run (List ℕ)
unfolding heapify_from extract_from
ksort_heap_sort xs size =
    if leb size 1
    then ok xs
    else (do ys ← heapify_from (size / 2) xs (size - 1); extract_from (size - 1) ys)
