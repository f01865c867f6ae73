-- ===== src/Tests/Template.antt =====
-- Tests and examples for `Template`.
use ksort.Base.{ℕ, ◌+◌, ◌*◌, ◌^◌, ◌≤◌, ◌<◌, ◌≡◌, refl, [], ◌∷◌, arith}
use ksort.Run.{ok, Returns}
use ksort.Array.{IsSortedRange}
use ksort.Pdqsort.Insertion.Sorts.{single_sorted}
use ksort.Template.Bitonic.{value}
use ksort.Template.Insertion.{
  binary_insertion_find, binary_insertion_sort, binary_insertion_sort_start,
}
use ksort.Template.Insertion.Sorts.{binary_insertion_sort_start-sorts}
use ksort.Template.Networks.{bitonic_sort_5}
use ksort.Template.Small.{bitonic_sort}
use ksort.Template.Small.Sorts.{bitonic_sort-sorts}
use ksort.Template.Shell.{shell_sort}
use ksort.Template.Shell.Sorts.{shell_sort-sorts}
use ksort.Template.Heapsort.{ksort_heap_sort}
use ksort.Template.Heapsort.Sorts.{ksort_heap_sort-sorts}
use ksort.Template.Simple.{selection_sort, bubble_sort}
use ksort.Template.Simple.Selection.{selection_sort-sorts}
use ksort.Template.Simple.Bubble.{bubble_sort-sorts}
use ksort.Template.Minrun.{compute_minrun}
use ksort.Template.Minrun.Bounds.{compute_minrun-bounds}
use ksort.Words.{log2}
use ksort.Tests.Samples.{five}

five_inserted : binary_insertion_sort five 5 ≡ ok (1 ∷ 1 ∷ 3 ∷ 4 ∷ 5 ∷ [])
unfolding binary_insertion_sort
five_inserted = refl

five_bitonic : bitonic_sort five 5 ≡ ok (1 ∷ 1 ∷ 3 ∷ 4 ∷ 5 ∷ [])
unfolding bitonic_sort bitonic_sort_5
five_bitonic = refl

-- behind equal elements, and not behind the last one
ones_found : binary_insertion_find (1 ∷ 1 ∷ 1 ∷ 2 ∷ []) 1 4 ≡ ok 3
unfolding binary_insertion_find
ones_found = refl

last_found : binary_insertion_find (1 ∷ 2 ∷ []) 5 2 ≡ ok 1
unfolding binary_insertion_find
last_found = refl

binary_insertion_sort_start-sorts_example :
    Returns (IsSortedRange value 0 5 five) (binary_insertion_sort_start five 1 5)
binary_insertion_sort_start-sorts_example =
    binary_insertion_sort_start-sorts five 1 5 (omega arith) (omega arith) (omega arith)
      (single_sorted value 0 five)

bitonic_sort-sorts_example : Returns (IsSortedRange value 0 5 five) (bitonic_sort five 5)
bitonic_sort-sorts_example = bitonic_sort-sorts five 5 refl

five_shell : shell_sort five 5 ≡ ok (1 ∷ 1 ∷ 3 ∷ 4 ∷ 5 ∷ [])
unfolding shell_sort
five_shell = refl

five_heap : ksort_heap_sort five 5 ≡ ok (1 ∷ 1 ∷ 3 ∷ 4 ∷ 5 ∷ [])
unfolding ksort_heap_sort
five_heap = refl

five_selected : selection_sort five 5 ≡ ok (1 ∷ 1 ∷ 3 ∷ 4 ∷ 5 ∷ [])
unfolding selection_sort
five_selected = refl

five_bubble : bubble_sort five 5 ≡ ok (1 ∷ 1 ∷ 3 ∷ 4 ∷ 5 ∷ [])
unfolding bubble_sort
five_bubble = refl

shell_sort-sorts_example : Returns (IsSortedRange value 0 5 five) (shell_sort five 5)
shell_sort-sorts_example = shell_sort-sorts five 5 (omega arith)

ksort_heap_sort-sorts_example : Returns (IsSortedRange value 0 5 five) (ksort_heap_sort five 5)
ksort_heap_sort-sorts_example = ksort_heap_sort-sorts five 5 (omega arith)

selection_sort-sorts_example : Returns (IsSortedRange value 0 5 five) (selection_sort five 5)
selection_sort-sorts_example = selection_sort-sorts five 5 (omega arith)

bubble_sort-sorts_example : Returns (IsSortedRange value 0 5 five) (bubble_sort five 5)
bubble_sort-sorts_example = bubble_sort-sorts five 5 (omega arith)

-- 65 elements in two runs, 1000 in 16
some_runs :
    (compute_minrun 64 ≡ 32)
    × (compute_minrun 65 ≡ 33)
    × (compute_minrun 1000 ≡ 63)
    × (compute_minrun 10 ≡ 10)
unfolding compute_minrun log2
some_runs = (refl, refl, refl, refl)

compute_minrun-bounds_example :
    (32 ≤ compute_minrun 1000)
    × (compute_minrun 1000 ≤ 64)
    × (d : ℕ) × (1000 ≤ compute_minrun 1000 * 2 ^ d)
    × (compute_minrun 1000 * 2 ^ d < 1000 + 2 ^ d)
compute_minrun-bounds_example = compute_minrun-bounds 1000 (omega arith) (omega arith)
