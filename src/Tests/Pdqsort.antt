-- ===== src/Tests/Pdqsort.antt =====
-- Tests and examples for `Pdqsort`.
use ksort.Base.{false, true, Bool, ◌+◌, ◌++◌, ℕ, ◌-◌, ◌≤◌, ◌<◌, ◌≡◌, refl, List, [], ◌∷◌, arith}
use mathlib.Core.Bool.{true≢false}
use ksort.Run.{fault, ok, Returns}
use ksort.Array.{IsPermutedIn, IsSortedRange, key_at}
use ksort.Compare.{cmpint64, cmpuint64, comparators_order}
use ksort.Pdqsort.{insertion_sort, unguarded_insertion_sort, partial_insertion_sort}
use ksort.Pdqsort.Insertion.Sorts.{insertion_sort-sorts, unguarded_insertion_sort-sorts}
use ksort.Pdqsort.Insertion.Partial.{partial_insertion_sort-IsTried, IsTried}
use ksort.Pdqsort.Partition.{partition_left}
use ksort.Pdqsort.Partition.Left.{partition_left-IsPartition, IsPartition}
use ksort.Pdqsort.Partition.{partition_right}
use ksort.Pdqsort.Partition.Right.{partition_right-IsPivoted, IsPivoted}
use ksort.Pdqsort.Loop.{pdqsort_loop, sort_pdqsort}
use ksort.Pdqsort.Loop.Sorts.{pdqsort_loop-sorts, sort_pdqsort-sorts}
use ksort.Pdqsort.Loop.Safe.{sort_pdqsort-safe}
use ksort.Fallback.Safe.{heap_fallback-IsPermutedIn}
use ksort.Fallback.{heap_fallback}
use ksort.Tests.Samples.{five, id_key}

five_inserted : insertion_sort cmpuint64 five 0 5 ≡ ok (1 ∷ 1 ∷ 3 ∷ 4 ∷ 5 ∷ [])
unfolding insertion_sort cmpuint64
five_inserted = refl

insertion_sort-sorts_example :
    Returns (IsSortedRange id_key 1 4 five) (insertion_sort cmpuint64 five 1 4)
insertion_sort-sorts_example =
    insertion_sort-sorts id_key cmpuint64 comparators_order.1 five 1 4 (omega arith) (omega arith)

abbrev fronted : List ℕ
fronted = 0 ∷ 3 ∷ 2 ∷ 1 ∷ []

fronted_front : (k : ℕ) → 1 ≤ k → k < 4 → key_at id_key fronted (1 - 1) ≤ key_at id_key fronted k
unfolding key_at
fronted_front k p q = omega arith

unguarded_insertion_sort-sorts_example :
    Returns (IsSortedRange id_key 1 4 fronted) (unguarded_insertion_sort cmpuint64 fronted 1 4)
unguarded_insertion_sort-sorts_example =
    unguarded_insertion_sort-sorts id_key cmpuint64 comparators_order.1 fronted 1 4 (omega arith)
      (omega arith) (omega arith) fronted_front

partial_insertion_sort-IsTried_example :
    Returns (IsTried id_key 0 5 five) (partial_insertion_sort cmpuint64 five 0 5)
partial_insertion_sort-IsTried_example =
    partial_insertion_sort-IsTried id_key cmpuint64 comparators_order.1 five 0 5 (omega arith)
      (omega arith)

five_partitioned : partition_left cmpuint64 five 0 5 ≡ ok (1 ∷ 1 ∷ 3 ∷ 4 ∷ 5 ∷ [], 2)
unfolding partition_left cmpuint64
five_partitioned = refl

partition_left-IsPartition_example :
    Returns
      (λ (r : List ℕ × ℕ). IsPartition id_key 0 5 five r.0 r.1)
      (partition_left cmpuint64 five 0 5)
partition_left-IsPartition_example =
    partition_left-IsPartition id_key cmpuint64 comparators_order.1 five 0 5 (omega arith)
      (omega arith)

partition_right-IsPivoted_example :
    Returns
      (λ (r : List ℕ × ℕ × Bool). IsPivoted id_key 0 5 five r.0 r.1)
      (partition_right cmpuint64 five 0 5)
unfolding key_at
partition_right-IsPivoted_example =
    partition_right-IsPivoted id_key cmpuint64 comparators_order.1 five 0 5 4 (omega arith)
      (omega arith) (omega arith) (omega arith)

abbrev mixed : List ℕ
mixed =
    3 ∷ 10 ∷ 13 ∷ 23 ∷ 6 ∷ 27 ∷ 25 ∷ 19 ∷ 2 ∷ 9 ∷ 4 ∷ 8 ∷ 15 ∷ 22 ∷ 0 ∷ 21 ∷ 18 ∷ 5 ∷ 12 ∷ 16 ∷ 26
    ∷ 11 ∷ 14 ∷ 24 ∷ 7 ∷ 17 ∷ 20 ∷ 1 ∷ []

-- the depth of log2 28 is used up, and the heap sort reads the element behind the array
mixed_faults : sort_pdqsort cmpuint64 true id_key mixed 28 ≡ fault
unfolding sort_pdqsort cmpuint64
mixed_faults = refl

-- with enough depth the array is sorted
-- without memory for the fallback
mixed_unallocated : sort_pdqsort cmpuint64 false id_key (mixed ++ (99 ∷ [])) 28 ≡ fault
unfolding sort_pdqsort cmpuint64
mixed_unallocated = refl

pdqsort_loop-sorts_example :
    Returns
      (IsSortedRange id_key 0 28 mixed)
      (pdqsort_loop cmpuint64 true id_key 29 mixed 0 28 29 true)
pdqsort_loop-sorts_example =
    pdqsort_loop-sorts id_key cmpuint64 comparators_order.1 true id_key 29 mixed 0 28 29 true
      (omega arith) (omega arith) (omega arith) (omega arith) (omega arith)
      λ e. absurd (true≢false e)

-- the heap sort leaves its first two elements in the wrong order
fallback_unsorted : heap_fallback cmpint64 0 (3 ∷ 2 ∷ 1 ∷ []) 2 ≡ ok (2 ∷ 1 ∷ 3 ∷ [])
unfolding heap_fallback cmpint64
fallback_unsorted = refl

sort_pdqsort-sorts_example :
    Returns (IsSortedRange id_key 0 5 five) (sort_pdqsort cmpuint64 true id_key five 5)
sort_pdqsort-sorts_example =
    sort_pdqsort-sorts id_key cmpuint64 comparators_order.1 true id_key five 5 (omega arith)
      (omega arith)

sort_pdqsort-safe_example :
    Returns
      (IsPermutedIn id_key 0 29 (mixed ++ (99 ∷ [])))
      (sort_pdqsort cmpuint64 true id_key (mixed ++ (99 ∷ [])) 28)
sort_pdqsort-safe_example =
    sort_pdqsort-safe id_key cmpuint64 comparators_order.1 id_key (mixed ++ (99 ∷ [])) 28
      (omega arith)

heap_fallback-IsPermutedIn_example :
    Returns
      (IsPermutedIn id_key 0 (0 + 2 + 1) (3 ∷ 2 ∷ 1 ∷ []))
      (heap_fallback cmpint64 0 (3 ∷ 2 ∷ 1 ∷ []) 2)
heap_fallback-IsPermutedIn_example =
    heap_fallback-IsPermutedIn id_key cmpint64 0 (3 ∷ 2 ∷ 1 ∷ []) 2 (omega arith)
