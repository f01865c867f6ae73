-- ===== src/Tests/Buffers.antt =====
-- Tests and examples for the quicksort, the merge sort and the timsort of `Template`.
use ksort.Base.{
  zero, suc, true, false, Option, ◌≤◌, ◌<◌, ℕ, ◌≡◌, refl, List, [], ◌∷◌, ◌++◌, some, none, arith,
}
use ksort.Run.{ok, fault, Returns}
use ksort.Array.{IsSortedRange}
use ksort.Template.Bitonic.{value}
use ksort.Template.Merge.{merge_sort}
use ksort.Template.Merge.Sorts.{merge_sort-sorts}
use ksort.Template.Quick.{median, quick_sort}
use ksort.Template.Quick.Sorts.{quick_sort-sorts}
use ksort.Array.{length}
use ksort.Array.Range.{IsPermutedIn-refl}
use ksort.Pdqsort.Insertion.Sorts.{single_sorted}
use ksort.Template.Tim.{collapse, tim_sort}
use ksort.Template.Tim.Merge.{Store}
use ksort.Template.Tim.Merge.Sorts.{Grants}
use ksort.Template.Tim.Runs.{count_run}
use ksort.Template.Tim.Stack.{RunEntry, check_invariant}
use ksort.Template.Timsort.Invariant.{IsTim}
use ksort.Template.Timsort.Collapse.{IsCollapsed, collapse-IsCollapsed}
use ksort.Template.Timsort.Sorts.{tim_sort-sorts}
use ksort.Tests.Samples.{five}

-- 20 elements
abbrev twenty : List ℕ
twenty = five ++ (five ++ (five ++ five))

-- the index of the largest of 2, 1, 3, not of the median
median_wrong : median (2 ∷ 1 ∷ 3 ∷ []) 0 1 2 ≡ ok 2
unfolding median
median_wrong = refl

merge_sort-null : merge_sort none twenty 20 ≡ fault
unfolding merge_sort
merge_sort-null = refl

merge_sort-sorts_example :
    Returns (IsSortedRange value 0 20 twenty) (merge_sort (some twenty) twenty 20)
merge_sort-sorts_example =
    merge_sort-sorts (some twenty) twenty 20 (omega arith) λ h. (twenty, refl, omega arith)

quick_sort-sorts_example : Returns (IsSortedRange value 0 20 twenty) (quick_sort twenty 20)
quick_sort-sorts_example = quick_sort-sorts twenty 20 (omega arith) (omega arith)

-- 70 elements, as runs that go down, and memory that is always there
abbrev seventy : List ℕ
seventy = twenty ++ (twenty ++ (twenty ++ (five ++ five)))

abbrev zeros : ℕ → List ℕ
zeros zero = []
zeros (suc n) = 0 ∷ zeros n

abbrev krealloc : Option (List ℕ) → ℕ → Option (List ℕ)
krealloc old n = some (zeros n)

length-zeros : (n : ℕ) → n ≤ length (zeros n)
length-zeros zero = omega arith
length-zeros (suc n) = omega (arith, length-zeros n)

krealloc-Grants : Grants krealloc
krealloc-Grants old n = (zeros n, refl, length-zeros n)

tim_sort-sorts_example :
    Returns (IsSortedRange value 0 70 seventy) (tim_sort krealloc true seventy 70)
tim_sort-sorts_example =
    tim_sort-sorts krealloc krealloc-Grants seventy 70 (omega arith) (omega arith)
      λ h. absurd (omega arith)

-- a run that goes up, one that goes down and the last two elements
some_runs :
    (count_run (1 ∷ 2 ∷ 2 ∷ 1 ∷ 5 ∷ []) 0 5 ≡ ok (1 ∷ 2 ∷ 2 ∷ 1 ∷ 5 ∷ [], 3))
    × (count_run (4 ∷ 3 ∷ 2 ∷ 7 ∷ 5 ∷ []) 0 5 ≡ ok (2 ∷ 3 ∷ 4 ∷ 7 ∷ 5 ∷ [], 3))
    × (count_run (4 ∷ 3 ∷ 2 ∷ 7 ∷ 5 ∷ []) 3 5 ≡ ok (4 ∷ 3 ∷ 2 ∷ 5 ∷ 7 ∷ [], 2))
unfolding count_run
some_runs = (refl, refl, refl)

-- two runs of one element
abbrev two_runs : List RunEntry
two_runs = record { start = 1; length = 1 } ∷ record { start = 0; length = 1 } ∷ []

abbrev no_store : Store
no_store = record { alloc = 0; storage = none }

two_runs-IsTim : IsTim (3 ∷ 1 ∷ []) 2 2 no_store (3 ∷ 1 ∷ []) two_runs
two_runs-IsTim = record {
  room = λ words e. omega arith;
  permuted = IsPermutedIn-refl 0 2 (3 ∷ 1 ∷ []);
  runs = (
    refl,
    omega arith,
    single_sorted value 1 (3 ∷ 1 ∷ []),
    (refl, omega arith, single_sorted value 0 (3 ∷ 1 ∷ []), refl),
  );
}

collapse-IsCollapsed_example :
    Returns
      (λ (r : Store × List ℕ × List RunEntry).
        IsCollapsed krealloc krealloc-Grants (3 ∷ 1 ∷ []) 2 2 (omega arith) (omega arith) 2 r
        × (check_invariant two_runs ≡ false → length r.2 < 2))
      (collapse krealloc 2 no_store (3 ∷ 1 ∷ []) two_runs 2)
collapse-IsCollapsed_example =
    collapse-IsCollapsed krealloc krealloc-Grants (3 ∷ 1 ∷ []) 2 2 (omega arith) (omega arith) 2
      no_store (3 ∷ 1 ∷ []) two_runs (omega arith) (omega arith) two_runs-IsTim tt
