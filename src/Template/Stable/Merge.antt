-- ===== src/Template/Stable/Merge.antt =====
-- The merge without a buffer sorts two neighbouring runs.
use ksort.Base.{ℕ, ◌+◌, ◌≤◌, List, arith, ltb}
use ksort.Run.{Returns, Returns-if}
use ksort.Array.{length, IsSortedIn, IsSortedRange}
use ksort.Template.Bitonic.{value}
use ksort.Template.Stable.{merge_without_buffer}
use ksort.Template.Stable.First.{merge_first-sorts}
use ksort.Template.Stable.Second.{merge_second-sorts}

-- For two ascending runs behind each other inside the array, GRAIL_MERGE_WITHOUT_BUFFER returns with both in one
-- ascending run, rearranged among themselves, and touches no other element.
pub merge_without_buffer-sorts :
    (xs : List ℕ) (p l1 l2 : ℕ)
    → p + l1 + l2 ≤ length xs
    → IsSortedIn value xs p (p + l1)
    → IsSortedIn value xs (p + l1) (p + l1 + l2)
    → Returns (IsSortedRange value p (p + l1 + l2) xs) (merge_without_buffer xs p l1 l2)
unfolding merge_without_buffer
merge_without_buffer-sorts xs p l1 l2 f s t =
    Returns-if (ltb l1 l2) (λ e. merge_first-sorts (l1 + 1) xs p l1 l2 (omega arith) f s t)
      λ e. merge_second-sorts (l2 + 1) xs p l1 l2 (omega arith) f s t
