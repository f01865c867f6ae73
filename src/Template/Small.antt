-- ===== src/Template/Small.antt =====
-- sort.h: BITONIC_SORT, the sort of up to `SMALL_SORT_BND` elements that the larger sorts call.
pub mod Sorts
use ksort.Base.{ℕ, List, [], ◌∷◌, leb, ◌==◌, if◌then◌else◌}
use ksort.Run.{Run, ok}
use ksort.Template.{run_network}
use ksort.Template.Networks.{
  bitonic_sort_2, bitonic_sort_3, bitonic_sort_4, bitonic_sort_5, bitonic_sort_6, bitonic_sort_7,
  bitonic_sort_8, bitonic_sort_9, bitonic_sort_10, bitonic_sort_11, bitonic_sort_12,
  bitonic_sort_13, bitonic_sort_14, bitonic_sort_15, bitonic_sort_16,
}
use ksort.Template.Insertion.{binary_insertion_sort}

-- the cases of the `switch`, and their networks
unfoldable pub small_networks : List (ℕ × List (ℕ × ℕ))
small_networks =
    (2, bitonic_sort_2)
    ∷ (3, bitonic_sort_3)
    ∷ (4, bitonic_sort_4)
    ∷ (5, bitonic_sort_5)
    ∷ (6, bitonic_sort_6)
    ∷ (7, bitonic_sort_7)
    ∷ (8, bitonic_sort_8)
    ∷ (9, bitonic_sort_9)
    ∷ (10, bitonic_sort_10)
    ∷ (11, bitonic_sort_11)
    ∷ (12, bitonic_sort_12)
    ∷ (13, bitonic_sort_13)
    ∷ (14, bitonic_sort_14)
    ∷ (15, bitonic_sort_15)
    ∷ (16, bitonic_sort_16)
    ∷ []

-- the `switch` behind its first two cases
unfoldable pub switch : List (ℕ × List (ℕ × ℕ)) → List ℕ → ℕ → Run (List ℕ)
unfolding run_network binary_insertion_sort
switch [] xs size = binary_insertion_sort xs size
switch ((n, net) ∷ cases) xs size = if size == n then run_network net xs else switch cases xs size

unfoldable pub bitonic_sort : List ℕ → ℕ → Run (List ℕ)
unfolding switch small_networks
bitonic_sort xs size = if leb size 1 then ok xs else switch small_networks xs size
