-- ===== src/Template/Small/Sorts.antt =====
-- BITONIC_SORT sorts.
use ksort.Base.{ℕ, ◌≡◌, ◌∙◌, List, [], ◌∷◌, arith, leb, ◌==◌}
use ksort.Run.{Returns, returns, Returns-if}
use ksort.Array.{length, IsSortedRange}
use ksort.Template.Bitonic.{value}
use ksort.Template.Bitonic.Checked.{
  IsNetworkOf, bitonic_sort_2-sorts, bitonic_sort_3-sorts, bitonic_sort_4-sorts,
  bitonic_sort_5-sorts, bitonic_sort_6-sorts, bitonic_sort_7-sorts, bitonic_sort_8-sorts,
  bitonic_sort_9-sorts, bitonic_sort_10-sorts, bitonic_sort_11-sorts, bitonic_sort_12-sorts,
  bitonic_sort_13-sorts, bitonic_sort_14-sorts, bitonic_sort_15-sorts, bitonic_sort_16-sorts,
}
use ksort.Template.Insertion.Sorts.{binary_insertion_sort-sorts, narrow}
use ksort.Pdqsort.Insertion.Sorts.{single_sorted}
use ksort.Array.Range.{IsPermutedIn-refl}
use ksort.Template.Small.{bitonic_sort, switch, small_networks}

-- each case of the `switch` sorts an array of its size
infixr 20 ◌▹◌
data AllSort : List (ℕ × List (ℕ × ℕ)) → Type 0 where
  no_more : AllSort []
  ◌▹◌ :
      {n : ℕ} {net : List (ℕ × ℕ)} {cases : List (ℕ × List (ℕ × ℕ))}
      → IsNetworkOf n net
      → AllSort cases
      → AllSort ((n, net) ∷ cases)

switch-sorts :
    (cases : List (ℕ × List (ℕ × ℕ))) (size : ℕ) (xs : List ℕ)
    → AllSort cases
    → length xs ≡ size
    → Returns (IsSortedRange value 0 size xs) (switch cases xs size)
unfolding switch
switch-sorts [] size xs no_more e = binary_insertion_sort-sorts xs size (omega (arith, e))
switch-sorts ((n, net) ∷ cases) size xs (this ▹ rest) e =
    Returns-if (size == n) (λ b. let same : size ≡ n = ground arith in rw same (this xs (e ∙ same)))
      λ b. switch-sorts cases size xs rest e

small_networks-AllSort : AllSort small_networks
unfolding small_networks
small_networks-AllSort =
    bitonic_sort_2-sorts ▹ bitonic_sort_3-sorts ▹ bitonic_sort_4-sorts ▹ bitonic_sort_5-sorts
    ▹ bitonic_sort_6-sorts ▹ bitonic_sort_7-sorts ▹ bitonic_sort_8-sorts ▹ bitonic_sort_9-sorts
    ▹ bitonic_sort_10-sorts ▹ bitonic_sort_11-sorts ▹ bitonic_sort_12-sorts ▹ bitonic_sort_13-sorts
    ▹ bitonic_sort_14-sorts ▹ bitonic_sort_15-sorts ▹ bitonic_sort_16-sorts ▹ no_more

-- For an array of its size, BITONIC_SORT returns with the elements in ascending order.
pub bitonic_sort-sorts :
    (xs : List ℕ) (size : ℕ)
    → length xs ≡ size
    → Returns (IsSortedRange value 0 size xs) (bitonic_sort xs size)
unfolding bitonic_sort
bitonic_sort-sorts xs size e =
    Returns-if (leb size 1)
      (λ b.
        returns (IsPermutedIn-refl 0 size xs, narrow _ (ground arith) (single_sorted value 0 xs)))
      λ b. switch-sorts small_networks size xs small_networks-AllSort e
