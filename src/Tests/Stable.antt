-- ===== src/Tests/Stable.antt =====
-- Tests and examples for the stable sort of `Template`, and for `Template.Short`.
use ksort.Base.{true, false, ◌≡◌, refl, [], ◌∷◌, arith}
use ksort.Run.{ok, fault, Returns}
use ksort.Array.{IsSortedRange}
use ksort.Template.Bitonic.{value}
use ksort.Template.Stable.{rotate, search_left, search_right, merge_without_buffer}
use ksort.Template.Stable.{rec_merge, rec_stable_sort}
use ksort.Template.Stable.Sorts.{rec_stable_sort-sorts}
use ksort.Template.Short.{sort_ins, sqrt_sort}
use ksort.Template.Short.Sorts.{sort_ins-sorts}
use ksort.Tests.Samples.{five}

five_rotated : rotate (1 ∷ 2 ∷ 3 ∷ 4 ∷ 5 ∷ []) 0 2 3 ≡ ok (3 ∷ 4 ∷ 5 ∷ 1 ∷ 2 ∷ [])
unfolding rotate
five_rotated = refl

ones_searched :
    (search_left (0 ∷ 1 ∷ 1 ∷ 2 ∷ []) 0 4 1 ≡ ok 1)
    × (search_right (0 ∷ 1 ∷ 1 ∷ 2 ∷ []) 0 4 1 ≡ ok 3)
unfolding search_left search_right
ones_searched = (refl, refl)

runs_merged :
    (merge_without_buffer (2 ∷ 6 ∷ 1 ∷ 4 ∷ 7 ∷ []) 0 2 3 ≡ ok (1 ∷ 2 ∷ 4 ∷ 6 ∷ 7 ∷ []))
    × (merge_without_buffer (2 ∷ 5 ∷ 6 ∷ 1 ∷ 5 ∷ []) 0 3 2 ≡ ok (1 ∷ 2 ∷ 5 ∷ 5 ∷ 6 ∷ []))
unfolding merge_without_buffer
runs_merged = (refl, refl)

rec_merged : rec_merge 8 (2 ∷ 4 ∷ 6 ∷ 1 ∷ 4 ∷ 7 ∷ []) 0 3 3 ≡ ok (1 ∷ 2 ∷ 4 ∷ 4 ∷ 6 ∷ 7 ∷ [])
unfolding rec_merge
rec_merged = refl

five_stable : rec_stable_sort five 5 ≡ ok (1 ∷ 1 ∷ 3 ∷ 4 ∷ 5 ∷ [])
unfolding rec_stable_sort
five_stable = refl

rec_stable_sort-sorts_example : Returns (IsSortedRange value 0 5 five) (rec_stable_sort five 5)
rec_stable_sort-sorts_example = rec_stable_sort-sorts five 5 (omega arith) (omega arith)

sort_ins-sorts_example : Returns (IsSortedRange value 0 5 five) (sort_ins five 5)
sort_ins-sorts_example = sort_ins-sorts five 5 (omega arith) (omega arith)

-- without memory for Tags the array stays as it is
five_untagged : sqrt_sort (λ xs len. fault) true false five 5 ≡ ok five
unfolding sqrt_sort
five_untagged = refl
