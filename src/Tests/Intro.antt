-- ===== src/Tests/Intro.antt =====
-- Tests and examples for `Intro`.
use ksort.Base.{true, false, ℕ, List, ◌++◌, ◌≡◌, refl, [], ◌∷◌, arith}
use ksort.Run.{ok, Returns}
use ksort.Array.{IsSortedRange}
use ksort.Compare.{cmpint64, comparators_order}
use ksort.Intro.{sort_leftovers}
use ksort.Intro.Leftovers.{sort_leftovers-sorts}
use ksort.Intro.Quick.{sort_intro, split}
use ksort.Intro.Quick.Sorts.{sort_intro-sorts}
use ksort.Intro.Quick.Split.{split-IsSplit, IsSplit}
use ksort.Tests.Samples.{five, id_key}

five_leftovers : sort_leftovers cmpint64 five 5 ≡ ok (1 ∷ 1 ∷ 3 ∷ 4 ∷ 5 ∷ [])
unfolding sort_leftovers cmpint64
five_leftovers = refl

-- with three elements nothing is sorted
three_leftovers : sort_leftovers cmpint64 (3 ∷ 1 ∷ 2 ∷ []) 3 ≡ ok (3 ∷ 1 ∷ 2 ∷ [])
unfolding sort_leftovers cmpint64
three_leftovers = refl

sort_leftovers-sorts_example :
    Returns (IsSortedRange id_key 0 5 five) (sort_leftovers cmpint64 five 5)
sort_leftovers-sorts_example =
    sort_leftovers-sorts id_key cmpint64 comparators_order.0 five 5 (omega arith) (omega arith)

abbrev twenty : List ℕ
twenty = five ++ (9 ∷ 2 ∷ 6 ∷ 5 ∷ 3 ∷ []) ++ five ++ (8 ∷ 9 ∷ 7 ∷ 9 ∷ 3 ∷ [])

twenty_sorted :
    sort_intro cmpint64 false true twenty 20
    ≡ ok (1 ∷ 1 ∷ 1 ∷ 1 ∷ 2 ∷ 3 ∷ 3 ∷ 3 ∷ 3 ∷ 4 ∷ 4 ∷ 5 ∷ 5 ∷ 5 ∷ 6 ∷ 7 ∷ 8 ∷ 9 ∷ 9 ∷ 9 ∷ [])
unfolding sort_intro cmpint64
twenty_sorted = refl

sort_intro-sorts_example :
    Returns (IsSortedRange id_key 0 20 twenty) (sort_intro cmpint64 false true twenty 20)
sort_intro-sorts_example =
    sort_intro-sorts id_key cmpint64 comparators_order.0 false true twenty 20 (λ g. refl)
      (omega arith) (omega arith) (omega arith)

split-IsSplit_example :
    Returns
      (λ (r : List ℕ × ℕ × ℕ). IsSplit id_key 0 19 twenty r.0 r.1 r.2)
      (split cmpint64 twenty 0 19)
split-IsSplit_example =
    split-IsSplit id_key cmpint64 comparators_order.0 twenty 0 19 (omega arith) (omega arith)
