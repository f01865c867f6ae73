-- ===== src/Tests/Heap.antt =====
-- Tests and examples for `Heap`.
use ksort.Base.{◌≡◌, refl, [], ◌∷◌, none, arith}
use ksort.Run.{ok, Returns}
use ksort.Array.{swap_at, compare_at}
use ksort.Array.Access.{swap_at-IsSwapped}
use ksort.Compare.{cmpint64, comparators_order}
use ksort.Heap.{sort_heap, sort_r, do_swap}
use ksort.Heap.Correct.{sort_heap-sorts}
use ksort.Heap.Index
use ksort.Heap.Offsets.Sort.{sort_r-index}
use ksort.Heap.Index.Sort.{IsSortedFront}
use ksort.Tests.Samples.{five, id_key}

five_sorted : sort_heap five 5 8 cmpint64 none ≡ ok (1 ∷ 1 ∷ 3 ∷ 4 ∷ 5 ∷ [])
unfolding sort_heap cmpint64 compare_at swap_at
five_sorted = refl

sort_heap-sorts_example : Returns (IsSortedFront id_key 5 five) (sort_heap five 5 8 cmpint64 none)
unfolding do_swap
sort_heap-sorts_example =
    sort_heap-sorts id_key cmpint64 none 8 5 five comparators_order.0
      (λ xs i j hi hj. swap_at-IsSwapped id_key xs i j hi hj) (omega arith) (omega arith)
      (omega arith) (omega arith) (omega arith)

sort_r-index_example :
    sort_r five 5 8 cmpint64 none ≡ Index.sort_loop cmpint64 (do_swap none) 11 five 5 2
sort_r-index_example =
    sort_r-index cmpint64 none 8 (omega arith) (omega arith) five 5 (omega arith) (omega arith)
