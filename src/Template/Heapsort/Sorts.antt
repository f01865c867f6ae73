-- ===== src/Template/Heapsort/Sorts.antt =====
-- HEAP_SORT sorts.
use ksort.Base.{ℕ, zero, suc, ◌+◌, ◌-◌, ◌/◌, ◌≤◌, ◌<◌, ◌≡◌, List, leb, arith}
use ksort.Run.{Returns, returns, Returns-bind, Returns-map, Returns-if}
use ksort.Array.{length, key_at, IsPermutedIn, IsSwapped, IsSortedRange}
use ksort.Array.Access.{swap_at-IsSwapped}
use ksort.Array.Range.{
  IsPermutedIn-refl, IsPermutedIn-trans, IsPermutedIn-widen, IsSwapped-IsPermutedIn,
}
use ksort.Pdqsort.Insertion.Sorts.{single_sorted}
use ksort.Template.Bitonic.{value}
use ksort.Template.Insertion.Sorts.{narrow}
use ksort.Template.Heapsort.{heapify_from, extract_from, ksort_heap_sort}
use ksort.Template.Heapsort.Sift.{IsHeap, heap_sift_down-IsHeap}
use ksort.Template.Simple.Bubble.{IsSettled, IsSettled-kept}

heapify_from-IsHeap :
    (start : ℕ) (xs : List ℕ) (end : ℕ)
    → end < length xs
    → start ≤ end
    → IsHeap xs (start + 1) end
    → Returns
        (λ ys. IsPermutedIn value 0 (end + 1) xs ys × IsHeap ys 0 end)
        (heapify_from start xs end)
unfolding heapify_from
heapify_from-IsHeap zero xs end f h v =
    heap_sift_down-IsHeap (end + 2) xs 0 0 end f (omega arith) (omega arith) (omega arith) (record {
      others = λ k p q from n. v k p q (omega arith);
      bridge = λ k p. absurd (omega arith);
    })
heapify_from-IsHeap (suc start) xs end f h v =
    Returns-bind
      (heap_sift_down-IsHeap (end + 2) xs (suc start) (suc start) end f (omega arith) (omega arith)
        (omega arith)
        (record {
          others = λ k p q from n. v k p q (omega arith);
          bridge = λ k p q e from. absurd (omega arith);
        }))
      λ ys p.
        Returns-map
          (heapify_from-IsHeap start ys end (omega (arith, p.0.size)) (omega arith)
            λ k a b c. p.1 k a b (omega arith))
          λ zs q. (IsPermutedIn-trans p.0 q.0, q.1)

-- the first element of a heap is its largest
heap_largest :
    (xs : List ℕ) (end bound k : ℕ)
    → IsHeap xs 0 end
    → k ≤ bound
    → k ≤ end
    → key_at value xs k ≤ key_at value xs 0
heap_largest xs end zero k v h l = let e : k ≡ 0 = omega arith in rw e (omega arith)
heap_largest xs end (suc bound) zero v h l = omega arith
heap_largest xs end (suc bound) (suc k) v h l =
    let up = heap_largest xs end bound (suc k / 2) v (omega arith) (omega arith) in
    omega (arith, v (suc k) (omega arith) l (omega arith))

-- the largest element goes behind the heap
IsSettled-next :
    (xs ys : List ℕ) (size end : ℕ)
    → suc end < size
    → IsHeap xs 0 (suc end)
    → IsSettled xs (suc end + 1) size
    → IsSwapped value xs (suc end) 0 ys
    → IsSettled ys (end + 1) size
IsSettled-next xs ys size end h v t s a b le from lt =
    let top : (k : ℕ) → k ≤ suc end → key_at value xs k ≤ key_at value xs 0 =
      λ k p. heap_largest xs (suc end) k k v (omega arith) p in
    ground (arith, s.at a, s.at b, top a, top (suc end), t a b, t 0 b, t (suc end) b)

extract_from-sorts :
    (size end : ℕ) (xs : List ℕ)
    → size ≤ length xs
    → end < size
    → IsHeap xs 0 end
    → IsSettled xs (end + 1) size
    → Returns (IsSortedRange value 0 size xs) (extract_from end xs)
unfolding extract_from
extract_from-sorts size zero xs f h v t =
    returns (IsPermutedIn-refl 0 size xs, λ i j p q r. ground (arith, t i j))
extract_from-sorts size (suc end) xs f h v t =
    Returns-bind (swap_at-IsSwapped value xs (suc end) 0 (omega arith) (omega arith)) λ ys s.
      Returns-bind
        (heap_sift_down-IsHeap (end + 2) ys 0 0 end (omega (arith, s.size)) (omega arith)
          (omega arith) (omega arith)
          (record {
            others = λ k p q from n. ground (arith, s.at k, s.at (k / 2), v k);
            bridge = λ k p. absurd (omega arith);
          }))
        λ zs p.
          Returns-map
            (extract_from-sorts size end zs (omega (arith, s.size, p.0.size)) (omega arith) p.1
              (IsSettled-kept size (end + 1) ys zs (IsSettled-next xs ys size end h v t s) p.0))
            λ ws q. (
              IsPermutedIn-trans
                  (IsPermutedIn-trans
                    (IsSwapped-IsPermutedIn (omega arith) h (omega arith) (omega arith) s)
                    (IsPermutedIn-widen (omega arith) (omega arith) p.0))
                  q.0,
              q.1,
            )

-- For an array with that many elements, HEAP_SORT returns with the first `size` elements in ascending
-- order, rearranged among themselves, and touches no other element.
pub ksort_heap_sort-sorts :
    (xs : List ℕ) (size : ℕ)
    → size ≤ length xs
    → Returns (IsSortedRange value 0 size xs) (ksort_heap_sort xs size)
unfolding ksort_heap_sort
ksort_heap_sort-sorts xs size f =
    Returns-if (leb size 1)
      (λ b.
        returns (IsPermutedIn-refl 0 size xs, narrow _ (ground arith) (single_sorted value 0 xs)))
      λ b.
        let many : 1 < size = ground arith in
        Returns-bind
          (heapify_from-IsHeap (size / 2) xs (size - 1) (omega arith) (omega arith)
            λ k p q from. absurd (omega arith))
          λ ys p.
            Returns-map
              (extract_from-sorts size (size - 1) ys (omega (arith, p.0.size)) (omega arith) p.1
                λ a b le from lt. absurd (omega arith))
              λ zs q.
                (IsPermutedIn-trans (IsPermutedIn-widen (omega arith) (omega arith) p.0) q.0, q.1)
