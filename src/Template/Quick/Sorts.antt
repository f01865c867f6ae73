-- ===== src/Template/Quick/Sorts.antt =====
-- QUICK_SORT sorts.
use ksort.Base.{
  ℕ, zero, suc, ◌+◌, ◌-◌, ◌%◌, ◌≤◌, ◌<◌, ◌≡◌, ◌≢◌, inl, inr, List, Bool, true, ◌==◌, ltb, leb,
  if◌then◌else◌, arith,
}
use ksort.Words.{word, sub64}
use ksort.Run.{Run, ok, ◌>>=◌, Returns, returns, Returns-bind, Returns-map, Returns-if}
use ksort.Array.{length, IsSortedIn, IsSortedRange}
use ksort.Array.Range.{IsPermutedIn-refl}
use ksort.Array.Slice.{slice, length-slice, on_slice, on_slice-IsSortedRange}
use ksort.Pdqsort.Insertion.Sorts.{single_sorted}
use ksort.Template.Insertion.Sorts.{narrow}
use ksort.Pdqsort.Partition.Right.{IsPivoted}
use ksort.Pdqsort.Loop.Joined.{join_sorted, join_sorted_last}
use ksort.Template.Bitonic.{value}
use ksort.Template.Small.{bitonic_sort}
use ksort.Template.Small.Sorts.{bitonic_sort-sorts}
use ksort.Template.Heapsort.{ksort_heap_sort}
use ksort.Template.Heapsort.Sorts.{ksort_heap_sort-sorts}
use ksort.Template.Quick.{size_max, max_loops, quick_recursive, quick_sort}
use ksort.Template.Quick.Pivot.{quick_pivot-IsInside}
use ksort.Template.Quick.Partition.{IsQuickSplit, quick_partition-IsQuickSplit}

-- nothing in a range of one element or none is out of order
short_sorted :
    (xs : List ℕ) (left hi : ℕ)
    → left ≤ hi
    → hi < word
    → leb (sub64 hi 1) left ≡ true
    → IsSortedIn value xs left hi
unfolding sub64
short_sorted xs left hi h w b i j p q r = let same : i ≡ j = ground arith in rw same (omega arith)

-- a call of a sort on a part of the array
part-sorts :
    (call : List ℕ → ℕ → Run (List ℕ))
    → ((ys : List ℕ) (n : ℕ) → length ys ≡ n → Returns (IsSortedRange value 0 n ys) (call ys n))
    → (xs : List ℕ) (left hi : ℕ) → left ≤ hi
    → hi ≤ length xs
    → hi < word
    → Returns
        (IsSortedRange value left hi xs)
        (on_slice call xs left ((sub64 (sub64 hi 1) left + 1) % word))
unfolding sub64
part-sorts call sorts xs left hi h f w =
    let n : (sub64 (sub64 hi 1) left + 1) % word ≡ hi - left = ground arith in
    let end : left + (hi - left) ≡ hi = omega arith in
    let fits : left + (hi - left) ≤ length xs = omega arith in
    rw n (
      rw end at (
        on_slice-IsSortedRange value call xs left (hi - left) fits
          (sorts (slice left (hi - left) xs) (hi - left) (length-slice left (hi - left) xs fits))))

-- the two sides of a split, in the order in which the loop sorts them
module _ (fuel : ℕ)
    (inner : (xs : List ℕ) (left hi loop_count loops : ℕ)
      → left ≤ hi
      → hi ≤ length xs
      → length xs < word
      → hi < left + fuel
      → Returns
          (IsSortedRange value left hi xs)
          (quick_recursive fuel xs left (sub64 hi 1) loop_count loops)) where
  sides-sort :
      (xs ys : List ℕ) (left hi m loop_count loops : ℕ) (bigger : Bool)
      → hi ≤ length xs
      → length xs < word
      → hi ≤ left + fuel
      → IsPivoted value left hi xs ys m
      → Returns (IsSortedRange value left hi xs) (
          if bigger
          then (quick_recursive fuel ys (m + 1) (sub64 hi 1) 0 (max_loops (m + 1) (sub64 hi 1))
              >>= λ zs. quick_recursive fuel zs left (sub64 m 1) (loop_count + 1) loops)
          else (quick_recursive fuel ys left (sub64 m 1) 0 (max_loops left (sub64 m 1)) >>= λ zs.
              quick_recursive fuel zs (m + 1) (sub64 hi 1) (loop_count + 1) loops))
  sides-sort xs ys left hi m loop_count loops bigger f w h v =
      let size = v.kept.size in
      Returns-if bigger
        (λ b.
          Returns-bind
            (inner ys (m + 1) hi 0 (max_loops (m + 1) (sub64 hi 1)) (omega (arith, v.high))
              (omega (arith, size)) (omega (arith, size)) (omega (arith, v.low)))
            λ zs q.
              Returns-map
                (inner zs left m (loop_count + 1) loops v.low
                  (omega (arith, size, q.0.size, v.high)) (omega (arith, size, q.0.size))
                  (omega (arith, v.high)))
                λ us p. join_sorted_last value v q p)
        λ b.
          Returns-bind
            (inner ys left m 0 (max_loops left (sub64 m 1)) v.low (omega (arith, size, v.high))
              (omega (arith, size)) (omega (arith, v.high)))
            λ zs p.
              Returns-map
                (inner zs (m + 1) hi (loop_count + 1) loops (omega (arith, v.high))
                  (omega (arith, size, p.0.size)) (omega (arith, size, p.0.size))
                  (omega (arith, v.low)))
                λ us q. join_sorted value v p q

all_same :
    (xs : List ℕ) (left right hi : ℕ) (ys : List ℕ) (m : ℕ)
    → right + 1 ≡ hi
    → m ≡ size_max
    → IsQuickSplit left right xs ys m
    → Returns (IsSortedRange value left hi xs) (ok ys)
all_same xs left right hi ys m e t (inl q) = returns (rw e at q.1)
all_same xs left right hi ys m e t (inr q) = absurd (q.0 t)

split_sides :
    (xs : List ℕ) (left right hi : ℕ) (ys : List ℕ) (m : ℕ)
    → right + 1 ≡ hi
    → m ≢ size_max
    → IsQuickSplit left right xs ys m
    → IsPivoted value left hi xs ys m
split_sides xs left right hi ys m e t (inl q) = absurd (t q.0)
split_sides xs left right hi ys m e t (inr q) = rw e at q.1

quick_recursive-sorts :
    (fuel : ℕ) (xs : List ℕ) (left hi loop_count loops : ℕ)
    → left ≤ hi
    → hi ≤ length xs
    → length xs < word
    → hi < left + fuel
    → Returns
        (IsSortedRange value left hi xs)
        (quick_recursive fuel xs left (sub64 hi 1) loop_count loops)
unfolding quick_recursive
quick_recursive-sorts zero xs left hi loop_count loops h f w e = absurd (omega arith)
quick_recursive-sorts (suc fuel) xs left hi loop_count loops h f w e =
    let right = sub64 hi 1 in
    Returns-if (leb right left)
      (λ b. returns (IsPermutedIn-refl left hi xs, short_sorted xs left hi h (omega arith) b))
      λ b.
        Returns-if (leb ((sub64 right left + 1) % word) 16)
          (λ c.
            part-sorts bitonic_sort (λ ys n. bitonic_sort-sorts ys n) xs left hi h f (omega arith))
          λ c.
            Returns-if (leb loops (loop_count + 1))
              (λ d.
                part-sorts ksort_heap_sort (λ ys n q. ksort_heap_sort-sorts ys n (omega (arith, q)))
                  xs left hi h f (omega arith))
              λ d.
                let end : right + 1 ≡ hi = ground arith in
                let more : left < right = ground arith in
                Returns-bind (quick_pivot-IsInside xs left right (omega arith) (omega arith))
                  λ pivot p.
                    Returns-bind
                      (quick_partition-IsQuickSplit xs left right pivot more p.0 p.1 (omega arith)
                        w)
                      λ r q.
                        Returns-if (r.1 == size_max)
                          (λ t. all_same xs left right hi r.0 r.1 end (ground arith) q)
                          λ t.
                            sides-sort fuel (quick_recursive-sorts fuel) xs r.0 left hi r.1
                              loop_count loops
                              (ltb (sub64 (sub64 right r.1) 1) (sub64 (sub64 r.1 1) left)) f w
                              (omega arith)
                              (split_sides xs left right hi r.0 r.1 end (ground arith) q)

sub64-pred : (n : ℕ) → 0 < n → n < word → sub64 n 1 ≡ n - 1
unfolding sub64
sub64-pred n h w = omega arith

-- For an array with that many elements, fewer than 2^64, QUICK_SORT of sort.h returns with the first `size`
-- elements in ascending order, rearranged among themselves, and touches no other element.
pub quick_sort-sorts :
    (xs : List ℕ) (size : ℕ)
    → size ≤ length xs
    → length xs < word
    → Returns (IsSortedRange value 0 size xs) (quick_sort xs size)
unfolding quick_sort
quick_sort-sorts xs size f w =
    Returns-if (leb size 1)
      (λ b.
        returns (IsPermutedIn-refl 0 size xs, narrow _ (ground arith) (single_sorted value 0 xs)))
      λ b.
        let last : sub64 size 1 ≡ size - 1 = sub64-pred size (ground arith) (omega arith) in
        rw last at (
          quick_recursive-sorts (size + 1) xs 0 size 0 (max_loops 0 (size - 1)) (omega arith) f w
            (omega arith))
