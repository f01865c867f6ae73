-- ===== src/Template/Merge/Sorts.antt =====
-- MERGE_SORT sorts.
use ksort.Base.{
  ℕ, zero, suc, ◌+◌, ◌-◌, ◌/◌, ◌≤◌, ◌<◌, ◌≡◌, ◌∙◌, refl, List, ◌++◌, Option, some, arith, leb, ◌&&◌,
  true,
}
use ksort.Run.{Returns, returns, Returns-bind, Returns-if}
use ksort.Array.{length, IsSortedIn, IsSortedRange}
use ksort.Array.Range.{IsPermutedIn-refl, IsPermutedIn-trans, IsPermutedIn-widen}
use ksort.Array.Slice.{
  take, drop, slice, slice-++, length-slice, key_at-slice, on_slice-IsSortedRange,
  slice-IsSortedRange,
}
use ksort.Pdqsort.Insertion.Sorts.{single_sorted}
use ksort.Template.Bitonic.{value}
use ksort.Template.Insertion.{binary_insertion_sort}
use ksort.Template.Insertion.Sorts.{narrow, binary_insertion_sort-sorts}
use ksort.Template.Merge.{copy_words, merge_recursive, merge_sort}
use ksort.Template.Merge.Merged.{Merged, Merged-length, Merged-IsSortedRange}
use ksort.Template.Merge.Loop.{IsMerge, merge_loop-IsMerge}

-- a sorted range, as a list
pub slice_sorted :
    (xs : List ℕ) (left n : ℕ)
    → left + n ≤ length xs
    → IsSortedIn value xs left (left + n)
    → IsSortedIn value (slice left n xs) 0 (length (slice left n xs))
slice_sorted xs left n f s i j p q r =
    let size = length-slice left n xs f in
    omega (
      arith,
      s (left + i) (left + j) (omega arith) (omega arith) (omega (arith, size, r)),
      key_at-slice value left n xs i (omega (arith, size, r)),
      key_at-slice value left n xs j (omega (arith, size, r)),
    )

-- two sorted halves of a range, merged and put back
pub merge-put_back :
    (xs m : List ℕ) (base middle size : ℕ)
    → middle ≤ size
    → base + size ≤ length xs
    → IsSortedIn value xs base (base + middle)
    → IsSortedIn value xs (base + middle) (base + size)
    → Merged (slice base middle xs) (slice (base + middle) (size - middle) xs) m
    → IsSortedRange value base (base + size) xs (take base xs ++ (m ++ drop (base + size) xs))
merge-put_back xs m base middle size h f s t d =
    let whole : middle + (size - middle) ≡ size = omega arith in
    let end : base + middle + (size - middle) ≡ base + size = omega arith in
    let fl : base + middle ≤ length xs = omega arith in
    let fr : base + middle + (size - middle) ≤ length xs = omega arith in
    let nl = length-slice base middle xs fl in
    let nr = length-slice (base + middle) (size - middle) xs fr in
    let both : IsSortedRange value 0 size
        (slice base middle xs ++ slice (base + middle) (size - middle) xs) m =
      Merged-IsSortedRange size d (omega (arith, nl, nr)) (slice_sorted xs base middle fl s)
        (slice_sorted xs (base + middle) (size - middle) fr (rw end t)) in
    let joined = slice-++ base middle (size - middle) xs in
    slice-IsSortedRange value xs m base size f (omega (arith, nl, nr, Merged-length d))
      (rw (← joined, whole) at both)

copy_words-IsSortedRange :
    (xs new new' : List ℕ) (base middle size : ℕ)
    → middle ≤ size
    → base + size ≤ length xs
    → size ≤ length new
    → IsSortedIn value xs base (base + middle)
    → IsSortedIn value xs (base + middle) (base + size)
    → IsMerge 0 size
        (slice (base + 0) (middle - 0) xs)
        (slice (base + middle) (size - middle) xs)
        new
        new'
    → Returns (IsSortedRange value base (base + size) xs) (copy_words xs base new' size)
unfolding copy_words
copy_words-IsSortedRange xs new new' base middle size h f g s t w =
    let fits : (leb (base + size) (length xs) && leb size (length new')) ≡ true =
      ground (arith, w.size) in
    let count : 0 + size ≡ size = omega arith in
    let whole : take size new' ≡ w.merge = rw count at w.written in
    let start : base + 0 ≡ base = omega arith in
    let middle' : middle - 0 ≡ middle = omega arith in
    rw (fits, whole)
      (returns
        (merge-put_back xs w.merge base middle size h f s t (rw (start, middle') at w.merged)))

merge_recursive-sorts :
    (fuel : ℕ) (new xs : List ℕ) (base size : ℕ)
    → size < fuel
    → base + size ≤ length xs
    → size ≤ length new
    → Returns
        (λ r. (length r.0 ≡ length new) × IsSortedRange value base (base + size) xs r.1)
        (merge_recursive fuel new xs base size)
unfolding merge_recursive
merge_recursive-sorts zero new xs base size h f g = absurd (omega arith)
merge_recursive-sorts (suc fuel) new xs base size h f g =
    let middle = size / 2 in
    Returns-if (leb size 1)
      (λ b. returns (
        refl,
        (
          IsPermutedIn-refl base (base + size) xs,
          λ i j p q r. let same : i ≡ j = ground arith in rw same (omega arith),
        ),
      ))
      λ b.
        Returns-if (leb size 16)
          (λ c.
            Returns-bind
              (on_slice-IsSortedRange value binary_insertion_sort xs base size f (
                binary_insertion_sort-sorts (slice base size xs) size
                  (omega (arith, length-slice base size xs f))))
              λ ys s. returns (refl, s))
          λ c.
            let many : 1 < size = ground arith in
            let end : base + middle + (size - middle) ≡ base + size = omega arith in
            Returns-bind
              (merge_recursive-sorts fuel new xs base middle (omega arith) (omega arith)
                (omega arith))
              λ r s.
                Returns-bind
                  (merge_recursive-sorts fuel r.0 r.1 (base + middle) (size - middle) (omega arith)
                    (omega (arith, s.1.0.size)) (omega (arith, s.0)))
                  λ r' t.
                    let zs = r'.1 in
                    let fits : base + size ≤ length zs = omega (arith, s.1.0.size, t.1.0.size, f) in
                    let room : size ≤ length r'.0 = omega (arith, s.0, t.0, g) in
                    let low : IsSortedIn value zs base (base + middle) = λ i j p q u. omega (
                      arith,
                      s.1.1 i j p q u,
                      t.1.0.before i (omega arith),
                      t.1.0.before j (omega arith),
                    ) in
                    let high : IsSortedIn value zs (base + middle) (base + size) =
                      λ i j p q u. t.1.1 i j p q (omega arith) in
                    Returns-bind
                      (merge_loop-IsMerge zs base middle size fits (omega arith) size 0 0 middle
                        r'.0 (omega arith) (omega arith) (omega arith) (omega arith) (omega arith))
                      λ new' w.
                        Returns-bind
                          (copy_words-IsSortedRange zs r'.0 new' base middle size (omega arith) fits
                            room low high w)
                          λ ws q. returns (
                            w.size ∙ t.0 ∙ s.0,
                            (
                              IsPermutedIn-trans
                                  (IsPermutedIn-widen (omega arith) (omega arith) s.1.0)
                                  (IsPermutedIn-trans
                                    (IsPermutedIn-widen (omega arith) (omega arith) t.1.0) q.0),
                              q.1,
                            ),
                          )

-- For an array with that many elements, MERGE_SORT returns with the first `size` elements in ascending order,
-- rearranged among themselves, and touches no other element; above 16 elements it must get its memory.
pub merge_sort-sorts :
    (buffer : Option (List ℕ)) (xs : List ℕ) (size : ℕ)
    → size ≤ length xs
    → ((16 < size) → (new : List ℕ) × (buffer ≡ some new) × (size ≤ length new))
    → Returns (IsSortedRange value 0 size xs) (merge_sort buffer xs size)
unfolding merge_sort
merge_sort-sorts buffer xs size f memory =
    Returns-if (leb size 1)
      (λ b.
        returns (IsPermutedIn-refl 0 size xs, narrow _ (ground arith) (single_sorted value 0 xs)))
      λ b.
        Returns-if (leb size 16) (λ c. binary_insertion_sort-sorts xs size f)
          λ c.
            let (new, e, room) = memory (ground arith) in
            let start : 0 + size ≡ size = omega arith in
            rw e (
              Returns-bind
                (merge_recursive-sorts (size + 1) new xs 0 size (omega arith) (omega arith) room)
                λ r s. returns (rw start at s.1))
