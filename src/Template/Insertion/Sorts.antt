-- ===== src/Template/Insertion/Sorts.antt =====
-- The binary insertion sort sorts.
use ksort.Base.{
  ℕ, zero, suc, ◌+◌, ◌-◌, ◌≤◌, ◌<◌, ◌≡◌, List, some, arith, leb, ◌==◌, if◌then◌else◌, is_positive,
}
use ksort.Run.{Returns, returns, Returns-bind, Returns-map, Returns-if}
use ksort.Array.{length, key_at, get_elem?, set, IsSortedIn, IsSortedRange}
use ksort.Array.Access.{compare_at-Compared}
use ksort.Array.Hole.{take_out, load-Returns, store-Returns}
use ksort.Array.Laws.{key_at-some, key_at-set}
use ksort.Array.Range.{IsPermutedIn-refl, IsPermutedIn-trans, IsPermutedIn-widen}
use ksort.Pdqsort.Insertion.Sorts.{grow_sorted, single_sorted}
use ksort.Template.{sort_cmp}
use ksort.Template.Bitonic.{value}
use ksort.Template.Bitonic.Exchange.{sort_cmp-IsThreeWay}
use ksort.Template.Insertion.{
  insert_at, insert_entries, binary_insertion_sort_start, binary_insertion_sort,
}
use ksort.Template.Insertion.Find.{IsPlaceOf, binary_insertion_find-IsPlaceOf}
use ksort.Template.Insertion.Shift.{IsShifted, shift_up-IsShifted}

-- the element is put in its place among those that have moved
pub placed_sorted :
    {xs ys : List ℕ} {i p x : ℕ}
    → IsSortedIn value xs 0 i
    → i < length xs
    → IsPlaceOf xs x i p
    → IsShifted (i + 1) xs i p x ys
    → IsSortedIn value (set ys p x) 0 (i + 1)
placed_sorted {xs} {ys} {i} {p} {x} s f l v j k lo h hi =
    let now : (m : ℕ) → key_at value (set ys p x) m ≡ (if p == m then x else key_at value ys m) =
      λ m. key_at-set value ys p m x (omega (arith, v.holed.size, l.inside)) in
    ground (
      arith,
      now j,
      now k,
      v.at j,
      v.at k,
      l.front j,
      l.back (k - 1),
      s j k,
      s j (k - 1),
      s (j - 1) (k - 1),
    )

-- a shorter range, or the same one
pub narrow :
    (xs : List ℕ) {hi hi' : ℕ} → hi' ≤ hi → IsSortedIn value xs 0 hi → IsSortedIn value xs 0 hi'
narrow xs h s j k lo le lt = s j k lo le (omega arith)

pub start_IsShifted :
    (xs : List ℕ) (b x : ℕ)
    → b + 1 < length xs
    → get_elem? xs (suc b) ≡ some x
    → IsShifted (suc b + 1) xs (suc b) (b + 1) x xs
start_IsShifted xs b x f e = record {
  holed =
      take_out value (b + 1) x (IsPermutedIn-refl 0 (suc b + 1) xs) (omega arith) (omega arith)
        (ground (arith, e));
  at = λ k. ground arith;
}

insert_at-sorts :
    (xs : List ℕ) (b : ℕ)
    → b + 1 < length xs
    → IsSortedIn value xs 0 (b + 1)
    → Returns (IsSortedRange value 0 (b + 2) xs) (insert_at xs (suc b))
unfolding insert_at
insert_at-sorts xs b f s =
    Returns-bind
      (compare_at-Compared value xs b (suc b) (omega arith) (omega arith) sort_cmp
        sort_cmp-IsThreeWay)
      λ z c.
        Returns-if (is_positive z)
          (λ e. Returns-bind (load-Returns xs (suc b) (omega arith)) λ x ex.
            let same = key_at-some value xs (suc b) x ex in
            let below : x < key_at value xs (suc b - 1) = ground (arith, c.positive) in
            let found =
              binary_insertion_find-IsPlaceOf xs x (suc b) (omega arith) (narrow _ (omega arith) s)
                (omega arith) below in
            Returns-bind found λ p l.
              Returns-bind
                (shift_up-IsShifted (suc b + 1) xs xs (suc b) b p x (omega arith) (omega arith)
                  (omega (arith, l.inside)) (start_IsShifted xs b x f ex))
                λ ys v.
                  Returns-map (store-Returns ys p x (omega (arith, v.holed.size, l.inside)))
                    λ zs e'. rw e' (
                      IsPermutedIn-widen (omega arith) (omega arith) v.holed.filled,
                      narrow _ (omega arith)
                          (placed_sorted (narrow _ (omega arith) s) (omega arith) l v),
                    ))
          λ e. returns (
            IsPermutedIn-refl 0 (b + 2) xs,
            narrow _ (omega arith)
                (grow_sorted value xs s (omega arith) (ground (arith, c.positive))),
          )

insert_entries-sorts :
    (entries : ℕ) (xs : List ℕ) (i : ℕ)
    → 0 < i
    → i + entries ≤ length xs
    → IsSortedIn value xs 0 i
    → Returns (IsSortedRange value 0 (i + entries) xs) (insert_entries entries xs i)
unfolding insert_entries
insert_entries-sorts zero xs i z f s =
    returns (IsPermutedIn-refl 0 (i + 0) xs, narrow _ (omega arith) s)
insert_entries-sorts (suc entries) xs zero z f s = absurd (omega arith)
insert_entries-sorts (suc entries) xs (suc b) z f s =
    Returns-bind (insert_at-sorts xs b (omega arith) (narrow _ (omega arith) s)) λ ys w.
      Returns-map
        (insert_entries-sorts entries ys (suc b + 1) (omega arith) (omega (arith, w.0.size))
          (narrow _ (omega arith) w.1))
        λ zs q. (
          IsPermutedIn-trans (IsPermutedIn-widen (omega arith) (omega arith) w.0)
              (IsPermutedIn-widen (omega arith) (omega arith) q.0),
          narrow _ (omega arith) q.1,
        )

-- If the first `start` elements ascend, and there is one, BINARY_INSERTION_SORT_START returns with the
-- first `size` elements in ascending order, and no other element is touched.
pub binary_insertion_sort_start-sorts :
    (xs : List ℕ) (start size : ℕ)
    → 0 < start
    → start ≤ size
    → size ≤ length xs
    → IsSortedIn value xs 0 start
    → Returns (IsSortedRange value 0 size xs) (binary_insertion_sort_start xs start size)
unfolding binary_insertion_sort_start
binary_insertion_sort_start-sorts xs start size z h f s =
    Returns-map (insert_entries-sorts (size - start) xs start z (omega arith) s)
      λ ys q. (IsPermutedIn-widen (omega arith) (omega arith) q.0, narrow _ (omega arith) q.1)

pub binary_insertion_sort-sorts :
    (xs : List ℕ) (size : ℕ)
    → size ≤ length xs
    → Returns (IsSortedRange value 0 size xs) (binary_insertion_sort xs size)
unfolding binary_insertion_sort
binary_insertion_sort-sorts xs size f =
    Returns-if (leb size 1)
      (λ b.
        returns (IsPermutedIn-refl 0 size xs, narrow _ (ground arith) (single_sorted value 0 xs)))
      λ b.
        binary_insertion_sort_start-sorts xs 1 size (omega arith) (ground arith) f
          (single_sorted value 0 xs)
