-- ===== src/Pdqsort/Loop/Steps.antt =====
-- The steps of a round of `pdqsort_loop`.
use ksort.Base.{
  ℕ, ◌+◌, ◌-◌, ◌≤◌, ◌<◌, ◌≡◌, refl, List, arith, ◌==◌, if◌then◌else◌, ℤ, Bool, true, false,
}
use ksort.Run.{Run, Returns, returns, Returns-bind, Returns-if}
use ksort.Array.{length, key_at, IsLess, IsPermutedIn, IsSortedRange}
use ksort.Array.Range.{IsPermutedIn-refl, IsPermutedIn-trans}
use ksort.Pdqsort.{back, insertion_sort, unguarded_insertion_sort}
use ksort.Pdqsort.Insertion.Sift.{less_at-ltb}
use ksort.Pdqsort.Insertion.Sorts.{insertion_sort-sorts, unguarded_insertion_sort-sorts}
use ksort.Pdqsort.Insertion.Partial.{partial_insertion_sort-IsTried}
use ksort.Pdqsort.Partition.Left.{IsPartition}
use ksort.Pdqsort.Partition.Right.{IsPivoted}
use ksort.Pdqsort.Loop.{is_repeated, try_sorted}
use ksort.Pdqsort.Loop.Joined.{IsFronted, IsFronted-kept, pivot-left, pivot-right, join_sorted}

module _ {A : Type 0} (key : A → ℕ) where
  pub after_permuted :
      {begin end : ℕ} {xs ys zs : List A}
      → IsPermutedIn key begin end xs ys
      → IsSortedRange key begin end ys zs
      → IsSortedRange key begin end xs zs
  after_permuted p q = (IsPermutedIn-trans p q.0, q.1)

  pub partition-IsPivoted :
      {begin end m : ℕ} {xs ys : List A}
      → IsPartition key begin end xs ys m
      → IsPivoted key begin end xs ys m
  partition-IsPivoted v = record {
    kept = v.kept;
    low = v.low;
    high = v.high;
    front = v.front;
    rear = λ k l g. omega (arith, v.rear k l g);
  }

  -- the elements up to the position that partition_left returns are those that equal the one in front
  pub repeated_sorted :
      {begin end m : ℕ} {xs ys zs : List A}
      → IsPartition key begin end xs ys m
      → IsFronted key xs begin end false
      → key_at key xs begin ≤ key_at key xs (begin - 1)
      → IsSortedRange key (m + 1) end ys zs
      → IsSortedRange key begin end xs zs
  repeated_sorted {begin} {end} {m} {xs} {ys} v f le q =
      let g : IsFronted key ys begin end false = IsFronted-kept key v.kept f in
      let least : (k : ℕ) → begin ≤ k → k < end → key_at key ys m ≤ key_at key ys k = λ k l h.
        omega (
          arith,
          (g refl).1 (begin - 1) (omega (arith, (f refl).0)) k l h,
          v.pivot,
          v.kept.before (begin - 1) (omega (arith, (f refl).0)),
        ) in
      join_sorted key (partition-IsPivoted v)
        (
          IsPermutedIn-refl begin m ys,
          λ i j l h k. omega (
            arith,
            v.front i l (omega arith),
            v.front j (omega arith) k,
            least i l (omega (arith, v.high)),
            least j (omega arith) (omega (arith, v.high)),
          ),
        )
        q

  module _ (cmp_func : A → A → ℤ) (less : IsLess key cmp_func) where
    pub small_sorts :
        (xs : List A) (begin end : ℕ) (leftmost : Bool)
        → begin ≤ end
        → end ≤ length xs
        → IsFronted key xs begin end leftmost
        → Returns (IsSortedRange key begin end xs) (
            if leftmost
            then insertion_sort cmp_func xs begin end
            else unguarded_insertion_sort cmp_func xs begin end)
    small_sorts xs begin end true h l f = insertion_sort-sorts key cmp_func less xs begin end h l
    small_sorts xs begin end false h l f =
        unguarded_insertion_sort-sorts key cmp_func less xs begin end h l (f refl).0
          λ k p q. (f refl).1 (begin - 1) (omega (arith, (f refl).0)) k p q

    -- the element in front is tested only where there is one
    pub is_repeated-false :
        (xs : List A) (begin end : ℕ) (leftmost : Bool)
        → begin < end
        → end ≤ length xs
        → IsFronted key xs begin end leftmost
        → Returns
            (λ b. b ≡ true → (leftmost ≡ false) × (key_at key xs begin ≤ key_at key xs (begin - 1)))
            (is_repeated cmp_func xs begin leftmost)
    unfolding is_repeated back
    is_repeated-false xs begin end true h l f = returns λ e. absurd (ground arith)
    is_repeated-false xs begin end false h l f =
        let nonzero : (begin == 0) ≡ false = ground (arith, (f refl).0) in
        rw nonzero (
          Returns-bind
            (less_at-ltb key cmp_func less xs (begin - 1) begin (omega arith) (omega arith))
            λ b e. returns λ g. (refl, ground arith))

    pub try_sorted-sorts :
        (rest : List A → Run (List A)) (xs ys : List A) (begin pivot end : ℕ) (already : Bool)
        → IsPivoted key begin end xs ys pivot
        → end ≤ length ys
        → ((zs : List A)
            → IsPivoted key begin end xs zs pivot
            → Returns (IsSortedRange key begin end xs) (rest zs))
        → Returns
            (IsSortedRange key begin end xs)
            (try_sorted cmp_func rest ys begin pivot end already)
    unfolding try_sorted
    try_sorted-sorts rest xs ys begin pivot end false v l go = go ys v
    try_sorted-sorts rest xs ys begin pivot end true v l go =
        Returns-bind
          (partial_insertion_sort-IsTried key cmp_func less ys begin pivot v.low
            (omega (arith, v.high)))
          λ p tried.
            let left = pivot-left key v tried.0 in
            Returns-if p.1
              (λ e.
                Returns-bind
                  (partial_insertion_sort-IsTried key cmp_func less p.0 (pivot + 1) end
                    (omega (arith, v.high)) (omega (arith, tried.0.size)))
                  λ q tried'.
                    Returns-if q.1
                      (λ e'.
                        returns (join_sorted key v (tried.0, tried.1 e) (tried'.0, tried'.1 e')))
                      λ _. go q.0 (pivot-right key left tried'.0))
              λ _. go p.0 left
