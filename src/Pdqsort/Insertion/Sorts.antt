-- ===== src/Pdqsort/Insertion/Sorts.antt =====
-- The three insertion sorts sort their range.
use ksort.Base.{ℕ, zero, suc, ◌+◌, ◌-◌, ◌≤◌, ◌<◌, ◌≡◌, List, arith, ◌==◌, if◌then◌else◌, ℤ}
use ksort.Run.{ok, ◌>>=◌, Returns, returns, Returns-bind, Returns-map, Returns-if}
use ksort.Array.{length, key_at, IsLess, IsSortedIn, IsPermutedIn, IsSortedRange}
use ksort.Array.Range.{IsPermutedIn-refl, IsPermutedIn-trans, IsPermutedIn-widen}
use ksort.Pdqsort.{
  less_at, sift, unguarded_sift, insertion_loop, insertion_sort, unguarded_loop,
  unguarded_insertion_sort,
}
use ksort.Pdqsort.Insertion.Sift.{
  SiftInv, SiftEnd-sorted, less_at-ltb, sift-SiftEnd, unguarded_sift-SiftEnd,
}

module _ {A : Type 0} (key : A → ℕ) where
  pub start_SiftInv :
      {begin cur : ℕ} {xs : List A}
      → IsSortedIn key xs begin cur
      → begin ≤ cur
      → cur < length xs
      → SiftInv key begin cur cur xs
  start_SiftInv s h f = record {
    inside = f;
    low = h;
    high = omega arith;
    others = λ i j p q r t u. s i j p q (omega arith);
    behind = λ j p q. absurd (omega arith);
  }

  pub grow_sorted :
      {begin cur : ℕ} (xs : List A)
      → IsSortedIn key xs begin cur
      → begin < cur
      → key_at key xs (cur - 1) ≤ key_at key xs cur
      → IsSortedIn key xs begin (cur + 1)
  grow_sorted {begin} {cur} xs s h le i j p q r = ground (arith, s i j, s i (cur - 1))

  pub single_sorted : (begin : ℕ) (xs : List A) → IsSortedIn key xs begin (begin + 1)
  single_sorted begin xs i j p q r = let e : i ≡ j = omega arith in rw e (omega arith)

  -- one round of a loop: the sorted range grows by one element
  pub chain :
      {begin end : ℕ} (cur : ℕ) {xs ys zs : List A}
      → cur + 1 ≤ end
      → IsPermutedIn key begin (cur + 1) xs ys
      → IsSortedRange key begin end ys zs
      → IsSortedRange key begin end xs zs
  chain cur h p q = (IsPermutedIn-trans (IsPermutedIn-widen (omega arith) h p) q.0, q.1)

  module _ (cmp_func : A → A → ℤ) (less : IsLess key cmp_func) where
    insertion_moved :
        (xs : List A) (begin cur : ℕ)
        → begin < cur
        → cur < length xs
        → IsSortedIn key xs begin cur
        → Returns (IsSortedRange key begin (cur + 1) xs) (
            less_at cmp_func xs cur (cur - 1) >>= λ b.
            if b then sift cmp_func (cur + 1) xs begin cur (cur - 1) >>= (λ r. ok r.0) else ok xs)
    insertion_moved xs begin cur h f s =
        Returns-bind (less_at-ltb key cmp_func less xs cur (cur - 1) f (omega arith)) λ b t.
          Returns-if b
            (λ g.
              Returns-bind
                (sift-SiftEnd key cmp_func less (cur + 1) xs begin cur cur (omega arith)
                  (start_SiftInv s (omega arith) f) h (ground arith))
                λ r e. returns (SiftEnd-sorted key e))
            λ g. returns (IsPermutedIn-refl begin (cur + 1) xs, grow_sorted xs s h (ground arith))

    insertion_loop-sorts :
        (fuel : ℕ) (xs : List A) (begin cur end : ℕ)
        → end < cur + fuel
        → begin < cur
        → cur ≤ end
        → end ≤ length xs
        → IsSortedIn key xs begin cur
        → Returns (IsSortedRange key begin end xs) (insertion_loop cmp_func fuel xs begin cur end)
    unfolding insertion_loop
    insertion_loop-sorts zero xs begin cur end f h g l s = absurd (omega arith)
    insertion_loop-sorts (suc fuel) xs begin cur end f h g l s =
        Returns-if (cur == end)
          (λ e.
            let same : cur ≡ end = ground arith in
            returns (IsPermutedIn-refl begin end xs, rw same at s))
          λ e. Returns-bind (insertion_moved xs begin cur h (ground arith) s) λ ys w.
            Returns-map
              (insertion_loop-sorts fuel ys begin (cur + 1) end (omega arith) (omega arith)
                (ground arith) (omega (arith, w.0.size)) w.1)
              λ zs q. chain cur (ground arith) w.0 q

    -- For a strict order test, insertion_sort returns with the range from `begin` to `end` in ascending
    -- order, and no other element is touched.
    pub insertion_sort-sorts :
        (xs : List A) (begin end : ℕ)
        → begin ≤ end
        → end ≤ length xs
        → Returns (IsSortedRange key begin end xs) (insertion_sort cmp_func xs begin end)
    unfolding insertion_sort
    insertion_sort-sorts xs begin end h l =
        Returns-if (begin == end)
          (λ e. returns (IsPermutedIn-refl begin end xs, λ i j p q r. absurd (ground arith)))
          λ e.
            insertion_loop-sorts (end + 1) xs begin (begin + 1) end (omega arith) (omega arith)
              (ground arith) l (single_sorted begin xs)

    unguarded_moved :
        (xs : List A) (begin cur : ℕ)
        → begin < cur
        → cur < length xs
        → 0 < begin
        → key_at key xs (begin - 1) ≤ key_at key xs cur
        → IsSortedIn key xs begin cur
        → Returns (IsSortedRange key begin (cur + 1) xs) (
            less_at cmp_func xs cur (cur - 1) >>= λ b.
            if b then unguarded_sift cmp_func (cur + 1) xs cur (cur - 1) else ok xs)
    unguarded_moved xs begin cur h f z front s =
        Returns-bind (less_at-ltb key cmp_func less xs cur (cur - 1) f (omega arith)) λ b t.
          Returns-if b
            (λ g.
              Returns-map
                (unguarded_sift-SiftEnd key cmp_func less (cur + 1) xs begin cur cur (omega arith)
                  (start_SiftInv s (omega arith) f) h z front (ground arith))
                λ r e. SiftEnd-sorted key e.1)
            λ g. returns (IsPermutedIn-refl begin (cur + 1) xs, grow_sorted xs s h (ground arith))

    unguarded_loop-sorts :
        (fuel : ℕ) (xs : List A) (begin cur end : ℕ)
        → end < cur + fuel
        → begin < cur
        → cur ≤ end
        → end ≤ length xs
        → 0 < begin
        → ((k : ℕ) → cur ≤ k → k < end → key_at key xs (begin - 1) ≤ key_at key xs k)
        → IsSortedIn key xs begin cur
        → Returns (IsSortedRange key begin end xs) (unguarded_loop cmp_func fuel xs cur end)
    unfolding unguarded_loop
    unguarded_loop-sorts zero xs begin cur end f h g l z front s = absurd (omega arith)
    unguarded_loop-sorts (suc fuel) xs begin cur end f h g l z front s =
        Returns-if (cur == end)
          (λ e.
            let same : cur ≡ end = ground arith in
            returns (IsPermutedIn-refl begin end xs, rw same at s))
          λ e.
            Returns-bind
              (unguarded_moved xs begin cur h (ground arith) z
                (front cur (omega arith) (ground arith)) s)
              λ ys w.
                Returns-map
                  (unguarded_loop-sorts fuel ys begin (cur + 1) end (omega arith) (omega arith)
                    (ground arith) (omega (arith, w.0.size)) z
                    (λ k p q. omega (
                      arith,
                      front k (omega arith) q,
                      w.0.before (begin - 1) (omega arith),
                      w.0.beyond k p,
                    ))
                    w.1)
                  λ zs q. chain cur (ground arith) w.0 q

    -- For a strict order test and an element in front of the range that is above none of it,
    -- unguarded_insertion_sort returns with the range in ascending order; it reads nothing in front of
    -- that element, and touches no element outside the range.
    pub unguarded_insertion_sort-sorts :
        (xs : List A) (begin end : ℕ)
        → begin ≤ end
        → end ≤ length xs
        → 0 < begin
        → ((k : ℕ) → begin ≤ k → k < end → key_at key xs (begin - 1) ≤ key_at key xs k)
        → Returns (IsSortedRange key begin end xs) (unguarded_insertion_sort cmp_func xs begin end)
    unfolding unguarded_insertion_sort
    unguarded_insertion_sort-sorts xs begin end h l z front =
        Returns-if (begin == end)
          (λ e. returns (IsPermutedIn-refl begin end xs, λ i j p q r. absurd (ground arith)))
          λ e.
            unguarded_loop-sorts (end + 1) xs begin (begin + 1) end (omega arith) (omega arith)
              (ground arith) l z (λ k p q. front k (omega arith) q) (single_sorted begin xs)
