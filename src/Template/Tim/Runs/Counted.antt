-- ===== src/Template/Tim/Runs/Counted.antt =====
-- COUNT_RUN leaves an ascending run, and returns its length.
use ksort.Base.{
  ℕ, zero, suc, ◌+◌, ◌-◌, ◌≤◌, ◌<◌, ◌≡◌, refl, List, arith, leb, ◌==◌, if◌then◌else◌, is_positive,
}
use ksort.Run.{ok, ◌>>=◌, Returns, returns, Returns-bind, Returns-map, Returns-if}
use ksort.Array.{
  compare_at, swap_at, length, key_at, IsPermutedIn, IsSortedIn, IsSortedRange, IsSwapped,
}
use ksort.Array.Access.{compare_at-Compared, swap_at-IsSwapped}
use ksort.Array.Range.{
  IsPermutedIn-refl, IsPermutedIn-trans, IsPermutedIn-widen, IsSwapped-IsPermutedIn,
}
use ksort.Pdqsort.Insertion.Sorts.{single_sorted}
use ksort.Template.{sort_cmp}
use ksort.Template.Bitonic.{value}
use ksort.Template.Bitonic.Exchange.{sort_cmp-IsThreeWay}
use ksort.Template.Tim.Runs.{reverse_elements, ascend, descend_run, count_run}

-- the elements from `start` to `end` in the opposite order
record IsReversed (start end : ℕ) (xs ys : List ℕ) : Type 0 where
  permuted : IsPermutedIn value start (end + 1) xs ys
  at : (k : ℕ) → start ≤ k → k ≤ end → key_at value ys k ≡ key_at value xs (start + end - k)

reverse_outer :
    (start end : ℕ) (xs ys zs : List ℕ)
    → start < end
    → IsSwapped value xs start end ys
    → IsReversed (start + 1) (end - 1) ys zs
    → IsReversed start end xs zs
reverse_outer start end xs ys zs h s r = record {
  permuted =
      IsPermutedIn-trans
        (IsSwapped-IsPermutedIn (omega arith) (omega arith) (omega arith) (omega arith) s)
        (IsPermutedIn-widen (omega arith) (omega arith) r.permuted);
  at = λ k a b.
      let sum : start + 1 + (end - 1) - k ≡ start + end - k = omega arith in
      ground (
        arith,
        sum,
        r.at k,
        r.permuted.before k,
        r.permuted.beyond k,
        s.at k,
        s.at (start + end - k),
      );
}

reverse_elements-IsReversed :
    (fuel : ℕ) (xs : List ℕ) (start end : ℕ)
    → start ≤ end + 1
    → end + 1 < fuel + start
    → end < length xs
    → Returns (IsReversed start end xs) (reverse_elements fuel xs start end)
unfolding reverse_elements
reverse_elements-IsReversed zero xs start end l h f = absurd (omega arith)
reverse_elements-IsReversed (suc fuel) xs start end l h f =
    Returns-if (leb end start)
      (λ b. returns (record {
        permuted = IsPermutedIn-refl start (end + 1) xs;
        at = λ k p q. let same : start + end - k ≡ k = ground arith in rw same refl;
      }))
      λ b. Returns-bind (swap_at-IsSwapped value xs start end (ground arith) f) λ ys s.
        Returns-map
          (reverse_elements-IsReversed fuel ys (start + 1) (end - 1) (ground arith) (ground arith)
            (omega (arith, s.size)))
          λ zs r. reverse_outer start end xs ys zs (ground arith) s r

-- the elements from `start` up to `curr` descend
abbrev IsDescending : List ℕ → ℕ → ℕ → Type 0
IsDescending xs start curr =
    (i j : ℕ) → start ≤ i → i ≤ j → j < curr → key_at value xs j ≤ key_at value xs i

module _ (xs : List ℕ) (start size : ℕ) (f : size ≤ length xs) where
  ascend-IsSortedIn :
      (fuel curr : ℕ)
      → size ≤ fuel + curr
      → start < curr
      → curr < size
      → IsSortedIn value xs start curr
      → Returns
          (λ c. (curr ≤ c) × (c < size) × IsSortedIn value xs start c)
          (ascend fuel xs size curr)
  unfolding ascend
  ascend-IsSortedIn zero curr h l u s = absurd (omega arith)
  ascend-IsSortedIn (suc fuel) curr h l u s =
      Returns-if (curr == size - 1) (λ b. returns (omega arith, u, s))
        λ b.
          Returns-bind
            (compare_at-Compared value xs (curr - 1) curr (omega arith) (omega arith) sort_cmp
              sort_cmp-IsThreeWay)
            λ z c.
              Returns-if (is_positive z) (λ p. returns (omega arith, u, s))
                λ p.
                  Returns-map
                    (ascend-IsSortedIn fuel (curr + 1) (omega arith) (omega arith) (ground arith)
                      λ i j a b' g. ground (arith, c.positive, s i j a b', s i (curr - 1) a))
                    λ e q. (omega (arith, q.0), q.1, q.2)

  descend_run-IsDescending :
      (fuel curr : ℕ)
      → size ≤ fuel + curr
      → start < curr
      → curr < size
      → IsDescending xs start curr
      → Returns
          (λ c. (curr ≤ c) × (c < size) × IsDescending xs start c)
          (descend_run fuel xs size curr)
  unfolding descend_run
  descend_run-IsDescending zero curr h l u s = absurd (omega arith)
  descend_run-IsDescending (suc fuel) curr h l u s =
      Returns-if (curr == size - 1) (λ b. returns (omega arith, u, s))
        λ b.
          Returns-bind
            (compare_at-Compared value xs (curr - 1) curr (omega arith) (omega arith) sort_cmp
              sort_cmp-IsThreeWay)
            λ z c.
              Returns-if (is_positive z)
                (λ p.
                  Returns-map
                    (descend_run-IsDescending fuel (curr + 1) (omega arith) (omega arith)
                      (ground arith)
                      λ i j a b' g. ground (arith, c.positive, s i j a b', s i (curr - 1) a))
                    λ e q. (omega (arith, q.0), q.1, q.2))
                λ p. returns (omega arith, u, s)

-- the run at `start`, and its length
pub record IsRun (start size : ℕ) (xs : List ℕ) (r : List ℕ × ℕ) : Type 0 where
  pub sorted : IsSortedRange value start (start + r.1) xs r.0
  pub positive : 0 < r.1
  pub fits : start + r.1 ≤ size

-- a run that ascends as it is
sorted_IsRun :
    (xs : List ℕ) (start size len : ℕ)
    → 0 < len
    → start + len ≤ size
    → IsSortedIn value xs start (start + len)
    → IsRun start size xs (xs, len)
sorted_IsRun xs start size len h f s = record {
  sorted = (IsPermutedIn-refl start (start + len) xs, s);
  positive = h;
  fits = f;
}

-- the last two elements
last_two-IsRun :
    (xs : List ℕ) (start size : ℕ)
    → size ≡ start + 2
    → size ≤ length xs
    → Returns (IsRun start size xs) (
        compare_at sort_cmp xs start (start + 1) >>= λ z.
        if is_positive z then (do ys ← swap_at xs start (start + 1); ok (ys, 2)) else ok (xs, 2))
last_two-IsRun xs start size h f =
    Returns-bind
      (compare_at-Compared value xs start (start + 1) (omega arith) (omega arith) sort_cmp
        sort_cmp-IsThreeWay)
      λ z w.
        Returns-if (is_positive z)
          (λ p.
            Returns-bind (swap_at-IsSwapped value xs start (start + 1) (omega arith) (omega arith))
              λ ys s. returns (record {
                sorted = (
                  IsSwapped-IsPermutedIn (omega arith) (omega arith) (omega arith) (omega arith) s,
                  λ i j a b g. ground (arith, s.at i, s.at j, w.positive),
                );
                positive = omega arith;
                fits = omega arith;
              }))
          λ p. returns (
            sorted_IsRun xs start size 2 (omega arith) (omega arith)
              λ i j a b g. ground (arith, w.positive))

-- a descending run, reversed
reversed-IsRun :
    (xs ys : List ℕ) (start size curr : ℕ)
    → start < curr
    → curr ≤ size
    → IsDescending xs start curr
    → IsReversed start (curr - 1) xs ys
    → IsRun start size xs (ys, curr - start)
reversed-IsRun xs ys start size curr h f d r =
    let end : curr - 1 + 1 ≡ start + (curr - start) = omega arith in
    record {
      sorted = (
        rw end at r.permuted,
        λ i j p q u. ground (
          arith,
          r.at i,
          r.at j,
          d (start + (curr - 1) - j) (start + (curr - 1) - i) (omega arith) (omega arith)
              (omega arith),
        ),
      );
      positive = omega arith;
      fits = omega arith;
    }

-- For a start in front of the end, and an end inside the array, COUNT_RUN returns a positive length that
-- stays inside, and leaves the elements of the run at `start` in ascending order, rearranged among
-- themselves, with no other element touched.
pub count_run-IsRun :
    (xs : List ℕ) (start size : ℕ)
    → start < size
    → size ≤ length xs
    → Returns (IsRun start size xs) (count_run xs start size)
unfolding count_run
count_run-IsRun xs start size h f =
    Returns-if (size - start == 1)
      (λ b.
        returns
          (sorted_IsRun xs start size 1 (omega arith) (omega arith) (single_sorted value start xs)))
      λ b.
        Returns-if (leb (size - 2) start)
          (λ c.
            let first : size - 2 ≡ start = ground arith in
            let second : size - 1 ≡ start + 1 = ground arith in
            rw (first, second) (last_two-IsRun xs start size (ground arith) f))
          λ c.
            Returns-bind
              (compare_at-Compared value xs start (start + 1) (ground arith) (ground arith) sort_cmp
                sort_cmp-IsThreeWay)
              λ z w.
                Returns-if (is_positive z)
                  (λ p.
                    Returns-bind
                      (descend_run-IsDescending xs start size f size (start + 2) (ground arith)
                        (ground arith) (ground arith) λ i j a b' g. ground (arith, w.positive))
                      λ curr q.
                        Returns-bind
                          (reverse_elements-IsReversed size xs start (curr - 1) (omega (arith, q.0))
                            (omega (arith, q.0, q.1)) (omega (arith, q.0, q.1)))
                          λ ys r. returns (
                            reversed-IsRun xs ys start size curr (omega (arith, q.0))
                              (omega (arith, q.1)) q.2 r))
                  λ p.
                    Returns-bind
                      (ascend-IsSortedIn xs start size f size (start + 2) (ground arith)
                        (ground arith) (ground arith) λ i j a b' g. ground (arith, w.positive))
                      λ curr q.
                        let end : start + (curr - start) ≡ curr = omega (arith, q.0) in
                        returns (
                          sorted_IsRun xs start size (curr - start) (omega (arith, q.0))
                            (omega (arith, q.0, q.1)) (rw end q.2))
