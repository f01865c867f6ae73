-- ===== src/Pdqsort/Loop/Joined.antt =====
-- What is known around a pivot outlasts a rearrangement on either side, and both sides sorted make the
-- whole range sorted.
use ksort.Base.{ℕ, ◌+◌, ◌≤◌, ◌<◌, ◌≡◌, List, arith, Bool, false}
use ksort.Array.{key_at, IsPermutedIn, IsSortedRange}
use ksort.Array.Range.{IsPermutedIn-trans, IsPermutedIn-widen}
use ksort.Pdqsort.Partition.Right.{IsPivoted}

module _ {A : Type 0} (key : A → ℕ) where
  -- the element in front of a range that is not the leftmost is above none of it
  abbrev pub IsFronted : List A → ℕ → ℕ → Bool → Type 0
  IsFronted xs begin end leftmost =
      leftmost ≡ false
      → (0 < begin)
        × ((b : ℕ)
            → b + 1 ≡ begin
            → (k : ℕ) → begin ≤ k
            → k < end
            → key_at key xs b ≤ key_at key xs k)

  pub IsFronted-kept :
      {begin end : ℕ} {leftmost : Bool} {xs ys : List A}
      → IsPermutedIn key begin end xs ys
      → IsFronted xs begin end leftmost
      → IsFronted ys begin end leftmost
  IsFronted-kept p f e = (
    (f e).0,
    λ b h k l g.
        let (m, lm, gm, em) = p.within k l g in
        let front = (f e).1 b h m lm gm in omega (arith, front, em, p.before b (omega arith)),
  )

  pub IsFronted-shorter :
      {begin mid end : ℕ} {leftmost : Bool} (xs : List A)
      → mid ≤ end
      → IsFronted xs begin end leftmost
      → IsFronted xs begin mid leftmost
  IsFronted-shorter xs h f e = ((f e).0, λ b i k l g. (f e).1 b i k l (omega arith))

  pub pivot-IsFronted :
      {begin end m : ℕ} {xs ys : List A}
      → IsPivoted key begin end xs ys m
      → IsFronted ys (m + 1) end false
  pivot-IsFronted {m = m} v e = (
    omega arith,
    λ b h k l g. let same : b ≡ m = omega arith in rw same (v.rear k (omega arith) g),
  )

  pub pivot-left :
      {begin end m : ℕ} {xs ys zs : List A}
      → IsPivoted key begin end xs ys m
      → IsPermutedIn key begin m ys zs
      → IsPivoted key begin end xs zs m
  pivot-left {begin} {end} {m} v p = record {
    kept = IsPermutedIn-trans v.kept (IsPermutedIn-widen (omega arith) (omega (arith, v.high)) p);
    low = v.low;
    high = v.high;
    front = λ k l g.
        let (n, ln, gn, en) = p.within k l g in
        omega (arith, en, v.front n ln gn, p.beyond m (omega arith));
    rear = λ k l g. omega (arith, v.rear k l g, p.beyond k (omega arith), p.beyond m (omega arith));
  }

  pub pivot-right :
      {begin end m : ℕ} {xs ys zs : List A}
      → IsPivoted key begin end xs ys m
      → IsPermutedIn key (m + 1) end ys zs
      → IsPivoted key begin end xs zs m
  pivot-right {begin} {end} {m} v p = record {
    kept = IsPermutedIn-trans v.kept (IsPermutedIn-widen (omega (arith, v.low)) (omega arith) p);
    low = v.low;
    high = v.high;
    front =
        λ k l g. omega (arith, v.front k l g, p.before k (omega arith), p.before m (omega arith));
    rear = λ k l g.
        let (n, ln, gn, en) = p.within k (omega arith) g in
        omega (arith, en, v.rear n (omega arith) gn, p.before m (omega arith));
  }

  -- both sides sorted, the left one first
  pub join_sorted :
      {begin end m : ℕ} {xs ys zs us : List A}
      → IsPivoted key begin end xs ys m
      → IsSortedRange key begin m ys zs
      → IsSortedRange key (m + 1) end zs us
      → IsSortedRange key begin end xs us
  join_sorted {begin} {end} {m} {us = us} v p q =
      let w = pivot-right (pivot-left v p.0) q.0 in
      (
        w.kept,
        λ i j l h g. ground (
          arith,
          p.1 i j l h,
          q.1 i j,
          q.0.before i,
          q.0.before j,
          w.front i l,
          w.rear j,
          w.front j,
          w.rear i,
        ),
      )

  -- both sides sorted, the right one first
  pub join_sorted_last :
      {begin end m : ℕ} {xs ys zs us : List A}
      → IsPivoted key begin end xs ys m
      → IsSortedRange key (m + 1) end ys zs
      → IsSortedRange key begin m zs us
      → IsSortedRange key begin end xs us
  join_sorted_last {begin} {end} {m} {us = us} v q p =
      let w = pivot-left (pivot-right v q.0) p.0 in
      (
        w.kept,
        λ i j l h g. ground (
          arith,
          p.1 i j l h,
          q.1 i j,
          p.0.beyond i,
          p.0.beyond j,
          w.front i l,
          w.rear j,
          w.front j,
          w.rear i,
        ),
      )
