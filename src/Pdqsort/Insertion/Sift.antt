-- ===== src/Pdqsort/Insertion/Sift.antt =====
-- The inner loops: one element goes down to its place in the sorted range in front of it.
use ksort.Base.{
  ℕ, zero, suc, ◌+◌, ◌-◌, ◌≤◌, ◌<◌, ◌≡◌, ◌≢◌, ◌⊎◌, inl, inr, List, arith, ◌==◌, ltb, false, ℤ,
}
use ksort.Run.{Returns, returns, Returns-bind, Returns-map, Returns-if}
use ksort.Array.{length, key_at, IsLess, IsSwapped, IsPermutedIn, IsSortedRange}
use ksort.Array.Access.{compare_at-less, swap_at-IsSwapped}
use ksort.Array.Range.{IsPermutedIn-trans, IsSwapped-IsPermutedIn}
use ksort.Pdqsort.{back, less_at, sift, unguarded_sift}

module _ {A : Type 0} (key : A → ℕ) where
  -- the range from `begin` to `cur` ascends but for the element at `at`, which is not above those behind it
  pub record SiftInv (begin cur at : ℕ) (xs : List A) : Type 0 where
    pub inside : cur < length xs
    pub low : begin ≤ at
    pub high : at ≤ cur
    pub others :
        (i j : ℕ)
        → begin ≤ i
        → i ≤ j
        → j ≤ cur
        → i ≢ at
        → j ≢ at
        → key_at key xs i ≤ key_at key xs j
    pub behind : (j : ℕ) → at < j → j ≤ cur → key_at key xs at ≤ key_at key xs j

  -- the element stops at the front of the range, or at one that is not above it
  pub record SiftEnd (begin cur : ℕ) (xs ys : List A) (at : ℕ) : Type 0 where
    pub kept : IsPermutedIn key begin (cur + 1) xs ys
    pub inv : SiftInv begin cur at ys
    pub stop : (at ≡ begin) ⊎ (key_at key ys (at - 1) ≤ key_at key ys at)

  pub SiftEnd-sorted :
      {begin cur at : ℕ} {xs ys : List A}
      → SiftEnd begin cur xs ys at
      → IsSortedRange key begin (cur + 1) xs ys
  SiftEnd-sorted {begin} {cur} {at} e = (
    e.kept,
    λ i j p q r.
        ground
          (arith, e.inv.others i j, e.inv.behind j, e.inv.others i (at - 1), e.stop, e.inv.low),
  )

  pub swap_SiftInv :
      {begin cur at : ℕ} {xs ys : List A}
      → SiftInv begin cur at xs
      → begin < at
      → key_at key xs at < key_at key xs (at - 1)
      → IsSwapped key xs at (at - 1) ys
      → SiftInv begin cur (at - 1) ys
  swap_SiftInv {begin} {cur} {at} v h lt s = record {
    inside = omega (arith, s.size, v.inside);
    low = omega arith;
    high = omega (arith, v.high);
    others = λ i j p q r t u.
        ground (arith, s.at i, s.at j, v.others i j, v.others (at - 1) j, v.others i (at - 1));
    behind = λ j p q. ground (arith, s.at (at - 1), s.at j, v.behind j);
  }

  pub swap_kept :
      {begin cur at : ℕ} {xs ys : List A}
      → SiftInv begin cur at xs
      → begin < at
      → IsSwapped key xs at (at - 1) ys
      → IsPermutedIn key begin (cur + 1) xs ys
  swap_kept v h s =
      IsSwapped-IsPermutedIn v.low (omega (arith, v.high)) (omega arith) (omega (arith, v.high)) s

  module _ (cmp_func : A → A → ℤ) (less : IsLess key cmp_func) where
    pub less_at-ltb :
        (xs : List A) (i j : ℕ)
        → i < length xs
        → j < length xs
        → Returns (λ b. b ≡ ltb (key_at key xs i) (key_at key xs j)) (less_at cmp_func xs i j)
    unfolding less_at
    less_at-ltb xs i j hi hj =
        Returns-bind (compare_at-less key xs i j hi hj cmp_func less) λ z e. returns e

    pub sift-SiftEnd :
        (fuel : ℕ) (xs : List A) (begin cur at : ℕ)
        → at < fuel
        → SiftInv begin cur at xs
        → begin < at
        → key_at key xs at < key_at key xs (at - 1)
        → Returns (λ r. SiftEnd begin cur xs r.0 r.1) (sift cmp_func fuel xs begin at (at - 1))
    unfolding sift back
    sift-SiftEnd zero xs begin cur at f v h lt = absurd (omega arith)
    sift-SiftEnd (suc fuel) xs begin cur at f v h lt =
        Returns-bind
          (swap_at-IsSwapped key xs at (at - 1) (omega (arith, v.high, v.inside))
            (omega (arith, v.high, v.inside)))
          λ ys s.
            let w = swap_SiftInv v h lt s in
            let kept = swap_kept v h s in
            Returns-if (at - 1 == begin)
              (λ e. returns (record { kept = kept; inv = w; stop = inl (ground arith) }))
              λ e.
                let more : begin < at - 1 = ground arith in
                let nonzero : (at - 1 == 0) ≡ false = ground arith in
                rw nonzero (
                  Returns-bind
                    (less_at-ltb ys (at - 1) (at - 1 - 1) (omega (arith, w.high, w.inside))
                      (omega (arith, w.high, w.inside)))
                    λ b t.
                      Returns-if b
                        (λ g.
                          Returns-map
                            (sift-SiftEnd fuel ys begin cur (at - 1) (omega arith) w more
                              (ground arith))
                            λ r x. record {
                              kept = IsPermutedIn-trans kept x.kept;
                              inv = x.inv;
                              stop = x.stop;
                            })
                        λ g. returns (record { kept = kept; inv = w; stop = inr (ground arith) }))

    -- With an element in front of the range that is above none of it, the loop needs no test for the front.
    pub unguarded_sift-SiftEnd :
        (fuel : ℕ) (xs : List A) (begin cur at : ℕ)
        → at < fuel
        → SiftInv begin cur at xs
        → begin < at
        → 0 < begin
        → key_at key xs (begin - 1) ≤ key_at key xs at
        → key_at key xs at < key_at key xs (at - 1)
        → Returns
            (λ ys. (m : ℕ) × SiftEnd begin cur xs ys m)
            (unguarded_sift cmp_func fuel xs at (at - 1))
    unfolding unguarded_sift back
    unguarded_sift-SiftEnd zero xs begin cur at f v h z sentinel lt = absurd (omega arith)
    unguarded_sift-SiftEnd (suc fuel) xs begin cur at f v h z sentinel lt =
        Returns-bind
          (swap_at-IsSwapped key xs at (at - 1) (omega (arith, v.high, v.inside))
            (omega (arith, v.high, v.inside)))
          λ ys s.
            let w = swap_SiftInv v h lt s in
            let kept = swap_kept v h s in
            let nonzero : (at - 1 == 0) ≡ false = ground arith in
            rw nonzero (
              Returns-bind
                (less_at-ltb ys (at - 1) (at - 1 - 1) (omega (arith, w.high, w.inside))
                  (omega (arith, w.high, w.inside)))
                λ b t.
                  Returns-if b
                    (λ g.
                      let below : key_at key ys (at - 1) < key_at key ys (at - 1 - 1) =
                        ground arith in
                      let front : key_at key ys (begin - 1) ≤ key_at key ys (at - 1) =
                        ground (arith, s.at (begin - 1), s.at (at - 1)) in
                      let more : begin < at - 1 = ground (arith, w.low) in
                      Returns-map
                        (unguarded_sift-SiftEnd fuel ys begin cur (at - 1) (omega arith) w more z
                          front below)
                        λ r x. (
                          x.0,
                          record {
                            kept = IsPermutedIn-trans kept x.1.kept;
                            inv = x.1.inv;
                            stop = x.1.stop;
                          },
                        ))
                    λ g.
                      returns (at - 1, record { kept = kept; inv = w; stop = inr (ground arith) }))
