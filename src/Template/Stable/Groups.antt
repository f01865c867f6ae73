-- ===== src/Template/Stable/Groups.antt =====
-- The order of the groups that GRAIL_REC_MERGE makes.
use native.Mathlib.Decide.{dec_lt}
use ksort.Base.{ℕ, ◌+◌, ◌-◌, ◌≤◌, ◌<◌, List, arith}
use ksort.Array.{key_at, IsSortedIn, IsSortedRange}
use ksort.Template.Bitonic.{value}
use ksort.Template.Stable.Parts.{IsThree, IsGrouped}
use ksort.Template.Stable.Second.{IsGreatest}

module _ (xs ys : List ℕ) (p l1 l2 v k1 k2 m1 m2 : ℕ) (s : IsSortedIn value xs p (p + l1))
    (t : IsSortedIn value xs (p + l1) (p + l1 + l2)) (a : IsThree xs p l1 v k1 k2)
    (b : IsThree xs (p + l1) l2 v m1 m2) (w : IsGrouped p l1 l2 v k1 k2 m1 m2 xs ys) where
  -- what the groups say of each element
  low_below : (k : ℕ) → p ≤ k → k < p + k1 + m1 → key_at value ys k < v
  low_below k h g = elim (dec_lt k (p + k1)) [
    | yes c ↦ omega (arith, w.low_first k c, a.below k h c)
    | no c ↦ omega (
      arith,
      w.low_second k (k + l1 - k1) (omega arith) g (omega arith),
      b.below (k + l1 - k1) (omega arith) (omega arith),
    )
  ]

  high_above : (k : ℕ) → p + k2 + m2 ≤ k → k < p + l1 + l2 → v < key_at value ys k
  high_above k h g =
      let inside = a.inside in
      elim (dec_lt k (p + l1 + m2)) [
        | yes c ↦ omega (
          arith,
          w.high_first k (k - m2) h c (omega arith),
          a.above (k - m2) (omega arith) (omega arith),
        )
        | no c ↦ omega (arith, w.high_second k (omega arith), b.above k (omega arith) g)
      ]

  pub below_first-IsSortedIn : IsSortedIn value ys p (p + k1)
  below_first-IsSortedIn i j h g c = omega (
    arith,
    w.low_first i (omega arith),
    w.low_first j c,
    s i j h g (omega (arith, a.order, a.inside)),
  )

  pub below_second-IsSortedIn : IsSortedIn value ys (p + k1) (p + k1 + m1)
  below_second-IsSortedIn i j h g c =
      let order = a.order in
      let inside = a.inside in
      omega (
        arith,
        w.low_second i (i + l1 - k1) h (omega arith) (omega arith),
        w.low_second j (j + l1 - k1) (omega arith) c (omega arith),
        t (i + l1 - k1) (j + l1 - k1) (omega arith) (omega arith)
            (omega (arith, b.order, b.inside)),
      )

  pub above_first-IsSortedIn : IsSortedIn value ys (p + k2 + m2) (p + k2 + m2 + (l1 - k2))
  above_first-IsSortedIn i j h g c = omega (
    arith,
    w.high_first i (i - m2) h (omega arith) (omega arith),
    w.high_first j (j - m2) (omega arith) (omega arith) (omega arith),
    s (i - m2) (j - m2) (omega arith) (omega arith) (omega arith),
  )

  pub above_second-IsSortedIn :
      IsSortedIn value ys (p + k2 + m2 + (l1 - k2)) (p + k2 + m2 + (l1 - k2) + (l2 - m2))
  above_second-IsSortedIn i j h g c =
      let inside = a.inside in
      let inside' = b.inside in
      omega (
        arith,
        w.high_second i (omega arith),
        w.high_second j (omega arith),
        t i j (omega arith) g (omega arith),
      )

  -- with the upper part sorted, everything from the middle on is in its place
  pub grouped-IsGreatest :
      (zs : List ℕ)
      → IsSortedRange value (p + k2 + m2) (p + l1 + l2) ys zs
      → IsGreatest zs p (p + k1 + m1) (p + l1 + l2)
  grouped-IsGreatest zs r i j h g c d =
      let order = a.order in
      let order' = b.order in
      let low_i : i < p + k2 + m2 → key_at value ys i ≤ v = λ l. elim (dec_lt i (p + k1 + m1)) [
        | yes e ↦ omega (arith, low_below i h e)
        | no e ↦ omega (arith, w.middle i (omega arith) l)
      ] in
      elim (dec_lt j (p + k2 + m2)) [
        | yes e ↦
            omega (
              arith,
              low_i (omega arith),
              w.middle j c e,
              r.0.before i (omega arith),
              r.0.before j e,
            )
        | no e ↦ elim (dec_lt i (p + k2 + m2)) [
          | no l ↦ r.1 i j (omega arith) g d
          | yes l ↦
              let (m, lo, hi, eq) = r.0.within j (omega arith) d in
              omega (arith, low_i l, r.0.before i l, eq, high_above m lo hi)
        ]
      ]
