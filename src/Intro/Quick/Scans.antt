-- ===== src/Intro/Quick/Scans.antt =====
-- The scans of a partition of the quicksort, with an element that stops them.
use ksort.Base.{ℕ, zero, suc, ◌+◌, ◌-◌, ◌≤◌, ◌<◌, ◌≡◌, List, arith, ◌==◌, ℤ, is_negative, false}
use ksort.Run.{Returns, returns, Returns-bind, Returns-map, Returns-if}
use ksort.Array.{length, key_at, IsThreeWay}
use ksort.Array.Access.{compare_at-Compared}
use ksort.Pdqsort.{back}
use ksort.Intro.Quick.{left_scan, right_scan}

module _ {A : Type 0} (key : A → ℕ) where
  module _ (cmp_func : A → A → ℤ) (three : IsThreeWay key cmp_func) where
    pub left_scan-stop :
        (fuel : ℕ) (xs : List A) (mid left t : ℕ)
        → t < left + fuel
        → left ≤ t
        → t < length xs
        → mid < length xs
        → key_at key xs mid ≤ key_at key xs t
        → Returns
            (λ m.
              (left ≤ m)
              × (m ≤ t)
              × (key_at key xs mid ≤ key_at key xs m)
              × ((k : ℕ) → left ≤ k → k < m → key_at key xs k < key_at key xs mid))
            (left_scan cmp_func fuel xs mid left)
    unfolding left_scan
    left_scan-stop zero xs mid left t f h l b le = absurd (omega arith)
    left_scan-stop (suc fuel) xs mid left t f h l b le =
        Returns-bind (compare_at-Compared key xs left mid (omega arith) b cmp_func three) λ z c.
          Returns-if (is_negative z)
            (λ g.
              let below : key_at key xs left < key_at key xs mid = ground (arith, c.negative) in
              Returns-map
                (left_scan-stop fuel xs mid (left + 1) t (omega arith) (ground arith) l b le)
                λ m r. (omega (arith, r.0), r.1, r.2, λ k p q. ground (arith, r.3 k)))
            λ g. returns (omega arith, h, ground (arith, c.negative), λ k p q. absurd (omega arith))

    pub right_scan-stop :
        (fuel : ℕ) (xs : List A) (mid s right : ℕ)
        → right < fuel
        → s ≤ right
        → right < length xs
        → mid < length xs
        → key_at key xs s ≤ key_at key xs mid
        → Returns
            (λ m.
              (s ≤ m)
              × (m ≤ right)
              × (key_at key xs m ≤ key_at key xs mid)
              × ((k : ℕ) → m < k → k ≤ right → key_at key xs mid < key_at key xs k))
            (right_scan cmp_func fuel xs mid right)
    unfolding right_scan back
    right_scan-stop zero xs mid s right f h l b le = absurd (omega arith)
    right_scan-stop (suc fuel) xs mid s right f h l b le =
        Returns-bind (compare_at-Compared key xs mid right b l cmp_func three) λ z c.
          Returns-if (is_negative z)
            (λ g.
              let above : key_at key xs mid < key_at key xs right = ground (arith, c.negative) in
              let nonzero : (right == 0) ≡ false = ground arith in
              rw nonzero (
                Returns-map
                  (right_scan-stop fuel xs mid s (right - 1) (ground arith) (ground arith)
                    (omega arith) b le)
                  λ m r. (r.0, omega (arith, r.1), r.2, λ k p q. ground (arith, r.3 k p))))
            λ g. returns (h, omega arith, ground (arith, c.negative), λ k p q. absurd (omega arith))
