-- ===== src/Pdqsort/Partition/Scans.antt =====
-- The scans of `partition_left`: with an element that stops it, each returns where it stops.
use ksort.Base.{ℕ, zero, suc, ◌+◌, ◌-◌, ◌≤◌, ◌<◌, ◌≡◌, List, arith, ◌==◌, ltb, false, ℤ}
use ksort.Run.{Returns, returns, Returns-bind, Returns-map, Returns-if}
use ksort.Array.{length, key_at, IsLess}
use ksort.Pdqsort.{back}
use ksort.Pdqsort.Insertion.Sift.{less_at-ltb}
use ksort.Pdqsort.Partition.{left_down, left_up, left_up_to}

module _ {A : Type 0} (key : A → ℕ) where
  -- where a scan down from `last` stops
  abbrev pub IsDown : List A → ℕ → ℕ → ℕ → ℕ → Type 0
  IsDown xs begin s last m =
      (s ≤ m)
      × (m < last)
      × (key_at key xs m ≤ key_at key xs begin)
      × ((k : ℕ) → m < k → k < last → key_at key xs begin < key_at key xs k)

  -- where a scan up from `first` stops
  abbrev pub IsUp : List A → ℕ → ℕ → ℕ → ℕ → Type 0
  IsUp xs begin first t m =
      (first < m)
      × (m ≤ t)
      × (key_at key xs begin < key_at key xs m)
      × ((k : ℕ) → first < k → k < m → key_at key xs k ≤ key_at key xs begin)

  module _ (cmp_func : A → A → ℤ) (less : IsLess key cmp_func) where
    pub left_down-stop :
        (fuel : ℕ) (xs : List A) (begin s last : ℕ)
        → last < fuel
        → s < last
        → last ≤ length xs
        → begin < length xs
        → key_at key xs s ≤ key_at key xs begin
        → Returns (IsDown xs begin s last) (left_down cmp_func fuel xs begin last)
    unfolding left_down back
    left_down-stop zero xs begin s last f h l b le = absurd (omega arith)
    left_down-stop (suc fuel) xs begin s last f h l b le =
        let nonzero : (last == 0) ≡ false = ground arith in
        rw nonzero (
          Returns-bind (less_at-ltb key cmp_func less xs begin (last - 1) b (omega arith))
            λ above t.
              Returns-if above
                (λ e.
                  Returns-map
                    (left_down-stop fuel xs begin s (last - 1) (omega arith) (ground arith)
                      (omega arith) b le)
                    λ m r. (r.0, omega (arith, r.1), r.2, λ k p q. ground (arith, r.3 k p)))
                λ e.
                  returns (omega arith, omega arith, ground arith, λ k p q. absurd (omega arith)))

    pub left_up-stop :
        (fuel : ℕ) (xs : List A) (begin first t : ℕ)
        → t < first + fuel
        → first < t
        → t < length xs
        → begin < length xs
        → key_at key xs begin < key_at key xs t
        → Returns (IsUp xs begin first t) (left_up cmp_func fuel xs begin first)
    unfolding left_up
    left_up-stop zero xs begin first t f h l b lt = absurd (omega arith)
    left_up-stop (suc fuel) xs begin first t f h l b lt =
        Returns-bind (less_at-ltb key cmp_func less xs begin (first + 1) b (omega arith)) λ above e.
          Returns-if above
            (λ g. returns (omega arith, omega arith, ground arith, λ k p q. absurd (omega arith)))
            λ g.
              Returns-map
                (left_up-stop fuel xs begin (first + 1) t (omega arith) (ground arith) l b lt)
                λ m r. (omega (arith, r.0), r.1, r.2, λ k p q. ground (arith, r.3 k))

    pub left_up_to-stop :
        (fuel : ℕ) (xs : List A) (begin last first : ℕ)
        → last < first + fuel
        → first ≤ last
        → last < length xs
        → begin < length xs
        → Returns
            (λ m.
              (first ≤ m)
              × (m ≤ last)
              × (m < last → key_at key xs begin < key_at key xs m)
              × ((k : ℕ) → first < k → k < m → key_at key xs k ≤ key_at key xs begin))
            (left_up_to cmp_func fuel xs begin last first)
    unfolding left_up_to
    left_up_to-stop zero xs begin last first f h l b = absurd (omega arith)
    left_up_to-stop (suc fuel) xs begin last first f h l b =
        Returns-if (ltb first last)
          (λ g.
            let more : first < last = ground arith in
            Returns-bind (less_at-ltb key cmp_func less xs begin (first + 1) b (omega arith))
              λ above e.
                Returns-if above
                  (λ i.
                    returns
                      (omega arith, omega arith, λ _. ground arith, λ k p q. absurd (omega arith)))
                  λ i.
                    Returns-map
                      (left_up_to-stop fuel xs begin last (first + 1) (omega arith) (omega arith) l
                        b)
                      λ m r. (omega (arith, r.0), r.1, r.2, λ k p q. ground (arith, r.3 k)))
          λ g. returns (omega arith, h, λ p. absurd (ground arith), λ k p q. absurd (omega arith))
