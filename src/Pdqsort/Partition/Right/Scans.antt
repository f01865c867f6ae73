-- ===== src/Pdqsort/Partition/Right/Scans.antt =====
-- The scans of `partition_right`: with an element that stops it, each returns where it stops.
use ksort.Base.{ℕ, zero, suc, ◌+◌, ◌-◌, ◌≤◌, ◌<◌, ◌≡◌, List, arith, ◌==◌, ltb, false, ℤ}
use ksort.Run.{Returns, returns, Returns-bind, Returns-map, Returns-if}
use ksort.Array.{length, key_at, IsLess}
use ksort.Pdqsort.{back}
use ksort.Pdqsort.Insertion.Sift.{less_at-ltb}
use ksort.Pdqsort.Partition.{right_down, right_up, right_down_to}

module _ {A : Type 0} (key : A → ℕ) where
  -- where a scan up from `first` stops
  abbrev pub IsUp : List A → ℕ → ℕ → ℕ → ℕ → Type 0
  IsUp xs begin first t m =
      (first < m)
      × (m ≤ t)
      × (key_at key xs begin ≤ key_at key xs m)
      × ((k : ℕ) → first < k → k < m → key_at key xs k < key_at key xs begin)

  -- where a scan down from `last` stops
  abbrev pub IsDown : List A → ℕ → ℕ → ℕ → ℕ → Type 0
  IsDown xs begin s last m =
      (s ≤ m)
      × (m < last)
      × (key_at key xs m < key_at key xs begin)
      × ((k : ℕ) → m < k → k < last → key_at key xs begin ≤ key_at key xs k)

  -- where a scan down stops that goes no further than `first`
  abbrev pub IsDownTo : List A → ℕ → ℕ → ℕ → ℕ → Type 0
  IsDownTo xs begin first last m =
      (first ≤ m)
      × (m ≤ last)
      × (first < last → m < last)
      × (first < m → key_at key xs m < key_at key xs begin)
      × ((k : ℕ) → m < k → k < last → key_at key xs begin ≤ key_at key xs k)

  module _ (cmp_func : A → A → ℤ) (less : IsLess key cmp_func) where
    pub right_up-stop :
        (fuel : ℕ) (xs : List A) (begin first t : ℕ)
        → t < first + fuel
        → first < t
        → t < length xs
        → begin < length xs
        → key_at key xs begin ≤ key_at key xs t
        → Returns (IsUp xs begin first t) (right_up cmp_func fuel xs begin first)
    unfolding right_up
    right_up-stop zero xs begin first t f h l b le = absurd (omega arith)
    right_up-stop (suc fuel) xs begin first t f h l b le =
        Returns-bind (less_at-ltb key cmp_func less xs (first + 1) begin (omega arith) b) λ below e.
          Returns-if below
            (λ g.
              Returns-map
                (right_up-stop fuel xs begin (first + 1) t (omega arith) (ground arith) l b le)
                λ m r. (omega (arith, r.0), r.1, r.2, λ k p q. ground (arith, r.3 k)))
            λ g. returns (omega arith, omega arith, ground arith, λ k p q. absurd (omega arith))

    pub right_down-stop :
        (fuel : ℕ) (xs : List A) (begin s last : ℕ)
        → last < fuel
        → s < last
        → last ≤ length xs
        → begin < length xs
        → key_at key xs s < key_at key xs begin
        → Returns (IsDown xs begin s last) (right_down cmp_func fuel xs begin last)
    unfolding right_down back
    right_down-stop zero xs begin s last f h l b lt = absurd (omega arith)
    right_down-stop (suc fuel) xs begin s last f h l b lt =
        let nonzero : (last == 0) ≡ false = ground arith in
        rw nonzero (
          Returns-bind (less_at-ltb key cmp_func less xs (last - 1) begin (omega arith) b)
            λ below t.
              Returns-if below
                (λ e.
                  returns (omega arith, omega arith, ground arith, λ k p q. absurd (omega arith)))
                λ e.
                  Returns-map
                    (right_down-stop fuel xs begin s (last - 1) (omega arith) (ground arith)
                      (omega arith) b lt)
                    λ m r. (r.0, omega (arith, r.1), r.2, λ k p q. ground (arith, r.3 k p)))

    pub right_down_to-stop :
        (fuel : ℕ) (xs : List A) (begin first last : ℕ)
        → last < fuel
        → first ≤ last
        → last ≤ length xs
        → begin < length xs
        → Returns (IsDownTo xs begin first last) (right_down_to cmp_func fuel xs begin first last)
    unfolding right_down_to back
    right_down_to-stop zero xs begin first last f h l b = absurd (omega arith)
    right_down_to-stop (suc fuel) xs begin first last f h l b =
        Returns-if (ltb first last)
          (λ g.
            let nonzero : (last == 0) ≡ false = ground arith in
            rw nonzero (
              Returns-bind (less_at-ltb key cmp_func less xs (last - 1) begin (ground arith) b)
                λ below t.
                  Returns-if below
                    (λ e. returns (
                      ground arith,
                      omega arith,
                      λ p. omega (arith, p),
                      λ _. ground arith,
                      λ k p q. absurd (omega arith),
                    ))
                    λ e.
                      Returns-map
                        (right_down_to-stop fuel xs begin first (last - 1) (ground arith)
                          (ground arith) (omega arith) b)
                        λ m r. (
                          r.0,
                          omega (arith, r.1),
                          λ _. ground (arith, r.1),
                          r.3,
                          λ k p q. ground (arith, r.4 k p),
                        )))
          λ g. returns (
            h,
            omega arith,
            λ p. absurd (ground (arith, p)),
            λ p. absurd (ground arith),
            λ k p q. absurd (omega arith),
          )
