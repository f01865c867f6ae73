-- ===== src/Intro/Quick/Split.antt =====
-- A partition of the quicksort returns, with neither scan outside the range.
use ksort.Base.{
  ℕ, zero, suc, ◌+◌, ◌-◌, ◌/◌, ◌≤◌, ◌<◌, ◌≡◌, refl, List, arith, ◌==◌, ltb, leb, ℤ, if◌then◌else◌,
  is_negative, is_positive,
}
use ksort.Run.{Returns, returns, Returns-bind, Returns-map, Returns-if}
use ksort.Array.{length, key_at, IsThreeWay, IsSwapped, IsPermutedIn}
use ksort.Array.Access.{compare_at-Compared, swap_at-IsSwapped}
use ksort.Array.Range.{
  IsPermutedIn-refl, IsPermutedIn-trans, IsPermutedIn-widen, IsSwapped-IsPermutedIn,
}
use ksort.Intro.Quick.{swap_below, order_three, split_loop, split}
use ksort.Intro.Quick.Scans.{left_scan-stop, right_scan-stop}

module _ {A : Type 0} (key : A → ℕ) where
  -- at the head of the loop: nothing in front of `left` is above the element at `mid`, and nothing
  -- behind `right` is below it
  record SplitInv (low high : ℕ) (xs : List A) (mid left right : ℕ) : Type 0 where
    inside : high < length xs
    first : low < left
    order : left ≤ right
    last : right < high
    mid_low : low ≤ mid
    mid_high : mid ≤ high
    front : (k : ℕ) → low ≤ k → k < left → key_at key xs k ≤ key_at key xs mid
    rear : (k : ℕ) → right < k → k ≤ high → key_at key xs mid ≤ key_at key xs k

  -- the range from `low` to `high` is rearranged into two that overlap nowhere, with a key between them
  pub record IsSplit (low high : ℕ) (xs ys : List A) (left right : ℕ) : Type 0 where
    pub kept : IsPermutedIn key low (high + 1) xs ys
    pub first : low < left
    pub left_end : left ≤ high
    pub right_start : low ≤ right
    pub last : right < high
    pub apart : right < left
    pub pivot : ℕ
    pub front : (k : ℕ) → low ≤ k → k < left → key_at key ys k ≤ pivot
    pub rear : (k : ℕ) → right < k → k ≤ high → pivot ≤ key_at key ys k

  -- behind both scans
  record Scanned (low high : ℕ) (xs : List A) (mid l r : ℕ) : Type 0 where
    first : low < l
    close : l ≤ r + 1
    last : r < high
    at_left : key_at key xs mid ≤ key_at key xs l
    at_right : key_at key xs r ≤ key_at key xs mid
    front : (k : ℕ) → low ≤ k → k < l → key_at key xs k ≤ key_at key xs mid
    rear : (k : ℕ) → r < k → k ≤ high → key_at key xs mid ≤ key_at key xs k

  module _ {low high mid l r : ℕ} {xs ys : List A} (w : Scanned low high xs mid l r) (lt : l < r)
      (s : IsSwapped key xs l r ys) where
    exchanged_kept :
        {orig : List A}
        → IsPermutedIn key low (high + 1) orig xs
        → IsPermutedIn key low (high + 1) orig ys
    exchanged_kept p = IsPermutedIn-trans p (
        IsSwapped-IsPermutedIn (omega (arith, w.first)) (omega (arith, w.last))
          (omega (arith, w.first)) (omega (arith, w.last)) s)

    exchanged_front : (k : ℕ) → low ≤ k → k < l + 1 → key_at key ys k ≤ key_at key xs mid
    exchanged_front k a b = ground (arith, s.at k, w.front k a, w.at_right)

    exchanged_rear : (k : ℕ) → r - 1 < k → k ≤ high → key_at key xs mid ≤ key_at key ys k
    exchanged_rear k a b = ground (arith, s.at k, w.rear k, w.at_left)

  module _ (cmp_func : A → A → ℤ) (three : IsThreeWay key cmp_func) where
    split_loop-IsSplit :
        (fuel : ℕ) (orig xs : List A) (low high mid left right : ℕ)
        → right < left + fuel
        → IsPermutedIn key low (high + 1) orig xs
        → SplitInv low high xs mid left right
        → Returns
            (λ (r : List A × ℕ × ℕ). IsSplit low high orig r.0 r.1 r.2)
            (split_loop cmp_func fuel xs mid left right)
    unfolding split_loop
    split_loop-IsSplit zero orig xs low high mid left right f p v = absurd (omega (arith, v.order))
    split_loop-IsSplit (suc fuel) orig xs low high mid left right f p v =
        Returns-bind
          (left_scan-stop key cmp_func three (length xs + 1) xs mid left (right + 1)
            (omega (arith, v.inside, v.last)) (omega (arith, v.order))
            (omega (arith, v.inside, v.last)) (omega (arith, v.inside, v.mid_high))
            (v.rear (right + 1) (omega arith) (omega (arith, v.last))))
          λ l u.
            let before : key_at key xs (l - 1) ≤ key_at key xs mid =
              ground (arith, u.3 (l - 1), u.0, v.front (l - 1), v.first) in
            Returns-bind
              (right_scan-stop key cmp_func three (length xs + 1) xs mid (l - 1) right
                (omega (arith, v.inside, v.last)) (omega (arith, u.1))
                (omega (arith, v.inside, v.last)) (omega (arith, v.inside, v.mid_high)) before)
              λ r d.
                let w : Scanned low high xs mid l r = record {
                  first = omega (arith, v.first, u.0);
                  close = omega (arith, d.0);
                  last = omega (arith, v.last, d.1);
                  at_left = u.2;
                  at_right = d.2;
                  front = λ k a b. ground (arith, v.front k a, u.3 k);
                  rear = λ k a b. ground (arith, v.rear k, d.3 k a);
                } in
                Returns-if (ltb l r)
                  (λ e.
                    let lt : l < r = ground arith in
                    Returns-bind
                      (swap_at-IsSwapped key xs l r (omega (arith, w.last, v.inside))
                        (omega (arith, w.last, v.inside)))
                      λ ys s.
                        let mid' = if mid == l then r else if mid == r then l else mid in
                        let q = exchanged_kept w lt s p in
                        let same : key_at key ys mid' ≡ key_at key xs mid =
                          ground (arith, s.at mid, s.at l, s.at r) in
                        Returns-if (leb (l + 1) (r - 1))
                          (λ g.
                            split_loop-IsSplit fuel orig ys low high mid' (l + 1) (r - 1)
                              (omega (arith, u.0, d.1)) q
                              (record {
                                inside = omega (arith, v.inside, s.size);
                                first = omega (arith, w.first);
                                order = ground arith;
                                last = omega (arith, w.last);
                                mid_low = ground (arith, w.first, v.mid_low);
                                mid_high = ground (arith, w.last, v.mid_high);
                                front = λ k a b. rw same (exchanged_front w lt s k a b);
                                rear = λ k a b. rw same (exchanged_rear w lt s k a b);
                              }))
                          λ g. returns (record {
                            kept = q;
                            first = omega (arith, w.first);
                            left_end = omega (arith, w.last);
                            right_start = omega (arith, w.first);
                            last = omega (arith, w.last);
                            apart = ground arith;
                            pivot = key_at key xs mid;
                            front = exchanged_front w lt s;
                            rear = exchanged_rear w lt s;
                          }))
                  λ e.
                    Returns-if (l == r)
                      (λ g.
                        let same : l ≡ r = ground arith in
                        returns (record {
                          kept = p;
                          first = omega (arith, w.first);
                          left_end = omega (arith, w.last);
                          right_start = omega (arith, w.first);
                          last = omega (arith, w.last);
                          apart = omega arith;
                          pivot = key_at key xs mid;
                          front = λ k a b. ground (arith, w.front k a, w.at_right, same);
                          rear = λ k a b. ground (arith, w.rear k, w.at_left, same);
                        }))
                      λ g.
                        Returns-if (leb l r) (λ m. absurd (ground arith))
                          λ m. returns (record {
                            kept = p;
                            first = w.first;
                            left_end = ground (arith, w.last);
                            right_start = ground (arith, w.first, w.close);
                            last = w.last;
                            apart = ground arith;
                            pivot = key_at key xs mid;
                            front = w.front;
                            rear = w.rear;
                          })

    swap_below-Returns :
        (xs : List A) (mid low : ℕ)
        → low < mid
        → mid < length xs
        → Returns
            (λ ys.
              IsPermutedIn key low (mid + 1) xs ys
              × (key_at key ys low ≤ key_at key ys mid)
              × ((k : ℕ) → mid < k → key_at key ys k ≡ key_at key xs k)
              × ((m : ℕ) → key_at key xs low ≤ m → key_at key xs mid ≤ m → key_at key ys mid ≤ m))
            (swap_below cmp_func xs mid low)
    unfolding swap_below
    swap_below-Returns xs mid low h l =
        Returns-bind (compare_at-Compared key xs mid low l (omega arith) cmp_func three) λ z c.
          Returns-if (is_negative z)
            (λ g. Returns-map (swap_at-IsSwapped key xs mid low l (omega arith)) λ ys s. (
              IsSwapped-IsPermutedIn (omega arith) (omega arith) (omega arith) (omega arith) s,
              ground (arith, s.at low, s.at mid, c.negative),
              λ k a. ground (arith, s.at k),
              λ m a b. ground (arith, s.at mid),
            ))
            λ g. returns (
              IsPermutedIn-refl low (mid + 1) xs,
              ground (arith, c.negative),
              λ k a. refl,
              λ m a b. b,
            )

    order_three-Returns :
        (xs : List A) (low mid high : ℕ)
        → low < mid
        → mid < high
        → high < length xs
        → Returns
            (λ ys.
              IsPermutedIn key low (high + 1) xs ys
              × (key_at key ys low ≤ key_at key ys mid)
              × (key_at key ys mid ≤ key_at key ys high))
            (order_three cmp_func xs low mid high)
    unfolding order_three
    order_three-Returns xs low mid high h g l =
        Returns-bind (swap_below-Returns xs mid low h (omega arith)) λ ys p.
          let p' = IsPermutedIn-widen (omega arith) (omega arith) p.0 in
          Returns-bind
            (compare_at-Compared key ys mid high (omega (arith, p.0.size)) (omega (arith, p.0.size))
              cmp_func three)
            λ z c.
              Returns-if (is_positive z)
                (λ e.
                  Returns-bind
                    (swap_at-IsSwapped key ys mid high (omega (arith, p.0.size))
                      (omega (arith, p.0.size)))
                    λ zs s.
                      Returns-map
                        (swap_below-Returns zs mid low h (omega (arith, p.0.size, s.size)))
                        λ us q.
                          let at_high : key_at key zs high ≡ key_at key ys mid =
                            ground (arith, s.at high) in
                          (
                            IsPermutedIn-trans p' (
                                IsPermutedIn-trans
                                  (IsSwapped-IsPermutedIn (omega arith) (omega arith) (omega arith)
                                    (omega arith) s)
                                  (IsPermutedIn-widen (omega arith) (omega arith) q.0)),
                            q.1,
                            omega (
                              arith,
                              q.2 high g,
                              at_high,
                              q.3 (key_at key ys mid) (ground (arith, s.at low, p.1))
                                  (ground (arith, s.at mid, c.positive)),
                            ),
                          ))
                λ e. returns (p', p.1, ground (arith, c.positive))

    -- For a three-way comparator by a key and a range of three elements or more, the partition returns with
    -- the range rearranged, and `left` and `right` the borders of what is not below and not above the
    -- pivot's key.
    pub split-IsSplit :
        (xs : List A) (low high : ℕ)
        → low + 2 ≤ high
        → high < length xs
        → Returns
            (λ (r : List A × ℕ × ℕ). IsSplit low high xs r.0 r.1 r.2)
            (split cmp_func xs low high)
    unfolding split
    split-IsSplit xs low high h l =
        let mid = low + (high - low) / 2 in
        Returns-bind (order_three-Returns xs low mid high (omega arith) (omega arith) l) λ ys p.
          split_loop-IsSplit (length xs + 1) xs ys low high mid (low + 1) (high - 1) (omega arith)
            p.0
            (record {
              inside = omega (arith, p.0.size);
              first = omega arith;
              order = omega arith;
              last = omega arith;
              mid_low = omega arith;
              mid_high = omega arith;
              front = λ k a b. let same : k ≡ low = omega arith in rw same p.1;
              rear = λ k a b. let same : k ≡ high = omega arith in rw same p.2;
            })
