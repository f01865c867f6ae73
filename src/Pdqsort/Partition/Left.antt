-- ===== src/Pdqsort/Partition/Left.antt =====
-- `partition_left` moves the elements above the pivot behind it.
use ksort.Base.{
  ℕ, zero, suc, ◌+◌, ◌≤◌, ◌<◌, ◌≡◌, refl, ◌∙◌, List, arith, ◌==◌, ltb, ℤ, if◌then◌else◌,
}
use ksort.Run.{Returns, returns, Returns-bind, Returns-map, Returns-if}
use ksort.Array.{length, key_at, IsLess, IsSwapped, IsPermutedIn}
use ksort.Array.Access.{swap_at-IsSwapped}
use ksort.Array.Range.{IsPermutedIn-refl, IsPermutedIn-trans, IsSwapped-IsPermutedIn}
use ksort.Pdqsort.Partition.{left_up, left_up_to, left_loop, partition_left}
use ksort.Pdqsort.Partition.Scans.{IsDown, IsUp, left_down-stop, left_up-stop, left_up_to-stop}

module _ {A : Type 0} (key : A → ℕ) where
  -- at the test of the last loop: up to `first` nothing is above the pivot, behind `last` all is
  record ScanInv (begin end : ℕ) (xs : List A) (first last : ℕ) : Type 0 where
    inside : end ≤ length xs
    low : begin ≤ first
    floor : begin ≤ last
    high : last < end
    front : (k : ℕ) → begin ≤ k → k < first → key_at key xs k ≤ key_at key xs begin
    middle : first < last → key_at key xs begin < key_at key xs first
    at_last : key_at key xs last ≤ key_at key xs begin
    rear : (k : ℕ) → last < k → k < end → key_at key xs begin < key_at key xs k

  -- the range is rearranged so that the first element's key is at `m`, nothing in front of `m` is above
  -- it, and everything behind `m` is
  pub record IsPartition (begin end : ℕ) (xs ys : List A) (m : ℕ) : Type 0 where
    pub kept : IsPermutedIn key begin end xs ys
    pub low : begin ≤ m
    pub high : m < end
    pub front : (k : ℕ) → begin ≤ k → k < m → key_at key ys k ≤ key_at key ys m
    pub rear : (k : ℕ) → m < k → k < end → key_at key ys m < key_at key ys k
    pub pivot : key_at key ys m ≡ key_at key xs begin

  -- a round of the last loop: an exchange, a scan down and a scan up
  scan_round :
      {begin end first last last' first' : ℕ} {xs ys : List A}
      → ScanInv begin end xs first last
      → IsSwapped key xs first last ys
      → IsDown key ys begin first last last'
      → IsUp key ys begin first (last' + 1) first'
      → key_at key ys begin ≡ key_at key xs begin
      → key_at key ys begin < key_at key ys last
      → ScanInv begin end ys first' last'
  scan_round {begin} {end} {first} {last} v s d u pivot above = record {
    inside = omega (arith, v.inside, s.size);
    low = omega (arith, v.low, u.0);
    floor = omega (arith, v.low, d.0);
    high = omega (arith, v.high, d.1);
    front = λ k p q. ground (arith, v.front k p, v.at_last, s.at k, pivot, u.3 k, u.1, d.1);
    middle = λ _. u.2;
    at_last = d.2;
    rear = λ k p q. ground (arith, v.rear k, s.at k, pivot, above, d.3 k, d.0);
  }

  scan_end :
      {begin end n m : ℕ} {xs ys zs : List A}
      → IsPermutedIn key begin end xs ys
      → m ≤ n
      → ScanInv begin end ys n m
      → key_at key ys begin ≡ key_at key xs begin
      → IsSwapped key ys begin m zs
      → IsPartition begin end xs zs m
  scan_end {m = m} p h v e s = record {
    kept =
        IsPermutedIn-trans p
          (IsSwapped-IsPermutedIn (omega arith) (omega (arith, v.floor, v.high)) v.floor v.high s);
    low = v.floor;
    high = v.high;
    front = λ k a b. ground (arith, s.at k, s.at m, v.front k a, v.at_last);
    rear = λ k a b. ground (arith, s.at k, s.at m, v.rear k a b, v.floor);
    pivot = ground (arith, s.at m, e);
  }

  module _ (cmp_func : A → A → ℤ) (less : IsLess key cmp_func) where
    left_loop-ScanInv :
        (fuel : ℕ) (xs : List A) (begin end first last : ℕ)
        → last < fuel
        → ScanInv begin end xs first last
        → Returns
            (λ (r : List A × ℕ).
              IsPermutedIn key begin end xs r.0
              × ((n : ℕ) × (r.1 ≤ n) × ScanInv begin end r.0 n r.1)
              × (key_at key r.0 begin ≡ key_at key xs begin))
            (left_loop cmp_func fuel xs begin first last)
    unfolding left_loop
    left_loop-ScanInv zero xs begin end first last f v = absurd (omega arith)
    left_loop-ScanInv (suc fuel) xs begin end first last f v =
        Returns-if (ltb first last)
          (λ g.
            let more : first < last = ground arith in
            Returns-bind
              (swap_at-IsSwapped key xs first last (omega (arith, v.inside, v.high))
                (omega (arith, v.inside, v.high)))
              λ ys s.
                let kept : IsPermutedIn key begin end xs ys =
                  IsSwapped-IsPermutedIn (omega (arith, v.low)) (omega (arith, v.high)) v.floor
                    v.high s in
                let pivot : key_at key ys begin ≡ key_at key xs begin =
                  ground (arith, s.at begin, v.low, v.middle more) in
                let below : key_at key ys first ≤ key_at key ys begin =
                  ground (arith, s.at first, v.at_last, pivot) in
                let above : key_at key ys begin < key_at key ys last =
                  ground (arith, s.at last, v.middle more, pivot) in
                Returns-bind
                  (left_down-stop key cmp_func less (length ys + 1) ys begin first last
                    (omega (arith, s.size, v.high, v.inside)) more
                    (omega (arith, s.size, v.high, v.inside))
                    (omega (arith, s.size, v.high, v.inside, v.floor)) below)
                  λ last' d.
                    let sentinel : key_at key ys begin < key_at key ys (last' + 1) =
                      ground (arith, d.3 (last' + 1), d.1, above) in
                    Returns-bind
                      (left_up-stop key cmp_func less (length ys + 1) ys begin first (last' + 1)
                        (omega (arith, d.1, s.size, v.high, v.inside)) (omega (arith, d.0))
                        (omega (arith, d.1, s.size, v.high, v.inside))
                        (omega (arith, s.size, v.high, v.inside, v.floor)) sentinel)
                      λ first' u.
                        Returns-map
                          (left_loop-ScanInv fuel ys begin end first' last' (omega (arith, d.1))
                            (scan_round v s d u pivot above))
                          λ r w. (IsPermutedIn-trans kept w.0, w.1, w.2 ∙ pivot))
          λ g. returns (IsPermutedIn-refl begin end xs, (first, ground arith, v), refl)

    -- the first two scans establish the invariant
    first_scans :
        (xs : List A) (begin end last : ℕ)
        → end ≤ length xs
        → IsDown key xs begin begin end last
        → Returns
            (λ first. ScanInv begin end xs first last)
            (if last + 1 == end
              then left_up_to cmp_func (length xs + 1) xs begin last begin
              else left_up cmp_func (length xs + 1) xs begin begin)
    first_scans xs begin end last l d =
        Returns-if (last + 1 == end)
          (λ e.
            Returns-map
              (left_up_to-stop key cmp_func less (length xs + 1) xs begin last begin
                (omega (arith, d.1)) (omega (arith, d.0)) (omega (arith, d.1))
                (omega (arith, d.0, d.1)))
              λ first u. record {
                inside = l;
                low = u.0;
                floor = d.0;
                high = d.1;
                front = λ k p q. ground (arith, u.3 k);
                middle = u.2;
                at_last = d.2;
                rear = d.3;
              })
          λ e.
            let sentinel : last + 1 < end = ground (arith, d.1) in
            Returns-map
              (left_up-stop key cmp_func less (length xs + 1) xs begin begin (last + 1)
                (omega arith) (omega (arith, d.0)) (omega arith) (omega (arith, d.0))
                (d.3 (last + 1) (omega arith) sentinel))
              λ first u. record {
                inside = l;
                low = omega (arith, u.0);
                floor = d.0;
                high = d.1;
                front = λ k p q. ground (arith, u.3 k);
                middle = λ _. u.2;
                at_last = d.2;
                rear = d.3;
              }

    -- For a strict order test and a range that is not empty, partition_left returns with the range
    -- rearranged so that the first element's key is at the position it returns, up to there no element is
    -- above it, and behind each is; no element outside the range is touched.
    pub partition_left-IsPartition :
        (xs : List A) (begin end : ℕ)
        → begin < end
        → end ≤ length xs
        → Returns
            (λ (r : List A × ℕ). IsPartition begin end xs r.0 r.1)
            (partition_left cmp_func xs begin end)
    unfolding partition_left
    partition_left-IsPartition xs begin end h l =
        Returns-bind
          (left_down-stop key cmp_func less (length xs + 1) xs begin begin end (omega arith) h l
            (omega arith) (omega arith))
          λ last d. Returns-bind (first_scans xs begin end last l d) λ first v.
            Returns-bind
              (left_loop-ScanInv (length xs + 1) xs begin end first last (omega (arith, v.high)) v)
              λ r w.
                let (n, le, v') = w.1 in
                Returns-bind
                  (swap_at-IsSwapped key r.0 begin r.1 (omega (arith, v'.inside))
                    (omega (arith, v'.inside, v'.high)))
                  λ ys s. returns (scan_end w.0 le v' w.2 s)
