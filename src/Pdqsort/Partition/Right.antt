-- ===== src/Pdqsort/Partition/Right.antt =====
-- `partition_right` moves the elements below the pivot in front of it.
pub mod Scans
use ksort.Base.{
  ℕ, zero, suc, ◌+◌, ◌-◌, ◌≤◌, ◌<◌, ◌≡◌, List, arith, ◌==◌, ltb, ℤ, if◌then◌else◌, Bool,
}
use ksort.Run.{Returns, returns, Returns-bind, Returns-map, Returns-if}
use ksort.Array.{length, key_at, IsLess, IsSwapped, IsPermutedIn}
use ksort.Array.Access.{swap_at-IsSwapped}
use ksort.Array.Range.{IsPermutedIn-refl, IsPermutedIn-trans, IsSwapped-IsPermutedIn}
use ksort.Pdqsort.Partition.{right_down, right_down_to, right_loop, partition_right}
use Scans.{IsDown, IsUp, right_down-stop, right_up-stop, right_down_to-stop}

module _ {A : Type 0} (key : A → ℕ) where
  -- at the test of the last loop: in front of `first` all is below the pivot, from `first` on nothing
  record ScanInv (begin end : ℕ) (xs : List A) (first last : ℕ) : Type 0 where
    inside : end ≤ length xs
    low : begin < first
    high : first < end
    roof : last < end
    front : (k : ℕ) → begin < k → k < first → key_at key xs k < key_at key xs begin
    at_first : key_at key xs begin ≤ key_at key xs first
    middle : first < last → key_at key xs last < key_at key xs begin
    rear : (k : ℕ) → last < k → k < end → key_at key xs begin ≤ key_at key xs k

  -- the range is rearranged so that nothing in front of `m` is above the element at `m`, and nothing
  -- behind it is below
  pub record IsPivoted (begin end : ℕ) (xs ys : List A) (m : ℕ) : Type 0 where
    pub kept : IsPermutedIn key begin end xs ys
    pub low : begin ≤ m
    pub high : m < end
    pub front : (k : ℕ) → begin ≤ k → k < m → key_at key ys k ≤ key_at key ys m
    pub rear : (k : ℕ) → m < k → k < end → key_at key ys m ≤ key_at key ys k

  -- a round of the last loop: an exchange, a scan up and a scan down
  scan_round :
      {begin end first last last' first' : ℕ} {xs ys : List A}
      → ScanInv begin end xs first last
      → IsSwapped key xs first last ys
      → IsUp key ys begin first last first'
      → IsDown key ys begin (first' - 1) last last'
      → key_at key ys begin ≡ key_at key xs begin
      → key_at key ys first < key_at key ys begin
      → key_at key ys begin ≤ key_at key ys last
      → ScanInv begin end ys first' last'
  scan_round {begin} {end} {first} {last} v s u d pivot below above = record {
    inside = omega (arith, v.inside, s.size);
    low = omega (arith, v.low, u.0);
    high = omega (arith, v.roof, u.1);
    roof = omega (arith, v.roof, d.1);
    front = λ k p q. ground (arith, v.front k p, s.at k, pivot, below, u.3 k);
    at_first = u.2;
    middle = λ _. d.2;
    rear = λ k p q. ground (arith, v.rear k, s.at k, pivot, above, d.3 k p, v.low);
  }

  scan_end :
      {begin end n m : ℕ} {xs ys zs : List A}
      → IsPermutedIn key begin end xs ys
      → n ≤ m
      → ScanInv begin end ys m n
      → IsSwapped key ys begin (m - 1) zs
      → IsPivoted begin end xs zs (m - 1)
  scan_end {begin} {m = m} p h v s = record {
    kept = IsPermutedIn-trans p (
        IsSwapped-IsPermutedIn (omega arith) (omega (arith, v.low, v.high)) (omega (arith, v.low))
          (omega (arith, v.high)) s);
    low = omega (arith, v.low);
    high = omega (arith, v.high);
    front = λ k a b. ground (arith, s.at k, s.at (m - 1), v.front k, v.front (m - 1));
    rear = λ k a b. ground (arith, s.at k, s.at (m - 1), v.rear k, v.at_first, v.low);
  }

  module _ (cmp_func : A → A → ℤ) (less : IsLess key cmp_func) where
    right_loop-ScanInv :
        (fuel : ℕ) (xs : List A) (begin end first last : ℕ)
        → last < fuel
        → ScanInv begin end xs first last
        → Returns
            (λ (r : List A × ℕ).
              IsPermutedIn key begin end xs r.0
              × ((n : ℕ) × (n ≤ r.1) × ScanInv begin end r.0 r.1 n))
            (right_loop cmp_func fuel xs begin first last)
    unfolding right_loop
    right_loop-ScanInv zero xs begin end first last f v = absurd (omega arith)
    right_loop-ScanInv (suc fuel) xs begin end first last f v =
        Returns-if (ltb first last)
          (λ g.
            let more : first < last = ground arith in
            Returns-bind
              (swap_at-IsSwapped key xs first last (omega (arith, v.inside, v.high))
                (omega (arith, v.inside, v.roof)))
              λ ys s.
                let kept : IsPermutedIn key begin end xs ys =
                  IsSwapped-IsPermutedIn (omega (arith, v.low)) v.high (omega (arith, v.low)) v.roof
                    s in
                let pivot : key_at key ys begin ≡ key_at key xs begin =
                  ground (arith, s.at begin, v.low) in
                let below : key_at key ys first < key_at key ys begin =
                  ground (arith, s.at first, v.middle more, pivot) in
                let above : key_at key ys begin ≤ key_at key ys last =
                  ground (arith, s.at last, v.at_first, pivot) in
                let inside : end ≤ length ys = omega (arith, s.size, v.inside) in
                Returns-bind
                  (right_up-stop key cmp_func less (length ys + 1) ys begin first last
                    (omega (arith, inside, v.roof)) more (omega (arith, v.roof))
                    (omega (arith, v.low, v.high)) above)
                  λ first' u.
                    let sentinel : key_at key ys (first' - 1) < key_at key ys begin =
                      ground (arith, u.3 (first' - 1), u.0, below) in
                    Returns-bind
                      (right_down-stop key cmp_func less (length ys + 1) ys begin (first' - 1) last
                        (omega (arith, v.roof)) (omega (arith, u.1, u.0)) (omega (arith, v.roof))
                        (omega (arith, v.low, v.high)) sentinel)
                      λ last' d.
                        Returns-map
                          (right_loop-ScanInv fuel ys begin end first' last' (omega (arith, d.1))
                            (scan_round v s u d pivot below above))
                          λ r w. (IsPermutedIn-trans kept w.0, w.1))
          λ g. returns (IsPermutedIn-refl begin end xs, (last, ground arith, v))

    -- the first two scans establish the invariant
    first_scans :
        (xs : List A) (begin end t first : ℕ)
        → end ≤ length xs
        → t < end
        → IsUp key xs begin begin t first
        → Returns
            (λ last. ScanInv begin end xs first last)
            (if first - 1 == begin
              then right_down_to cmp_func (length xs + 1) xs begin first end
              else right_down cmp_func (length xs + 1) xs begin end)
    first_scans xs begin end t first l h u =
        Returns-if (first - 1 == begin)
          (λ e.
            Returns-map
              (right_down_to-stop key cmp_func less (length xs + 1) xs begin first end (omega arith)
                (omega (arith, u.1)) l (omega (arith, u.0, u.1)))
              λ last d. record {
                inside = l;
                low = u.0;
                high = omega (arith, u.1);
                roof = d.2 (omega (arith, u.1));
                front = u.3;
                at_first = u.2;
                middle = d.3;
                rear = d.4;
              })
          λ e.
            let sentinel = u.3 (begin + 1) (omega arith) (ground (arith, u.0)) in
            Returns-map
              (right_down-stop key cmp_func less (length xs + 1) xs begin (begin + 1) end
                (omega arith) (omega (arith, u.0, u.1)) l (omega (arith, u.0, u.1)) sentinel)
              λ last d. record {
                inside = l;
                low = u.0;
                high = omega (arith, u.1);
                roof = d.1;
                front = u.3;
                at_first = u.2;
                middle = λ _. d.2;
                rear = d.3;
              }

    -- For a strict order test and a range in which some element behind the first is not below it,
    -- partition_right returns with the range rearranged around the element at the position that it
    -- returns: nothing in front of it is above it, nothing behind it is below it, and no element outside
    -- the range is touched.
    pub partition_right-IsPivoted :
        (xs : List A) (begin end t : ℕ)
        → begin < t
        → t < end
        → end ≤ length xs
        → key_at key xs begin ≤ key_at key xs t
        → Returns
            (λ (r : List A × ℕ × Bool). IsPivoted begin end xs r.0 r.1)
            (partition_right cmp_func xs begin end)
    unfolding partition_right
    partition_right-IsPivoted xs begin end t h g l le =
        Returns-bind
          (right_up-stop key cmp_func less (length xs + 1) xs begin begin t (omega arith) h
            (omega arith) (omega arith) le)
          λ first u. Returns-bind (first_scans xs begin end t first l g u) λ last v.
            Returns-bind
              (right_loop-ScanInv (length xs + 1) xs begin end first last
                (omega (arith, v.roof, v.inside)) v)
              λ r w.
                let (n, le', v') = w.1 in
                Returns-bind
                  (swap_at-IsSwapped key r.0 begin (r.1 - 1)
                    (omega (arith, v'.inside, v'.low, v'.high)) (omega (arith, v'.inside, v'.high)))
                  λ ys s. returns (scan_end w.0 le' v' s)
