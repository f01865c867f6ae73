-- ===== src/Fallback/Safe.antt =====
-- The heap sort of the fallback returns, and rearranges the elements from `low` to `low + part_length`.
use ksort.Base.{
  ℕ, zero, suc, ◌+◌, ◌-◌, ◌*◌, ◌/◌, ◌≤◌, ◌<◌, ◌≡◌, ◌≢◌, refl, ◌⊎◌, inl, inr, List, some, ℤ, ◌==◌,
  ltb, leb, is_positive, Bool, true, false, arith,
}
use ksort.Run.{Returns, returns, Returns-bind, Returns-map, Returns-if}
use ksort.Array.{length, get_elem?, set, load, IsPermutedIn}
use ksort.Array.Range.{IsPermutedIn-refl}
use ksort.Array.Hole.{
  IsHoled, load-Returns, store-Returns, compare_at-Returns, take_out, move_hole, fill_hole,
}
use ksort.Fallback.{
  larger, heap_down, heapify_at, heapify, floyd_down, floyd_up, extract_at, extract, heap_fallback,
}

module _ {A : Type 0} (key : A → ℕ) (cmp_func : A → A → ℤ) (low : ℕ) where
  larger-bounds :
      (xs : List A) (two : Bool) (j : ℕ)
      → low + j < length xs
      → (two ≡ true → low + (j + 1) < length xs)
      → Returns (λ m. (j ≤ m) × (m ≤ j + 1) × (two ≡ false → m ≡ j)) (larger cmp_func low xs two j)
  unfolding larger
  larger-bounds xs false j h g = returns (omega arith, omega arith, λ _. refl)
  larger-bounds xs true j h g =
      Returns-bind (compare_at-Returns cmp_func xs (low + j) (low + (j + 1)) h (g refl))
        λ z _. returns (ground arith, ground arith, λ e. absurd (ground arith))

  module _ (orig : List A) (top : ℕ) (inside : low + top < length orig) where
    -- the elements from `low` to `low + top` but for a hole at `low + i`
    abbrev IsOpen : List A → A → ℕ → Type 0
    IsOpen ys tmp i = IsHoled key low (low + top + 1) orig ys (low + i) tmp

    moved :
        {i : ℕ} {ys : List A} {tmp : A} (y : A) (j : ℕ)
        → IsOpen ys tmp i
        → j ≤ top
        → i ≢ j
        → get_elem? ys (low + j) ≡ some y
        → IsOpen (set ys (low + i) y) tmp j
    moved y j v h n e =
        move_hole key (low + j) y (omega arith) v (omega arith) (omega arith)
          (λ same. n (omega (arith, same))) e

    heap_down-IsOpen :
        (fuel : ℕ) (ys : List A) (part_length : ℕ) (tmp : A) (i : ℕ)
        → part_length < i + fuel
        → i ≤ part_length
        → part_length ≤ top
        → IsOpen ys tmp i
        → Returns
            (λ (r : List A × ℕ). IsOpen r.0 tmp r.1)
            (heap_down cmp_func low fuel ys part_length tmp i)
    unfolding heap_down
    heap_down-IsOpen zero ys part_length tmp i f g h v = absurd (omega arith)
    heap_down-IsOpen (suc fuel) ys part_length tmp i f g h v =
        Returns-if (leb (2 * i + 2) part_length)
          (λ e.
            let more : 2 * i + 2 ≤ part_length = ground arith in
            Returns-bind
              (larger-bounds ys (ltb (2 * i + 2) part_length) (2 * i + 2) (omega (arith, v.size))
                λ g. ground (arith, v.size))
              λ j b.
                let close : j ≤ part_length = ground (arith, b.1, b.2) in
                Returns-bind (load-Returns ys (low + j) (omega (arith, v.size))) λ y at_j.
                  Returns-if (is_positive (cmp_func y tmp))
                    (λ _.
                      Returns-bind (store-Returns ys (low + i) y (omega (arith, v.size, v.high)))
                        λ zs e'.
                          heap_down-IsOpen fuel zs part_length tmp j (omega (arith, b.0)) close h (
                            rw e' (
                              moved y j v (omega arith) (λ same. absurd (omega (arith, same, b.0)))
                                at_j)))
                    λ _. returns v)
          λ _. returns v

    floyd_down-IsOpen :
        (fuel : ℕ) (ys : List A) (part_length : ℕ) (tmp : A) (i j : ℕ)
        → part_length - j < fuel
        → (i ≡ part_length) ⊎ (i < j)
        → i ≤ part_length
        → part_length ≤ top
        → IsOpen ys tmp i
        → Returns
            (λ (r : List A × ℕ). (r.1 ≤ part_length) × IsOpen r.0 tmp r.1)
            (floyd_down cmp_func low fuel ys part_length i j)
    unfolding floyd_down
    floyd_down-IsOpen zero ys part_length tmp i j f n g h v = absurd (omega arith)
    floyd_down-IsOpen (suc fuel) ys part_length tmp i j f n g h v =
        Returns-if (ltb j part_length)
          (λ e.
            let more : j < part_length = ground arith in
            Returns-bind
              (larger-bounds ys (ltb j (part_length - 1)) j (omega (arith, v.size))
                λ g. ground (arith, v.size))
              λ j' b.
                let close : j' < part_length = ground (arith, b.1, b.2) in
                let apart : i ≢ j' = ground (arith, n, b.0) in
                Returns-bind (load-Returns ys (low + j') (omega (arith, v.size))) λ y at_j.
                  Returns-bind (store-Returns ys (low + i) y (omega (arith, v.size, v.high)))
                    λ zs e'.
                      floyd_down-IsOpen fuel zs part_length tmp j' (2 * j' + 2) (omega (arith, b.0))
                        (inr (omega arith)) (omega arith) h
                        (rw e' (moved y j' v (omega arith) apart at_j)))
          λ _. returns (g, v)

    floyd_up-IsOpen :
        (fuel : ℕ) (ys : List A) (tmp : A) (i : ℕ)
        → i < fuel
        → i ≤ top
        → IsOpen ys tmp i
        → Returns (λ (r : List A × ℕ). IsOpen r.0 tmp r.1) (floyd_up cmp_func low fuel ys tmp i)
    unfolding floyd_up
    floyd_up-IsOpen zero ys tmp i f h v = absurd (omega arith)
    floyd_up-IsOpen (suc fuel) ys tmp i f h v =
        Returns-if (ltb 1 i)
          (λ e.
            let more : 1 < i = ground arith in
            Returns-bind (load-Returns ys (low + (i - 2) / 2) (omega (arith, v.size))) λ y at_j.
              Returns-if (is_positive (cmp_func tmp y))
                (λ _.
                  Returns-bind (store-Returns ys (low + i) y (omega (arith, v.size, v.high)))
                    λ zs e'. floyd_up-IsOpen fuel zs tmp ((i - 2) / 2) (omega arith) (omega arith) (
                      rw e' (
                        moved y ((i - 2) / 2) v (omega arith) (λ same. absurd (omega (arith, same)))
                          at_j)))
                λ _. returns v)
          λ _. returns v

    -- the range rearranged
    abbrev IsKept : List A → Type 0
    IsKept ys = IsPermutedIn key low (low + top + 1) orig ys

    taken :
        (ys : List A) (k : ℕ)
        → k ≤ top
        → IsKept ys
        → Returns (λ tmp. IsOpen ys tmp k) (load ys (low + k))
    taken ys k h p =
        Returns-map (load-Returns ys (low + k) (omega (arith, p.size)))
          λ tmp e. take_out key (low + k) tmp p (omega arith) (omega arith) e

    heapify_at-IsKept :
        (ys : List A) (part_length k : ℕ)
        → k ≤ part_length
        → part_length ≤ top
        → IsKept ys
        → Returns IsKept (heapify_at cmp_func low ys part_length k)
    unfolding heapify_at
    heapify_at-IsKept ys part_length k g h p = Returns-bind (taken ys k (omega arith) p) λ tmp v.
        Returns-bind (heap_down-IsOpen (part_length + 1) ys part_length tmp k (omega arith) g h v)
          λ r w. fill_hole key (omega arith) w

    heapify-IsKept :
        (ys : List A) (part_length k : ℕ)
        → k ≤ part_length
        → part_length ≤ top
        → IsKept ys
        → Returns IsKept (heapify cmp_func low ys part_length k)
    unfolding heapify
    heapify-IsKept ys part_length zero g h p = heapify_at-IsKept ys part_length zero g h p
    heapify-IsKept ys part_length (suc k) g h p =
        Returns-bind (heapify_at-IsKept ys part_length (suc k) g h p)
          λ zs q. heapify-IsKept zs part_length k (omega arith) h q

    extract_at-IsKept :
        (ys : List A) (part_length : ℕ)
        → part_length ≤ top
        → IsKept ys
        → Returns IsKept (extract_at cmp_func low ys part_length)
    unfolding extract_at
    extract_at-IsKept ys part_length h p = Returns-bind (taken ys part_length h p) λ tmp v.
        Returns-bind
          (floyd_down-IsOpen (part_length + 1) ys part_length tmp part_length 0 (omega arith)
            (inl refl) (omega arith) h v)
          λ r w.
            Returns-bind
              (floyd_up-IsOpen (part_length + 1) r.0 tmp r.1 (omega (arith, w.0))
                (omega (arith, w.0)) w.1)
              λ q u. fill_hole key (omega arith) u

    extract-IsKept :
        (ys : List A) (part_length : ℕ)
        → part_length ≤ top
        → IsKept ys
        → Returns IsKept (extract cmp_func low ys part_length)
    unfolding extract
    extract-IsKept ys zero h p = extract_at-IsKept ys zero h p
    extract-IsKept ys (suc part_length) h p =
        Returns-bind (extract_at-IsKept ys (suc part_length) h p)
          λ zs q. extract-IsKept zs part_length (omega arith) q

  -- For any comparator, the heap sort on the elements from `low` to `low + part_length`, the last one
  -- included, returns where these lie inside the array: they are rearranged among themselves, and no
  -- other element is touched.
  pub heap_fallback-IsPermutedIn :
      (xs : List A) (part_length : ℕ)
      → low + part_length < length xs
      → Returns
          (IsPermutedIn key low (low + part_length + 1) xs)
          (heap_fallback cmp_func low xs part_length)
  unfolding heap_fallback
  heap_fallback-IsPermutedIn xs part_length h =
      let start = IsPermutedIn-refl low (low + part_length + 1) xs in
      Returns-if (part_length == 0) (λ _. returns start)
        λ _.
          Returns-bind
            (heapify-IsKept xs part_length h xs part_length (part_length / 2) (omega arith)
              (omega arith) start)
            λ ys p. extract-IsKept xs part_length h ys part_length (omega arith) p
