-- ===== src/Heap/Index/Sort.antt =====
-- The loop over indices: it builds the heap and then takes the largest element out, again and again.
use native.Mathlib.Decide.{dec_lt}
use ksort.Base.{ℕ, zero, suc, ◌+◌, ◌-◌, ◌≤◌, ◌<◌, ◌≡◌, ◌≢◌, List, arith, ◌==◌, ℤ, if◌then◌else◌}
use ksort.Run.{Run, Returns, returns, Returns-bind, Returns-if, Returns-map}
use ksort.Array.{length, key_at, IsThreeWay, IsSwapped, IsSwapFunc, IsRearranged, IsSortedIn}
use ksort.Array.Rearranged.{IsRearranged-refl, IsRearranged-trans, IsSwapped-IsRearranged}
use ksort.Heap.Index.{up, sort_loop}
use ksort.Heap.Index.Order.{IsHeapFrom}
use ksort.Heap.Index.Shift.{Sifted}
use ksort.Heap.Index.Sift.{sift-Sifted}

module _ {A : Type 0} (key : A → ℕ) where
  -- the elements from `n` on are in their places: none before them is above them
  abbrev pub IsTail : ℕ → ℕ → List A → Type 0
  IsTail n num xs = (i j : ℕ) → i ≤ j → n ≤ j → j < num → key_at key xs i ≤ key_at key xs j

  root_most_below :
      (fuel : ℕ) {n : ℕ} (xs : List A) (k : ℕ)
      → IsHeapFrom key 0 n xs
      → k < fuel
      → k < n
      → key_at key xs k ≤ key_at key xs 0
  root_most_below zero xs k h f p = absurd (omega arith)
  root_most_below (suc fuel) xs k h f p = ground (arith, h k, root_most_below fuel xs (up k) h)

  -- no element of a heap is above its root
  pub root_most :
      {n : ℕ} (xs : List A) (k : ℕ)
      → IsHeapFrom key 0 n xs
      → k < n
      → key_at key xs k ≤ key_at key xs 0
  root_most xs k h p = root_most_below (suc k) xs k h (omega arith) p

  pub record LoopInv (num n a : ℕ) (xs : List A) : Type 0 where
    pub fits : num ≤ length xs
    pub positive : 0 < n
    pub inside : n ≤ num
    pub start : a < n
    pub building : 0 < a → n ≡ num
    pub heap : IsHeapFrom key a n xs
    pub tail : IsTail n num xs

  build_LoopInv :
      {num n a : ℕ} {xs ys : List A}
      → LoopInv num n a xs
      → 0 < a
      → Sifted key (a - 1) n xs ys
      → LoopInv num n (a - 1) ys
  build_LoopInv v h (heap, moved) = record {
    fits = omega (arith, v.fits, moved.size);
    positive = v.positive;
    inside = v.inside;
    start = omega (arith, v.start);
    building = λ _. v.building h;
    heap = heap;
    tail = λ i j p q r. absurd (omega (arith, v.building h));
  }

  module _ {num n : ℕ} {xs ys : List A} (v : LoopInv num n 0 xs) (more : n - 1 ≢ 0)
      (s : IsSwapped key xs 0 (n - 1) ys) where
    swap_heap : IsHeapFrom key 1 (n - 1) ys
    swap_heap k p q h = ground (arith, s.at k, s.at (up k), v.heap k)

    module _ {zs : List A} (w : Sifted key 0 (n - 1) ys zs) where
      -- every element of the rest comes from before the place of the one that was taken out
      rest_below : (i : ℕ) → i < n - 1 → (m : ℕ) × (m < n) × (key_at key zs i ≡ key_at key xs m)
      rest_below i h =
          let (m, hm, e) = w.1.within i h in
          ((if m == 0 then n - 1 else m), ground arith, ground (arith, s.at m))

      rest_same : (j : ℕ) → n - 1 < j → key_at key zs j ≡ key_at key xs j
      rest_same j h = ground (arith, w.1.beyond j, s.at j)

      rest_top : key_at key zs (n - 1) ≡ key_at key xs 0
      rest_top = ground (arith, w.1.beyond (n - 1), s.at (n - 1))

      extract-IsTail : IsTail (n - 1) num zs
      extract-IsTail i j p q r = elim (dec_lt i (n - 1)) [
        | yes h ↦
            let (m, hm, e) = rest_below i h in
            ground (arith, e, rest_same j, rest_top, root_most xs m v.heap, v.tail m j, v.inside)
        | no h ↦
            ground (arith, rest_same i, rest_same j, rest_top, v.tail 0 j, v.tail i j, v.inside)
      ]

      extract_LoopInv : LoopInv num (n - 1) 0 zs
      extract_LoopInv = record {
        fits = omega (arith, v.fits, s.size, w.1.size);
        positive = omega arith;
        inside = omega (arith, v.inside);
        start = omega arith;
        building = λ h. absurd (omega arith);
        heap = w.0;
        tail = extract-IsTail;
      }

  -- the first `num` elements are rearranged into ascending order
  abbrev pub IsSortedFront : ℕ → List A → List A → Type 0
  IsSortedFront num xs ys = IsRearranged key num xs ys × IsSortedIn key ys 0 num

  last_sorted : {num n : ℕ} {xs : List A} → LoopInv num n 0 xs → n - 1 ≡ 0 → IsSortedIn key xs 0 num
  last_sorted v e i j p q r = ground (arith, v.tail i j, v.positive)

  widen :
      {n num : ℕ} {xs ys : List A} → n ≤ num → IsRearranged key n xs ys → IsRearranged key num xs ys
  widen {n} {num} h m = record {
    size = m.size;
    perm = m.perm;
    beyond = λ k p. m.beyond k (omega arith);
    within = λ k p. elim (dec_lt k n) [
      | yes q ↦ let (l, hl, e) = m.within k q in (l, omega arith, e)
      | no q ↦ (k, p, m.beyond k (omega arith))
    ];
  }

  module _ (cmp : A → A → ℤ) (three_way : IsThreeWay key cmp) (swap : List A → ℕ → ℕ → Run (List A))
      (swaps : IsSwapFunc key swap) where
    pub sort_loop-sorts :
        (fuel num n a : ℕ) (xs : List A)
        → a + n < fuel
        → LoopInv num n a xs
        → Returns (IsSortedFront num xs) (sort_loop cmp swap fuel xs n a)
    unfolding sort_loop
    sort_loop-sorts zero num n a xs f v = absurd (omega arith)
    sort_loop-sorts (suc fuel) num n a xs f v =
        Returns-if (a == 0)
          (λ e.
            let zero_a : a ≡ 0 = ground arith in
            let v' = rw zero_a at v in
            Returns-if (n - 1 == 0)
              (λ g. returns (IsRearranged-refl num xs, last_sorted v' (ground arith)))
              λ g.
                let more : n - 1 ≢ 0 = ground arith in
                Returns-bind
                  (swaps xs 0 (n - 1) (omega (arith, v.fits, v.inside))
                    (omega (arith, v.fits, v.inside)))
                  λ ys s.
                    Returns-bind
                      (sift-Sifted key cmp three_way swap ys (n - 1) 0 (omega arith)
                        (omega (arith, v.fits, v.inside, s.size)) (swap_heap v' more s) swaps)
                      λ zs w.
                        Returns-map
                          (sort_loop-sorts fuel num (n - 1) 0 zs (omega (arith, v.positive))
                            (extract_LoopInv v' more s w))
                          λ us t. (
                            IsRearranged-trans
                                (IsRearranged-trans
                                  (IsSwapped-IsRearranged (omega (arith, v.positive, v.inside))
                                    (omega (arith, v.positive, v.inside)) s)
                                  (widen (omega (arith, v.inside)) w.1))
                                t.0,
                            t.1,
                          ))
          λ e.
            Returns-bind
              (sift-Sifted key cmp three_way swap xs n (a - 1) (omega (arith, v.start))
                (omega (arith, v.fits, v.inside)) (λ k p q h. v.heap k p q (ground arith)) swaps)
              λ ys w.
                Returns-map
                  (sort_loop-sorts fuel num n (a - 1) ys (ground arith)
                    (build_LoopInv v (ground arith) w))
                  λ zs t. (IsRearranged-trans (widen v.inside w.1) t.0, t.1)
