-- ===== src/Heap/Index/Sift.antt =====
-- `sift` extends the heap from below `r` to `r`: it finds the leaf, backs up, and shifts.
use native.Mathlib.Decide.{ℕ_discrete}
use ksort.Base.{
  ℕ, zero, suc, ◌+◌, ◌*◌, ◌≤◌, ◌<◌, ◌≡◌, ◌≢◌, refl, sym, ◌⊎◌, inl, inr, List, arith, ◌==◌,
  if◌then◌else◌, ℤ, ltb, is_nonnegative, ltb→lt, ltb→le,
}
use ksort.Run.{Run, Returns, returns, Returns-bind, Returns-if}
use ksort.Array.{length, key_at, IsThreeWay, IsSwapFunc}
use ksort.Array.Access.{Compared, compare_at-Compared}
use ksort.Array.Rearranged.{IsRearranged-refl}
use ksort.Heap.Index.{up, descend, backtrack, sift}
use ksort.Heap.Index.Order.{IsHeapFrom, IsMaxChild, IsPath, IsPath-le, IsPath-lt, IsPath-last}
use ksort.Heap.Index.Shift.{ShiftInv, Sifted, shift-Sifted, shift_done}

module _ {A : Type 0} (key : A → ℕ) (cmp : A → A → ℤ) (three_way : IsThreeWay key cmp)
    (swap : List A → ℕ → ℕ → Run (List A)) where
  module _ (xs : List A) (n r : ℕ) (inside : r < n) (fits : n ≤ length xs) where
    -- the path ends at `j`, which has no child
    abbrev IsLeafPath : ℕ → Type 0
    IsLeafPath j = IsPath key xs n r j × ((k : ℕ) → 0 < k → k < n → up k ≢ j)

    -- the path leads to `j`, whose children are not above `r`; it stops at `r` or above the element there
    abbrev IsPlace : ℕ → Type 0
    IsPlace j =
        IsPath key xs n r j
        × ((k : ℕ) → 0 < k → k < n → up k ≡ j → key_at key xs k ≤ key_at key xs r)
        × ((j ≡ r) ⊎ (key_at key xs r < key_at key xs j))

    larger :
        {b : ℕ} {z : ℤ}
        → 2 * b + 2 < n
        → Compared (key_at key xs (2 * b + 1)) (key_at key xs (2 * b + 2)) z
        → IsMaxChild key xs n b (if is_nonnegative z then 2 * b + 1 else 2 * b + 2)
    larger {b} {z} h c = record {
      inside = ground (arith, c.nonnegative);
      positive = ground arith;
      child = ground arith;
      most = λ k p q e.
          let sides : (k ≡ 2 * b + 1) ⊎ (k ≡ 2 * b + 2) = omega arith in
          ground (arith, c.nonnegative, sides);
    }

    descend-leaf :
        (fuel b : ℕ)
        → n < b + fuel
        → IsPath key xs n r b
        → Returns IsLeafPath (descend cmp swap fuel xs n b)
    unfolding descend
    descend-leaf zero b h p = absurd (omega (arith, IsPath-lt key inside p))
    descend-leaf (suc fuel) b h p =
        Returns-if (ltb (2 * b + 2) n)
          (λ e.
            let below = ltb→lt (2 * b + 2) n e in
            Returns-bind
              (compare_at-Compared key xs (2 * b + 1) (2 * b + 2) (omega arith) (omega arith) cmp
                three_way)
              λ z c.
                descend-leaf fuel (if is_nonnegative z then 2 * b + 1 else 2 * b + 2) (ground arith)
                  (IsPath.down p (larger below c)))
          λ e.
            let above = ltb→le (2 * b + 2) n e in
            Returns-if (2 * b + 2 == n)
              (λ f. returns (
                IsPath.down p (record {
                  inside = ground arith;
                  positive = ground arith;
                  child = ground arith;
                  most =
                      λ k s q t. let same : k ≡ 2 * b + 1 = ground arith in rw same (omega arith);
                }),
                λ k s q t. ground arith,
              ))
              λ f. returns (p, λ k s q t. ground arith)

    backtrack-IsPlace :
        (fuel : ℕ) {j : ℕ}
        → j < fuel
        → IsPath key xs n r j
        → ((k : ℕ) → 0 < k → k < n → up k ≡ j → key_at key xs k ≤ key_at key xs r)
        → Returns IsPlace (backtrack cmp swap fuel xs r j)
    unfolding backtrack
    backtrack-IsPlace zero h p low = absurd (omega arith)
    backtrack-IsPlace (suc fuel) {j} h p low =
        Returns-if (j == r) (λ e. returns (p, low, inl (ground arith)))
          λ e.
            let apart : r ≢ j = ground arith in
            let (shorter, m) = IsPath-last key p apart in
            Returns-bind
              (compare_at-Compared key xs r j (omega arith) (omega (arith, m.inside)) cmp three_way)
              λ z c.
                Returns-if (is_nonnegative z)
                  (λ f.
                    backtrack-IsPlace fuel (omega (arith, m.positive)) shorter
                      λ k s q t. ground (arith, c.nonnegative, m.most k s q t))
                  λ f. returns (p, low, inr (ground (arith, c.nonnegative)))

    module _ (heap : IsHeapFrom key (r + 1) n xs) where
      place_ShiftInv : {c : ℕ} → IsPlace c → c ≢ r → ShiftInv key xs n r c c
      place_ShiftInv {c} (path, low, stop) apart =
          let (shorter, m) = IsPath-last key path (λ e. apart (sym e)) in
          let le = IsPath-le key path in
          record {
            fits = fits;
            target = m.inside;
            nonzero = m.positive;
            apart = omega (arith, le);
            above = omega arith;
            lowest = λ e. refl;
            bottom = omega arith;
            path = shorter;
            siblings = m.most;
            waits = λ h. heap c m.positive m.inside (omega arith);
            edges = λ k p q h t u. heap k p q (omega arith);
            below = low;
            fresh = λ e. omega arith;
            parent_above = λ h. absurd (h refl);
          }

      place_IsHeapFrom : {c : ℕ} → IsPlace c → c ≡ r → IsHeapFrom key r n xs
      place_IsHeapFrom {c} (path, low, stop) e k p q h = ground (arith, low k p q, heap k p q)

      pub sift-Sifted : IsSwapFunc key swap → Returns (Sifted key r n xs) (sift cmp swap xs r n)
      unfolding sift
      sift-Sifted swaps =
          Returns-bind (descend-leaf (length xs + 1) r (omega arith) IsPath.start) λ b leaf.
            Returns-bind
              (backtrack-IsPlace (length xs + 1) (omega (arith, IsPath-lt key inside leaf.0)) leaf.0
                λ k p q e. absurd (leaf.1 k p q e))
              λ c place. elim (ℕ_discrete c r) [
                | yes e ↦
                    rw (e, shift_done key cmp swap swaps (length xs + 1) xs r r (omega arith))
                      (returns (place_IsHeapFrom place e, IsRearranged-refl n xs))
                | no e ↦
                    shift-Sifted key cmp swap swaps (length xs + 1) xs n r c c
                      (omega (arith, IsPath-lt key inside place.0)) (place_ShiftInv place e)
              ]
