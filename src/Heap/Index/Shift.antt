-- ===== src/Heap/Index/Shift.antt =====
-- `shift` moves the element at `r` along its path down to `c`, and the heap reaches up to `r`.
use native.Mathlib.Decide.{ℕ_discrete}
use ksort.Base.{ℕ, zero, suc, ◌≤◌, ◌<◌, ◌≡◌, ◌≢◌, List, arith, ◌==◌, ℤ}
use ksort.Run.{Run, ok, Returns, returns, Returns-bind, Returns-if, Returns-map}
use ksort.Array.{length, key_at, IsSwapped, IsSwapFunc, IsRearranged}
use ksort.Array.Rearranged.{IsRearranged-trans, IsSwapped-IsRearranged}
use ksort.Heap.Index.{up, shift}
use ksort.Heap.Index.Order.{IsHeapFrom, IsMaxChild, IsPath, IsPath-le, IsPath-last, IsPath-kept}

module _ {A : Type 0} (key : A → ℕ) where
  -- The element of `b` waits at `c`, with the path from `r` to the parent of `b` still to shift.
  pub record ShiftInv (xs : List A) (n r b c : ℕ) : Type 0 where
    pub fits : n ≤ length xs
    pub target : c < n
    pub nonzero : 0 < b
    pub apart : r < b
    pub above : up b ≤ up c
    pub lowest : up b ≡ up c → b ≡ c
    pub bottom : b ≤ c
    pub path : IsPath key xs n r (up b)
    pub siblings : (k : ℕ) → 0 < k → k < n → up k ≡ up b → key_at key xs k ≤ key_at key xs c
    pub waits : r < up b → key_at key xs c ≤ key_at key xs (up b)
    pub edges :
        (k : ℕ)
        → 0 < k
        → k < n
        → r < up k
        → k ≢ c
        → up k ≢ c
        → key_at key xs k ≤ key_at key xs (up k)
    pub below : (k : ℕ) → 0 < k → k < n → up k ≡ c → key_at key xs k ≤ key_at key xs r
    pub fresh : b ≡ c → key_at key xs r ≤ key_at key xs c
    pub parent_above : b ≢ c → key_at key xs r ≤ key_at key xs (up c)

  module _ {xs ys : List A} {n r b c : ℕ} (v : ShiftInv xs n r b c)
      (s : IsSwapped key xs (up b) c ys) where
    -- the last exchange puts the element of `r` into its place
    last_exchange : up b ≡ r → IsHeapFrom key r n ys
    last_exchange e k p q h = ground (
      arith,
      s.at k,
      s.at (up k),
      v.siblings k,
      v.edges k,
      v.below k,
      v.fresh,
      v.parent_above,
      v.lowest,
      v.above,
      v.apart,
      v.nonzero,
      v.bottom,
    )

    module _ (more : up b ≢ r) where
      reach : r < up b
      reach = omega (arith, IsPath-le key v.path)

      grand : IsPath key xs n r (up (up b)) × IsMaxChild key xs n (up (up b)) (up b)
      grand = IsPath-last key v.path (omega (arith, reach))

      next-IsPath : IsPath key ys n r (up (up b))
      next-IsPath =
          IsPath-kept key grand.0 λ k p q. ground (arith, s.at k, v.above, v.nonzero, reach)

      next_siblings : (k : ℕ) → 0 < k → k < n → up k ≡ up (up b) → key_at key ys k ≤ key_at key ys c
      next_siblings k p q e = ground (
        arith,
        s.at k,
        s.at c,
        reach,
        v.above,
        v.waits,
        grand.1.most k p q e,
        v.nonzero,
        v.bottom,
      )

      next_waits : r < up (up b) → key_at key ys c ≤ key_at key ys (up (up b))
      next_waits h =
          ground
            (arith, s.at c, s.at (up (up b)), reach, v.above, v.edges (up b), v.bottom, v.nonzero)

      next_edges :
          (k : ℕ)
          → 0 < k
          → k < n
          → r < up k
          → k ≢ c
          → up k ≢ c
          → key_at key ys k ≤ key_at key ys (up k)
      next_edges k p q h t u =
          ground (
            arith,
            s.at k,
            s.at (up k),
            reach,
            v.above,
            v.waits,
            v.edges k,
            v.siblings k,
            v.nonzero,
          )

      next_below : (k : ℕ) → 0 < k → k < n → up k ≡ c → key_at key ys k ≤ key_at key ys r
      next_below k p q e =
          ground (arith, s.at k, s.at r, reach, v.above, v.below k, v.nonzero, v.bottom, v.apart)

      next_parent : key_at key ys r ≤ key_at key ys (up c)
      next_parent = ground (
        arith,
        s.at r,
        s.at (up c),
        reach,
        v.above,
        v.fresh,
        v.lowest,
        v.parent_above,
        v.nonzero,
        v.bottom,
      )

      next_ShiftInv : ShiftInv ys n r (up b) c
      next_ShiftInv = record {
        fits = omega (arith, s.size, v.fits);
        target = v.target;
        nonzero = omega (arith, reach);
        apart = reach;
        above = omega (arith, v.above, reach);
        lowest = λ e. absurd (omega (arith, v.above, reach, v.nonzero));
        bottom = omega (arith, v.bottom);
        path = next-IsPath;
        siblings = next_siblings;
        waits = next_waits;
        edges = next_edges;
        below = next_below;
        fresh = λ e. absurd (omega (arith, v.bottom, v.nonzero));
        parent_above = λ h. next_parent;
      }

  -- the loop ends with the heap from `r` on
  abbrev pub Sifted : ℕ → ℕ → List A → List A → Type 0
  Sifted r n xs ys = IsHeapFrom key r n ys × IsRearranged key n xs ys

  module _ (cmp : A → A → ℤ) (swap : List A → ℕ → ℕ → Run (List A))
      (swaps : IsSwapFunc key swap) where
    pub shift_done :
        (fuel : ℕ) (xs : List A) (r c : ℕ) → 0 < fuel → shift cmp swap fuel xs r r c ≡ ok xs
    unfolding shift
    shift_done zero xs r c h = absurd (omega arith)
    shift_done (suc fuel) xs r c h = ground arith

    pub shift-Sifted :
        (fuel : ℕ) (xs : List A) (n r b c : ℕ)
        → b < fuel
        → ShiftInv xs n r b c
        → Returns (Sifted r n xs) (shift cmp swap fuel xs r b c)
    unfolding shift
    shift-Sifted zero xs n r b c h v = absurd (omega arith)
    shift-Sifted (suc fuel) xs n r b c h v =
        Returns-if (b == r) (λ e. absurd (ground (arith, v.apart)))
          λ _.
            Returns-bind
              (swaps xs (up b) c (omega (arith, v.fits, v.target, v.bottom))
                (omega (arith, v.fits, v.target)))
              λ ys s.
                let moved = IsSwapped-IsRearranged (omega (arith, v.target, v.bottom)) v.target s in
                elim (ℕ_discrete (up b) r) [
                  | yes e ↦
                      rw (e, shift_done fuel ys r c (omega (arith, v.nonzero)))
                        (returns (last_exchange v s e, moved))
                  | no e ↦
                      Returns-map
                        (shift-Sifted fuel ys n r (up b) c (omega (arith, v.nonzero))
                          (next_ShiftInv v s e))
                        λ zs w. (w.0, IsRearranged-trans moved w.1)
                ]
