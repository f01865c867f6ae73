-- ===== src/Template/Timsort/Collapse.antt =====
-- TIM_SORT_COLLAPSE restores the order of the lengths, and merges where it is broken.
use ksort.Base.{
  ℕ, zero, suc, ◌+◌, ◌≤◌, ◌<◌, ◌≡◌, List, [], ◌∷◌, Option, arith, Bool, false, not, ◌&&◌, ◌||◌, leb,
  ◌==◌,
}
use ksort.Run.{Returns, returns, Returns-bind, Returns-map, Returns-if}
use ksort.Array.{length}
use ksort.Template.Tim.{collapse, exceeds}
use ksort.Template.Tim.Merge.{Store}
use ksort.Template.Tim.Merge.Sorts.{Grants}
use ksort.Template.Tim.Stack.{RunEntry, check_invariant}
use ksort.Template.Timsort.Invariant.{IsTim, merge_entries-last, merge_entries-under}
use ksort.Template.Timsort.Depth.{Ordered, Ordered-tail, tail}

-- where no entry is short, the order holds from the last one on
extended-Ordered :
    (d c b : RunEntry) (rest : List RunEntry)
    → exceeds rest b c ≡ false
    → c.length + d.length < b.length
    → Ordered (b ∷ rest)
    → Ordered (d ∷ c ∷ b ∷ rest)
unfolding exceeds
extended-Ordered d c b [] h l o = (l, tt)
extended-Ordered d c b (a ∷ rest) h l o = (l, (ground arith, o))

module _ (krealloc : Option (List ℕ) → ℕ → Option (List ℕ)) (grants : Grants krealloc) (xs : List ℕ)
    (size end : ℕ) (fits : size ≤ length xs) (inside : end ≤ size) where
  -- the stack that is left, in order and with at most `n` entries
  pub record IsCollapsed (n : ℕ) (r : Store × List ℕ × List RunEntry) : Type 0 where
    pub tim : IsTim xs size end r.0 r.1 r.2
    pub ordered : Ordered r.2
    pub shorter : length r.2 ≤ n

  -- For a krealloc that always finds memory, and a stack of runs inside the array that is in order but for
  -- the last two, TIM_SORT_COLLAPSE returns with as many rounds as the stack has entries: the runs still
  -- cover the same elements, the order holds for all of them, and there are fewer of them where
  -- CHECK_INVARIANT returned 0.
  pub collapse-IsCollapsed :
      (fuel : ℕ) (st : Store) (dst : List ℕ) (stack : List RunEntry)
      → 0 < fuel
      → length stack ≤ fuel
      → IsTim xs size end st dst stack
      → Ordered (tail (tail stack))
      → Returns
          (λ r.
            IsCollapsed (length stack) r
            × (check_invariant stack ≡ false → length r.2 < length stack))
          (collapse krealloc fuel st dst stack size)
  unfolding collapse check_invariant
  collapse-IsCollapsed zero st dst stack z h t o = absurd (omega arith)
  collapse-IsCollapsed (suc fuel) st dst [] z h t o =
      returns (record { tim = t; ordered = tt; shorter = omega arith }, λ e. absurd (ground arith))
  collapse-IsCollapsed (suc fuel) st dst (d ∷ []) z h t o =
      returns (record { tim = t; ordered = tt; shorter = omega arith }, λ e. absurd (ground arith))
  collapse-IsCollapsed (suc fuel) st dst (d ∷ c ∷ []) z h t o =
      Returns-if (c.length + d.length == size || leb c.length d.length)
        (λ p.
          Returns-bind (merge_entries-last krealloc grants xs size fits end st dst d c [] inside t)
            λ r t'.
              returns (record { tim = t'; ordered = tt; shorter = omega arith }, λ e. omega arith))
        λ p.
          returns
            (record { tim = t; ordered = tt; shorter = omega arith }, λ e. absurd (ground arith))
  collapse-IsCollapsed (suc fuel) st dst (d ∷ c ∷ b ∷ rest) z h t o =
      let abc : Bool = exceeds rest b c in
      let bcd = leb b.length (c.length + d.length) || abc in
      let cd = leb c.length d.length in
      let merged : (s : List RunEntry)
          → length s + 1 ≡ length (d ∷ c ∷ b ∷ rest)
          → (r : Store × List ℕ × List RunEntry) → IsCollapsed (length s) r
          → IsCollapsed (length (d ∷ c ∷ b ∷ rest)) r
            × (check_invariant (d ∷ c ∷ b ∷ rest) ≡ false
                → length r.2 < length (d ∷ c ∷ b ∷ rest)) =
        λ s e r q. (
          record { tim = q.tim; ordered = q.ordered; shorter = omega (arith, q.shorter) },
          λ f. omega (arith, q.shorter),
        ) in
      Returns-if (not bcd && not cd)
        (λ p. returns (
          record {
            tim = t;
            ordered = extended-Ordered d c b rest (ground arith) (ground arith) o;
            shorter = omega arith;
          },
          λ e. absurd (ground arith),
        ))
        λ p.
          Returns-if (bcd && not cd)
            (λ q.
              Returns-bind
                (merge_entries-under krealloc grants xs size fits end st dst d c b rest inside t)
                λ r t'.
                  Returns-map
                    (collapse-IsCollapsed fuel r.0 r.1 (d ∷ r.2 ∷ rest) (omega arith) (omega arith)
                      t' (Ordered-tail (b ∷ rest) o))
                    λ r' w. merged (d ∷ r.2 ∷ rest) (omega arith) r' w.0)
            λ q.
              Returns-bind
                (merge_entries-last krealloc grants xs size fits end st dst d c (b ∷ rest) inside t)
                λ r t'.
                  Returns-map
                    (collapse-IsCollapsed fuel r.0 r.1 (r.2 ∷ b ∷ rest) (omega arith) (omega arith)
                      t' (Ordered-tail (b ∷ rest) o))
                    λ r' w. merged (r.2 ∷ b ∷ rest) (omega arith) r' w.0
