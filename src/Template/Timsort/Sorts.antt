-- ===== src/Template/Timsort/Sorts.antt =====
-- TIM_SORT sorts its array.
use ksort.Base.{
  ℕ, zero, suc, ◌+◌, ◌-◌, ◌*◌, ◌^◌, ◌≤◌, ◌<◌, ◌≡◌, inl, inr, refl, ap, List, [], ◌∷◌, Option, none,
  arith, true, false, leb, ltb, if◌then◌else◌,
}
use ksort.Run.{Run, ok, ◌>>=◌, Returns, returns, Returns-bind, Returns-if}
use ksort.Array.{length, IsSortedRange}
use ksort.Array.Range.{IsPermutedIn-refl}
use ksort.Template.Bitonic.{value}
use ksort.Template.Minrun.{compute_minrun}
use ksort.Template.Small.Sorts.{bitonic_sort-sorts}
use ksort.Template.Tim.{TimState, tim_stack_size, push_next, tim_loop, push_first, tim_sort}
use ksort.Template.Tim.Merge.Sorts.{Grants}
use ksort.Template.Tim.Stack.{RunEntry, check_invariant}
use ksort.Template.Timsort.Depth.{
  Ordered, Ordered-tail, tail, short-Ordered, check_invariant-Ordered, Runs-depth,
}
use ksort.Template.Timsort.Collapse.{collapse-IsCollapsed}
use ksort.Template.Timsort.Push.{IsAt, IsPushed, push_next-IsPushed}

-- CHECK_INVARIANT returns 0 only for two entries or more
check_positive : (stack : List RunEntry) → check_invariant stack ≡ false → 0 < length stack
unfolding check_invariant
check_positive [] e = absurd (ground arith)
check_positive (d ∷ rest) e = omega arith

module _ (krealloc : Option (List ℕ) → ℕ → Option (List ℕ)) (grants : Grants krealloc) (xs : List ℕ)
    (size : ℕ) (fits : size ≤ length xs) where
  module _ (small : size < 2 ^ 64) (minrun : ℕ) where
    -- a call of PUSH_NEXT, and what goes on where it returns 1
    push-then :
        (rest : TimState → Run (List ℕ)) (s : TimState)
        → IsAt krealloc grants xs size fits s
        → length s.stack < tim_stack_size
        → ((s' : TimState)
            → IsPushed krealloc grants xs size fits s s'
            → Returns (IsSortedRange value 0 size xs) (rest s'))
        → Returns
            (IsSortedRange value 0 size xs)
            (push_next krealloc s size minrun >>= λ r. if r.1 then rest r.0 else ok r.0.dst)
    push-then rest s at room next =
        Returns-bind (push_next-IsPushed krealloc grants xs size fits s minrun at room)
          λ r p. elim p [ inl (e, q) ↦ rw e (next r.0 q) | inr (e, q) ↦ rw e (returns q) ]

    tim_loop-sorts :
        (fuel : ℕ) (s : TimState)
        → IsAt krealloc grants xs size fits s
        → Ordered (tail s.stack)
        → 2 * (size - s.curr) + length s.stack < fuel
        → Returns (IsSortedRange value 0 size xs) (tim_loop krealloc fuel s size minrun)
    unfolding tim_loop
    tim_loop-sorts zero s at o h = absurd (omega arith)
    tim_loop-sorts (suc fuel) s at o h =
        Returns-if (check_invariant s.stack)
          (λ e.
            let order = check_invariant-Ordered s.stack e o in
            push-then (λ s'. tim_loop krealloc fuel s' size minrun) s at
              (Runs-depth s.dst s.stack s.curr at.0.runs (omega (arith, at.1)) order)
              λ s' p.
                let more : length s'.stack ≡ suc (length s.stack) = ap length p.stacked in
                tim_loop-sorts fuel s' p.at (rw p.stacked order)
                  (omega (arith, more, p.advanced, p.at.1, h)))
          λ e.
            Returns-bind
              (collapse-IsCollapsed krealloc grants xs size s.curr fits (omega (arith, at.1))
                (length s.stack) s.store s.dst s.stack (check_positive s.stack e) (omega arith) at.0
                (Ordered-tail (tail s.stack) o))
              λ r c.
                tim_loop-sorts fuel (record { store = r.0; dst = r.1; stack = r.2; curr = s.curr })
                  (c.0.tim, at.1) (Ordered-tail r.2 c.0.ordered) (omega (arith, c.1 e, h))

    push_first-sorts :
        (n : ℕ) (s : TimState)
        → IsAt krealloc grants xs size fits s
        → length s.stack + n ≤ 3
        → Returns (IsSortedRange value 0 size xs) (push_first krealloc n s size minrun)
    unfolding push_first
    push_first-sorts zero s at h =
        tim_loop-sorts (2 * size + 4) s at (short-Ordered s.stack (omega arith)) (omega arith)
    push_first-sorts (suc n) s at h =
        push-then (λ s'. push_first krealloc n s' size minrun) s at (omega arith)
          λ s' p.
            let more : length s'.stack ≡ suc (length s.stack) = ap length p.stacked in
            push_first-sorts n s' p.at (omega (arith, more, h))

  -- For an array with that many elements, fewer than 2^64, a krealloc that finds memory and memory for the stack of
  -- runs, TIM_SORT returns with the first `size` elements in ascending order, rearranged among themselves,
  -- and touches no other element; below 64 elements the array has no others.
  pub tim_sort-sorts :
      size < 2 ^ 64
      → (size < 64 → length xs ≡ size)
      → Returns (IsSortedRange value 0 size xs) (tim_sort krealloc true xs size)
  unfolding tim_sort
  tim_sort-sorts small exact =
      let start : TimState = record {
        store = record { alloc = 0; storage = none };
        dst = xs;
        stack = [];
        curr = 0;
      } in
      Returns-if (leb size 1)
        (λ b. returns (
          IsPermutedIn-refl 0 size xs,
          λ i j p q u. let same : i ≡ j = ground arith in rw same (omega arith),
        ))
        λ b.
          Returns-if (ltb size 64) (λ c. bitonic_sort-sorts xs size (exact (ground arith)))
            λ c.
              push_first-sorts small (compute_minrun size) 3 start
                (
                  record {
                    room = λ words e. omega arith;
                    permuted = IsPermutedIn-refl 0 size xs;
                    runs = refl;
                  },
                  ground arith,
                )
                (omega arith)
