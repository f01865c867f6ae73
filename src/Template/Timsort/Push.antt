-- ===== src/Template/Timsort/Push.antt =====
-- PUSH_NEXT puts the next run on the stack, or ends the sort.
use ksort.Base.{
  ℕ, ◌+◌, ◌-◌, ◌≤◌, ◌<◌, ◌≡◌, ◌⊎◌, inl, inr, refl, List, ◌∷◌, Option, arith, Bool-cases, true,
  false, leb, ltb, ◌==◌, if◌then◌else◌,
}
use ksort.Run.{ok, Returns, returns, Returns-bind, Returns-map, Returns-if}
use ksort.Array.{length, IsSortedIn, IsSortedRange}
use ksort.Array.Range.{IsPermutedIn-trans, IsPermutedIn-widen}
use ksort.Array.Slice.{slice, length-slice, key_at-slice, on_slice, on_slice-IsSortedRange}
use ksort.Template.Bitonic.{value}
use ksort.Template.Insertion.{binary_insertion_sort_start}
use ksort.Template.Insertion.Sorts.{binary_insertion_sort_start-sorts}
use ksort.Template.Tim.{TimState, tim_stack_size, push_next}
use ksort.Template.Tim.Merge.Sorts.{Grants}
use ksort.Template.Tim.Runs.Counted.{count_run-IsRun}
use ksort.Template.Tim.Stack.{RunEntry}
use ksort.Template.Timsort.Invariant.{IsTim, Runs-before, merge_all-sorts}

-- a run that is too short, with the elements behind it put in
extend-IsSortedRange :
    (dst ys : List ℕ) (curr len run : ℕ)
    → 0 < len
    → len ≤ run
    → curr + run ≤ length dst
    → IsSortedRange value curr (curr + len) dst ys
    → Returns
        (IsSortedRange value curr (curr + run) dst)
        (on_slice (λ zs n. binary_insertion_sort_start zs len n) ys curr run)
extend-IsSortedRange dst ys curr len run z h f s =
    let fits : curr + run ≤ length ys = omega (arith, s.0.size) in
    let start : IsSortedIn value (slice curr run ys) 0 len = λ i j p q u. omega (
      arith,
      key_at-slice value curr run ys i (omega arith),
      key_at-slice value curr run ys j (omega arith),
      s.1 (curr + i) (curr + j) (omega arith) (omega arith) (omega arith),
    ) in
    Returns-map
      (on_slice-IsSortedRange value (λ zs n. binary_insertion_sort_start zs len n) ys curr run fits
        (binary_insertion_sort_start-sorts (slice curr run ys) len run z h
          (omega (arith, length-slice curr run ys fits)) start))
      λ zs p. (IsPermutedIn-trans (IsPermutedIn-widen (omega arith) (omega arith) s.0) p.0, p.1)

-- the run that is pushed, extended where it is shorter than `run`
sorted_run :
    (dst ys : List ℕ) (curr len run : ℕ)
    → 0 < len
    → curr + run ≤ length dst
    → IsSortedRange value curr (curr + len) dst ys
    → Returns (IsSortedRange value curr (curr + (if ltb len run then run else len)) dst) (
        if ltb len run
        then on_slice (λ zs n. binary_insertion_sort_start zs len n) ys curr run
        else ok ys)
sorted_run dst ys curr len run z f s = elim (Bool-cases (ltb len run)) [
  | inl h ↦ rw h (extend-IsSortedRange dst ys curr len run z (ground arith) f s)
  | inr h ↦ rw h (returns s)
]

module _ (krealloc : Option (List ℕ) → ℕ → Option (List ℕ)) (grants : Grants krealloc) (xs : List ℕ)
    (size : ℕ) (fits : size ≤ length xs) where
  -- the runs in front of `curr`, and the rest of the array
  abbrev pub IsAt : TimState → Type 0
  IsAt s = IsTim xs size s.curr s.store s.dst s.stack × (s.curr < size)

  -- one run more on the stack
  pub record IsPushed (s s' : TimState) : Type 0 where
    pub at : IsAt s'
    pub entry : RunEntry
    pub stacked : s'.stack ≡ entry ∷ s.stack
    pub advanced : s.curr < s'.curr

  -- the run that PUSH_NEXT pushes is sorted
  push-IsTim :
      (s : TimState) (ys : List ℕ) (len : ℕ)
      → IsAt s
      → 0 < len
      → s.curr + len ≤ size
      → IsSortedRange value s.curr (s.curr + len) s.dst ys
      → IsTim xs size (s.curr + len) s.store ys (record { start = s.curr; length = len } ∷ s.stack)
  push-IsTim s ys len at z h p = record {
    room = at.0.room;
    permuted =
        IsPermutedIn-trans at.0.permuted (IsPermutedIn-widen (omega arith) (omega arith) p.0);
    runs = (refl, z, p.1, Runs-before s.dst ys s.stack s.curr p.0.before at.0.runs);
  }

  pub push_next-IsPushed :
      (s : TimState) (minrun : ℕ)
      → IsAt s
      → length s.stack < tim_stack_size
      → Returns
          (λ r.
            (r.1 ≡ true) × IsPushed s r.0 ⊎ (r.1 ≡ false) × IsSortedRange value 0 size xs r.0.dst)
          (push_next krealloc s size minrun)
  unfolding push_next
  push_next-IsPushed s minrun at room =
      let inside : size ≤ length s.dst = omega (arith, at.0.permuted.size) in
      Returns-bind (count_run-IsRun s.dst s.curr size at.1 inside) λ r c.
        let left = size - s.curr in
        let run = if ltb left minrun then left else minrun in
        let short = ltb r.1 run in
        let len = if short then run else r.1 in
        let low : 0 < len = ground (arith, c.positive) in
        let high : s.curr + len ≤ size = ground (arith, c.fits, at.1) in
        Returns-bind
          (sorted_run s.dst r.0 s.curr r.1 run c.positive (ground (arith, at.1)) c.sorted)
          λ ys p.
            let t = push-IsTim s ys len at low high p in
            Returns-if (leb tim_stack_size (length s.stack)) (λ b. absurd (ground arith))
              λ b.
                Returns-if (s.curr + len == size)
                  (λ e.
                    Returns-bind
                      (merge_all-sorts krealloc grants xs size fits (s.curr + len) s.store ys
                        (record { start = s.curr; length = len }) s.stack high t)
                      λ m q.
                        let end : s.curr + len ≡ size = ground arith in
                        returns (inr (refl, (q.0, rw end at q.1))))
                  λ e. returns (
                    inl (
                      refl,
                      record {
                        at = (t, ground arith);
                        entry = record { start = s.curr; length = len };
                        stacked = refl;
                        advanced = omega arith;
                      },
                    ))
