-- ===== src/Template/Tim.antt =====
-- sort.h: the timsort. The stack of runs is the list of its entries, the last one first; `krealloc` is a
-- parameter, a function of the old memory and the number of words.
pub mod Runs
pub mod Merge
pub mod Stack
use ksort.Base.{
  ℕ, zero, suc, ◌+◌, ◌-◌, ◌*◌, List, [], ◌∷◌, Option, none, some, Bool, true, false, not, ◌&&◌,
  ◌||◌, leb, ltb, ◌==◌, if◌then◌else◌,
}
use ksort.Run.{Run, ok, fault, out_of_fuel, ◌>>=◌}
use ksort.Array.{length}
use ksort.Array.Slice.{on_slice}
use ksort.Template.Insertion.{binary_insertion_sort_start}
use ksort.Template.Minrun.{compute_minrun}
use ksort.Template.Small.{bitonic_sort}
use ksort.Template.Tim.Runs.{count_run}
use ksort.Template.Tim.Merge.{Store, merge_runs}
use ksort.Template.Tim.Stack.{RunEntry, check_invariant}

-- `TIM_SORT_STACK_SIZE`
abbrev pub tim_stack_size : ℕ
tim_stack_size = 128

-- `A <= B + C`, where there is a fourth entry
unfoldable pub exceeds : List RunEntry → RunEntry → RunEntry → Bool
exceeds [] b c = false
exceeds (a ∷ rest) b c = leb a.length (b.length + c.length)

-- the locals of TIM_SORT
pub record TimState : Type 0 where
  pub store : Store
  pub dst : List ℕ
  pub stack : List RunEntry
  pub curr : ℕ

module _ (krealloc : Option (List ℕ) → ℕ → Option (List ℕ)) where
  -- TIM_SORT_MERGE of the runs `a` and `b`, and the longer run
  unfoldable pub merge_entries :
      Store → List ℕ → RunEntry → RunEntry → Run (Store × List ℕ × RunEntry)
  unfolding merge_runs
  merge_entries store xs a b = do
    r ← merge_runs krealloc store xs a.start a.length b.length
    ok (r.0, r.1, record { start = a.start; length = a.length + b.length })

  -- the loop of TIM_SORT_COLLAPSE
  unfoldable pub collapse :
      ℕ → Store → List ℕ → List RunEntry → ℕ → Run (Store × List ℕ × List RunEntry)
  unfolding merge_entries exceeds
  collapse zero store xs stack size = out_of_fuel
  collapse (suc fuel) store xs (d ∷ c ∷ []) size =
      if c.length + d.length == size || leb c.length d.length
      then (do r ← merge_entries store xs c d; ok (r.0, r.1, r.2 ∷ []))
      else ok (store, xs, d ∷ c ∷ [])
  collapse (suc fuel) store xs (d ∷ c ∷ b ∷ rest) size =
      let abc : Bool = exceeds rest b c in
      let bcd = leb b.length (c.length + d.length) || abc in
      let cd = leb c.length d.length in
      if not bcd && not cd
      then ok (store, xs, d ∷ c ∷ b ∷ rest)
      else if bcd && not cd
      then (do r ← merge_entries store xs b c; collapse fuel r.0 r.1 (d ∷ r.2 ∷ rest) size)
      else (do r ← merge_entries store xs c d; collapse fuel r.0 r.1 (r.2 ∷ b ∷ rest) size)
  collapse (suc fuel) store xs stack size = ok (store, xs, stack)

  -- the loop that ends PUSH_NEXT: the entry `b` is the last, and `rest` those in front of it
  unfoldable pub merge_all :
      Store → List ℕ → RunEntry → List RunEntry → Run (Store × List ℕ × RunEntry)
  unfolding merge_entries
  merge_all store xs b [] = ok (store, xs, b)
  merge_all store xs b (a ∷ rest) = do r ← merge_entries store xs a b; merge_all r.0 r.1 r.2 rest

  -- PUSH_NEXT, and whether it returns 1
  unfoldable pub push_next : TimState → ℕ → ℕ → Run (TimState × Bool)
  unfolding count_run on_slice binary_insertion_sort_start merge_all
  push_next s size minrun = do
    r ← count_run s.dst s.curr size
    let left = size - s.curr
    let run = if ltb left minrun then left else minrun
    let short = ltb r.1 run
    let len = if short then run else r.1
    dst ←
        (if short
          then on_slice (λ ys n. binary_insertion_sort_start ys r.1 n) r.0 s.curr run
          else ok r.0)
    let entry : RunEntry = record { start = s.curr; length = len }
    let curr = s.curr + len
    let pushed : TimState = record {
      store = s.store;
      dst = dst;
      stack = entry ∷ s.stack;
      curr = curr;
    }
    let finished = merge_all s.store dst entry s.stack >>= λ m. ok (
      record {
        store = record { alloc = m.0.alloc; storage = none };
        dst = m.1;
        stack = m.2 ∷ [];
        curr = curr;
      },
      false,
    )
    if leb tim_stack_size (length s.stack)
        then fault
        else if curr == size
        then finished
        else ok (pushed, true)

  -- the `while (1)` loop of TIM_SORT
  unfoldable pub tim_loop : ℕ → TimState → ℕ → ℕ → Run (List ℕ)
  unfolding collapse push_next check_invariant
  tim_loop zero s size minrun = out_of_fuel
  tim_loop (suc fuel) s size minrun =
      if check_invariant s.stack
      then (do
        r ← push_next s size minrun
        if r.1 then tim_loop fuel r.0 size minrun else ok r.0.dst)
      else (do
        r ← collapse (length s.stack) s.store s.dst s.stack size
        tim_loop fuel (record { store = r.0; dst = r.1; stack = r.2; curr = s.curr }) size minrun)

  -- `n` calls of PUSH_NEXT, each of which may be the last, and then the loop
  unfoldable pub push_first : ℕ → TimState → ℕ → ℕ → Run (List ℕ)
  unfolding push_next tim_loop
  push_first zero s size minrun = tim_loop (2 * size + 4) s size minrun
  push_first (suc n) s size minrun = do
    r ← push_next s size minrun
    if r.1 then push_first n r.0 size minrun else ok r.0.dst

  -- TIM_SORT; `allocated` is whether the stack of runs gets its memory
  unfoldable pub tim_sort : Bool → List ℕ → ℕ → Run (List ℕ)
  unfolding bitonic_sort compute_minrun push_first
  tim_sort allocated xs size =
      let start : TimState = record {
        store = record { alloc = 0; storage = none };
        dst = xs;
        stack = [];
        curr = 0;
      } in
      if leb size 1
      then ok xs
      else if ltb size 64
      then bitonic_sort xs size
      else if allocated
      then push_first 3 start size (compute_minrun size)
      else fault
