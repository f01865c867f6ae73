-- ===== src/Pdqsort.antt =====
-- pdqsort.c, over the elements of the array: positions are element indices from its base. The
-- comparator is a strict order test. do_swap takes the 64-bit swap there, so the element size is a
-- multiple of 8; what happens otherwise is in `Swap.Correct`. A pointer in front of the array is a
-- fault. A loop that goes through the array runs on fuel; each starts with enough for its range.
pub mod Insertion
pub mod Partition
pub mod Loop
use ksort.Base.{
  ℕ, zero, suc, ◌+◌, ◌-◌, List, ℤ, ◌==◌, ltb, if◌then◌else◌, is_nonzero, Bool, true, false,
}
use ksort.Run.{Run, ok, fault, out_of_fuel, ◌>>=◌}
use ksort.Array.{compare_at, swap_at}

-- `p -= size`, for a pointer that is read next
unfoldable pub back : ℕ → Run ℕ
back p = if p == 0 then fault else ok (p - 1)

module _ {A : Type 0} (cmp_func : A → A → ℤ) where
  -- `cmp_func(i, j)` as a condition
  unfoldable pub less_at : List A → ℕ → ℕ → Run Bool
  unfolding compare_at
  less_at xs i j = do z ← compare_at cmp_func xs i j; ok (is_nonzero z)

  -- the inner `do … while` of insertion_sort and partial_insertion_sort
  unfoldable pub sift : ℕ → List A → ℕ → ℕ → ℕ → Run (List A × ℕ)
  unfolding back less_at swap_at
  sift zero xs begin at at_1 = out_of_fuel
  sift (suc fuel) xs begin at at_1 = swap_at xs at at_1 >>= λ ys.
      let at' = at - 1 in
      let next : Run (List A × ℕ) = (do
        at_1' ← back at_1
        below ← less_at ys at' at_1'
        let rest = sift fuel ys begin at' at_1'
        if below then rest else ok (ys, at')) in
      if at' == begin then ok (ys, at') else next

  -- the inner `do … while` of unguarded_insertion_sort
  unfoldable pub unguarded_sift : ℕ → List A → ℕ → ℕ → Run (List A)
  unfolding back less_at swap_at
  unguarded_sift zero xs at at_1 = out_of_fuel
  unguarded_sift (suc fuel) xs at at_1 = do
    ys ← swap_at xs at at_1
    at_1' ← back at_1
    below ← less_at ys (at - 1) at_1'
    let rest = unguarded_sift fuel ys (at - 1) at_1'
    if below then rest else ok ys

  -- the `for` of insertion_sort
  unfoldable pub insertion_loop : ℕ → List A → ℕ → ℕ → ℕ → Run (List A)
  unfolding sift
  insertion_loop zero xs begin cur end = out_of_fuel
  insertion_loop (suc fuel) xs begin cur end =
      let moved : Run (List A) = (do
        below ← less_at xs cur (cur - 1)
        let down : Run (List A) = sift (cur + 1) xs begin cur (cur - 1) >>= λ r. ok r.0
        if below then down else ok xs) in
      let round : Run (List A) = (do ys ← moved; insertion_loop fuel ys begin (cur + 1) end) in
      if cur == end then ok xs else round

  unfoldable pub insertion_sort : List A → ℕ → ℕ → Run (List A)
  unfolding insertion_loop
  insertion_sort xs begin end =
      if begin == end then ok xs else insertion_loop (end + 1) xs begin (begin + 1) end

  -- the `for` of unguarded_insertion_sort
  unfoldable pub unguarded_loop : ℕ → List A → ℕ → ℕ → Run (List A)
  unfolding unguarded_sift
  unguarded_loop zero xs cur end = out_of_fuel
  unguarded_loop (suc fuel) xs cur end =
      let moved : Run (List A) = (do
        below ← less_at xs cur (cur - 1)
        let down = unguarded_sift (cur + 1) xs cur (cur - 1)
        if below then down else ok xs) in
      let round : Run (List A) = (do ys ← moved; unguarded_loop fuel ys (cur + 1) end) in
      if cur == end then ok xs else round

  unfoldable pub unguarded_insertion_sort : List A → ℕ → ℕ → Run (List A)
  unfolding unguarded_loop
  unguarded_insertion_sort xs begin end =
      if begin == end then ok xs else unguarded_loop (end + 1) xs (begin + 1) end

  -- the `for` of partial_insertion_sort
  unfoldable pub partial_loop : ℕ → List A → ℕ → ℕ → ℕ → ℕ → Run (List A × Bool)
  unfolding sift
  partial_loop zero xs begin cur end limit = out_of_fuel
  partial_loop (suc fuel) xs begin cur end limit =
      let moved : Run (List A × ℕ) = (do
        below ← less_at xs cur (cur - 1)
        let down : Run (List A × ℕ) =
            sift (cur + 1) xs begin cur (cur - 1) >>= λ r. ok (r.0, limit + (cur - r.1))
        if below then down else ok (xs, limit)) in
      let round : Run (List A × Bool) = moved >>= λ r.
      let rest = partial_loop fuel r.0 begin (cur + 1) end r.1 in
      if ltb 8 r.1 then ok (r.0, false) else rest in
      if cur == end then ok (xs, true) else round

  unfoldable pub partial_insertion_sort : List A → ℕ → ℕ → Run (List A × Bool)
  unfolding partial_loop
  partial_insertion_sort xs begin end =
      if begin == end then ok (xs, true) else partial_loop (end + 1) xs begin (begin + 1) end 0

  unfoldable pub sort2 : List A → ℕ → ℕ → Run (List A)
  unfolding less_at swap_at
  sort2 xs a b = do below ← less_at xs b a; if below then swap_at xs a b else ok xs

  unfoldable pub sort3 : List A → ℕ → ℕ → ℕ → Run (List A)
  unfolding sort2
  sort3 xs a b c = do ys ← sort2 xs a b; zs ← sort2 ys b c; sort2 zs a b
