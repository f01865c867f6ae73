-- ===== src/Pdqsort/Partition.antt =====
-- pdqsort.c: `partition_right` and `partition_left`. Each scan runs on fuel, as many rounds as the array has elements and one.
pub mod Scans
pub mod Left
pub mod Right
use ksort.Base.{ℕ, zero, suc, ◌+◌, ◌-◌, Bool, not, List, ℤ, ◌==◌, ltb, if◌then◌else◌}
use ksort.Run.{Run, ok, out_of_fuel, ◌>>=◌}
use ksort.Array.{length, swap_at}
use ksort.Pdqsort.{back, less_at}

module _ {A : Type 0} (cmp_func : A → A → ℤ) where
  -- `while (cmp_func(begin, (last -= size)))`
  unfoldable pub left_down : ℕ → List A → ℕ → ℕ → Run ℕ
  unfolding back less_at
  left_down zero xs begin last = out_of_fuel
  left_down (suc fuel) xs begin last = do
    last' ← back last
    above ← less_at cmp_func xs begin last'
    let rest = left_down fuel xs begin last'
    if above then rest else ok last'

  -- `while (!cmp_func(begin, (first += size)))`
  unfoldable pub left_up : ℕ → List A → ℕ → ℕ → Run ℕ
  unfolding less_at
  left_up zero xs begin first = out_of_fuel
  left_up (suc fuel) xs begin first = do
    above ← less_at cmp_func xs begin (first + 1)
    let rest = left_up fuel xs begin (first + 1)
    if above then ok (first + 1) else rest

  -- `while (first < last && !cmp_func(begin, (first += size)))`
  unfoldable pub left_up_to : ℕ → List A → ℕ → ℕ → ℕ → Run ℕ
  unfolding less_at
  left_up_to zero xs begin last first = out_of_fuel
  left_up_to (suc fuel) xs begin last first =
      let up : Run ℕ = (do
        above ← less_at cmp_func xs begin (first + 1)
        let rest = left_up_to fuel xs begin last (first + 1)
        if above then ok (first + 1) else rest) in
      if ltb first last then up else ok first

  -- the last `while`: the array, and `last`
  unfoldable pub left_loop : ℕ → List A → ℕ → ℕ → ℕ → Run (List A × ℕ)
  unfolding left_down left_up swap_at
  left_loop zero xs begin first last = out_of_fuel
  left_loop (suc fuel) xs begin first last =
      let round : Run (List A × ℕ) = (do
        ys ← swap_at xs first last
        last' ← left_down (length ys + 1) ys begin last
        first' ← left_up (length ys + 1) ys begin first
        left_loop fuel ys begin first' last') in
      if ltb first last then round else ok (xs, last)

  unfoldable pub partition_left : List A → ℕ → ℕ → Run (List A × ℕ)
  unfolding left_loop left_up_to
  partition_left xs begin end = left_down (length xs + 1) xs begin end >>= λ last.
      (if last + 1 == end
        then left_up_to (length xs + 1) xs begin last begin
        else left_up (length xs + 1) xs begin begin)
      >>= λ first. left_loop (length xs + 1) xs begin first last >>= λ r.
          swap_at r.0 begin r.1 >>= λ ys. ok (ys, r.1)

  -- `while (cmp_func(first += size, begin))`
  unfoldable pub right_up : ℕ → List A → ℕ → ℕ → Run ℕ
  unfolding less_at
  right_up zero xs begin first = out_of_fuel
  right_up (suc fuel) xs begin first = do
    below ← less_at cmp_func xs (first + 1) begin
    let rest = right_up fuel xs begin (first + 1)
    if below then rest else ok (first + 1)

  -- `while (!cmp_func(last -= size, begin))`
  unfoldable pub right_down : ℕ → List A → ℕ → ℕ → Run ℕ
  unfolding back less_at
  right_down zero xs begin last = out_of_fuel
  right_down (suc fuel) xs begin last = do
    last' ← back last
    below ← less_at cmp_func xs last' begin
    let rest = right_down fuel xs begin last'
    if below then ok last' else rest

  -- `while (first < last && !cmp_func(last -= size, begin))`
  unfoldable pub right_down_to : ℕ → List A → ℕ → ℕ → ℕ → Run ℕ
  unfolding back less_at
  right_down_to zero xs begin first last = out_of_fuel
  right_down_to (suc fuel) xs begin first last =
      let down : Run ℕ = (do
        last' ← back last
        below ← less_at cmp_func xs last' begin
        let rest = right_down_to fuel xs begin first last'
        if below then ok last' else rest) in
      if ltb first last then down else ok last

  -- the last `while`: the array, and `first`
  unfoldable pub right_loop : ℕ → List A → ℕ → ℕ → ℕ → Run (List A × ℕ)
  unfolding right_up right_down swap_at
  right_loop zero xs begin first last = out_of_fuel
  right_loop (suc fuel) xs begin first last =
      let round : Run (List A × ℕ) = (do
        ys ← swap_at xs first last
        first' ← right_up (length ys + 1) ys begin first
        last' ← right_down (length ys + 1) ys begin last
        right_loop fuel ys begin first' last') in
      if ltb first last then round else ok (xs, first)

  -- the array, the pivot's position, and whether nothing had to be exchanged
  unfoldable pub partition_right : List A → ℕ → ℕ → Run (List A × ℕ × Bool)
  unfolding right_loop right_down_to
  partition_right xs begin end = right_up (length xs + 1) xs begin begin >>= λ first.
      (if first - 1 == begin
        then right_down_to (length xs + 1) xs begin first end
        else right_down (length xs + 1) xs begin end)
      >>= λ last. right_loop (length xs + 1) xs begin first last >>= λ r.
          swap_at r.0 begin (r.1 - 1) >>= λ ys. ok (ys, r.1 - 1, not (ltb first last))
