-- ===== src/Template/Tim/Runs.antt =====
-- REVERSE_ELEMENTS and COUNT_RUN.
pub mod Counted
use ksort.Base.{ℕ, zero, suc, ◌+◌, ◌-◌, List, leb, ◌==◌, if◌then◌else◌, is_positive}
use ksort.Run.{Run, ok, out_of_fuel, ◌>>=◌}
use ksort.Array.{compare_at, swap_at}
use ksort.Template.{sort_cmp}

unfoldable pub reverse_elements : ℕ → List ℕ → ℕ → ℕ → Run (List ℕ)
unfolding swap_at
reverse_elements zero xs start end = out_of_fuel
reverse_elements (suc fuel) xs start end =
    if leb end start
    then ok xs
    else (do ys ← swap_at xs start end; reverse_elements fuel ys (start + 1) (end - 1))

-- the loop of an increasing run, from `curr` on
unfoldable pub ascend : ℕ → List ℕ → ℕ → ℕ → Run ℕ
unfolding compare_at sort_cmp
ascend zero xs size curr = out_of_fuel
ascend (suc fuel) xs size curr = if curr == size - 1 then ok curr else (do
  z ← compare_at sort_cmp xs (curr - 1) curr
  if is_positive z then ok curr else ascend fuel xs size (curr + 1))

-- the loop of a decreasing run
unfoldable pub descend_run : ℕ → List ℕ → ℕ → ℕ → Run ℕ
unfolding compare_at sort_cmp
descend_run zero xs size curr = out_of_fuel
descend_run (suc fuel) xs size curr = if curr == size - 1 then ok curr else (do
  z ← compare_at sort_cmp xs (curr - 1) curr
  if is_positive z then descend_run fuel xs size (curr + 1) else ok curr)

-- COUNT_RUN, with the array that it leaves; `size` is above `start`
unfoldable pub count_run : List ℕ → ℕ → ℕ → Run (List ℕ × ℕ)
unfolding compare_at sort_cmp swap_at reverse_elements ascend descend_run
count_run xs start size =
    if size - start == 1
    then ok (xs, 1)
    else if leb (size - 2) start
    then (do
      z ← compare_at sort_cmp xs (size - 2) (size - 1)
      if is_positive z then (do ys ← swap_at xs (size - 2) (size - 1); ok (ys, 2)) else ok (xs, 2))
    else (do
      z ← compare_at sort_cmp xs start (start + 1)
      if is_positive z
          then (do
            curr ← descend_run size xs size (start + 2)
            ys ← reverse_elements size xs start (curr - 1)
            ok (ys, curr - start))
          else (do curr ← ascend size xs size (start + 2); ok (xs, curr - start)))
