-- ===== src/Template/Simple.antt =====
-- sort.h: the selection sort and the bubble sort.
pub mod Selection
pub mod Bubble
use ksort.Base.{
  ℕ, zero, suc, ◌+◌, ◌-◌, ◌==◌, List, leb, ltb, if◌then◌else◌, is_negative, is_positive,
}
use ksort.Run.{Run, ok, fault, out_of_fuel, ◌>>=◌}
use ksort.Array.{compare_at, swap_at}
use ksort.Template.{sort_cmp}

-- the body of the inner loop of SELECTION_SORT
unfoldable pub select_at : List ℕ → ℕ → ℕ → Run (List ℕ)
unfolding sort_cmp compare_at swap_at
select_at xs i j = do
  z ← compare_at sort_cmp xs j i
  if is_negative z then swap_at xs i j else ok xs

-- the inner loop, from `j` on
unfoldable pub select_loop : ℕ → List ℕ → ℕ → ℕ → Run (List ℕ)
unfolding select_at
select_loop zero xs i j = ok xs
select_loop (suc rest) xs i j = do ys ← select_at xs i j; select_loop rest ys i (j + 1)

-- the outer loop, from `i` on
unfoldable pub selection_loop : ℕ → List ℕ → ℕ → Run (List ℕ)
unfolding select_loop
selection_loop zero xs i = ok xs
selection_loop (suc rest) xs i = do
  ys ← select_loop rest xs i (i + 1)
  selection_loop rest ys (i + 1)

unfoldable pub selection_sort : List ℕ → ℕ → Run (List ℕ)
unfolding selection_loop
selection_sort xs size = if leb size 1 then ok xs else selection_loop size xs 0

-- the body of the inner loop of BUBBLE_SORT, with the new `newn`
unfoldable pub bubble_at : List ℕ → ℕ → ℕ → Run (List ℕ × ℕ)
unfolding sort_cmp compare_at swap_at
bubble_at xs i newn = do
  z ← compare_at sort_cmp xs (i - 1) i
  if is_positive z then (do ys ← swap_at xs (i - 1) i; ok (ys, i)) else ok (xs, newn)

-- the inner loop, from `i` on
unfoldable pub bubble_loop : ℕ → List ℕ → ℕ → ℕ → Run (List ℕ × ℕ)
unfolding bubble_at
bubble_loop zero xs i newn = ok (xs, newn)
bubble_loop (suc rest) xs i newn = do r ← bubble_at xs i newn; bubble_loop rest r.0 (i + 1) r.1

-- the outer loop
unfoldable pub bubble_rounds : ℕ → List ℕ → ℕ → Run (List ℕ)
unfolding bubble_loop
bubble_rounds zero xs n = out_of_fuel
bubble_rounds (suc fuel) xs n =
    if n == 0 then ok xs else (do r ← bubble_loop (n - 1) xs 1 0; bubble_rounds fuel r.0 r.1)

unfoldable pub bubble_sort : List ℕ → ℕ → Run (List ℕ)
unfolding bubble_rounds
bubble_sort xs size = bubble_rounds (size + 1) xs size
