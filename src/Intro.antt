-- ===== src/Intro.antt =====
-- intro.c: `sort_intro`. Its last pass, over the leftovers of the quicksort, is the whole sort for up
-- to 16 elements; `Intro.Quick` has the quicksort. Positions are element indices. do_swap takes the 64-bit swap there, so the element
-- size is a multiple of 8.
pub mod Leftovers
pub mod Quick
use ksort.Base.{ℕ, zero, suc, ◌+◌, ◌-◌, List, ℤ, ltb, leb, is_positive, if◌then◌else◌}
use ksort.Run.{Run, ok, out_of_fuel, ◌>>=◌}
use ksort.Array.{compare_at, swap_at}

-- `gaps[i]`, for i below 2
unfoldable pub gaps : ℕ → ℕ
gaps zero = 1
gaps (suc i) = 4

module _ {A : Type 0} (cmp_func : A → A → ℤ) where
  -- the `while`: element `k` goes down by steps of `gap`
  unfoldable pub gap_sift : ℕ → List A → ℕ → ℕ → Run (List A)
  unfolding compare_at swap_at
  gap_sift zero xs gap k = out_of_fuel
  gap_sift (suc fuel) xs gap k =
      let down : Run (List A) = (do ys ← swap_at xs k (k - gap); gap_sift fuel ys gap (k - gap)) in
      let step : Run (List A) = (do
        z ← compare_at cmp_func xs (k - gap) k
        if is_positive z then down else ok xs) in
      if leb gap k then step else ok xs

  -- the `for`
  unfoldable pub gap_loop : ℕ → List A → ℕ → ℕ → ℕ → Run (List A)
  unfolding gap_sift
  gap_loop zero xs gap j num = out_of_fuel
  gap_loop (suc fuel) xs gap j num =
      let round : Run (List A) = (do
        ys ← gap_sift (j + 1) xs gap j
        gap_loop fuel ys gap (j + 1) num) in
      if ltb j num then round else ok xs

  -- the body of the `do … while`; for fewer than 4 elements it goes on with the next gap at once
  unfoldable pub gap_round : ℕ → List A → ℕ → Run (List A)
  unfolding gaps gap_loop
  gap_round i xs num =
      let sorted = gap_loop (num + 1) xs (gaps i) (gaps i) num in
      if ltb num 4 then ok xs else sorted

  -- the `do … while` from gap number `i` on
  unfoldable pub gap_rounds : ℕ → List A → ℕ → Run (List A)
  unfolding gap_round
  gap_rounds zero xs num = gap_round zero xs num
  gap_rounds (suc i) xs num = do ys ← gap_round (suc i) xs num; gap_rounds i ys num

  -- the pass, with `int i = 0`
  unfoldable pub sort_leftovers : List A → ℕ → Run (List A)
  unfolding gap_rounds
  sort_leftovers xs num = gap_rounds 0 xs num
