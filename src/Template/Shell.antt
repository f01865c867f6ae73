-- ===== src/Template/Shell.antt =====
-- sort.h: the shell sort.
pub mod Sift
pub mod Sorts
use ksort.Base.{
  ℕ, zero, suc, ◌+◌, ◌-◌, ◌/◌, ◌==◌, List, [], ◌∷◌, leb, ltb, if◌then◌else◌, is_positive,
}
use ksort.Run.{Run, ok, fault, out_of_fuel, ◌>>=◌}
use ksort.Array.{load, store}
use ksort.Template.{sort_cmp, copy_to}

-- the inner loop: the place of `temp`, with the elements above it moved up by `inc`
unfoldable pub shell_sift : ℕ → List ℕ → ℕ → ℕ → ℕ → Run (List ℕ × ℕ)
unfolding load sort_cmp copy_to
shell_sift zero xs temp inc j = out_of_fuel
shell_sift (suc fuel) xs temp inc j = if ltb j inc then ok (xs, j) else (do
  y ← load xs (j - inc)
  if is_positive (sort_cmp y temp)
      then (do ys ← copy_to xs j (j - inc); shell_sift fuel ys temp inc (j - inc))
      else ok (xs, j))

-- the body of the `for` loop
unfoldable pub shell_at : List ℕ → ℕ → ℕ → Run (List ℕ)
unfolding load store shell_sift
shell_at xs inc i = do temp ← load xs i; r ← shell_sift (i + 1) xs temp inc i; store r.0 r.1 temp

-- the `for` loop, from `i` on
unfoldable pub shell_pass : ℕ → List ℕ → ℕ → ℕ → Run (List ℕ)
unfolding shell_at
shell_pass zero xs inc i = ok xs
shell_pass (suc rest) xs inc i = do ys ← shell_at xs inc i; shell_pass rest ys inc (i + 1)

-- the `while (1)` loop, over the gaps from the present one down; below the first there is none
unfoldable pub shell_rounds : List ℕ → List ℕ → ℕ → Run (List ℕ)
unfolding shell_pass
shell_rounds [] xs size = fault
shell_rounds (inc ∷ gaps) xs size = do
  ys ← shell_pass (size - inc) xs inc inc
  if inc == 1 then ok ys else shell_rounds gaps ys size

-- the gaps that are left when the `while` loop ends
unfoldable pub skip_gaps : List ℕ → ℕ → List ℕ
skip_gaps [] size = []
skip_gaps (inc ∷ gaps) size =
    let rest = skip_gaps gaps size in if ltb (size / 2) inc then rest else inc ∷ gaps

-- `shell_gaps`, from index 47 down
unfoldable pub shell_gaps : List ℕ
shell_gaps =
    5792303672622362446 ∷ 2316921469048944978 ∷ 926768587619577991 ∷ 370707435047831196
    ∷ 148282974019132478 ∷ 59313189607652991 ∷ 23725275843061196 ∷ 9490110337224478
    ∷ 3796044134889791 ∷ 1518417653955916 ∷ 607367061582366 ∷ 242946824632946 ∷ 97178729853178
    ∷ 38871491941271 ∷ 15548596776508 ∷ 6219438710603 ∷ 2487775484241 ∷ 995110193696 ∷ 398044077478
    ∷ 159217630991 ∷ 63687052396 ∷ 25474820958 ∷ 10189928383 ∷ 4075971353 ∷ 1630388541 ∷ 652155416
    ∷ 260862166 ∷ 104344866 ∷ 41737946 ∷ 16695178 ∷ 6678071 ∷ 2671228 ∷ 1068491 ∷ 427396 ∷ 170958
    ∷ 68383 ∷ 27353 ∷ 10941 ∷ 4376 ∷ 1750 ∷ 701 ∷ 301 ∷ 132 ∷ 57 ∷ 23 ∷ 10 ∷ 4 ∷ 1 ∷ []

unfoldable pub shell_sort : List ℕ → ℕ → Run (List ℕ)
unfolding skip_gaps shell_gaps shell_rounds
shell_sort xs size = if leb size 1 then ok xs else shell_rounds (skip_gaps shell_gaps size) xs size
