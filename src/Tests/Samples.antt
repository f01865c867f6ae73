-- ===== src/Tests/Samples.antt =====
-- Arrays of numbers, and the comparators of main.c on them.
use ksort.Base.{ℕ, List, [], ◌∷◌}

abbrev pub five : List ℕ
five = 3 ∷ 1 ∷ 4 ∷ 1 ∷ 5 ∷ []

abbrev pub id_key : ℕ → ℕ
id_key x = x
