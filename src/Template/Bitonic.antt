-- ===== src/Template/Bitonic.antt =====
-- A sorting network sorts every array if it sorts the arrays of truth values. It is run on partly known
-- truth values: an exchange of two unknown ones has three outcomes.
pub mod Checked
pub mod Exchange
pub mod Outcomes
pub mod Sound
use ksort.Base.{
  ℕ, zero, suc, ◌≡◌, List, [], ◌∷◌, Option, none, some, Bool, true, false, ◌&&◌, ltb, leb,
}
use ksort.Array.{set}

abbrev pub value : ℕ → ℕ
value x = x

-- a truth value, or `none` where it may be either
abbrev pub known : List (Option Bool) → ℕ → Option Bool
known [] k = none
known (b ∷ bs) zero = b
known (b ∷ bs) (suc k) = known bs k

-- what is known of the truth of `t ≤ v`
abbrev pub Fits : ℕ → Option Bool → ℕ → Type 0
Fits t none v = Unit {0}
Fits t (some b) v = leb t v ≡ b

-- no truth value that may be true stands in front of one that may be false
unfoldable pub ascending : Bool → List (Option Bool) → Bool
ascending seen [] = true
ascending seen (some true ∷ st) = ascending true st
ascending true (some false ∷ st) = false
ascending false (some false ∷ st) = ascending false st
ascending true (none ∷ st) = false
ascending false (none ∷ st) = ascending true st

-- what a comparison does to two truth values, for each outcome
unfoldable pub outcomes : (Option Bool → Option Bool → Bool) → Option Bool → Option Bool → Bool
outcomes rest (some false) b = rest (some false) b
outcomes rest (some true) b = rest b (some true)
outcomes rest none (some true) = rest none (some true)
outcomes rest none (some false) = rest (some false) none
outcomes rest none none =
    rest (some false) (some false) && rest (some false) (some true) && rest (some true) (some true)

unfoldable pub check : List (ℕ × ℕ) → List (Option Bool) → Bool
unfolding ascending outcomes
check [] st = ascending false st
check ((i, j) ∷ net) st =
    outcomes (λ b c. check net (set (set st i b) j c)) (known st i) (known st j)

unfoldable pub valid : ℕ → List (ℕ × ℕ) → Bool
valid n [] = true
valid n ((i, j) ∷ net) = ltb i j && ltb j n && valid n net

abbrev pub unknown : ℕ → List (Option Bool)
unknown zero = []
unknown (suc n) = none ∷ unknown n
