-- ===== src/Template/Bitonic/Outcomes.antt =====
-- The outcomes of a comparison of truth values hold of the two elements that it puts in order.
use ksort.Base.{
  ℕ, zero, suc, ◌≤◌, ◌<◌, ◌≡◌, ◌⊎◌, inl, inr, refl, List, [], ◌∷◌, Option, none, some, Bool, true,
  false, leb, ◌==◌, if◌then◌else◌, arith, Bool-cases,
}
use ksort.Array.{length, set}
use ksort.Template.Bitonic.{known, Fits, outcomes}

pub known-set :
    (st : List (Option Bool)) (i k : ℕ) (b : Option Bool)
    → i < length st
    → known (set st i b) k ≡ (if i == k then b else known st k)
known-set [] i k b h = absurd (omega arith)
known-set (x ∷ st) zero zero b h = refl
known-set (x ∷ st) (suc i) (suc k) b h = ground (arith, known-set st i k b)
known-set (x ∷ st) zero (suc k) b h = ground arith
known-set (x ∷ st) (suc i) zero b h = ground arith

-- some outcome that `rest` accepts holds of the two elements in order
abbrev pub HasOutcome : ℕ → (Option Bool → Option Bool → Type 0) → ℕ → ℕ → Type 0
HasOutcome t Rest x y = (b : Option Bool) × (c : Option Bool) × Rest b c × Fits t b x × Fits t c y

-- two elements in order are both below `t`, or one is, or none
pub HasOutcome-unknown :
    (t x y : ℕ) {Rest : Option Bool → Option Bool → Type 0}
    → x ≤ y
    → Rest (some false) (some false)
    → Rest (some false) (some true)
    → Rest (some true) (some true)
    → HasOutcome t Rest x y
HasOutcome-unknown t x y h ff ft tt' = elim (Bool-cases (leb t x)) [
  | inl e ↦ (some true, some true, tt', e, ground arith)
  | inr e ↦ elim (Bool-cases (leb t y)) [
    | inl e' ↦ (some false, some true, ft, e, e')
    | inr e' ↦ (some false, some false, ff, e, e')
  ]
]

pub outcomes-HasOutcome :
    (t x y x' y' : ℕ) (rest : Option Bool → Option Bool → Bool) (b c : Option Bool)
    → Fits t b x
    → Fits t c y
    → x' ≤ y'
    → (x' ≡ x) × (y' ≡ y) ⊎ (x' ≡ y) × (y' ≡ x)
    → outcomes rest b c ≡ true
    → HasOutcome t (λ b c. rest b c ≡ true) x' y'
unfolding outcomes
outcomes-HasOutcome t x y x' y' rest (some false) none f g h s e =
    (some false, none, e, ground arith, tt)
outcomes-HasOutcome t x y x' y' rest (some false) (some false) f g h s e =
    (some false, some false, e, ground arith, ground arith)
outcomes-HasOutcome t x y x' y' rest (some false) (some true) f g h s e =
    (some false, some true, e, ground arith, ground arith)
outcomes-HasOutcome t x y x' y' rest (some true) none f g h s e =
    (none, some true, e, tt, ground arith)
outcomes-HasOutcome t x y x' y' rest (some true) (some false) f g h s e =
    (some false, some true, e, ground arith, ground arith)
outcomes-HasOutcome t x y x' y' rest (some true) (some true) f g h s e =
    (some true, some true, e, ground arith, ground arith)
outcomes-HasOutcome t x y x' y' rest none (some true) f g h s e =
    (none, some true, e, tt, ground arith)
outcomes-HasOutcome t x y x' y' rest none (some false) f g h s e =
    (some false, none, e, ground arith, tt)
outcomes-HasOutcome t x y x' y' rest none none f g h s e =
    HasOutcome-unknown t x' y' h (ground arith) (ground arith) (ground arith)
