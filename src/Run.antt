-- ===== src/Run.antt =====
-- How a call of the modelled C code ends, with total (`Returns`) and partial (`Ensures`)
-- correctness and a rule of each for every form that the model's code takes.
use ksort.Base.{◌≡◌, refl, Bool, true, false, if◌then◌else◌, Option, none, some}

-- A returned value, an access outside the object, or the end of the model's fuel.
pub data Run {ℓ} (A : Type ℓ) : Type ℓ where
  ok : A → Run A
  fault out_of_fuel : Run A

infixl 5 ◌>>=◌
abbrev pub ◌>>=◌ {ℓ κ} : {A : Type ℓ} {B : Type κ} → Run A → (A → Run B) → Run B
◌>>=◌ (ok value) rest = rest value
◌>>=◌ fault rest = fault
◌>>=◌ out_of_fuel rest = out_of_fuel

-- an access that finds nothing is a fault
abbrev pub or_fault {ℓ} : {A : Type ℓ} → Option A → Run A
or_fault none = fault
or_fault (some value) = ok value

-- The call comes back, and its value satisfies the predicate.
pub data Returns {ℓ κ} {Value : Type ℓ} (Post : Value → Type κ) : Run Value → Type (ℓ ⊔ κ) where
  returns : {value : Value} → Post value → Returns Post (ok value)

-- If the call comes back, its value satisfies the predicate.
pub data Ensures {ℓ κ} {Value : Type ℓ} (Post : Value → Type κ) : Run Value → Type (ℓ ⊔ κ) where
  faults : Ensures Post fault
  exhausts : Ensures Post out_of_fuel
  ensures : {value : Value} → Post value → Ensures Post (ok value)

pub Ensures-any {ℓ} : {Value : Type ℓ} (r : Run Value) → Ensures (λ _. Unit {0}) r
Ensures-any (ok value) = ensures tt
Ensures-any fault = faults
Ensures-any out_of_fuel = exhausts

pub Returns-ok {ℓ κ} :
    {Value : Type ℓ} {Post : Value → Type κ} {value : Value} → Returns Post (ok value) → Post value
Returns-ok (returns known) = known

-- what is known of the value, once the call has come back
pub Ensures-ok {ℓ κ} :
    {Value : Type ℓ} {Post : Value → Type κ} {value : Value} → Ensures Post (ok value) → Post value
Ensures-ok (ensures known) = known

-- what is known of a call that comes back
pub Returns-inv {ℓ κ} :
    {Value : Type ℓ} {Post : Value → Type κ} {r : Run Value}
    → Returns Post r
    → (value : Value) × (r ≡ ok value) × Post value
Returns-inv (returns {value} known) = (value, refl, known)

-- a call, and then the rest of the code
module _ {ℓ κ ℓ' κ'} {Value : Type ℓ} {Next : Type ℓ'} {Post : Value → Type κ}
    {Goal : Next → Type κ'} where
  pub Returns-bind :
      {r : Run Value} {rest : Value → Run Next}
      → Returns Post r
      → ((value : Value) → Post value → Returns Goal (rest value))
      → Returns Goal (r >>= rest)
  Returns-bind (returns {value} known) go = go value known

  pub Ensures-bind :
      {r : Run Value} {rest : Value → Run Next}
      → Ensures Post r
      → ((value : Value) → Post value → Ensures Goal (rest value))
      → Ensures Goal (r >>= rest)
  Ensures-bind faults go = faults
  Ensures-bind exhausts go = exhausts
  Ensures-bind (ensures {value} known) go = go value known

-- a branch on a test
module _ {ℓ κ} {Value : Type ℓ} {Post : Value → Type κ} {r r' : Run Value} where
  pub Returns-if :
      (test : Bool)
      → (test ≡ true → Returns Post r)
      → (test ≡ false → Returns Post r')
      → Returns Post (if test then r else r')
  Returns-if false on_true on_false = on_false refl
  Returns-if true on_true on_false = on_true refl

  pub Ensures-if :
      (test : Bool)
      → (test ≡ true → Ensures Post r)
      → (test ≡ false → Ensures Post r')
      → Ensures Post (if test then r else r')
  Ensures-if false on_true on_false = on_false refl
  Ensures-if true on_true on_false = on_true refl

-- a weaker predicate
module _ {ℓ κ κ'} {Value : Type ℓ} {Post : Value → Type κ} {Weak : Value → Type κ'} where
  pub Returns-map :
      {r : Run Value}
      → Returns Post r
      → ((value : Value) → Post value → Weak value)
      → Returns Weak r
  Returns-map (returns {value} known) weaken = returns (weaken value known)

  pub Ensures-map :
      {r : Run Value}
      → Ensures Post r
      → ((value : Value) → Post value → Weak value)
      → Ensures Weak r
  Ensures-map faults weaken = faults
  Ensures-map exhausts weaken = exhausts
  Ensures-map (ensures {value} known) weaken = ensures (weaken value known)

  pub Returns-Ensures :
      {r : Run Value}
      → Returns Post r
      → ((value : Value) → Post value → Weak value)
      → Ensures Weak r
  Returns-Ensures (returns {value} known) weaken = ensures (weaken value known)

-- two ways to go on that agree on what a call may return
pub bind-agree {ℓ κ ℓ'} :
    {Value : Type ℓ} {Next : Type ℓ'} {Post : Value → Type κ} {r : Run Value}
    {rest rest' : Value → Run Next}
    → Ensures Post r
    → ((value : Value) → Post value → rest value ≡ rest' value)
    → (r >>= rest) ≡ (r >>= rest')
bind-agree faults same = refl
bind-agree exhausts same = refl
bind-agree (ensures {value} known) same = same value known

pub bind-cong {ℓ κ} :
    {Value : Type ℓ} {Next : Type κ} (r : Run Value) {rest rest' : Value → Run Next}
    → ((value : Value) → rest value ≡ rest' value)
    → (r >>= rest) ≡ (r >>= rest')
bind-cong r same = bind-agree (Ensures-any r) λ value _. same value

pub bind-bind {ℓ κ μ} :
    {A : Type ℓ} {B : Type κ} {C : Type μ} (r : Run A) (f : A → Run B) (g : B → Run C)
    → (r >>= f >>= g) ≡ (r >>= λ a. f a >>= g)
bind-bind (ok value) f g = refl
bind-bind fault f g = refl
bind-bind out_of_fuel f g = refl
