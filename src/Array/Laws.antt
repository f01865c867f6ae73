-- ===== src/Array/Laws.antt =====
-- What the accesses of `Array` do at an index inside the array.
use mathlib.Core.List.Perm
use ksort.Base.{
  ℕ, zero, suc, ◌≤◌, ◌<◌, ◌≡◌, refl, ap, List, [], ◌∷◌, Perm, none, some, arith, ◌==◌,
  if◌then◌else◌,
}
use ksort.Array.{length, get_elem?, set, key_at}

module _ {A : Type 0} where
  pub get_elem?-some : (xs : List A) (i : ℕ) → i < length xs → (x : A) × (get_elem? xs i ≡ some x)
  get_elem?-some [] i h = absurd (omega arith)
  get_elem?-some (x ∷ xs) zero h = (x, refl)
  get_elem?-some (x ∷ xs) (suc i) h = get_elem?-some xs i (omega arith)

  pub get_elem?-none : (xs : List A) (i : ℕ) → length xs ≤ i → get_elem? xs i ≡ none
  get_elem?-none [] i h = refl
  get_elem?-none (x ∷ xs) zero h = absurd (omega arith)
  get_elem?-none (x ∷ xs) (suc i) h = get_elem?-none xs i (omega arith)

  pub length-set : (xs : List A) (i : ℕ) (v : A) → length (set xs i v) ≡ length xs
  length-set [] i v = refl
  length-set (x ∷ xs) zero v = refl
  length-set (x ∷ xs) (suc i) v = ap suc (length-set xs i v)

  pub get_elem?-set :
      (xs : List A) (i k : ℕ) (v : A)
      → i < length xs
      → get_elem? (set xs i v) k ≡ (if i == k then some v else get_elem? xs k)
  get_elem?-set [] i k v h = absurd (omega arith)
  get_elem?-set (x ∷ xs) zero zero v h = refl
  get_elem?-set (x ∷ xs) (suc i) (suc k) v h = ground (arith, get_elem?-set xs i k v)
  get_elem?-set (x ∷ xs) i k v h = ground arith

  -- the second of two writes to an element counts
  pub set-set : (xs : List A) (i : ℕ) (v w : A) → set (set xs i v) i w ≡ set xs i w
  set-set [] i v w = refl
  set-set (x ∷ xs) zero v w = refl
  set-set (x ∷ xs) (suc i) v w = ap (◌∷◌ x) (set-set xs i v w)

  -- a write of the element that is there
  pub set-same : (xs : List A) (i : ℕ) (v : A) → get_elem? xs i ≡ some v → set xs i v ≡ xs
  set-same [] i v e = refl
  set-same (x ∷ xs) zero v e = let same : x ≡ v = ground arith in rw same refl
  set-same (x ∷ xs) (suc i) v e = ap (◌∷◌ x) (set-same xs i v e)

  -- a write trades the old element for the new one
  pub set-perm :
      (xs : List A) (i : ℕ) (x v : A) → get_elem? xs i ≡ some x → Perm (x ∷ set xs i v) (v ∷ xs)
  set-perm [] i x v e = absurd (ground arith)
  set-perm (y ∷ xs) zero x v e = let same : y ≡ x = ground arith in rw same (Perm.swap v x xs)
  set-perm (y ∷ xs) (suc i) x v e =
      Perm.trans (Perm.swap y x _)
        (Perm.trans (Perm.cons y (set-perm xs i x v e)) (Perm.swap v y xs))

  module _ (key : A → ℕ) where
    pub key_at-beyond : (xs : List A) (k : ℕ) → length xs ≤ k → key_at key xs k ≡ 0
    unfolding key_at
    key_at-beyond [] k h = refl
    key_at-beyond (x ∷ xs) zero h = absurd (omega arith)
    key_at-beyond (x ∷ xs) (suc k) h = key_at-beyond xs k (omega arith)

    pub key_at-some :
        (xs : List A) (i : ℕ) (x : A) → get_elem? xs i ≡ some x → key_at key xs i ≡ key x
    unfolding key_at
    key_at-some [] i x e = absurd (ground arith)
    key_at-some (y ∷ xs) zero x e = ground arith
    key_at-some (y ∷ xs) (suc i) x e = key_at-some xs i x e

    pub key_at-set :
        (xs : List A) (i k : ℕ) (v : A)
        → i < length xs
        → key_at key (set xs i v) k ≡ (if i == k then key v else key_at key xs k)
    unfolding key_at
    key_at-set [] i k v h = absurd (omega arith)
    key_at-set (x ∷ xs) zero zero v h = refl
    key_at-set (x ∷ xs) (suc i) (suc k) v h = ground (arith, key_at-set xs i k v)
    key_at-set (x ∷ xs) i k v h = ground arith
