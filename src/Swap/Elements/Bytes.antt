-- ===== src/Swap/Elements/Bytes.antt =====
-- The bytes of an array, and where those of one element stand.
use native.Mathlib.Nat.{add-mul}
use ksort.Base.{
  ℕ, zero, suc, ◌+◌, ◌-◌, ◌*◌, ◌<◌, ◌≡◌, refl, ◌∙◌, List, [], ◌∷◌, ◌++◌, arith, false, ltb,
  if◌then◌else◌,
}
use mathlib.Core.Option.{some-injective}
use mathlib.Core.Path.{ap₂}
use ksort.Array.{length, get_elem?}

module _ {B : Type 0} where
  abbrev pub flatten : List (List B) → List B
  flatten [] = []
  flatten (x ∷ xs) = x ++ flatten xs

  -- each element has `size` bytes
  abbrev pub AllSized : ℕ → List (List B) → Type 0
  AllSized size [] = Unit {0}
  AllSized size (x ∷ xs) = (length x ≡ size) × AllSized size xs

  abbrev pub element_at : List (List B) → ℕ → List B
  element_at [] q = []
  element_at (x ∷ xs) zero = x
  element_at (x ∷ xs) (suc q) = element_at xs q

  length-++ : (xs ys : List B) → length (xs ++ ys) ≡ length xs + length ys
  length-++ [] ys = omega arith
  length-++ (x ∷ xs) ys = omega (arith, length-++ xs ys)

  get_elem?-++ :
      (xs ys : List B) (k : ℕ)
      → get_elem? (xs ++ ys) k
        ≡ (if ltb k (length xs) then get_elem? xs k else get_elem? ys (k - length xs))
  get_elem?-++ [] ys k = ground arith
  get_elem?-++ (x ∷ xs) ys zero = ground arith
  get_elem?-++ (x ∷ xs) ys (suc k) = ground (arith, get_elem?-++ xs ys k)

  pub length-flatten :
      (size : ℕ) (xs : List (List B)) → AllSized size xs → length (flatten xs) ≡ length xs * size
  length-flatten size [] a = omega arith
  length-flatten size (x ∷ xs) a =
      length-++ x (flatten xs)
      ∙ omega (arith, a.0, length-flatten size xs a.1, add-mul 1 (length xs) size)

  pub get_elem?-flatten :
      (size : ℕ) (xs : List (List B)) (q r : ℕ)
      → AllSized size xs
      → r < size
      → get_elem? (flatten xs) (q * size + r) ≡ get_elem? (element_at xs q) r
  get_elem?-flatten size [] q r a h = refl
  get_elem?-flatten size (x ∷ xs) zero r a h =
      let e : 0 * size + r ≡ r = omega arith in
      rw e (ground (arith, get_elem?-++ x (flatten xs) r, a.0))
  get_elem?-flatten size (x ∷ xs) (suc q) r a h =
      let e : suc q * size + r ≡ size + (q * size + r) = omega (arith, add-mul 1 q size) in
      let behind : size + (q * size + r) - length x ≡ q * size + r = omega (arith, a.0) in
      let past : ltb (size + (q * size + r)) (length x) ≡ false = ground (arith, a.0) in
      rw (e, get_elem?-++ x (flatten xs) (size + (q * size + r)), past, behind)
        (get_elem?-flatten size xs q r a.1 h)

  pub get_elem?-ext : (xs ys : List B) → ((k : ℕ) → get_elem? xs k ≡ get_elem? ys k) → xs ≡ ys
  get_elem?-ext [] [] h = refl
  get_elem?-ext [] (y ∷ ys) h = absurd (ground (arith, h 0))
  get_elem?-ext (x ∷ xs) [] h = absurd (ground (arith, h 0))
  get_elem?-ext (x ∷ xs) (y ∷ ys) h =
      ap₂ ◌∷◌ (some-injective _ _ (h 0)) (get_elem?-ext xs ys λ k. h (suc k))
