-- ===== src/Swap/Elements.antt =====
-- The array of elements over the bytes that it lies in: the exchange of bytes is the exchange of elements.
pub mod Bytes
use native.Mathlib.Decide.{ℕ_discrete, dec_lt}
use mathlib.Core.Option.{some-injective}
use native.Mathlib.Nat.{mul-le-mul_right, add-mul, div-add-mod', mod-lt}
use ksort.Base.{
  ℕ, zero, suc, ◌+◌, ◌-◌, ◌*◌, ◌/◌, ◌%◌, ◌≤◌, ◌<◌, ◌≡◌, ◌≢◌, refl, sym, ap, ◌∙◌, inl, inr, List, [],
  ◌∷◌, ◌++◌, some, none, arith, Bool, true, false, ◌==◌, if◌then◌else◌, ltb, leb, ◌&&◌,
}
use ksort.Run.{Run, ok, ◌>>=◌, Returns, Returns-inv}
use ksort.Words.{word}
use ksort.Array.{length, get_elem?, set, swap_at}
use ksort.Array.Laws.{get_elem?-some, get_elem?-none, get_elem?-set, length-set}
use ksort.Swap.{choose_swap, do_swap}
use ksort.Swap.Chunk.{IsApart, IsExchanged, source}
use ksort.Swap.Correct.{do_swap-exchanges}
use ksort.Swap.Elements.Bytes.{
  flatten, AllSized, element_at, length-flatten, get_elem?-flatten, get_elem?-ext,
}

-- a slot lies in front of every later one, and inside the array
slot_inside : (size i n : ℕ) → i < n → i * size + size ≤ n * size
slot_inside size i n h =
    let le : (i + 1) * size ≤ n * size = mul-le-mul_right size (omega arith) in
    omega (arith, le, add-mul i 1 size)

-- the bytes of element `q` and those of another one
slot_same :
    (size q r : ℕ)
    → r < size
    → (leb (q * size) (q * size + r) && ltb (q * size + r) (q * size + size)) ≡ true
slot_same size q r h = ground arith

slot_other :
    (size i q r : ℕ)
    → r < size
    → i ≢ q
    → (leb (i * size) (q * size + r) && ltb (q * size + r) (i * size + size)) ≡ false
slot_other size i q r h n = elim (dec_lt i q) [
  | yes l ↦ ground (arith, slot_inside size i q (omega arith))
  | no l ↦ ground (arith, slot_inside size q i (omega arith))
]

slots-IsApart : (i j size : ℕ) → IsApart (i * size) (j * size) size
slots-IsApart i j size = elim (ℕ_discrete i j) [
  | yes e ↦ inl (ap (λ k. k * size) e)
  | no n ↦ elim (dec_lt i j) [
    | yes l ↦ inr (inl (slot_inside size i j (omega arith)))
    | no l ↦ inr (inr (slot_inside size j i (omega arith)))
  ]
]

-- the slot that the bytes of slot `q` come from
source-slot :
    (i j q r size : ℕ)
    → r < size
    → source (i * size) (j * size) size (q * size + r)
      ≡ (if i == q then j else if j == q then i else q) * size + r
source-slot i j q r size h = elim (ℕ_discrete i q) [
  | yes e ↦ rw (e, slot_same size q r h) (ground arith)
  | no n ↦ elim (ℕ_discrete j q) [
    | yes e ↦ rw (e, slot_other size i q r h n, slot_same size q r h) (ground arith)
    | no n' ↦ rw (slot_other size i q r h n, slot_other size j q r h n') (ground arith)
  ]
]

module _ {B : Type 0} where
  element_at-some :
      (xs : List (List B)) (i : ℕ) (x : List B) → get_elem? xs i ≡ some x → element_at xs i ≡ x
  element_at-some [] i x e = absurd (ground arith)
  element_at-some (y ∷ xs) zero x e = some-injective y x e
  element_at-some (y ∷ xs) (suc i) x e = element_at-some xs i x e

  element_at-set :
      (xs : List (List B)) (i k : ℕ) (v : List B)
      → i < length xs
      → element_at (set xs i v) k ≡ (if i == k then v else element_at xs k)
  element_at-set [] i k v h = absurd (omega arith)
  element_at-set (x ∷ xs) zero zero v h = refl
  element_at-set (x ∷ xs) (suc i) (suc k) v h = ground (arith, element_at-set xs i k v)
  element_at-set (x ∷ xs) i k v h = ground arith

  AllSized-at :
      (size : ℕ) (xs : List (List B)) (i : ℕ)
      → AllSized size xs
      → i < length xs
      → length (element_at xs i) ≡ size
  AllSized-at size [] i a h = absurd (omega arith)
  AllSized-at size (x ∷ xs) zero a h = a.0
  AllSized-at size (x ∷ xs) (suc i) a h = AllSized-at size xs i a.1 (omega arith)

  AllSized-set :
      (size : ℕ) (xs : List (List B)) (i : ℕ) (v : List B)
      → AllSized size xs
      → length v ≡ size
      → AllSized size (set xs i v)
  AllSized-set size [] i v a e = tt
  AllSized-set size (x ∷ xs) zero v a e = (e, a.1)
  AllSized-set size (x ∷ xs) (suc i) v a e = (a.0, AllSized-set size xs i v a.1 e)

  module _ (size : ℕ) (xs : List (List B)) (i j : ℕ) (z : 0 < size) (a : AllSized size xs)
      (hi : i < length xs) (hj : j < length xs) where
    abbrev swapped : List (List B)
    swapped = set (set xs i (element_at xs j)) j (element_at xs i)

    swapped-AllSized : AllSized size swapped
    swapped-AllSized =
        AllSized-set size _ j _ (AllSized-set size xs i _ a (AllSized-at size xs j a hj))
          (AllSized-at size xs i a hi)

    swapped-at :
        (q : ℕ)
        → element_at swapped q ≡ element_at xs (if i == q then j else if j == q then i else q)
    swapped-at q =
        let inside : j < length (set xs i (element_at xs j)) = rw length-set hj in
        ground (
          arith,
          element_at-set (set xs i (element_at xs j)) j q (element_at xs i) inside,
          element_at-set xs i q (element_at xs j) hi,
        )

    exchanged-bytes :
        (m' : List B)
        → IsExchanged (i * size) (j * size) size (flatten xs) m'
        → m' ≡ flatten swapped
    exchanged-bytes m' x = get_elem?-ext m' (flatten swapped) λ k.
        let q = k / size in
        let r = k % size in
        let parts : k ≡ q * size + r = sym (div-add-mod' k size) in
        let low : r < size = mod-lt k z in
        rw
          (
            parts,
            x.at (q * size + r),
            source-slot i j q r size low,
            get_elem?-flatten size swapped q r swapped-AllSized low,
            get_elem?-flatten size xs (if i == q then j else if j == q then i else q) r a low,
            swapped-at q,
          )
          refl

    -- For elements of `size` bytes, the swap that sort_r chooses for a null pointer does to the bytes of
    -- the array what the exchange of elements `i` and `j` does to the array.
    pub do_swap-swap_at :
        (config_64bit efficient_unaligned : Bool) (base : ℕ)
        → size < word
        → do_swap config_64bit
            (flatten xs)
            (i * size)
            (j * size)
            size
            (choose_swap efficient_unaligned base size)
          ≡ (swap_at xs i j >>= λ ys. ok (flatten ys))
    unfolding swap_at
    do_swap-swap_at config efficient base small =
        let whole = length-flatten size xs a in
        let (m', run, x) = Returns-inv (
          do_swap-exchanges (flatten xs) (i * size) (j * size) size z small (slots-IsApart i j size)
            (omega (arith, whole, slot_inside size i (length xs) hi))
            (omega (arith, whole, slot_inside size j (length xs) hj)) config efficient base) in
        let (u, eu) = get_elem?-some xs i hi in
        let (v, ev) = get_elem?-some xs j hj in
        let same = exchanged-bytes m' x in
        rw (run, eu, ev, same, element_at-some xs i u eu, element_at-some xs j v ev) refl
