-- ===== src/Words/LowBit.antt =====
-- The lowest set bit of a word, `x & -x`, and masks built from it.
use Prim.Native.Nat.{bit_and}
use native.Mathlib.Nat.{pow-suc, one-le-pow}
use ksort.Base.{
  ℕ, zero, suc, ◌+◌, ◌-◌, ◌*◌, ◌/◌, ◌%◌, ◌^◌, ◌≤◌, ◌<◌, ◌≡◌, refl, ◌⊎◌, inl, inr, arith,
}
use ksort.Words.Bits.{bit_and_step, zero-bit_and}

pub bit_and-zero : (n a : ℕ) → a ≤ n → bit_and a 0 ≡ 0
bit_and-zero n zero h = refl
bit_and-zero zero (suc a) h = absurd (omega arith)
bit_and-zero (suc n) (suc a) h =
    omega (arith, bit_and_step (suc a) 0, bit_and-zero n (suc a / 2) (omega arith))

pub bit_and-one : (a : ℕ) → bit_and a 1 ≡ a % 2
bit_and-one a = omega (arith, bit_and_step a 1, bit_and-zero a (a / 2) (omega arith))

-- `&` of two even words
bit_and-double : (a b : ℕ) → bit_and (2 * a) (2 * b) ≡ 2 * bit_and a b
bit_and-double a b =
    let ea : 2 * a / 2 ≡ a = omega arith in
    let eb : 2 * b / 2 ≡ b = omega arith in
    let step = rw (ea, eb) at (bit_and_step (2 * a) (2 * b)) in omega (arith, step)

-- a word and its complement have no bit in common
bit_and-complement : (w x y : ℕ) → x + y + 1 ≡ 2 ^ w → bit_and x y ≡ 0
bit_and-complement zero x y h = let e : x ≡ 0 = omega arith in rw e (zero-bit_and y)
bit_and-complement (suc w) x y h = omega (
  arith,
  pow-suc 2 w,
  bit_and_step x y,
  bit_and-complement w (x / 2) (y / 2) (omega (arith, pow-suc 2 w)),
)

-- a word of `w` bits under a mask of `w` ones
bit_and-ones : (w x y : ℕ) → y + 1 ≡ 2 ^ w → x ≤ y → bit_and x y ≡ x
bit_and-ones zero x y h p = let e : x ≡ 0 = omega arith in rw e (zero-bit_and y)
bit_and-ones (suc w) x y h p = omega (
  arith,
  pow-suc 2 w,
  bit_and_step x y,
  bit_and-ones w (x / 2) (y / 2) (omega (arith, pow-suc 2 w)) (omega (arith, pow-suc 2 w)),
)

-- `l` is the lowest set bit of `x`, a word of `w` bits
pub record IsLowBit (w x l : ℕ) : Type 0 where
  pub positive : 0 < l
  pub below : l ≤ x
  pub selects : (k : ℕ) → bit_and (k * x) l ≡ k % 2 * l
  pub masks : bit_and x (2 ^ w - l) ≡ x

odd_selects : (q k : ℕ) → bit_and (k * (2 * q + 1)) 1 ≡ k % 2 * 1
odd_selects q k = omega (arith, bit_and-one (k * (2 * q + 1)))

odd_low : (w q : ℕ) → 2 * q + 1 < 2 ^ suc w → bit_and (2 * q + 1) (2 ^ suc w - (2 * q + 1)) ≡ 1
odd_low w q h =
    let ea : (2 * q + 1) / 2 ≡ q = omega arith in
    let eb : (2 ^ suc w - (2 * q + 1)) / 2 ≡ 2 ^ w - 1 - q = omega (arith, pow-suc 2 w) in
    let step = rw (ea, eb) at (bit_and_step (2 * q + 1) (2 ^ suc w - (2 * q + 1))) in
    omega (
      arith,
      step,
      pow-suc 2 w,
      bit_and-complement w q (2 ^ w - 1 - q) (omega (arith, pow-suc 2 w)),
    )

even_low : (w y : ℕ) → bit_and (2 * y) (2 ^ suc w - 2 * y) ≡ 2 * bit_and y (2 ^ w - y)
even_low w y =
    let e : 2 ^ suc w - 2 * y ≡ 2 * (2 ^ w - y) = omega (arith, pow-suc 2 w) in
    rw e (bit_and-double y (2 ^ w - y))

even_IsLowBit : (w y l : ℕ) → IsLowBit w y l → IsLowBit (suc w) (2 * y) (2 * l)
even_IsLowBit w y l b = record {
  positive = omega (arith, b.positive);
  below = omega (arith, b.below);
  selects = λ k.
      let e : k * (2 * y) ≡ 2 * (k * y) = omega arith in
      rw e (omega (arith, bit_and-double (k * y) l, b.selects k));
  masks =
      let e : 2 ^ suc w - 2 * l ≡ 2 * (2 ^ w - l) = omega (arith, pow-suc 2 w) in
      rw e (omega (arith, bit_and-double y (2 ^ w - l), b.masks));
}

parity : (x : ℕ) → ((q : ℕ) × (x ≡ 2 * q + 1)) ⊎ ((y : ℕ) × (x ≡ 2 * y))
parity zero = inr (0, omega arith)
parity (suc x) = elim (parity x) [
  | inl (q, e) ↦ inr (q + 1, omega arith)
  | inr (y, e) ↦ inl (y, omega arith)
]

-- `x & -x` is the lowest set bit
pub bit_and_neg : (w x : ℕ) → 0 < x → x < 2 ^ w → IsLowBit w x (bit_and x (2 ^ w - x))
bit_and_neg zero x p h = absurd (omega arith)
bit_and_neg (suc w) x p h = elim (parity x) [
  | inl (q, e) ↦
      rw (e, odd_low w q (rw e at h))
        (record {
          positive = omega arith;
          below = omega arith;
          selects = odd_selects q;
          masks =
              bit_and-ones (suc w) (2 * q + 1) (2 ^ suc w - 1) (omega (arith, one-le-pow (suc w) 2))
                (omega arith);
        })
  | inr (y, e) ↦
      rw (e, even_low w y)
        (even_IsLowBit w y _ (bit_and_neg w y (omega arith) (omega (arith, pow-suc 2 w))))
]
