-- ===== src/Xoroshiro/Rotate.antt =====
-- `rotl` moves the high bits behind the low ones: it can be undone, and it distributes over `^`.
use Prim.Native.Nat.{bit_or, bit_xor}
use native.Mathlib.Nat.{pow-suc, mod-lt, one-le-pow, div-add-mod'}
use ksort.Base.{ℕ, zero, suc, ◌+◌, ◌*◌, ◌/◌, ◌%◌, ◌^◌, ◌≤◌, ◌<◌, ◌≡◌, refl, ap, arith}
use ksort.Words.{word}
use ksort.Words.Bits.{bit_or_step}
use ksort.Words.Xor.{bit_xor_fields}
use ksort.Xoroshiro.{rotl}

or_zero_below : (n a : ℕ) → a ≤ n → bit_or a 0 ≡ a
or_zero_below zero a h = let e : a ≡ 0 = omega arith in rw e
or_zero_below (suc n) a h = omega (arith, bit_or_step a 0, or_zero_below n (a / 2) (omega arith))

double : (k x : ℕ) → x * 2 ^ suc k ≡ 2 * (x * 2 ^ k)
double k x = omega (arith, ap (λ (t : ℕ). x * t) (pow-suc 2 k))

-- `|` of words with no bit in common is their sum
or_fields : (k q r : ℕ) → r < 2 ^ k → bit_or (q * 2 ^ k) r ≡ q * 2 ^ k + r
or_fields zero q r h =
    let e : r ≡ 0 = omega arith in rw e (omega (arith, or_zero_below (q * 1) (q * 1) (omega arith)))
or_fields (suc k) q r h =
    let e : q * 2 ^ k ≡ q * 2 ^ suc k / 2 = omega (arith, double k q) in
    let ih = rw e at (or_fields k q (r / 2) (omega (arith, pow-suc 2 k))) in
    omega (arith, bit_or_step (q * 2 ^ suc k) r, double k q, pow-suc 2 k, ih)

-- the rotations of `next`, and those that undo them
pub rotl_24 : (x : ℕ) → x < word → rotl x 24 ≡ x % 2 ^ 40 * 2 ^ 24 + x / 2 ^ 40
unfolding rotl
rotl_24 x h =
    let e : x * 2 ^ 24 % word ≡ x % 2 ^ 40 * 2 ^ 24 = omega arith in
    rw e (or_fields 24 (x % 2 ^ 40) (x / 2 ^ 40) (omega arith))

pub rotl_37 : (x : ℕ) → x < word → rotl x 37 ≡ x % 2 ^ 27 * 2 ^ 37 + x / 2 ^ 27
unfolding rotl
rotl_37 x h =
    let e : x * 2 ^ 37 % word ≡ x % 2 ^ 27 * 2 ^ 37 = omega arith in
    rw e (or_fields 37 (x % 2 ^ 27) (x / 2 ^ 27) (omega arith))

pub rotl_40 : (x : ℕ) → x < word → rotl x 40 ≡ x % 2 ^ 24 * 2 ^ 40 + x / 2 ^ 24
unfolding rotl
rotl_40 x h =
    let e : x * 2 ^ 40 % word ≡ x % 2 ^ 24 * 2 ^ 40 = omega arith in
    rw e (or_fields 40 (x % 2 ^ 24) (x / 2 ^ 24) (omega arith))

pub rotl_27 : (x : ℕ) → x < word → rotl x 27 ≡ x % 2 ^ 37 * 2 ^ 27 + x / 2 ^ 37
unfolding rotl
rotl_27 x h =
    let e : x * 2 ^ 27 % word ≡ x % 2 ^ 37 * 2 ^ 27 = omega arith in
    rw e (or_fields 27 (x % 2 ^ 37) (x / 2 ^ 37) (omega arith))

pub rotl_24-lt : (x : ℕ) → x < word → rotl x 24 < word
rotl_24-lt x h = omega (arith, rotl_24 x h)

pub rotl_37-lt : (x : ℕ) → x < word → rotl x 37 < word
rotl_37-lt x h = omega (arith, rotl_37 x h)

pub rotl_24_back : (x : ℕ) → x < word → rotl (rotl x 24) 40 ≡ x
rotl_24_back x h = omega (arith, rotl_24 x h, rotl_40 (rotl x 24) (rotl_24-lt x h))

pub rotl_37_back : (x : ℕ) → x < word → rotl (rotl x 37) 27 ≡ x
rotl_37_back x h = omega (arith, rotl_37 x h, rotl_27 (rotl x 37) (rotl_37-lt x h))

pub bit_xor-lt : (x y : ℕ) → x < word → y < word → bit_xor x y < word
bit_xor-lt x y h g = (bit_xor_fields 64 0 x 0 y h g).1

-- the parts of an exclusive or
xor_split :
    (k x y : ℕ)
    → (bit_xor x y ≡ bit_xor (x / 2 ^ k) (y / 2 ^ k) * 2 ^ k + bit_xor (x % 2 ^ k) (y % 2 ^ k))
      × (bit_xor (x % 2 ^ k) (y % 2 ^ k) < 2 ^ k)
xor_split k x y =
    rw (div-add-mod' x (2 ^ k), div-add-mod' y (2 ^ k)) at
      (bit_xor_fields k (x / 2 ^ k) (x % 2 ^ k) (y / 2 ^ k) (y % 2 ^ k)
        (mod-lt x (one-le-pow k 2 (omega arith))) (mod-lt y (one-le-pow k 2 (omega arith))))

module _ (x y : ℕ) (hx : x < word) (hy : y < word) where
  pub rotl_24-xor : rotl (bit_xor x y) 24 ≡ bit_xor (rotl x 24) (rotl y 24)
  rotl_24-xor =
      let parts =
        bit_xor_fields 24 (x % 2 ^ 40) (x / 2 ^ 40) (y % 2 ^ 40) (y / 2 ^ 40) (omega arith)
          (omega arith) in
      rw (rotl_24 (bit_xor x y) (bit_xor-lt x y hx hy), rotl_24 x hx, rotl_24 y hy)
        (omega (arith, xor_split 40 x y, parts.0))

  pub rotl_37-xor : rotl (bit_xor x y) 37 ≡ bit_xor (rotl x 37) (rotl y 37)
  rotl_37-xor =
      let parts =
        bit_xor_fields 37 (x % 2 ^ 27) (x / 2 ^ 27) (y % 2 ^ 27) (y / 2 ^ 27) (omega arith)
          (omega arith) in
      rw (rotl_37 (bit_xor x y) (bit_xor-lt x y hx hy), rotl_37 x hx, rotl_37 y hy)
        (omega (arith, xor_split 27 x y, parts.0))

  pub shift_16-xor : bit_xor x y * 2 ^ 16 % word ≡ bit_xor (x * 2 ^ 16 % word) (y * 2 ^ 16 % word)
  shift_16-xor =
      let ex : x * 2 ^ 16 % word ≡ x % 2 ^ 48 * 2 ^ 16 + 0 = omega arith in
      let ey : y * 2 ^ 16 % word ≡ y % 2 ^ 48 * 2 ^ 16 + 0 = omega arith in
      let parts = bit_xor_fields 16 (x % 2 ^ 48) 0 (y % 2 ^ 48) 0 (omega arith) (omega arith) in
      let none_left : bit_xor 0 0 ≡ 0 = refl in
      rw (ex, ey) (omega (arith, xor_split 48 x y, parts.0))
