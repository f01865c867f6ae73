-- ===== src/Words/Bits/Digits.antt =====
-- A bitwise operation does not depend on how many digits it is allowed.
use Prim.Native.Nat.{digits}
use ksort.Base.{ℕ, zero, suc, ◌+◌, ◌-◌, ◌*◌, ◌/◌, ◌%◌, ◌≤◌, ◌≡◌, refl, ap, ◌∙◌, arith}

module _ (end : ℕ → ℕ) (digit : ℕ → ℕ → ℕ) where
  -- one digit more than the number needs
  digits_more : (n x y : ℕ) → x ≤ n → digits end digit (suc n) x y ≡ digits end digit n x y
  digits_more zero zero y h = refl
  digits_more zero (suc x) y h = absurd (omega arith)
  digits_more (suc n) zero y h = refl
  digits_more (suc n) (suc x) y h =
      ap (λ t. t * 2 + digit (suc x % 2) (y % 2)) (digits_more n (suc x / 2) (y / 2) (omega arith))

  digits_enough : (k x y : ℕ) → digits end digit (x + k) x y ≡ digits end digit x x y
  digits_enough zero x y = let e : x + 0 ≡ x = omega arith in rw e
  digits_enough (suc k) x y =
      let e : x + suc k ≡ suc (x + k) = omega arith in
      rw e (digits_more (x + k) x y (omega arith) ∙ digits_enough k x y)

  -- the rest of a number needs no more digits than its half
  pub digits_half :
      (x y : ℕ) → digits end digit x (suc x / 2) y ≡ digits end digit (suc x / 2) (suc x / 2) y
  digits_half x y =
      let e : x ≡ suc x / 2 + (x - suc x / 2) = omega arith in
      ap (λ t. digits end digit t (suc x / 2) y) e ∙ digits_enough (x - suc x / 2) (suc x / 2) y
