-- ===== src/Heap/Offsets/Scale.antt =====
-- Arithmetic and tests on offsets that are multiples of the element size.
use native.Mathlib.Nat.{mul-div_cancel, mul-lt-mul_of_pos_right}
use ksort.Base.{ℕ, zero, suc, ◌+◌, ◌-◌, ◌*◌, ◌/◌, ◌<◌, ◌≡◌, arith, ◌==◌, ltb}
use ksort.Words.{word, wrap64, sub64}

module _ (size : ℕ) (positive : 0 < size) where
  pub offset-index : (k : ℕ) → k * size / size ≡ k
  offset-index k = mul-div_cancel k positive

  offset-lt : (i j : ℕ) → i < j → i * size < j * size
  offset-lt i j h = mul-lt-mul_of_pos_right h positive

  pub ltb-offset : (i j : ℕ) → ltb (i * size) (j * size) ≡ ltb i j
  ltb-offset i j = ground (arith, offset-lt i j, offset-lt j i)

  pub eq-offset_zero : (k : ℕ) → (k * size == 0) ≡ (k == 0)
  eq-offset_zero k = ground (arith, offset-lt 0 k)

  pub sub64-offset : (k : ℕ) → 0 < k → k * size < word → sub64 (k * size) size ≡ (k - 1) * size
  unfolding sub64
  sub64-offset zero h f = absurd (omega arith)
  sub64-offset (suc k) h f = let e : suc k - 1 ≡ k = omega arith in rw e (omega arith)

  pub eq-offset : (i j : ℕ) → (i * size == j * size) ≡ (i == j)
  eq-offset i j = ground (arith, offset-lt i j, offset-lt j i)

  pub left-offset :
      (b : ℕ) → (2 * b + 1) * size < word → wrap64 (2 * (b * size) + size) ≡ (2 * b + 1) * size
  unfolding wrap64
  left-offset b h = omega arith

  pub right-offset :
      (b : ℕ) → (2 * b + 2) * size < word → wrap64 ((2 * b + 1) * size + size) ≡ (2 * b + 2) * size
  unfolding wrap64
  right-offset b h = omega arith
