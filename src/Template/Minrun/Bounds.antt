-- ===== src/Template/Minrun/Bounds.antt =====
-- The bounds of the length of the runs.
use native.Mathlib.Nat.{le-div_iff_mul-le, div-lt_iff_lt-mul, mod-add-div', mod-lt}
use ksort.Base.{
  ℕ, zero, suc, ◌+◌, ◌-◌, ◌*◌, ◌/◌, ◌%◌, ◌^◌, ◌≤◌, ◌<◌, ◌≡◌, ap, ◌∙◌, ◌==◌, ltb, if◌then◌else◌,
  arith, Bool-cases, inl, inr, true,
}
use ksort.Words.{log2}
use ksort.Words.Log.{pow-pos, log2-le, pow-add_four, pow-suc}
use ksort.Template.Minrun.{minrun_shift, compute_minrun}

log2-pow : (bits x : ℕ) → 0 < x → x < 2 ^ bits → (2 ^ log2 bits x ≤ x) × (x < 2 * 2 ^ log2 bits x)
unfolding log2
log2-pow zero x z h = absurd (omega arith)
log2-pow (suc bits) x z h = elim (Bool-cases (ltb x 2)) [
  | inl t ↦ rw t (omega arith, ground arith)
  | inr t ↦
      let half = log2-pow bits (x / 2) (ground arith) (omega arith) in
      let next = pow-suc (log2 bits (x / 2)) in
      let same : 2 ^ (log2 bits (x / 2) + 1) ≡ 2 * 2 ^ log2 bits (x / 2) =
        ap (λ k. 2 ^ k) (omega arith) ∙ next in
      rw t (omega (arith, half.0, same), omega (arith, half.1, same))
]

pow-add_five : (d : ℕ) → 2 ^ (d + 5) ≡ 32 * 2 ^ d
pow-add_five d = let e : d + 5 ≡ suc (d + 4) = omega arith in rw e (omega (arith, pow-add_four d))

-- a quotient, rounded up
quotient_bounds :
    (size p : ℕ)
    → 0 < p
    → 32 * p ≤ size
    → size < 64 * p
    → let m = if size % p == 0 then size / p else size / p + 1 in
      (32 ≤ m) × (m ≤ 64) × (size ≤ m * p) × (m * p < size + p)
quotient_bounds size p z lower upper =
    let from : 32 ≤ size / p = (le-div_iff_mul-le z).1 lower in
    let below : size / p < 64 = (div-lt_iff_lt-mul z).1 upper in
    let whole = mod-add-div' size p in
    let rest = mod-lt size z in
    elim (Bool-cases (size % p == 0)) [
      | inl t ↦ rw t (from, omega arith, ground arith, ground arith)
      | inr t ↦ rw t (omega arith, omega arith, ground arith, ground arith)
    ]

module _ (size : ℕ) (many : 64 ≤ size) (fits : size < 2 ^ 64) where
  shift_bounds : (32 * 2 ^ minrun_shift size ≤ size) × (size < 64 * 2 ^ minrun_shift size)
  unfolding minrun_shift
  shift_bounds =
      let l = log2 64 size in
      let six : 6 ≤ l = log2-le 64 size 6 fits many in
      let (lower, upper) = log2-pow 64 size (omega arith) fits in
      let far : ltb 6 (l + 1) ≡ true = ground arith in
      let s = l + 1 - 6 in
      let e : l ≡ s + 5 = omega arith in
      let p : 2 ^ l ≡ 32 * 2 ^ s = ap (λ k. 2 ^ k) e ∙ pow-add_five s in
      rw far (omega (arith, p, lower), omega (arith, p, upper))

  -- For 64 elements or more, and fewer than 2^64, the length of the runs is from 32 to 64: it is
  -- the number of elements divided by some power of two, rounded up.
  pub compute_minrun-bounds :
      (32 ≤ compute_minrun size)
      × (compute_minrun size ≤ 64)
      × (d : ℕ) × (size ≤ compute_minrun size * 2 ^ d)
      × (compute_minrun size * 2 ^ d < size + 2 ^ d)
  unfolding compute_minrun
  compute_minrun-bounds =
      let (lower, upper) = shift_bounds in
      let (a, b, c, e) =
        quotient_bounds size (2 ^ minrun_shift size) (pow-pos (minrun_shift size)) lower upper in
      (a, b, minrun_shift size, c, e)
