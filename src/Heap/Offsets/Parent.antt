-- ===== src/Heap/Offsets/Parent.antt =====
-- `parent` finds the parent's offset with no division by the element size.
use Prim.Native.Nat.{bit_and}
use native.Mathlib.Nat.{mod-eq_of_lt}
use ksort.Base.{ℕ, zero, suc, ◌+◌, ◌-◌, ◌*◌, ◌/◌, ◌%◌, ◌^◌, ◌≤◌, ◌<◌, ◌≡◌, ◌∙◌, ap, arith}
use ksort.Words.{word, sub64, neg64, neg_signed64}
use ksort.Words.LowBit.{IsLowBit, bit_and_neg, bit_and-zero}
use ksort.Heap.{parent, low_bit}
use ksort.Heap.Index.{up}

-- a position that is a multiple of the size, after `j = i - size`
sub64-small : (x y : ℕ) → y ≤ x → x < word → sub64 x y ≡ x - y
unfolding sub64
sub64-small x y h p = omega arith

neg64-small : (x : ℕ) → 0 < x → x < word → neg64 x ≡ word - x
unfolding neg64
neg64-small x p h = omega arith

neg_signed64-small : (x : ℕ) → 0 < x → x < 2 ^ 31 → neg_signed64 x ≡ word - x
unfolding neg_signed64 neg64
neg_signed64-small x p h = ground arith

-- `lsbit` is the lowest set bit of the size
low_bit_lem : (size : ℕ) → 0 < size → size < 2 ^ 31 → low_bit size ≡ bit_and size (word - size)
unfolding low_bit
low_bit_lem size p h =
    rw (neg_signed64-small size p h)
      (mod-eq_of_lt (omega (arith, (bit_and_neg 64 size p (omega arith)).below)))

low_bit-IsLowBit : (size : ℕ) → 0 < size → size < 2 ^ 31 → IsLowBit 64 size (low_bit size)
low_bit-IsLowBit size p h = rw (low_bit_lem size p h) (bit_and_neg 64 size p (omega arith))

-- the mask is 0 at an even multiple of the size, and the whole size at an odd one
mask_of_bit :
    (r size l : ℕ)
    → IsLowBit 64 size l
    → size < word
    → r < 2
    → bit_and size (neg64 (r * l)) ≡ r * size
unfolding neg64
mask_of_bit zero size l b h q =
    let e : (word - 0 * l) % word ≡ 0 = omega arith in
    rw e (omega (arith, bit_and-zero size size (omega arith)))
mask_of_bit (suc zero) size l b h q =
    let e : (word - 1 * l) % word ≡ word - l = omega (arith, b.positive, b.below) in
    rw e (omega (arith, b.masks))
mask_of_bit (suc (suc r)) size l b h q = absurd (omega arith)

module _ (k size : ℕ) (positive : 0 < size) (small : size < 2 ^ 31)
    (fits : suc k * size < word) where
  -- the parent of the element with index `k + 1`
  parent-suc : parent (suc k * size) (low_bit size) size ≡ k / 2 * size
  unfolding parent
  parent-suc =
      let bit = low_bit-IsLowBit size positive small in
      let first : sub64 (suc k * size) size ≡ k * size =
        sub64-small (suc k * size) size (omega arith) fits ∙ omega arith in
      let mask : bit_and size (neg64 (bit_and (k * size) (low_bit size))) ≡ k % 2 * size =
        rw (bit.selects k)
          (mask_of_bit (k % 2) size (low_bit size) bit (omega arith) (omega arith)) in
      let split : k * size ≡ 2 * (k / 2 * size) + k % 2 * size =
        ap (λ (t : ℕ). t * size) (halves k) ∙ omega arith in
      rw (first, mask, sub64-small (k * size) (k % 2 * size) (omega arith) (omega arith))
        (omega arith)
    where
      halves : (k : ℕ) → k ≡ 2 * (k / 2) + k % 2
      halves k = omega arith

-- At a multiple of the size, other than 0, `parent` returns the offset of the parent's element.
pub parent-up :
    (k size : ℕ)
    → 0 < k
    → 0 < size
    → size < 2 ^ 31
    → k * size < word
    → parent (k * size) (low_bit size) size ≡ up k * size
parent-up zero size h p s f = absurd (omega arith)
parent-up (suc k) size h p s f =
    let e : up (suc k) ≡ k / 2 = omega arith in rw e (parent-suc k size p s f)
