-- ===== src/Compare.antt =====
-- main.c: the comparators that the module hands to the sorting functions. pdqsort.c has its own
-- copy of `cmpint64`. An element is the number that its bytes stand for.
use ksort.Base.{
  refl, zero, suc, ◌∙◌, leb, ◌&&◌, Bool, is_negative, is_positive, ◌+◌, ◌-◌, ◌%◌, ◌^◌, ◌<◌, ◌≡◌, ℕ,
  ℤ, pos, negsuc, ◌==◌, ltb, if◌then◌else◌, arith,
}
use ksort.Array.{IsThreeWay, IsLess}

unfoldable pub cmpint64 : ℕ → ℕ → ℤ
cmpint64 a b = if ltb b a then pos 1 else if a == b then pos 0 else negsuc 0

unfoldable pub cmpuint64 : ℕ → ℕ → ℤ
cmpuint64 a b = if ltb a b then pos 1 else pos 0

-- the `int` that a 32-bit pattern stands for
unfoldable pub to_int : ℕ → ℤ
to_int p = if ltb p (2 ^ 31) then pos p else negsuc (2 ^ 32 - 1 - p)

-- the difference of two `int`s, as 32-bit patterns, which wraps
unfoldable pub cmpint : ℕ → ℕ → ℤ
unfolding to_int
cmpint a b = to_int ((a + 2 ^ 32 - b) % 2 ^ 32)

-- `a > b` on `int`s: their order is that of the patterns with the sign bit turned over
unfoldable pub int_rank : ℕ → ℕ
int_rank p = (p + 2 ^ 31) % 2 ^ 32

unfoldable pub is_above : ℕ → ℕ → Bool
unfolding int_rank
is_above a b = ltb (int_rank b) (int_rank a)

to_int-negative : (p : ℕ) → is_negative (to_int p) ≡ leb (2 ^ 31) p
unfolding to_int
to_int-negative p = ground arith

to_int-positive : (p : ℕ) → is_positive (to_int p) ≡ ltb 0 p && ltb p (2 ^ 31)
unfolding to_int
to_int-positive zero = refl
to_int-positive (suc p) = ground arith

-- cmpint orders two ints that are less than 2 ^ 31 apart by their value; the two tests on its result
-- say which is less.
pub cmpint-order :
    (a b : ℕ)
    → a < 2 ^ 32
    → b < 2 ^ 32
    → int_rank a < int_rank b + 2 ^ 31
    → int_rank b < int_rank a + 2 ^ 31
    → (is_negative (cmpint a b) ≡ ltb (int_rank a) (int_rank b))
      × (is_positive (cmpint a b) ≡ ltb (int_rank b) (int_rank a))
unfolding cmpint int_rank
cmpint-order a b ha hb h g = (
  to_int-negative ((a + 2 ^ 32 - b) % 2 ^ 32) ∙ ground arith,
  to_int-positive ((a + 2 ^ 32 - b) % 2 ^ 32) ∙ ground arith,
)

-- cmpint64 is a three-way comparator by the value of the words, and cmpuint64 the strict order test.
pub comparators_order : IsThreeWay (λ x. x) cmpint64 × IsLess (λ x. x) cmpuint64
unfolding cmpint64 cmpuint64
comparators_order =
    (record { below = λ x y. ground arith; above = λ x y. ground arith }, λ x y. ground arith)
