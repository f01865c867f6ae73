-- ===== src/Template/Stable/Ints.antt =====
-- The `int` arithmetic of REC_STABLE_SORT, for at most 2^30 elements.
use ksort.Base.{ℕ, pos, ◌+◌, ◌-◌, ◌%◌, ◌^◌, ◌≤◌, ◌<◌, ◌≡◌, refl, arith, ltb, leb, true}
use ksort.Run.{ok}
use ksort.Words.{sub64}
use ksort.Compare.{to_int}
use ksort.Template.Stable.{fits_int, int_difference, at_most}

pub fits_int-ok : (n : ℕ) → n < 2 ^ 31 → fits_int n ≡ ok n
unfolding fits_int
fits_int-ok n h = let e : ltb n (2 ^ 31) ≡ true = ground arith in rw e refl

pub int_difference-pos : (a b : ℕ) → b ≤ a → a ≤ 2 ^ 30 → int_difference a b ≡ pos (a - b)
unfolding int_difference to_int sub64
int_difference-pos a b h g =
    let e : (a + 2 ^ 64 - b) % 2 ^ 64 % 2 ^ 32 ≡ a - b = omega arith in
    let l : ltb (a - b) (2 ^ 31) ≡ true = ground arith in rw (e, l) refl

-- the test of the loop is that of two runs that fit
pub at_most-fits :
    (p a b : ℕ) → a ≤ 2 ^ 30 → b < 2 ^ 31 → at_most p (int_difference a b) ≡ leb (p + b) a
unfolding at_most int_difference to_int sub64
at_most-fits p a b h g = ground arith
