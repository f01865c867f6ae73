-- ===== src/Words/Log.antt =====
-- The logarithm is the largest exponent of a power of two that fits.
use ksort.Base.{ℕ, zero, suc, ◌+◌, ◌*◌, ◌/◌, ◌^◌, ◌≤◌, ◌<◌, ◌≡◌, arith}
use ksort.Words.{log2}

pub pow-pos : (d : ℕ) → 1 ≤ 2 ^ d
pow-pos zero = omega arith
pow-pos (suc d) = omega (arith, pow-pos d)

pub log2-le : (bits x d : ℕ) → x < 2 ^ bits → 2 ^ d ≤ x → d ≤ log2 bits x
unfolding log2
log2-le zero x zero h g = omega arith
log2-le zero x (suc d) h g = absurd (omega (arith, pow-pos d))
log2-le (suc bits) x zero h g = omega arith
log2-le (suc bits) x (suc d) h g =
    let inner = log2-le bits (x / 2) d (omega arith) (omega arith) in
    ground (arith, inner, pow-pos d)

pub log2-le-bits : (bits x : ℕ) → log2 bits x ≤ bits
unfolding log2
log2-le-bits zero x = omega arith
log2-le-bits (suc bits) x = ground (arith, log2-le-bits bits (x / 2))

pub pow-suc : (d : ℕ) → 2 ^ suc d ≡ 2 * 2 ^ d
pow-suc d = omega arith

pub pow-add_four : (d : ℕ) → 2 ^ (d + 4) ≡ 16 * 2 ^ d
pow-add_four d = let e : d + 4 ≡ suc (suc (suc (suc d))) = omega arith in rw e (omega arith)
