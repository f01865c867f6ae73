-- ===== src/Words.antt =====
-- `size_t` and `uint64_t`: numbers below 2 ^ 64, with the wrap-around of each operation written out.
pub mod Bits
pub mod Xor
pub mod LowBit
pub mod Log
use Prim.Native.Nat.{bit_and}
use ksort.Base.{ℕ, zero, suc, ◌+◌, ◌-◌, ◌*◌, ◌/◌, ◌%◌, ◌^◌, ltb, if◌then◌else◌}

abbrev pub word : ℕ
word = 2 ^ 64

-- the conversion to a 64-bit word
unfoldable pub wrap64 : ℕ → ℕ
wrap64 x = x % word

-- `x - y`
unfoldable pub sub64 : ℕ → ℕ → ℕ
sub64 x y = (x + word - y) % word

-- `-x`
unfoldable pub neg64 : ℕ → ℕ
neg64 x = (word - x) % word

-- `-(signed) x`, extended to 64 bits
unfoldable pub neg_signed64 : ℕ → ℕ
unfolding neg64
neg_signed64 x = let s = x % 2 ^ 32 in if ltb s (2 ^ 31) then neg64 s else 2 ^ 32 - s

-- `63 - __builtin_clzll(x)`: the index of the highest bit among the lowest ones of a number that is not 0
unfoldable pub log2 : ℕ → ℕ → ℕ
log2 zero x = 0
log2 (suc bits) x = let rest = log2 bits (x / 2) in if ltb x 2 then 0 else rest + 1
