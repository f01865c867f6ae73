-- ===== src/Xoroshiro.antt =====
-- xoroshiro128plus.c: the generator's state `s[2]` and its operations. A `uint64_t` is a number
-- below 2 ^ 64; a shift to the left and the sum wrap.
pub mod Rotate
pub mod Invert
pub mod Jump
pub mod Commute
pub mod Sum
use Prim.Native.Nat.{bit_and, bit_or, bit_xor}
use ksort.Base.{
  ℕ, zero, suc, ◌+◌, ◌-◌, ◌*◌, ◌/◌, ◌%◌, ◌^◌, ◌<◌, List, [], ◌∷◌, Bool, ◌==◌, not, if◌then◌else◌,
}
use ksort.Words.{word}

unfoldable pub rotl : ℕ → ℕ → ℕ
rotl x k = bit_or (x * 2 ^ k % word) (x / 2 ^ (64 - k))

-- `static uint64_t s[2]`
pub record State : Type 0 where
  pub s0 : ℕ
  pub s1 : ℕ

unfoldable pub seed : ℕ → ℕ → State
seed s0 s1 = record { s0 = s0; s1 = s1 }

-- the new state, and the word that is returned
unfoldable pub next : State → State × ℕ
unfolding rotl
next s =
    let result = (s.s0 + s.s1) % word in
    let s1 = bit_xor s.s1 s.s0 in
    (
      record { s0 = bit_xor (bit_xor (rotl s.s0 24) s1) (s1 * 2 ^ 16 % word); s1 = rotl s1 37 },
      result,
    )

abbrev pub jump_words : List ℕ
jump_words = 0xdf900294d8f554a5 ∷ 0x170865df4b3201fc ∷ []

-- the exclusive or of two states
abbrev pub add : State → State → State
add a b = record { s0 = bit_xor a.s0 b.s0; s1 = bit_xor a.s1 b.s1 }

-- `JUMP[i] & (uint64_t)(1) << b`
unfoldable pub test_bit : ℕ → ℕ → Bool
test_bit w b = not (bit_and w (2 ^ b % word) == 0)

-- the inner `for`, with `rounds` rounds left of 64: the sum so far, and the state of the generator
unfoldable pub jump_bits : ℕ → ℕ → State → State → State × State
unfolding next test_bit
jump_bits w zero sum s = (sum, s)
jump_bits w (suc rounds) sum s =
    jump_bits w rounds (if test_bit w (64 - suc rounds) then add sum s else sum) (next s).0

-- the outer `for`
unfoldable pub jump_loop : List ℕ → State → State → State
jump_loop [] sum s = sum
jump_loop (w ∷ ws) sum s = let r = jump_bits w 64 sum s in jump_loop ws r.0 r.1

unfoldable pub jump : State → State
jump s = jump_loop jump_words (record { s0 = 0; s1 = 0 }) s
