-- ===== src/Xoroshiro/Sum.antt =====
-- What `jump` adds up: the states whose number of steps is a bit of the constant JUMP.
use ksort.Base.{
  ℕ, zero, suc, ◌+◌, ◌-◌, ◌/◌, ◌%◌, ◌^◌, ◌≡◌, refl, Bool, true, false, arith, ◌==◌, ap, ◌∙◌,
  if◌then◌else◌,
}
use ksort.Xoroshiro.{State, add, test_bit, jump_bits, jump_loop, jump, jump_words}
use ksort.Xoroshiro.Invert.{after}

-- bit `i` of `p`
unfoldable pub bit : ℕ → ℕ → Bool
bit p i = p / 2 ^ i % 2 == 1

-- the exclusive or of the states `i` steps on, for the bits `i` of `p` below `n`
unfoldable pub sum_of_steps : ℕ → ℕ → State → State
sum_of_steps p zero s = record { s0 = 0; s1 = 0 }
sum_of_steps p (suc n) s =
    if bit p n then add (sum_of_steps p n s) (after n s) else sum_of_steps p n s

-- the 128 bits of JUMP, the lower word first in the array
abbrev pub jump_constant : ℕ
jump_constant = 0x170865df4b3201fcdf900294d8f554a5

-- the rounds left test the bits of `p` from `k` on
unfoldable agree : ℕ → ℕ → ℕ → ℕ → Bool
unfolding test_bit bit
agree w p k zero = true
agree w p k (suc rounds) =
    let rest = agree w p (k + 1) rounds in
    let tested = test_bit w (64 - suc rounds) in
    if bit p k then (if tested then rest else false) else if tested then false else rest

choose_agree :
    (b t rest : Bool)
    → (if b then (if t then rest else false) else if t then false else rest) ≡ true
    → (t ≡ b) × (rest ≡ true)
choose_agree true true rest e = (refl, e)
choose_agree false false rest e = (refl, e)
choose_agree true false rest e = absurd (ground (arith, e))
choose_agree false true rest e = absurd (ground (arith, e))

agree-first :
    (w p k rounds : ℕ)
    → agree w p k (suc rounds) ≡ true
    → (test_bit w (64 - suc rounds) ≡ bit p k) × (agree w p (k + 1) rounds ≡ true)
unfolding agree
agree-first w p k rounds e =
    choose_agree (bit p k) (test_bit w (64 - suc rounds)) (agree w p (k + 1) rounds) e

jump_bits-sum_of_steps :
    (w p k rounds : ℕ) (s : State)
    → agree w p k rounds ≡ true
    → jump_bits w rounds (sum_of_steps p k s) (after k s)
      ≡ (sum_of_steps p (k + rounds) s, after (k + rounds) s)
unfolding jump_bits sum_of_steps
jump_bits-sum_of_steps w p k zero s e = let same : k + 0 ≡ k = omega arith in rw same refl
jump_bits-sum_of_steps w p k (suc rounds) s e =
    let f = agree-first w p k rounds e in
    let next_one : k + suc rounds ≡ k + 1 + rounds = omega arith in
    let one_more : k + 1 ≡ suc k = omega arith in
    let rest = rw one_more at (jump_bits-sum_of_steps w p (k + 1) rounds s f.1) in
    rw (next_one, one_more, f.0) rest

low_word-agree : agree 0xdf900294d8f554a5 jump_constant 0 64 ≡ true
unfolding agree
low_word-agree = refl

high_word-agree : agree 0x170865df4b3201fc jump_constant 64 64 ≡ true
unfolding agree
high_word-agree = refl

jump_start : (p : ℕ) (s : State) → jump s ≡ jump_loop jump_words (sum_of_steps p 0 s) s
unfolding jump sum_of_steps
jump_start p s = refl

-- For each state, a jump is the exclusive or of the states `i` steps on, over the bits `i` of the 128-bit
-- constant that are set.
pub jump-sum_of_steps : (s : State) → jump s ≡ sum_of_steps jump_constant 128 s
unfolding jump_loop
jump-sum_of_steps s =
    jump_start jump_constant s
    ∙ ap (λ r. (jump_bits 0x170865df4b3201fc 64 r.0 r.1).0)
        (jump_bits-sum_of_steps 0xdf900294d8f554a5 jump_constant 0 64 s low_word-agree)
    ∙ ap (λ r. r.0)
        (jump_bits-sum_of_steps 0x170865df4b3201fc jump_constant 64 64 s high_word-agree)
