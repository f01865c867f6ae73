-- ===== src/Tests/Xoroshiro.antt =====
-- Tests and examples for `Xoroshiro`.
use ksort.Base.{◌≡◌, ◌≢◌, refl, arith}
use ksort.Xoroshiro.{State, seed, next, jump, jump_loop, jump_bits}
use ksort.Xoroshiro.Invert.{IsState, after, zero_state, next-injective, next-nonzero}
use ksort.Xoroshiro.Sum.{sum_of_steps, jump_constant, jump-sum_of_steps}

-- the state that xoro_init sets
abbrev seeded : State
seeded = record { s0 = 314159265; s1 = 1618033989 }

seeded-IsState : IsState seeded
seeded-IsState = record { first = omega arith; second = omega arith }

seeded-eq : seed 314159265 1618033989 ≡ seeded
unfolding seed
seeded-eq = refl

seeded_result : (next seeded).1 ≡ 1932193254
unfolding next
seeded_result = refl

-- the state after the first jump
jump-seeded : jump seeded ≡ record { s0 = 5098080645232117851; s1 = 7951647774733055406 }
unfolding jump jump_loop jump_bits
jump-seeded = refl

next-injective_example : seeded ≡ seeded
next-injective_example = next-injective seeded seeded seeded-IsState seeded-IsState refl

next-nonzero_example : after 2 seeded ≢ zero_state
next-nonzero_example = next-nonzero 2 seeded seeded-IsState (λ e. ground arith)

jump-sum_of_steps_example : jump seeded ≡ sum_of_steps jump_constant 128 seeded
jump-sum_of_steps_example = jump-sum_of_steps seeded
