-- ===== src/Xoroshiro/Jump.antt =====
-- `next` distributes over the exclusive or of states, so `jump` and `next` commute.
use Prim.Native.Nat.{bit_xor}
use ksort.Base.{
  ℕ, zero, suc, ◌-◌, ◌*◌, ◌%◌, ◌^◌, ◌≡◌, refl, sym, List, [], ◌∷◌, Bool, true, false, if◌then◌else◌,
  arith,
}
use ksort.Words.{word}
use ksort.Words.Xor.{bit_xor_swap}
use ksort.Xoroshiro.{rotl, State, next, add, test_bit, jump_bits, jump_loop, jump, jump_words}
use ksort.Xoroshiro.Rotate.{rotl_24-xor, rotl_37-xor, shift_16-xor, bit_xor-lt}
use ksort.Xoroshiro.Invert.{IsState, next-IsState, zero_state}

add-IsState : (a b : State) → IsState a → IsState b → IsState (add a b)
add-IsState a b v w = record {
  first = bit_xor-lt a.s0 b.s0 v.first w.first;
  second = bit_xor-lt a.s1 b.s1 v.second w.second;
}

next-add : (a b : State) → IsState a → IsState b → (next (add a b)).0 ≡ add (next a).0 (next b).0
unfolding next
next-add a b v w =
    let ua = bit_xor-lt a.s1 a.s0 v.second v.first in
    let ub = bit_xor-lt b.s1 b.s0 w.second w.first in
    let mix = bit_xor_swap a.s1 b.s1 a.s0 b.s0 in
    rw (
      mix,
      rotl_24-xor a.s0 b.s0 v.first w.first,
      rotl_37-xor (bit_xor a.s1 a.s0) (bit_xor b.s1 b.s0) ua ub,
      shift_16-xor (bit_xor a.s1 a.s0) (bit_xor b.s1 b.s0) ua ub,
      bit_xor_swap (rotl a.s0 24) (rotl b.s0 24) (bit_xor a.s1 a.s0) (bit_xor b.s1 b.s0),
      bit_xor_swap (bit_xor (rotl a.s0 24) (bit_xor a.s1 a.s0))
          (bit_xor (rotl b.s0 24) (bit_xor b.s1 b.s0)) (bit_xor a.s1 a.s0 * 2 ^ 16 % word)
          (bit_xor b.s1 b.s0 * 2 ^ 16 % word),
    )

choose-IsState :
    (t : Bool) (a b : State) → IsState a → IsState b → IsState (if t then add a b else a)
choose-IsState true a b v w = add-IsState a b v w
choose-IsState false a b v w = v

next-choose :
    (t : Bool) (a b : State)
    → IsState a
    → IsState b
    → (if t then add (next a).0 (next b).0 else (next a).0) ≡ (next (if t then add a b else a)).0
next-choose true a b v w = sym (next-add a b v w)
next-choose false a b v w = refl

jump_bits-IsState :
    (w rounds : ℕ) (sum s : State)
    → IsState sum
    → IsState s
    → IsState (jump_bits w rounds sum s).0 × IsState (jump_bits w rounds sum s).1
unfolding jump_bits
jump_bits-IsState w zero sum s u v = (u, v)
jump_bits-IsState w (suc rounds) sum s u v =
    jump_bits-IsState w rounds (if test_bit w (64 - suc rounds) then add sum s else sum) (next s).0
      (choose-IsState (test_bit w (64 - suc rounds)) sum s u v) (next-IsState s v)

-- a loop from the successors ends in the successors
jump_bits-next :
    (w rounds : ℕ) (sum s : State)
    → IsState sum
    → IsState s
    → jump_bits w rounds (next sum).0 (next s).0
      ≡ ((next (jump_bits w rounds sum s).0).0, (next (jump_bits w rounds sum s).1).0)
unfolding jump_bits
jump_bits-next w zero sum s u v = refl
jump_bits-next w (suc rounds) sum s u v =
    rw (next-choose (test_bit w (64 - suc rounds)) sum s u v) (
      jump_bits-next w rounds (if test_bit w (64 - suc rounds) then add sum s else sum) (next s).0
        (choose-IsState (test_bit w (64 - suc rounds)) sum s u v) (next-IsState s v))

jump_loop-next :
    (ws : List ℕ) (sum s : State)
    → IsState sum
    → IsState s
    → jump_loop ws (next sum).0 (next s).0 ≡ (next (jump_loop ws sum s)).0
unfolding jump_loop
jump_loop-next [] sum s u v = refl
jump_loop-next (w ∷ ws) sum s u v =
    let kept = jump_bits-IsState w 64 sum s u v in
    rw (jump_bits-next w 64 sum s u v)
      (jump_loop-next ws (jump_bits w 64 sum s).0 (jump_bits w 64 sum s).1 kept.0 kept.1)

jump_loop-IsState :
    (ws : List ℕ) (sum s : State) → IsState sum → IsState s → IsState (jump_loop ws sum s)
unfolding jump_loop
jump_loop-IsState [] sum s u v = u
jump_loop-IsState (w ∷ ws) sum s u v =
    let kept = jump_bits-IsState w 64 sum s u v in
    jump_loop-IsState ws (jump_bits w 64 sum s).0 (jump_bits w 64 sum s).1 kept.0 kept.1

zero-IsState : IsState zero_state
zero-IsState = record { first = omega arith; second = omega arith }

zero_next : (next zero_state).0 ≡ zero_state
unfolding next
zero_next = refl

-- Jumping and stepping commute: the generator after a jump and a step is the generator after a step
-- and a jump, as for any fixed number of steps; and a jump yields 64-bit words.
pub jump-next : (s : State) → IsState s → ((next (jump s)).0 ≡ jump (next s).0) × IsState (jump s)
unfolding jump
jump-next s v = (
  sym (rw zero_next at (jump_loop-next jump_words zero_state s zero-IsState v)),
  jump_loop-IsState jump_words zero_state s zero-IsState v,
)
