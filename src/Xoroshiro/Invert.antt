-- ===== src/Xoroshiro/Invert.antt =====
-- `next` loses nothing: the state before it can be computed back.
use Prim.Native.Nat.{bit_xor}
use mathlib.Core.Logic.{◌≢◌}
use ksort.Base.{ℕ, zero, suc, ◌*◌, ◌%◌, ◌^◌, ◌<◌, ◌≡◌, refl, sym, ap, ◌∙◌, arith}
use ksort.Words.{word}
use ksort.Words.Xor.{bit_xor_assoc, bit_xor_self, bit_xor-zero}
use ksort.Xoroshiro.{rotl, State, next}
use ksort.Xoroshiro.Rotate.{rotl_24_back, rotl_37_back, rotl_24-lt, rotl_37-lt, bit_xor-lt}

-- both words of the state are 64-bit words
pub record IsState (s : State) : Type 0 where
  pub first : s.s0 < word
  pub second : s.s1 < word

xor_undo : (a b : ℕ) → bit_xor (bit_xor a b) b ≡ a
xor_undo a b = bit_xor_assoc a b b ∙ ap (bit_xor a) (bit_xor_self b) ∙ bit_xor-zero a

abbrev mixed : State → ℕ
mixed s = bit_xor s.s1 s.s0

-- the state before `t`
previous : State → State
previous t =
    let u = rotl t.s1 27 in
    let s0 = rotl (bit_xor (bit_xor t.s0 (u * 2 ^ 16 % word)) u) 40 in
    record { s0 = s0; s1 = bit_xor u s0 }

pub next-IsState : (s : State) → IsState s → IsState (next s).0
unfolding next
next-IsState s v =
    let u = bit_xor-lt s.s1 s.s0 v.second v.first in
    record {
      first = bit_xor-lt _ _ (bit_xor-lt _ _ (rotl_24-lt s.s0 v.first) u) (omega arith);
      second = rotl_37-lt _ u;
    }

previous-next : (s : State) → IsState s → previous (next s).0 ≡ s
unfolding next previous
previous-next s v =
    let u = rotl_37_back (mixed s) (bit_xor-lt s.s1 s.s0 v.second v.first) in
    rw (u, xor_undo, xor_undo, rotl_24_back s.s0 v.first, xor_undo)

-- Different states of the generator have different successors.
pub next-injective : (s t : State) → IsState s → IsState t → (next s).0 ≡ (next t).0 → s ≡ t
next-injective s t v w e = sym (previous-next s v) ∙ ap previous e ∙ previous-next t w

abbrev pub zero_state : State
zero_state = record { s0 = 0; s1 = 0 }

zero_next : zero_state ≡ (next zero_state).0
unfolding next
zero_next = refl

-- the state after some calls of `next`
abbrev pub after : ℕ → State → State
after zero s = s
after (suc n) s = (next (after n s)).0

pub after-IsState : (n : ℕ) (s : State) → IsState s → IsState (after n s)
after-IsState zero s v = v
after-IsState (suc n) s v = next-IsState (after n s) (after-IsState n s v)

-- A generator whose state is not all zero never reaches the all-zero state.
pub next-nonzero : (n : ℕ) (s : State) → IsState s → s ≢ zero_state → after n s ≢ zero_state
next-nonzero zero s v h e = h e
next-nonzero (suc n) s v h e = next-nonzero n s v h (
    next-injective (after n s) zero_state (after-IsState n s v)
      (record { first = omega arith; second = omega arith }) (e ∙ zero_next))
