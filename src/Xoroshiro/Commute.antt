-- ===== src/Xoroshiro/Commute.antt =====
-- Any number of jumps and any number of steps commute, and numbers of steps add up.
use ksort.Base.{ℕ, zero, suc, ◌+◌, ◌≡◌, refl, ap, ◌∙◌, arith}
use ksort.Xoroshiro.{State, next, jump}
use ksort.Xoroshiro.Invert.{IsState, after, after-IsState}
use ksort.Xoroshiro.Jump.{jump-next}

-- the state after some jumps
abbrev pub jumped : ℕ → State → State
jumped zero s = s
jumped (suc n) s = jump (jumped n s)

pub jumped-IsState : (n : ℕ) (s : State) → IsState s → IsState (jumped n s)
jumped-IsState zero s v = v
jumped-IsState (suc n) s v = (jump-next (jumped n s) (jumped-IsState n s v)).1

next-jumped : (n : ℕ) (s : State) → IsState s → (next (jumped n s)).0 ≡ jumped n (next s).0
next-jumped zero s v = refl
next-jumped (suc n) s v =
    (jump-next (jumped n s) (jumped-IsState n s v)).0 ∙ ap jump (next-jumped n s v)

pub after-jumped : (m n : ℕ) (s : State) → IsState s → after m (jumped n s) ≡ jumped n (after m s)
after-jumped zero n s v = refl
after-jumped (suc m) n s v =
    ap (λ t. (next t).0) (after-jumped m n s v) ∙ next-jumped n (after m s) (after-IsState m s v)

pub after-add : (m n : ℕ) (s : State) → after m (after n s) ≡ after (m + n) s
after-add zero n s = let e : 0 + n ≡ n = omega arith in rw e refl
after-add (suc m) n s =
    let e : suc m + n ≡ suc (m + n) = omega arith in rw e (ap (λ t. (next t).0) (after-add m n s))
