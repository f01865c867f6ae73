-- ===== src/Template/Timsort/Depth.antt =====
-- The lengths on the stack of TIM_SORT grow so fast that it never holds 128 runs.
use native.Mathlib.Decide.{dec_lt}
use native.Mathlib.Nat.{pow-suc, mul_assoc}
use ksort.Base.{ℕ, zero, suc, ◌+◌, ◌*◌, ◌^◌, ◌≤◌, ◌<◌, ◌≡◌, sym, List, [], ◌∷◌, arith, true}
use ksort.Array.{length}
use ksort.Template.Tim.{tim_stack_size}
use ksort.Template.Tim.Stack.{RunEntry, check_invariant}
use ksort.Template.Timsort.Invariant.{Runs}

-- each entry is longer than the two behind it
abbrev pub Ordered : List RunEntry → Type 0
Ordered (c ∷ b ∷ a ∷ rest) = (b.length + c.length < a.length) × Ordered (b ∷ a ∷ rest)
Ordered stack = Unit {0}

-- the entries in front of the last
abbrev pub tail : List RunEntry → List RunEntry
tail [] = []
tail (e ∷ rest) = rest

pub Ordered-tail : (stack : List RunEntry) → Ordered stack → Ordered (tail stack)
Ordered-tail [] o = tt
Ordered-tail (c ∷ []) o = tt
Ordered-tail (c ∷ b ∷ []) o = tt
Ordered-tail (c ∷ b ∷ a ∷ rest) o = o.1

-- a few entries
pub short-Ordered : (stack : List RunEntry) → length stack ≤ 3 → Ordered (tail stack)
short-Ordered [] h = tt
short-Ordered (d ∷ []) h = tt
short-Ordered (d ∷ c ∷ []) h = tt
short-Ordered (d ∷ c ∷ b ∷ []) h = tt
short-Ordered (d ∷ c ∷ b ∷ a ∷ rest) h = absurd (omega arith)

-- where CHECK_INVARIANT returns 1
pub check_invariant-Ordered :
    (stack : List RunEntry) → check_invariant stack ≡ true → Ordered (tail stack) → Ordered stack
unfolding check_invariant
check_invariant-Ordered [] h o = tt
check_invariant-Ordered (c ∷ []) h o = tt
check_invariant-Ordered (c ∷ b ∷ []) h o = tt
check_invariant-Ordered (c ∷ b ∷ a ∷ rest) h o = (ground arith, o)

abbrev total : List RunEntry → ℕ
total [] = 0
total (e ∷ rest) = e.length + total rest

Runs-total :
    (dst : List ℕ) (stack : List RunEntry) (end : ℕ) → Runs dst stack end → total stack ≡ end
Runs-total dst [] end r = sym r
Runs-total dst (e ∷ rest) end (sum, z, s, r) = omega (arith, Runs-total dst rest e.start r)

-- with each two entries the lengths double
total-doubles :
    (k x : ℕ) (d c : RunEntry) (rest : List RunEntry)
    → x ≤ d.length
    → x ≤ c.length
    → 2 * k ≤ length rest
    → Ordered (d ∷ c ∷ rest)
    → 2 ^ k * (2 * x) ≤ total (d ∷ c ∷ rest)
total-doubles zero x d c rest hd hc h o = omega arith
total-doubles (suc k) x d c [] hd hc h o = absurd (omega arith)
total-doubles (suc k) x d c (b ∷ []) hd hc h o = absurd (omega arith)
total-doubles (suc k) x d c (b ∷ a ∷ rest) hd hc h (ob, (oa, o)) =
    let rec = total-doubles k (2 * x) b a rest (omega arith) (omega arith) (omega arith) o in
    let more : 2 ^ suc k * (2 * x) ≡ 2 ^ k * (2 * (2 * x)) =
      rw (pow-suc 2 k) (mul_assoc (2 ^ k) 2 (2 * x)) in
    omega (arith, more, rec)

-- For fewer than 2^64 elements the stack has room for one run more.
pub Runs-depth :
    (dst : List ℕ) (stack : List RunEntry) (end : ℕ)
    → Runs dst stack end
    → end < 2 ^ 64
    → Ordered stack
    → length stack < tim_stack_size
Runs-depth dst [] end r h o = omega arith
Runs-depth dst (d ∷ []) end r h o = omega arith
Runs-depth dst (d ∷ c ∷ rest) end (sum, z, s, r) h o =
    let all = Runs-total dst (d ∷ c ∷ rest) end (sum, z, s, r) in
    let positive : 0 < c.length = r.1 in
    elim (dec_lt (length rest) 126) [
      | yes l ↦ omega arith
      | no l ↦
          let most = total-doubles 63 1 d c rest z positive (omega arith) o in
          absurd (omega (arith, most, all))
    ]
