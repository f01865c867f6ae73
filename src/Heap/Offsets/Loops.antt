-- ===== src/Heap/Offsets/Loops.antt =====
-- The loops of heap.c on offsets run as the reference on indices.
use native.Mathlib.Nat.{mul-le-mul_right}
use ksort.Base.{
  ℕ, zero, suc, ◌+◌, ◌*◌, ◌^◌, ◌≤◌, ◌<◌, ◌≡◌, ◌≢◌, refl, sym, ◌∙◌, arith, inl, inr, List, ℤ, ◌==◌,
  ltb, if◌then◌else◌, is_nonnegative, Bool, true, false, Bool-cases, ltb→lt,
}
use ksort.Run.{
  Run, ok, ◌>>=◌, Ensures, Ensures-bind, Ensures-if, Ensures-any, ensures, exhausts, bind-agree,
  bind-cong, bind-bind,
}
use ksort.Words.{word}
use ksort.Array.{length, compare_at}
use ksort.Heap
use ksort.Heap.{SwapFunc, do_swap, parent, low_bit}
use ksort.Heap.Index
use ksort.Heap.Index.{up}
use ksort.Heap.Offsets.Scale.{offset-index, ltb-offset, eq-offset, left-offset, right-offset}
use ksort.Heap.Offsets.Parent.{parent-up}

-- climbing from `b` leads to `a`
pub data IsUnder (a : ℕ) : ℕ → Type 0 where
  top : IsUnder a a
  under : {b : ℕ} → 0 < b → IsUnder a (up b) → IsUnder a b

IsUnder-up : {a b : ℕ} → IsUnder a b → b ≢ a → (0 < b) × IsUnder a (up b)
IsUnder-up top h = absurd (h refl)
IsUnder-up (under p u) h = (p, u)

module _ {A : Type 0} (cmp : A → A → ℤ) (swap_func : SwapFunc A) (size : ℕ) (positive : 0 < size)
    (small : size < 2 ^ 31) where
  module _ (xs : List A) (n : ℕ) (fits : 2 * (n * size) < word) where
    below_word : (k : ℕ) → k ≤ 2 * n → k * size < word
    below_word k h = omega (arith, mul-le-mul_right size h)

    descend-offset :
        (fuel b : ℕ)
        → b < n
        → Heap.descend cmp swap_func size fuel xs (n * size) (b * size)
          ≡ (Index.descend cmp (do_swap swap_func) fuel xs n b >>= λ k. ok (k * size))
    unfolding Heap.descend Index.descend
    descend-offset zero b h = refl
    descend-offset (suc fuel) b h =
        rw
          (
            left-offset size positive b (below_word (2 * b + 1) (omega arith)),
            right-offset size positive b (below_word (2 * b + 2) (omega arith)),
            ltb-offset size positive (2 * b + 2) n,
            eq-offset size positive (2 * b + 2) n,
            offset-index size positive (2 * b + 1),
            offset-index size positive (2 * b + 2),
          )
          (elim (Bool-cases (ltb (2 * b + 2) n)) [
            | inl e ↦
                let inside = ltb→lt (2 * b + 2) n e in
                rw e (
                  bind-cong (compare_at cmp xs (2 * b + 1) (2 * b + 2))
                    (next inside (λ k q. descend-offset fuel k q))
                  ∙ sym (bind-bind (compare_at cmp xs (2 * b + 1) (2 * b + 2)) _ _))
            | inr e ↦ rw e (ground arith)
          ])
      where
        next :
            2 * b + 2 < n
            → ((k : ℕ)
                → k < n
                → Heap.descend cmp swap_func size fuel xs (n * size) (k * size)
                  ≡ (Index.descend cmp (do_swap swap_func) fuel xs n k >>= λ k. ok (k * size)))
            → (z : ℤ)
            → Heap.descend cmp swap_func size fuel xs
                (n * size)
                (if is_nonnegative z then (2 * b + 1) * size else (2 * b + 2) * size)
              ≡ (Index.descend cmp
                    (do_swap swap_func)
                    fuel
                    xs
                    n
                    (if is_nonnegative z then 2 * b + 1 else 2 * b + 2)
                  >>= λ k. ok (k * size))
        next inside ih z = elim (Bool-cases (is_nonnegative z)) [
          | inl f ↦ rw f (ih (2 * b + 1) (omega arith))
          | inr f ↦ rw f (ih (2 * b + 2) inside)
        ]

    -- the reference stays below its start and inside the heap
    abbrev IsInside : ℕ → ℕ → Type 0
    IsInside a j = IsUnder a j × (j < n)

    descend-IsInside :
        (fuel a b : ℕ)
        → IsInside a b
        → Ensures (IsInside a) (Index.descend cmp (do_swap swap_func) fuel xs n b)
    unfolding Index.descend
    descend-IsInside zero a b v = exhausts
    descend-IsInside (suc fuel) a b v =
        Ensures-if (ltb (2 * b + 2) n)
          (λ e. Ensures-bind (Ensures-any (compare_at cmp xs (2 * b + 1) (2 * b + 2))) λ z _.
            descend-IsInside fuel a (if is_nonnegative z then 2 * b + 1 else 2 * b + 2)
              (elim (Bool-cases (is_nonnegative z)) [
                | inl f ↦ rw f (child a b (2 * b + 1) v.0 (omega arith) (omega arith), ground arith)
                | inr f ↦ rw f (child a b (2 * b + 2) v.0 (omega arith) (omega arith), ground arith)
              ]))
          λ e.
            Ensures-if (2 * b + 2 == n)
              (λ f. ensures (child a b (2 * b + 1) v.0 (omega arith) (omega arith), ground arith))
              λ f. ensures v
      where
        child : (a b c : ℕ) → IsUnder a b → 0 < c → up c ≡ b → IsUnder a c
        child a b c u p e = under p (rw e u)

    parent-offset : (b : ℕ) → 0 < b → b < n → parent (b * size) (low_bit size) size ≡ up b * size
    parent-offset b p h = parent-up b size p positive small (below_word b (omega arith))

    backtrack-offset :
        (fuel a b : ℕ)
        → IsInside a b
        → Heap.backtrack cmp swap_func size fuel xs (a * size) (b * size)
          ≡ (Index.backtrack cmp (do_swap swap_func) fuel xs a b >>= λ k. ok (k * size))
    unfolding Heap.backtrack Index.backtrack
    backtrack-offset zero a b v = refl
    backtrack-offset (suc fuel) a b v =
        rw (eq-offset size positive b a) (elim (Bool-cases (b == a)) [
          | inl e ↦ rw e
          | inr e ↦
              let (p, u) = IsUnder-up v.0 (ground arith) in
              rw
                (
                  e,
                  offset-index size positive a,
                  offset-index size positive b,
                  parent-offset b p v.1,
                  backtrack-offset fuel a (up b) (u, omega arith),
                )
                (bind-cong (compare_at cmp xs a b) (λ z. choice (is_nonnegative z) _ b)
                  ∙ sym (bind-bind (compare_at cmp xs a b) _ _))
        ])
      where
        choice :
            (t : Bool) (r : Run ℕ) (b : ℕ)
            → (if t then r >>= (λ k. ok (k * size)) else ok (b * size))
              ≡ ((if t then r else ok b) >>= λ k. ok (k * size))
        choice true r b = refl
        choice false r b = refl

    backtrack-IsInside :
        (fuel a b : ℕ)
        → IsInside a b
        → Ensures (IsInside a) (Index.backtrack cmp (do_swap swap_func) fuel xs a b)
    unfolding Index.backtrack
    backtrack-IsInside zero a b v = exhausts
    backtrack-IsInside (suc fuel) a b v =
        Ensures-if (b == a) (λ e. ensures v)
          λ e.
            let (p, u) = IsUnder-up v.0 (ground arith) in
            Ensures-bind (Ensures-any (compare_at cmp xs a b)) λ z _.
              Ensures-if (is_nonnegative z) (λ f. backtrack-IsInside fuel a (up b) (u, omega arith))
                λ f. ensures v

    shift-offset :
        (fuel a b c : ℕ)
        → IsInside a b
        → (ys : List A)
        → Heap.shift cmp swap_func size fuel ys (a * size) (b * size) (c * size)
          ≡ Index.shift cmp (do_swap swap_func) fuel ys a b c
    unfolding Heap.shift Index.shift
    shift-offset zero a b c v ys = refl
    shift-offset (suc fuel) a b c v ys =
        rw (eq-offset size positive b a) (elim (Bool-cases (b == a)) [
          | inl e ↦ rw e
          | inr e ↦
              let (p, u) = IsUnder-up v.0 (ground arith) in
              rw
                (
                  e,
                  parent-offset b p v.1,
                  offset-index size positive (up b),
                  offset-index size positive c,
                )
                (bind-cong (do_swap swap_func ys (up b) c)
                  (shift-offset fuel a (up b) c (u, omega arith)))
        ])

    pub sift-offset :
        (a : ℕ)
        → a < n
        → Heap.sift cmp swap_func size xs (a * size) (n * size)
          ≡ Index.sift cmp (do_swap swap_func) xs a n
    unfolding Heap.sift Index.sift
    sift-offset a h = rw (descend-offset (length xs + 1) a h) (
        bind-bind (Index.descend cmp (do_swap swap_func) (length xs + 1) xs n a) _ _
        ∙ bind-agree (descend-IsInside (length xs + 1) a a (top, h)) λ b v.
          rw (backtrack-offset (length xs + 1) a b v) (
            bind-bind (Index.backtrack cmp (do_swap swap_func) (length xs + 1) xs a b) _ _
            ∙ bind-agree (backtrack-IsInside (length xs + 1) a b v)
                λ c w. shift-offset (length xs + 1) a c c w xs))
