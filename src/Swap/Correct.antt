-- ===== src/Swap/Correct.antt =====
-- The built-in swap of sort_r exchanges two elements at every alignment; the 64-bit swap, which
-- intro.c and pdqsort.c always take, runs out of the object at a size that is no multiple of 8.
use Prim.Native.Nat.{bit_and, bit_or}
use native.Mathlib.Nat.{le-mul_of_pos_right}
use mathlib.Core.Path.{subst}
use native.Mathlib.Decide.{dec_lt}
use ksort.Base.{
  ℕ, zero, suc, ◌+◌, ◌-◌, ◌*◌, ◌/◌, ◌%◌, ◌≤◌, ◌<◌, ◌≡◌, ◌≢◌, sym, inl, inr, List, arith, ◌==◌, Bool,
  true, false, Bool-cases,
}
use ksort.Run.{fault, Returns, Returns-inv}
use ksort.Words.{word, sub64}
use ksort.Words.Bits.{bit_and_step, bit_or_step}
use ksort.Words.LowBit.{bit_and-one}
use ksort.Array.Laws.{get_elem?-none}
use ksort.Array.{length, load}
use ksort.Swap.{
  is_aligned, choose_swap, exchange, swap_down, swap_down_twice, swap_words_32, swap_words_64,
  swap_bytes, words_64, do_swap,
}
use ksort.Swap.Chunk.{IsApart, IsExchanged, exchange-IsExchanged}
use ksort.Swap.Exact.{swap_down-IsExchanged, swap_down_twice-IsExchanged}

bit_and_three : (a : ℕ) → bit_and a 3 ≡ a % 4
bit_and_three a = omega (arith, bit_and_step a 3, bit_and-one (a / 2))

bit_and_seven : (a : ℕ) → bit_and a 7 ≡ a % 8
bit_and_seven a = omega (arith, bit_and_step a 7, bit_and_three (a / 2))

-- no low bit in `x | y`, then none in `x`
or_low_clear : (x y : ℕ) → bit_or x y % 8 ≡ 0 → x % 8 ≡ 0
or_low_clear x y h =
    omega (arith, bit_or_step x y, bit_or_step (x / 2) (y / 2), bit_or_step (x / 2 / 2) (y / 2 / 2))

or_low_clear_four : (x y : ℕ) → bit_or x y % 4 ≡ 0 → x % 4 ≡ 0
or_low_clear_four x y h = omega (arith, bit_or_step x y, bit_or_step (x / 2) (y / 2))

module _ (efficient : Bool) (base size : ℕ) where
  aligned_eight : is_aligned efficient base size 8 ≡ true → size % 8 ≡ 0
  unfolding is_aligned
  aligned_eight h = ground (
    arith,
    bit_and_seven (size % 256),
    bit_and_seven (bit_or (size % 256) (base % 256)),
    or_low_clear (size % 256) (base % 256),
  )

  aligned_four : is_aligned efficient base size 4 ≡ true → size % 4 ≡ 0
  unfolding is_aligned
  aligned_four h = ground (
    arith,
    bit_and_three (size % 256),
    bit_and_three (bit_or (size % 256) (base % 256)),
    or_low_clear_four (size % 256) (base % 256),
  )

module _ {B : Type 0} (m : List B) (a b : ℕ) where
  module _ (size : ℕ) (positive : 0 < size) (small : size < word) (apart : IsApart a b size)
      (ha : a + size ≤ length m) (hb : b + size ≤ length m) where
    -- a loop by `w` bytes over a size that `w` divides
    swap_down-exact :
        (w : ℕ)
        → 0 < w
        → size % w ≡ 0
        → Returns (IsExchanged a b size m) (swap_down w (size + 1) m a b size)
    swap_down-exact w p h =
        let q = size / w - 1 in
        let e : size ≡ q * w + w = grind arith in
        let enough : q ≤ q * w = le-mul_of_pos_right q p in
        subst (λ s. Returns (IsExchanged a b s m) (swap_down w (size + 1) m a b s)) (sym e)
          (swap_down-IsExchanged w q (size + 1) m a b p (omega arith) (omega arith) (omega arith)
            (omega arith) (omega arith))

    swap_words_64-exact :
        (config_64bit : Bool)
        → size % 8 ≡ 0
        → Returns (IsExchanged a b size m) (swap_words_64 config_64bit m a b size)
    unfolding swap_words_64
    swap_words_64-exact true h = swap_down-exact 8 (omega arith) h
    swap_words_64-exact false h =
        let e : size ≡ (size / 8 - 1) * 8 + 8 = omega arith in
        let q = size / 8 - 1 in
        subst (λ s. Returns (IsExchanged a b s m) (swap_down_twice (size + 1) m a b s)) (sym e)
          (swap_down_twice-IsExchanged q (size + 1) m a b (omega arith) (omega arith) (omega arith)
            (omega arith) (omega arith))

    -- The swap that sort_r chooses for a null pointer exchanges the two elements and touches no other
    -- byte, whatever the size, the alignment of the base and the configuration.
    pub do_swap-exchanges :
        (config_64bit efficient_unaligned : Bool) (base : ℕ)
        → Returns
            (IsExchanged a b size m)
            (do_swap config_64bit m a b size (choose_swap efficient_unaligned base size))
    unfolding do_swap choose_swap swap_words_32 swap_bytes
    do_swap-exchanges config_64bit efficient base =
        elim (Bool-cases (is_aligned efficient base size 8)) [
          | inl e ↦ rw e (swap_words_64-exact config_64bit (aligned_eight efficient base size e))
          | inr e ↦ elim (Bool-cases (is_aligned efficient base size 4)) [
            | inl f ↦
                rw (e, f) (swap_down-exact 4 (omega arith) (aligned_four efficient base size f))
            | inr f ↦ rw (e, f) (swap_down-exact 1 (omega arith) (omega arith))
          ]
        ]

  exchange-fault : (w i j : ℕ) → 0 < w → length m ≤ i → exchange w m i j ≡ fault
  unfolding exchange load
  exchange-fault zero i j p h = absurd (omega arith)
  exchange-fault (suc w) i j p h = rw (get_elem?-none m i h)

module _ {B : Type 0} (a b : ℕ) where
  -- below a whole transfer the next address is past the end of the object
  below_fault :
      (w n : ℕ) (m : List B)
      → 0 < w
      → w ≤ 8
      → n < w
      → length m + 8 ≤ word
      → exchange w m (a + sub64 n w) (b + sub64 n w) ≡ fault
  unfolding sub64
  below_fault w n m p q h f = exchange-fault m a b w _ _ p (omega arith)

  swap_down-fault :
      (fuel n : ℕ) (m : List B)
      → n < fuel
      → n % 8 ≢ 0
      → IsApart a b n
      → a + n ≤ length m
      → b + n ≤ length m
      → length m + 8 ≤ word
      → swap_down 8 fuel m a b n ≡ fault
  unfolding swap_down
  swap_down-fault zero n m h r apart ha hb f = absurd (omega arith)
  swap_down-fault (suc fuel) n m h r apart ha hb f = elim (dec_lt n 8) [
    | yes low ↦ rw (below_fault 8 n m (omega arith) (omega arith) low f)
    | no high ↦
        let e : sub64 n 8 ≡ n - 8 = omega arith in
        let (m', done, x) = Returns-inv (
          exchange-IsExchanged 8 m (a + (n - 8)) (b + (n - 8)) (omega arith) (omega arith)
            (omega arith)) in
        let more : (n - 8 == 0) ≡ false = ground arith in
        rw (e, done, more)
          (swap_down-fault fuel (n - 8) m' (omega arith) (omega arith) (omega arith)
            (omega (arith, x.size)) (omega (arith, x.size)) (omega (arith, x.size)))
  ]

  swap_down_twice-fault :
      (fuel n : ℕ) (m : List B)
      → n < fuel
      → n % 8 ≢ 0
      → IsApart a b n
      → a + n ≤ length m
      → b + n ≤ length m
      → length m + 8 ≤ word
      → swap_down_twice fuel m a b n ≡ fault
  unfolding swap_down_twice
  swap_down_twice-fault zero n m h r apart ha hb f = absurd (omega arith)
  swap_down_twice-fault (suc fuel) n m h r apart ha hb f = elim (dec_lt n 4) [
    | yes low ↦ rw (below_fault 4 n m (omega arith) (omega arith) low f)
    | no high ↦
        let e : sub64 n 4 ≡ n - 4 = omega arith in
        let (m', done, x) = Returns-inv (
          exchange-IsExchanged 4 m (a + (n - 4)) (b + (n - 4)) (omega arith) (omega arith)
            (omega arith)) in
        rw (e, done)
          (elim (dec_lt (n - 4) 4) [
            | yes low ↦
                rw
                  (below_fault 4 (n - 4) m' (omega arith) (omega arith) low (omega (arith, x.size)))
            | no high' ↦
                let e' : sub64 (n - 4) 4 ≡ n - 8 = omega arith in
                let (m'', done', y) = Returns-inv (
                  exchange-IsExchanged 4 m' (a + (n - 8)) (b + (n - 8)) (omega arith)
                    (omega (arith, x.size)) (omega (arith, x.size))) in
                let more : (n - 8 == 0) ≡ false = ground arith in
                rw (e', done', more)
                  (swap_down_twice-fault fuel (n - 8) m'' (omega arith) (omega arith) (omega arith)
                    (omega (arith, x.size, y.size)) (omega (arith, x.size, y.size))
                    (omega (arith, x.size, y.size)))
          ])
  ]

  -- At a size that is no multiple of 8 the 64-bit swap, in either configuration, leaves the object,
  -- though both elements lie inside it.
  pub swap_words_64-misaligned :
      (config_64bit : Bool) (n : ℕ) (m : List B)
      → n % 8 ≢ 0
      → IsApart a b n
      → a + n ≤ length m
      → b + n ≤ length m
      → length m + 8 ≤ word
      → do_swap config_64bit m a b n words_64 ≡ fault
  unfolding do_swap swap_words_64
  swap_words_64-misaligned true n m = swap_down-fault (n + 1) n m (omega arith)
  swap_words_64-misaligned false n m = swap_down_twice-fault (n + 1) n m (omega arith)
