-- ===== src/Swap/Chunk.antt =====
-- One transfer: `exchange` trades two stretches of memory of `w` bytes.
use native.Mathlib.Decide.{ℕ_discrete, dec_lt}
use ksort.Base.{
  ℕ, zero, suc, ◌+◌, ◌-◌, ◌≤◌, ◌<◌, ◌≡◌, refl, sym, ◌∙◌, ◌⊎◌, List, [], ◌∷◌, some, arith,
  if◌then◌else◌, ltb, leb, ◌&&◌,
}
use ksort.Run.{Returns, returns, Returns-bind, Returns-map}
use ksort.Array.{length, get_elem?, set}
use ksort.Array.Laws.{get_elem?-some, get_elem?-set, length-set}
use ksort.Swap.{read, write, exchange}

-- where the byte at `k` comes from when `n` bytes at `a` and at `b` change places
abbrev pub source : ℕ → ℕ → ℕ → ℕ → ℕ
source a b n k =
    if leb a k && ltb k (a + n)
    then k - a + b
    else if leb b k && ltb k (b + n)
    then k - b + a
    else k

-- two stretches of `n` bytes are one stretch, or have no byte in common
abbrev pub IsApart : ℕ → ℕ → ℕ → Type 0
IsApart a b n = (a ≡ b) ⊎ (a + n ≤ b) ⊎ (b + n ≤ a)

module _ {B : Type 0} where
  -- `m'` is `m` with the bytes at `a` and at `b` exchanged
  pub record IsExchanged (a b n : ℕ) (m m' : List B) : Type 0 where
    pub size : length m' ≡ length m
    pub at : (k : ℕ) → get_elem? m' k ≡ get_elem? m (source a b n k)

  record IsRead (w : ℕ) (m : List B) (i : ℕ) (xs : List B) : Type 0 where
    size : length xs ≡ w
    at : (k : ℕ) → k < w → get_elem? xs k ≡ get_elem? m (i + k)

  record IsWritten (m : List B) (i : ℕ) (xs m' : List B) : Type 0 where
    size : length m' ≡ length m
    at :
        (k : ℕ)
        → get_elem? m' k
          ≡ (if leb i k && ltb k (i + length xs) then get_elem? xs (k - i) else get_elem? m k)

  read_next :
      (w : ℕ) (m : List B) (i : ℕ) (x : B) (xs : List B)
      → get_elem? m i ≡ some x
      → IsRead w m (suc i) xs
      → (k : ℕ) → k < suc w
      → get_elem? (x ∷ xs) k ≡ get_elem? m (i + k)
  read_next w m i x xs e r zero h = let z : i + 0 ≡ i = omega arith in rw z (sym e)
  read_next w m i x xs e r (suc k) h =
      let z : i + suc k ≡ suc i + k = omega arith in rw z (r.at k (omega arith))

  read-IsRead :
      (w : ℕ) (m : List B) (i : ℕ) → i + w ≤ length m → Returns (IsRead w m i) (read w m i)
  unfolding read
  read-IsRead zero m i h = returns (record { size = refl; at = λ k p. absurd (omega arith) })
  read-IsRead (suc w) m i h =
      let (x, e) = get_elem?-some m i (omega arith) in
      rw e (
        Returns-bind (read-IsRead w m (suc i) (omega arith))
          λ xs r. returns (record { size = omega (arith, r.size); at = read_next w m i x xs e r }))

  written_next :
      (m : List B) (i : ℕ) (x : B) (xs m' : List B)
      → IsWritten (set m i x) (suc i) xs m'
      → i < length m
      → (k : ℕ)
      → get_elem? m' k ≡ (
          if leb i k && ltb k (i + suc (length xs))
          then get_elem? (x ∷ xs) (k - i)
          else get_elem? m k)
  written_next m i x xs m' r h k = elim (ℕ_discrete i k) [
    | yes e ↦
        let z : k - i ≡ 0 = omega arith in rw z (ground (arith, r.at k, get_elem?-set m i k x h))
    | no e ↦ elim (dec_lt i k) [
      | yes p ↦
          let z : k - i ≡ suc (k - suc i) = omega arith in
          rw z (ground (arith, r.at k, get_elem?-set m i k x h))
      | no p ↦ ground (arith, r.at k, get_elem?-set m i k x h)
    ]
  ]

  write-IsWritten :
      (xs m : List B) (i : ℕ) → i + length xs ≤ length m → Returns (IsWritten m i xs) (write m i xs)
  unfolding write
  write-IsWritten [] m i h = returns (record { size = refl; at = λ k. ground arith })
  write-IsWritten (x ∷ xs) m i h =
      let (y, e) = get_elem?-some m i (omega arith) in
      rw e (
        Returns-map (write-IsWritten xs (set m i x) (suc i) (omega (arith, length-set m i x)))
          λ m' r. record {
            size = r.size ∙ length-set m i x;
            at = λ k. written_next m i x xs m' r (omega arith) k;
          })

  pub exchange-IsExchanged :
      (w : ℕ) (m : List B) (a b : ℕ)
      → IsApart a b w
      → a + w ≤ length m
      → b + w ≤ length m
      → Returns (IsExchanged a b w m) (exchange w m a b)
  unfolding exchange
  exchange-IsExchanged w m a b apart ha hb = Returns-bind (read-IsRead w m a ha) λ t rt.
      Returns-bind (read-IsRead w m b hb) λ u ru.
        Returns-bind (write-IsWritten u m a (omega (arith, ru.size))) λ m1 w1.
          Returns-map (write-IsWritten t m1 b (omega (arith, rt.size, w1.size))) λ m2 w2. record {
            size = w2.size ∙ w1.size;
            at = λ k.
                ground (arith, w2.at k, w1.at k, rt.at (k - b), ru.at (k - a), rt.size, ru.size);
          }
