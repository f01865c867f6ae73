-- ===== src/Swap/Exact.antt =====
-- The loops of the swap functions exchange the two elements, whatever the width of a transfer.
use ksort.Base.{
  ℕ, zero, suc, ◌+◌, ◌*◌, ◌≤◌, ◌<◌, ◌≡◌, refl, ap, ◌∙◌, ◌⊎◌, inl, inr, List, arith, ◌==◌,
}
use ksort.Run.{Returns, returns, Returns-bind, Returns-map, Returns-if}
use ksort.Words.{word, sub64}
use ksort.Array.{length, get_elem?}
use ksort.Swap.{swap_down, swap_down_twice}
use ksort.Swap.Chunk.{source, IsApart, IsExchanged, exchange-IsExchanged}

-- where a byte comes from after the transfer at `n` and the rest below it
source-source :
    (a b n w k : ℕ)
    → IsApart a b (n + w)
    → source (a + n) (b + n) w (source a b n k) ≡ source a b (n + w) k
source-source a b n w k apart = ground arith

sub64-add : (n w : ℕ) → n + w < word → sub64 (n + w) w ≡ n
unfolding sub64
sub64-add n w h = omega arith

pred_cases : (q : ℕ) → (q ≡ 0) ⊎ ((k : ℕ) × (q ≡ suc k))
pred_cases zero = inl refl
pred_cases (suc k) = inr (k, refl)

module _ {B : Type 0} where
  IsExchanged-trans :
      {a b n w : ℕ} {m m' m'' : List B}
      → IsApart a b (n + w)
      → IsExchanged (a + n) (b + n) w m m'
      → IsExchanged a b n m' m''
      → IsExchanged a b (n + w) m m''
  IsExchanged-trans {a} {b} {n} {w} {m} apart p q = record {
    size = q.size ∙ p.size;
    at = λ k. q.at k ∙ p.at (source a b n k) ∙ ap (get_elem? m) (source-source a b n w k apart);
  }

  IsExchanged-none :
      (a b w : ℕ) {m m' : List B} → IsExchanged (a + 0) (b + 0) w m m' → IsExchanged a b w m m'
  IsExchanged-none a b w p =
      let ea : a + 0 ≡ a = omega arith in let eb : b + 0 ≡ b = omega arith in rw (ea, eb) at p

  -- Going down by `w` bytes over `q * w` of them exchanges the two stretches.
  pub swap_down-IsExchanged :
      (w q fuel : ℕ) (m : List B) (a b : ℕ)
      → 0 < w
      → q < fuel
      → IsApart a b (q * w + w)
      → a + (q * w + w) ≤ length m
      → b + (q * w + w) ≤ length m
      → q * w + w < word
      → Returns (IsExchanged a b (q * w + w) m) (swap_down w fuel m a b (q * w + w))
  unfolding swap_down
  swap_down-IsExchanged w q zero m a b p h apart ha hb f = absurd (omega arith)
  swap_down-IsExchanged w zero (suc fuel) m a b p h apart ha hb f =
      let z : 0 * w + w ≡ w = omega arith in
      let start : sub64 w w ≡ 0 = omega arith in
      rw (z, start)
        (Returns-bind
          (exchange-IsExchanged w m (a + 0) (b + 0) (omega arith) (omega arith) (omega arith))
          λ m' e. returns (IsExchanged-none a b w e))
  swap_down-IsExchanged w (suc q) (suc fuel) m a b p h apart ha hb f =
      rw (sub64-add (suc q * w) w f) (
        Returns-bind
          (exchange-IsExchanged w m (a + suc q * w) (b + suc q * w) (omega arith) (omega arith)
            (omega arith))
          λ m' e.
            let z : suc q * w ≡ q * w + w = omega arith in
            Returns-if (suc q * w == 0) (λ g. absurd (ground arith))
              λ g. rw z (
                Returns-map
                  (swap_down-IsExchanged w q fuel m' a b p (omega arith) (omega arith)
                    (omega (arith, e.size)) (omega (arith, e.size)) (omega arith))
                  λ m'' r. IsExchanged-trans (rw z at apart) (rw z at e) r))

  -- two transfers of 4 bytes, the upper one first
  pair-IsExchanged :
      (n a b : ℕ) {m m' m'' : List B}
      → IsApart a b (n + 8)
      → IsExchanged (a + (n + 4)) (b + (n + 4)) 4 m m'
      → IsExchanged (a + n) (b + n) 4 m' m''
      → IsExchanged (a + n) (b + n) (4 + 4) m m''
  pair-IsExchanged n a b apart p q =
      let ea : a + (n + 4) ≡ a + n + 4 = omega arith in
      let eb : b + (n + 4) ≡ b + n + 4 = omega arith in
      IsExchanged-trans {n = 4} {w = 4} (omega arith) (rw (ea, eb) at p) q

  pub swap_down_twice-IsExchanged :
      (q fuel : ℕ) (m : List B) (a b : ℕ)
      → q < fuel
      → IsApart a b (q * 8 + 8)
      → a + (q * 8 + 8) ≤ length m
      → b + (q * 8 + 8) ≤ length m
      → q * 8 + 8 < word
      → Returns (IsExchanged a b (q * 8 + 8) m) (swap_down_twice fuel m a b (q * 8 + 8))
  unfolding swap_down_twice
  swap_down_twice-IsExchanged q zero m a b h apart ha hb f = absurd (omega arith)
  swap_down_twice-IsExchanged q (suc fuel) m a b h apart ha hb f =
      let upper : sub64 (q * 8 + 8) 4 ≡ q * 8 + 4 = omega arith in
      let lower : sub64 (q * 8 + 4) 4 ≡ q * 8 = omega arith in
      rw (upper, lower)
        (Returns-bind
          (exchange-IsExchanged 4 m (a + (q * 8 + 4)) (b + (q * 8 + 4)) (omega arith) (omega arith)
            (omega arith))
          λ m' e.
            Returns-bind
              (exchange-IsExchanged 4 m' (a + q * 8) (b + q * 8) (omega arith)
                (omega (arith, e.size)) (omega (arith, e.size)))
              λ m'' r.
                let both = pair-IsExchanged (q * 8) a b apart e r in
                elim (pred_cases q) [
                  | inl z ↦
                      let none_left : 0 * 8 ≡ 0 = refl in
                      rw z (returns (IsExchanged-none a b 8 (rw z at both)))
                  | inr (k, z) ↦
                      let next : suc k * 8 ≡ k * 8 + 8 = omega arith in
                      rw (z, next)
                        (Returns-if (k * 8 + 8 == 0) (λ g. absurd (ground arith))
                          λ g.
                            Returns-map
                              (swap_down_twice-IsExchanged k fuel m'' a b (omega arith)
                                (omega arith) (omega (arith, both.size)) (omega (arith, both.size))
                                (omega arith))
                              λ m3 s. IsExchanged-trans (omega arith) (rw (z, next) at both) s)
                ])
