-- ===== src/Template/Stable/Parts.antt =====
-- GRAIL_REC_MERGE brings what is below its key, equal to it and above it together.
use native.Mathlib.Decide.{dec_lt}
use ksort.Base.{
  ℤ, pos, negsuc, ℕ, zero, suc, ◌+◌, ◌-◌, ◌≤◌, ◌<◌, ◌≡◌, ◌∙◌, refl, inr, List, arith, true, ltb,
  ◌==◌, is_nonzero,
}
use ksort.Run.{Returns, returns, Returns-bind, Returns-map, Returns-if}
use ksort.Array.{length, key_at, IsPermutedIn, IsSortedIn}
use ksort.Array.Access.{Compared, compare_at-Compared}
use ksort.Array.Range.{IsPermutedIn-trans, IsPermutedIn-widen}
use ksort.Template.{sort_cmp}
use ksort.Template.Bitonic.{value}
use ksort.Template.Bitonic.Exchange.{sort_cmp-IsThreeWay}
use ksort.Template.Stable.{past_equal, rotate_parts}
use ksort.Template.Stable.Rotate.{IsRotated, IsRotated-none, rotate-IsRotated}
use ksort.Template.Stable.Search.{search_right-splits}

-- a run, split into what is below `v`, equal to it and above it
pub record IsThree (xs : List ℕ) (p len v k1 k2 : ℕ) : Type 0 where
  pub order : k1 ≤ k2
  pub inside : k2 ≤ len
  pub below : (k : ℕ) → p ≤ k → k < p + k1 → key_at value xs k < v
  pub equal : (k : ℕ) → p + k1 ≤ k → k < p + k2 → key_at value xs k ≡ v
  pub above : (k : ℕ) → p + k2 ≤ k → k < p + len → v < key_at value xs k

-- unequal to the key, and not below it
sign_strict : (z : ℤ) (a b : ℕ) → Compared a b z → is_nonzero z ≡ true → b ≤ a → b < a
sign_strict (pos zero) a b c e h = absurd (ground arith)
sign_strict (pos (suc n)) a b c e h = ground (arith, c.positive)
sign_strict (negsuc n) a b c e h = absurd (ground (arith, c.negative))

module _ (xs : List ℕ) (p key len : ℕ) (f : p + len ≤ length xs) (g : key < length xs)
    (s : IsSortedIn value xs p (p + len)) where
  pub past_equal-IsThree :
      (k1 : ℕ)
      → k1 ≤ len
      → ((k : ℕ) → p ≤ k → k < p + k1 → key_at value xs k < key_at value xs key)
      → ((k : ℕ) → p + k1 ≤ k → k < p + len → key_at value xs key ≤ key_at value xs k)
      → Returns (IsThree xs p len (key_at value xs key) k1) (past_equal xs p k1 len key)
  unfolding past_equal
  past_equal-IsThree k1 h below above =
      Returns-if (ltb k1 len)
        (λ e.
          Returns-bind
            (compare_at-Compared value xs (p + k1) key (ground arith) g sort_cmp
              sort_cmp-IsThreeWay)
            λ z w.
              Returns-if (is_nonzero z)
                (λ q.
                  let lt = sign_strict z _ _ w q (above (p + k1) (omega arith) (ground arith)) in
                  returns (record {
                    order = omega arith;
                    inside = h;
                    below = below;
                    equal = λ k a b. absurd (omega arith);
                    above = λ k a b. omega (arith, lt, s (p + k1) k (omega arith) a b);
                  }))
                λ q.
                  let rest : p + k1 + (len - k1) ≡ p + len = omega arith in
                  Returns-bind
                    (search_right-splits xs (p + k1) key (len - k1) (omega arith) g
                      λ i j a b c. s i j (omega arith) b (omega arith))
                    λ r c. returns (record {
                      order = omega arith;
                      inside = omega (arith, c.0);
                      below = below;
                      equal = λ k a b.
                          omega (arith, c.1 k a (omega arith), above k a (omega (arith, c.0)));
                      above = λ k a b. c.2 k (omega arith) (omega arith);
                    }))
        λ e. returns (record {
          order = omega arith;
          inside = h;
          below = below;
          equal = λ k a b. absurd (omega arith);
          above = λ k a b. absurd (ground arith);
        })

-- both runs' parts in their new places
pub record IsGrouped (p l1 l2 v k1 k2 m1 m2 : ℕ) (xs ys : List ℕ) : Type 0 where
  pub permuted : IsPermutedIn value p (p + l1 + l2) xs ys
  pub low_first : (k : ℕ) → k < p + k1 → key_at value ys k ≡ key_at value xs k
  pub low_second :
      (k j : ℕ)
      → p + k1 ≤ k
      → k < p + k1 + m1
      → j + k1 ≡ k + l1
      → key_at value ys k ≡ key_at value xs j
  pub middle : (k : ℕ) → p + k1 + m1 ≤ k → k < p + k2 + m2 → key_at value ys k ≡ v
  pub high_first :
      (k j : ℕ)
      → p + k2 + m2 ≤ k
      → k < p + l1 + m2
      → j + m2 ≡ k
      → key_at value ys k ≡ key_at value xs j
  pub high_second : (k : ℕ) → p + l1 + m2 ≤ k → key_at value ys k ≡ key_at value xs k

module _ (xs : List ℕ) (p l1 l2 v k1 k2 m1 m2 : ℕ) (f : p + l1 + l2 ≤ length xs)
    (a : IsThree xs p l1 v k1 k2) (b : IsThree xs (p + l1) l2 v m1 m2) where
  once-IsGrouped :
      (ys : List ℕ)
      → k1 ≡ k2
      → IsRotated (p + k2) (l1 - k2) m2 xs ys
      → IsGrouped p l1 l2 v k1 k2 m1 m2 xs ys
  once-IsGrouped ys e r = record {
    permuted = IsPermutedIn-widen (omega arith) (omega (arith, a.inside, b.inside)) r.permuted;
    low_first = λ k h. r.permuted.before k (omega arith);
    low_second =
        λ k j h g q. r.front k j (omega arith) (omega (arith, b.order)) (omega (arith, a.inside));
    middle = λ k h g.
        r.front k (k + (l1 - k2)) (omega arith) (omega arith) refl
        ∙ b.equal (k + (l1 - k2)) (omega (arith, a.inside)) (omega (arith, a.inside));
    high_first = λ k j h g q. r.back k j h (omega (arith, a.inside)) q;
    high_second = λ k h. r.permuted.beyond k (omega (arith, a.inside));
  }

  twice-IsGrouped :
      (ys zs : List ℕ)
      → IsRotated (p + k1) (l1 - k1) m1 xs ys
      → IsRotated (p + (k2 + m1)) (l1 - k2) (m2 - m1) ys zs
      → IsGrouped p l1 l2 v k1 k2 m1 m2 xs zs
  twice-IsGrouped ys zs r t =
      let ka = a.order in
      let la = a.inside in
      let kb = b.order in
      let lb = b.inside in
      record {
        permuted =
            IsPermutedIn-trans (IsPermutedIn-widen (omega arith) (omega arith) r.permuted)
              (IsPermutedIn-widen (omega arith) (omega arith) t.permuted);
        low_first = λ k h. t.permuted.before k (omega arith) ∙ r.permuted.before k h;
        low_second = λ k j h g q. t.permuted.before k (omega arith) ∙ r.front k j h g (omega arith);
        middle = λ k h g. elim (dec_lt k (p + (k2 + m1))) [
          | yes d ↦
              t.permuted.before k d
              ∙ r.back k (k - m1) h (omega arith) (omega arith)
              ∙ a.equal (k - m1) (omega arith) (omega arith)
          | no d ↦
              t.front k (k + (l1 - k2)) (omega arith) (omega arith) refl
              ∙ r.permuted.beyond (k + (l1 - k2)) (omega arith)
              ∙ b.equal (k + (l1 - k2)) (omega arith) (omega arith)
        ];
        high_first = λ k j h g q.
            t.back k (j + m1) (omega arith) (omega arith) (omega arith)
            ∙ r.back (j + m1) j (omega arith) (omega arith) refl;
        high_second = λ k h. t.permuted.beyond k (omega arith) ∙ r.permuted.beyond k (omega arith);
      }

  pub rotate_parts-IsGrouped :
      Returns (IsGrouped p l1 l2 v k1 k2 m1 m2 xs) (rotate_parts xs p l1 k1 k2 m1 m2)
  unfolding rotate_parts
  rotate_parts-IsGrouped =
      let ka = a.order in
      let la = a.inside in
      let kb = b.order in
      let lb = b.inside in
      Returns-if (k1 == k2)
        (λ e.
          let same : k1 ≡ k2 = ground arith in
          Returns-map (rotate-IsRotated xs (p + k2) (l1 - k2) m2 (omega arith))
            λ ys r. once-IsGrouped ys same r)
        λ e. Returns-bind (rotate-IsRotated xs (p + k1) (l1 - k1) m1 (omega arith)) λ ys r.
          Returns-map
            (Returns-if (m2 == m1)
              (λ g.
                let same : m2 ≡ m1 = ground arith in
                returns (IsRotated-none (p + (k2 + m1)) (l1 - k2) (m2 - m1) ys (inr (omega arith))))
              λ g.
                rotate-IsRotated ys (p + (k2 + m1)) (l1 - k2) (m2 - m1)
                  (omega (arith, r.permuted.size)))
            λ zs t. twice-IsGrouped ys zs r t
