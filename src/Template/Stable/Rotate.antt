-- ===== src/Template/Stable/Rotate.antt =====
-- GRAIL_ROTATE exchanges two neighbouring parts of any length.
use native.Mathlib.Decide.{dec_lt}
use ksort.Base.{
  ℕ, zero, suc, ◌+◌, ◌-◌, ◌≤◌, ◌<◌, ◌≡◌, ◌∙◌, refl, List, arith, true, ◌⊎◌, inl, inr, leb, ◌||◌,
  ◌==◌,
}
use ksort.Run.{Returns, returns, Returns-bind, Returns-map, Returns-if}
use ksort.Array.{length, key_at, IsPermutedIn, IsSwapped}
use ksort.Array.Access.{swap_at-IsSwapped}
use ksort.Array.Range.{
  IsPermutedIn-refl, IsPermutedIn-trans, IsPermutedIn-widen, IsSwapped-IsPermutedIn,
}
use ksort.Template.Bitonic.{value}
use ksort.Template.Stable.{swap_n, rotate_loop, rotate}

-- the `n` elements from `a` on and those from `b` on, exchanged
record IsSwappedPart (n a b : ℕ) (xs ys : List ℕ) : Type 0 where
  permuted : IsPermutedIn value a (b + n) xs ys
  low : (k j : ℕ) → a ≤ k → k < a + n → j + a ≡ k + b → key_at value ys k ≡ key_at value xs j
  high : (k j : ℕ) → b ≤ k → k < b + n → j + b ≡ k + a → key_at value ys k ≡ key_at value xs j
  between : (k : ℕ) → a + n ≤ k → k < b → key_at value ys k ≡ key_at value xs k

swapped_more :
    (n a b : ℕ) (xs ys zs : List ℕ)
    → a + suc n ≤ b
    → IsSwapped value xs a b ys
    → IsSwappedPart n (a + 1) (b + 1) ys zs
    → IsSwappedPart (suc n) a b xs zs
swapped_more n a b xs ys zs h s r = record {
  permuted =
      IsPermutedIn-trans
        (IsSwapped-IsPermutedIn (omega arith) (omega arith) (omega arith) (omega arith) s)
        (IsPermutedIn-widen (omega arith) (omega arith) r.permuted);
  low = λ k j p q e. ground (arith, r.permuted.before k, r.low k j, s.at k, s.at j);
  high = λ k j p q e. ground (arith, r.between k, r.high k j, s.at k, s.at j);
  between = λ k p q. ground (arith, r.between k, s.at k);
}

swap_n-IsSwappedPart :
    (n : ℕ) (xs : List ℕ) (a b : ℕ)
    → a + n ≤ b
    → b + n ≤ length xs
    → Returns (IsSwappedPart n a b xs) (swap_n n xs a b)
unfolding swap_n
swap_n-IsSwappedPart zero xs a b h f = returns (record {
  permuted = IsPermutedIn-refl a (b + 0) xs;
  low = λ k j p q e. absurd (omega arith);
  high = λ k j p q e. absurd (omega arith);
  between = λ k p q. refl;
})
swap_n-IsSwappedPart (suc n) xs a b h f =
    Returns-bind (swap_at-IsSwapped value xs a b (omega arith) (omega arith)) λ ys s.
      Returns-map (swap_n-IsSwappedPart n ys (a + 1) (b + 1) (omega arith) (omega (arith, s.size)))
        λ zs r. swapped_more n a b xs ys zs h s r

-- the `l1` elements from `a` on behind the `l2` elements that follow them
pub record IsRotated (a l1 l2 : ℕ) (xs ys : List ℕ) : Type 0 where
  pub permuted : IsPermutedIn value a (a + l1 + l2) xs ys
  pub front : (k j : ℕ) → a ≤ k → k < a + l2 → j ≡ k + l1 → key_at value ys k ≡ key_at value xs j
  pub back :
      (k j : ℕ) → a + l2 ≤ k → k < a + l1 + l2 → j + l2 ≡ k → key_at value ys k ≡ key_at value xs j

-- a first part that is not longer changes places with as many elements behind it
IsRotated-left :
    (a l1 l2 : ℕ) (xs ys zs : List ℕ)
    → l1 ≤ l2
    → IsSwappedPart l1 a (a + l1) xs ys
    → IsRotated (a + l1) l1 (l2 - l1) ys zs
    → IsRotated a l1 l2 xs zs
IsRotated-left a l1 l2 xs ys zs h s r = record {
  permuted =
      IsPermutedIn-trans (IsPermutedIn-widen (omega arith) (omega arith) s.permuted)
        (IsPermutedIn-widen (omega arith) (omega arith) r.permuted);
  front = λ k j p q e. elim (dec_lt k (a + l1)) [
    | yes c ↦ r.permuted.before k c ∙ s.low k j p c (omega arith)
    | no c ↦ r.front k j (omega arith) (omega arith) e ∙ s.permuted.beyond j (omega arith)
  ];
  back = λ k j p q e.
      r.back k (j + l1) (omega arith) (omega arith) (omega arith)
      ∙ s.high (j + l1) j (omega arith) (omega arith) (omega arith);
}

-- the end of a longer first part changes places with the second
IsRotated-right :
    (a l1 l2 : ℕ) (xs ys zs : List ℕ)
    → l2 < l1
    → IsSwappedPart l2 (a + (l1 - l2)) (a + l1) xs ys
    → IsRotated a (l1 - l2) l2 ys zs
    → IsRotated a l1 l2 xs zs
IsRotated-right a l1 l2 xs ys zs h s r = record {
  permuted =
      IsPermutedIn-trans (IsPermutedIn-widen (omega arith) (omega arith) s.permuted)
        (IsPermutedIn-widen (omega arith) (omega arith) r.permuted);
  front = λ k j p q e.
      r.front k (k + (l1 - l2)) p q refl
      ∙ s.low (k + (l1 - l2)) j (omega arith) (omega arith) (omega arith);
  back = λ k j p q e. elim (dec_lt k (a + l1)) [
    | yes c ↦ r.back k j p (omega arith) e ∙ s.permuted.before j (omega arith)
    | no c ↦
        r.permuted.beyond k (omega arith) ∙ s.high k j (omega arith) (omega arith) (omega arith)
  ];
}

-- nothing to rotate
pub IsRotated-none : (a l1 l2 : ℕ) (xs : List ℕ) → l1 ≡ 0 ⊎ l2 ≡ 0 → IsRotated a l1 l2 xs xs
IsRotated-none a l1 l2 xs (inl e) = record {
  permuted = IsPermutedIn-refl a (a + l1 + l2) xs;
  front = λ k j p q e'. let same : j ≡ k = omega arith in rw same refl;
  back = λ k j p q e'. absurd (omega arith);
}
IsRotated-none a l1 l2 xs (inr e) = record {
  permuted = IsPermutedIn-refl a (a + l1 + l2) xs;
  front = λ k j p q e'. absurd (omega arith);
  back = λ k j p q e'. let same : j ≡ k = omega arith in rw same refl;
}

zero_either : (l1 l2 : ℕ) → (l1 == 0 || l2 == 0) ≡ true → l1 ≡ 0 ⊎ l2 ≡ 0
zero_either zero l2 e = inl refl
zero_either (suc l1) zero e = inr refl
zero_either (suc l1) (suc l2) e = absurd (ground arith)

rotate_loop-IsRotated :
    (fuel : ℕ) (xs : List ℕ) (a l1 l2 : ℕ)
    → l1 + l2 < fuel
    → a + l1 + l2 ≤ length xs
    → Returns (IsRotated a l1 l2 xs) (rotate_loop fuel xs a l1 l2)
unfolding rotate_loop
rotate_loop-IsRotated zero xs a l1 l2 h f = absurd (omega arith)
rotate_loop-IsRotated (suc fuel) xs a l1 l2 h f =
    Returns-if (l1 == 0 || l2 == 0) (λ e. returns (IsRotated-none a l1 l2 xs (zero_either l1 l2 e)))
      λ e.
        Returns-if (leb l1 l2)
          (λ b.
            let le : l1 ≤ l2 = ground arith in
            Returns-bind (swap_n-IsSwappedPart l1 xs a (a + l1) (omega arith) (omega arith)) λ ys s.
              Returns-map
                (rotate_loop-IsRotated fuel ys (a + l1) l1 (l2 - l1) (ground arith)
                  (omega (arith, s.permuted.size)))
                λ zs r. IsRotated-left a l1 l2 xs ys zs le s r)
          λ b.
            let lt : l2 < l1 = ground arith in
            Returns-bind
              (swap_n-IsSwappedPart l2 xs (a + (l1 - l2)) (a + l1) (omega arith) (omega arith))
              λ ys s.
                Returns-map
                  (rotate_loop-IsRotated fuel ys a (l1 - l2) l2 (ground arith)
                    (omega (arith, s.permuted.size)))
                  λ zs r. IsRotated-right a l1 l2 xs ys zs lt s r

-- For two neighbouring parts inside the array, GRAIL_ROTATE returns with the second in front of the first, each
-- in its order, and touches no other element.
pub rotate-IsRotated :
    (xs : List ℕ) (a l1 l2 : ℕ)
    → a + l1 + l2 ≤ length xs
    → Returns (IsRotated a l1 l2 xs) (rotate xs a l1 l2)
unfolding rotate
rotate-IsRotated xs a l1 l2 f = rotate_loop-IsRotated (l1 + l2 + 1) xs a l1 l2 (omega arith) f
