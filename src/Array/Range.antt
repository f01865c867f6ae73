-- ===== src/Array/Range.antt =====
-- Rearrangements of a range of an array.
use native.Mathlib.Decide.{dec_lt}
use mathlib.Core.List.Perm
use ksort.Base.{ℕ, ◌≤◌, ◌<◌, ◌≡◌, refl, ◌∙◌, List, arith, ◌==◌, if◌then◌else◌}
use ksort.Array.{key_at, IsSwapped, IsPermutedIn}

module _ {A : Type 0} {key : A → ℕ} where
  pub IsPermutedIn-refl : (lo hi : ℕ) (xs : List A) → IsPermutedIn key lo hi xs xs
  IsPermutedIn-refl lo hi xs = record {
    size = refl;
    perm = Perm.rfl;
    before = λ k h. refl;
    beyond = λ k h. refl;
    within = λ k p q. (k, p, q, refl);
  }

  pub IsPermutedIn-trans :
      {lo hi : ℕ} {xs ys zs : List A}
      → IsPermutedIn key lo hi xs ys
      → IsPermutedIn key lo hi ys zs
      → IsPermutedIn key lo hi xs zs
  IsPermutedIn-trans p q = record {
    size = q.size ∙ p.size;
    perm = Perm.trans q.perm p.perm;
    before = λ k h. q.before k h ∙ p.before k h;
    beyond = λ k h. q.beyond k h ∙ p.beyond k h;
    within = λ k h h'.
        let (m, a, b, e) = q.within k h h' in
        let (l, c, d, e') = p.within m a b in (l, c, d, e ∙ e');
  }

  swapped_within :
      {lo hi i j : ℕ} {xs ys : List A}
      → lo ≤ i
      → i < hi
      → lo ≤ j
      → j < hi
      → IsSwapped key xs i j ys
      → (k : ℕ) → lo ≤ k
      → k < hi
      → (m : ℕ) × (lo ≤ m) × (m < hi) × (key_at key ys k ≡ key_at key xs m)
  swapped_within {i = i} {j = j} li hi lj hj s k p q = (
    if j == k then i else if i == k then j else k,
    ground arith,
    ground arith,
    ground (arith, s.at k),
  )

  pub IsSwapped-IsPermutedIn :
      {lo hi i j : ℕ} {xs ys : List A}
      → lo ≤ i
      → i < hi
      → lo ≤ j
      → j < hi
      → IsSwapped key xs i j ys
      → IsPermutedIn key lo hi xs ys
  IsSwapped-IsPermutedIn li hi lj hj s = record {
    size = s.size;
    perm = s.perm;
    before = λ k h. ground (arith, s.at k);
    beyond = λ k h. ground (arith, s.at k);
    within = swapped_within li hi lj hj s;
  }

  pub IsPermutedIn-widen :
      {lo hi lo' hi' : ℕ} {xs ys : List A}
      → lo' ≤ lo
      → hi ≤ hi'
      → IsPermutedIn key lo hi xs ys
      → IsPermutedIn key lo' hi' xs ys
  IsPermutedIn-widen {lo} {hi} h g p = record {
    size = p.size;
    perm = p.perm;
    before = λ k a. p.before k (omega arith);
    beyond = λ k a. p.beyond k (omega arith);
    within = λ k a b. elim (dec_lt k lo) [
      | yes c ↦ (k, a, b, p.before k c)
      | no c ↦ elim (dec_lt k hi) [
        | yes d ↦ let (m, x, y, e) = p.within k (omega arith) d in (m, omega arith, omega arith, e)
        | no d ↦ (k, a, b, p.beyond k (omega arith))
      ]
    ];
  }
