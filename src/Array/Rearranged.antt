-- ===== src/Array/Rearranged.antt =====
-- Rearrangements of the front of an array compose, and an exchange inside the front is one.
use mathlib.Core.List.Perm
use ksort.Base.{ℕ, ◌<◌, ◌≡◌, refl, ◌∙◌, List, arith, ◌==◌, if◌then◌else◌}
use ksort.Array.{key_at, IsSwapped, IsRearranged}

module _ {A : Type 0} {key : A → ℕ} where
  pub IsRearranged-refl : (n : ℕ) (xs : List A) → IsRearranged key n xs xs
  IsRearranged-refl n xs = record {
    size = refl;
    perm = Perm.rfl;
    beyond = λ k h. refl;
    within = λ k h. (k, h, refl);
  }

  pub IsRearranged-trans :
      {n : ℕ} {xs ys zs : List A}
      → IsRearranged key n xs ys
      → IsRearranged key n ys zs
      → IsRearranged key n xs zs
  IsRearranged-trans p q = record {
    size = q.size ∙ p.size;
    perm = Perm.trans q.perm p.perm;
    beyond = λ k h. q.beyond k h ∙ p.beyond k h;
    within = λ k h.
        let (m, hm, em) = q.within k h in let (l, hl, el) = p.within m hm in (l, hl, em ∙ el);
  }

  -- where an exchange takes each element from
  swapped_from :
      {n i j : ℕ} {xs ys : List A}
      → i < n
      → j < n
      → IsSwapped key xs i j ys
      → (k : ℕ) → k < n
      → (m : ℕ) × (m < n) × (key_at key ys k ≡ key_at key xs m)
  swapped_from {n} {i} {j} hi hj s k h =
      ((if j == k then i else if i == k then j else k), ground arith, ground (arith, s.at k))

  pub IsSwapped-IsRearranged :
      {n i j : ℕ} {xs ys : List A}
      → i < n
      → j < n
      → IsSwapped key xs i j ys
      → IsRearranged key n xs ys
  IsSwapped-IsRearranged hi hj s = record {
    size = s.size;
    perm = s.perm;
    beyond = λ k h. ground (arith, s.at k);
    within = swapped_from hi hj s;
  }
