-- ===== src/Template/Merge/Merged.antt =====
-- A merge of two ascending lists, as the order in which their elements are taken.
use mathlib.Core.List.Perm
use mathlib.Core.List.{perm_middle}
use ksort.Base.{
  ℕ, zero, suc, ◌+◌, ◌≤◌, ◌<◌, ◌≡◌, ◌∙◌, refl, sym, ◌⊎◌, inl, inr, List, [], ◌∷◌, ◌++◌, Perm, arith,
}
use ksort.Array.{length, key_at, IsSortedIn, IsSortedRange}
use ksort.Array.Laws.{key_at-beyond}
use ksort.Array.Slice.{length-++, key_at-++}
use ksort.Template.Bitonic.{value}

pub data Merged : List ℕ → List ℕ → List ℕ → Type 0 where
  done : Merged [] [] []
  from_left :
      {l r m : List ℕ} (x : ℕ)
      → (0 < length r → x ≤ key_at value r 0)
      → Merged l r m
      → Merged (x ∷ l) r (x ∷ m)
  from_right :
      {l r m : List ℕ} (y : ℕ)
      → (0 < length l → y ≤ key_at value l 0)
      → Merged l r m
      → Merged l (y ∷ r) (y ∷ m)

pub Merged-perm : {l r m : List ℕ} → Merged l r m → Perm m (l ++ r)
Merged-perm done = Perm.rfl
Merged-perm (from_left x h d) = Perm.cons x (Merged-perm d)
Merged-perm (from_right {l} {r} y h d) =
    Perm.trans (Perm.cons y (Merged-perm d)) (Perm.symm (perm_middle l r))

pub Merged-length : {l r m : List ℕ} → Merged l r m → length m ≡ length l + length r
Merged-length done = omega arith
Merged-length (from_left x h d) = omega (arith, Merged-length d)
Merged-length (from_right y h d) = omega (arith, Merged-length d)

pub Merged-swap : {l r m : List ℕ} → Merged l r m → Merged r l m
Merged-swap done = done
Merged-swap (from_left x h d) = from_right x h (Merged-swap d)
Merged-swap (from_right y h d) = from_left y h (Merged-swap d)

-- nothing on one side
pub Merged-nil : (r : List ℕ) → Merged [] r r
Merged-nil [] = done
Merged-nil (y ∷ r) = from_right y (λ h. absurd (omega arith)) (Merged-nil r)

-- an element that is below no other comes last
pub Merged-snoc :
    {l r m : List ℕ} (x : ℕ)
    → Merged l r m
    → ((k : ℕ) → k < length r → key_at value r k ≤ x)
    → Merged (l ++ (x ∷ [])) r (m ++ (x ∷ []))
unfolding key_at
Merged-snoc x done h = from_left x (λ z. absurd (omega arith)) done
Merged-snoc x (from_left y g d) h = from_left y g (Merged-snoc x d h)
Merged-snoc x (from_right {l = []} y g d) h =
    from_right y (λ z. h 0 (omega arith)) (Merged-snoc x d λ k b. h (suc k) (omega arith))
Merged-snoc x (from_right {l = a ∷ l} y g d) h =
    from_right y (λ z. g (omega arith)) (Merged-snoc x d λ k b. h (suc k) (omega arith))

-- where the element at `k` comes from
Origin : List ℕ → List ℕ → ℕ → Type 0
Origin l r v =
    ((i : ℕ) × (i < length l) × (v ≡ key_at value l i))
    ⊎ ((j : ℕ) × (j < length r) × (v ≡ key_at value r j))

Merged-Origin :
    {l r m : List ℕ} → Merged l r m → (k : ℕ) → k < length m → Origin l r (key_at value m k)
unfolding key_at Origin
Merged-Origin done k h = absurd (omega arith)
Merged-Origin (from_left x h d) zero b = inl (0, omega arith, refl)
Merged-Origin (from_left x h d) (suc k) b = elim (Merged-Origin d k (omega arith)) [
  | inl p ↦ inl (suc p.0, omega (arith, p.1), p.2)
  | inr p ↦ inr p
]
Merged-Origin (from_right y h d) zero b = inr (0, omega arith, refl)
Merged-Origin (from_right y h d) (suc k) b = elim (Merged-Origin d k (omega arith)) [
  | inl p ↦ inl p
  | inr p ↦ inr (suc p.0, omega (arith, p.1), p.2)
]

tail_sorted :
    (x : ℕ) (l : List ℕ)
    → IsSortedIn value (x ∷ l) 0 (length (x ∷ l))
    → IsSortedIn value l 0 (length l)
unfolding key_at
tail_sorted x l s i j p q r = s (suc i) (suc j) (omega arith) (omega arith) (omega arith)

cons_sorted :
    (x : ℕ) (m : List ℕ)
    → ((k : ℕ) → k < length m → x ≤ key_at value m k)
    → IsSortedIn value m 0 (length m)
    → IsSortedIn value (x ∷ m) 0 (length (x ∷ m))
unfolding key_at
cons_sorted x m h s zero zero p q r = omega arith
cons_sorted x m h s zero (suc j) p q r = h j (omega arith)
cons_sorted x m h s (suc i) zero p q r = absurd (omega arith)
cons_sorted x m h s (suc i) (suc j) p q r = s i j (omega arith) (omega arith) (omega arith)

-- the first element taken is not above any other
first_least :
    (v x : ℕ) (l r : List ℕ)
    → Origin l r v
    → IsSortedIn value (x ∷ l) 0 (length (x ∷ l))
    → IsSortedIn value r 0 (length r)
    → (0 < length r → x ≤ key_at value r 0)
    → x ≤ v
unfolding Origin key_at
first_least v x l r (inl (i, a, e)) s t h =
    let le = s 0 (suc i) (omega arith) (omega arith) (omega arith) in omega (arith, e, le)
first_least v x l r (inr (j, a, e)) s t h =
    let le = t 0 j (omega arith) (omega arith) a in omega (arith, e, le, h (omega arith))

swap-Origin : (l r : List ℕ) (v : ℕ) → Origin l r v → Origin r l v
unfolding Origin
swap-Origin l r v (inl p) = inr p
swap-Origin l r v (inr p) = inl p

pub Merged-sorted :
    {l r m : List ℕ}
    → Merged l r m
    → IsSortedIn value l 0 (length l)
    → IsSortedIn value r 0 (length r)
    → IsSortedIn value m 0 (length m)
Merged-sorted done s t = s
Merged-sorted (from_left x h d) s t =
    cons_sorted x _ (λ k b. first_least _ x _ _ (Merged-Origin d k b) s t h)
      (Merged-sorted d (tail_sorted x _ s) t)
Merged-sorted (from_right y h d) s t =
    cons_sorted y _ (λ k b. first_least _ y _ _ (swap-Origin _ _ _ (Merged-Origin d k b)) t s h)
      (Merged-sorted d s (tail_sorted y _ t))

-- the merge of two ascending lists is the two in a row, sorted
pub Merged-IsSortedRange :
    {l r m : List ℕ} (n : ℕ)
    → Merged l r m
    → n ≡ length l + length r
    → IsSortedIn value l 0 (length l)
    → IsSortedIn value r 0 (length r)
    → IsSortedRange value 0 n (l ++ r) m
unfolding Origin
Merged-IsSortedRange {l} {r} {m} n d e s t =
    let size = Merged-length d in
    let both = length-++ l r in
    (
      record {
        size = omega (arith, size, both);
        perm = Merged-perm d;
        before = λ k h. absurd (omega arith);
        beyond = λ k h.
            key_at-beyond value m k (omega (arith, size))
            ∙ sym (key_at-beyond value (l ++ r) k (omega (arith, both)));
        within = λ k a b. elim (Merged-Origin d k (omega (arith, size))) [
          | inl (i, h, o) ↦ (i, omega arith, omega arith, ground (arith, key_at-++ value l r i))
          | inr (j, h, o) ↦ (
            length l + j,
            omega arith,
            omega arith,
            ground (arith, key_at-++ value l r (length l + j)),
          )
        ];
      },
      λ i j a b c. Merged-sorted d s t i j a b (omega (arith, size)),
    )
