-- ===== src/Template/Stable/First.antt =====
-- The merge without a buffer, for a shorter first run.
use native.Mathlib.Decide.{dec_lt}
use ksort.Base.{
  ℕ, zero, suc, ◌+◌, ◌-◌, ◌≤◌, ◌<◌, ◌≡◌, ◌∙◌, refl, inr, List, arith, ◌==◌, is_positive,
}
use ksort.Run.{Returns, returns, Returns-bind, Returns-map, Returns-if}
use ksort.Array.{length, key_at, IsPermutedIn, IsSortedIn, IsSortedRange}
use ksort.Array.Access.{compare_at-Compared}
use ksort.Array.Range.{IsPermutedIn-refl, IsPermutedIn-trans, IsPermutedIn-widen}
use ksort.Template.{sort_cmp}
use ksort.Template.Bitonic.{value}
use ksort.Template.Bitonic.Exchange.{sort_cmp-IsThreeWay}
use ksort.Template.Stable.{advance, merge_first}
use ksort.Template.Stable.Rotate.{IsRotated, IsRotated-none, rotate-IsRotated}
use ksort.Template.Stable.Search.{search_left-splits}

-- the elements from `p` up to `q` ascend, and none of them is above a later one in front of `end`
abbrev IsLeast : List ℕ → ℕ → ℕ → ℕ → Type 0
IsLeast xs p q end =
    (i j : ℕ) → p ≤ i → i < q → i ≤ j → j < end → key_at value xs i ≤ key_at value xs j

-- what comes first is in its place, and the rest is sorted
least-IsSortedRange :
    (p q end : ℕ) (xs ys zs : List ℕ)
    → p ≤ q
    → q ≤ end
    → IsPermutedIn value p end xs ys
    → IsLeast ys p q end
    → IsSortedRange value q end ys zs
    → IsSortedRange value p end xs zs
least-IsSortedRange p q end xs ys zs h g w l s = (
  IsPermutedIn-trans w (IsPermutedIn-widen h (omega arith) s.0),
  λ i j a b c. elim (dec_lt i q) [
    | no d ↦ s.1 i j (omega arith) b c
    | yes d ↦ elim (dec_lt j q) [
      | yes e ↦ omega (arith, s.0.before i d, s.0.before j e, l i j a d b c)
      | no e ↦
          let (m, lo, hi, eq) = s.0.within j (omega arith) c in
          omega (arith, s.0.before i d, eq, l i m a d (omega arith) hi)
    ]
  ],
)

-- the next element of the first run, where the second does not begin below it
least_next :
    (xs : List ℕ) (p l1 end : ℕ)
    → 1 < l1
    → IsSortedIn value xs p (p + l1)
    → IsSortedIn value xs (p + l1) end
    → key_at value xs (p + 1) ≤ key_at value xs (p + l1)
    → IsLeast xs (p + 1) (p + 1 + 1) end
least_next xs p l1 end h s t low i j a b c d =
    let same : i ≡ p + 1 = omega arith in
    rw same (elim (dec_lt j (p + l1)) [
      | yes g ↦ s (p + 1) j (omega arith) (omega arith) g
      | no g ↦ omega (arith, low, t (p + l1) j (omega arith) (omega arith) d)
    ])

advance-IsLeast :
    (l1 : ℕ) (xs : List ℕ) (p end : ℕ)
    → 0 < l1
    → p + l1 < end
    → end ≤ length xs
    → IsSortedIn value xs p (p + l1)
    → IsSortedIn value xs (p + l1) end
    → IsLeast xs p (p + 1) end
    → Returns (λ r. (r.0 + r.1 ≡ p + l1) × (p < r.0) × IsLeast xs p r.0 end) (advance l1 xs p)
unfolding advance
advance-IsLeast zero xs p end z h f s t l = absurd (omega arith)
advance-IsLeast (suc l1) xs p end z h f s t l =
    let next : p + 1 + l1 ≡ p + suc l1 = omega arith in
    Returns-if (l1 == 0) (λ e. returns (ground arith, omega arith, l))
      λ e.
        Returns-bind
          (compare_at-Compared value xs (p + 1) (p + 1 + l1) (omega arith) (omega arith) sort_cmp
            sort_cmp-IsThreeWay)
          λ v w.
            Returns-if (is_positive v) (λ b. returns (next, omega arith, l))
              λ b.
                let low : key_at value xs (p + 1) ≤ key_at value xs (p + 1 + l1) =
                  ground (arith, w.positive) in
                Returns-map
                  (advance-IsLeast l1 xs (p + 1) end (ground arith) (omega arith) f
                    (λ i j a b' c. s i j (omega arith) b' (omega arith))
                    (λ i j a b' c. t i j (omega arith) b' c)
                    λ i j a b' c d.
                      least_next xs p (suc l1) end (ground arith) s t (rw (← next) low) i j a b' c
                        d)
                  λ r q. (
                    q.0 ∙ next,
                    omega (arith, q.1),
                    λ i j a b' c d. elim (dec_lt i (p + 1)) [
                      | yes g ↦ l i j a g c d
                      | no g ↦ q.2 i j (omega arith) b' c d
                    ],
                  )

-- the array after the rotation: `q` is where the rest of the first run starts
record IsReady (p q end l1 : ℕ) (xs ys : List ℕ) : Type 0 where
  permuted : IsPermutedIn value p end xs ys
  least : IsLeast ys p q end
  first : IsSortedIn value ys q (q + l1)
  second : IsSortedIn value ys (q + l1) end
  next : IsLeast ys q (q + 1) end

module _ (xs : List ℕ) (p l1 l2 : ℕ) (z : 0 < l1) (f : p + l1 + l2 ≤ length xs)
    (s : IsSortedIn value xs p (p + l1)) (t : IsSortedIn value xs (p + l1) (p + l1 + l2)) where
  rotated-IsReady :
      (h : ℕ) (ys : List ℕ)
      → h ≤ l2
      → ((k : ℕ) → p + l1 ≤ k → k < p + l1 + h → key_at value xs k < key_at value xs p)
      → ((k : ℕ) → p + l1 + h ≤ k → k < p + l1 + l2 → key_at value xs p ≤ key_at value xs k)
      → IsRotated p l1 h xs ys
      → IsReady p (p + h) (p + l1 + l2) l1 xs ys
  rotated-IsReady h ys le below above r =
      let front : (k : ℕ) → p ≤ k → k < p + h → key_at value ys k ≡ key_at value xs (k + l1) =
        λ k a b. r.front k (k + l1) a b refl in
      let back : (k : ℕ)
          → p + h ≤ k
          → k < p + l1 + h
          → key_at value ys k ≡ key_at value xs (k - h) =
        λ k a b. r.back k (k - h) a b (omega arith) in
      let from_p : (k : ℕ) → p + h ≤ k → k < p + l1 + l2 → key_at value xs p ≤ key_at value ys k =
        λ k a b. elim (dec_lt k (p + l1 + h)) [
          | yes c ↦ omega (arith, back k a c, s p (k - h) (omega arith) (omega arith) (omega arith))
          | no c ↦ omega (arith, r.permuted.beyond k (omega arith), above k (omega arith) b)
        ] in
      record {
        permuted = IsPermutedIn-widen (omega arith) (omega arith) r.permuted;
        least = λ i j a b c d. elim (dec_lt j (p + h)) [
          | yes g ↦ omega (
            arith,
            front i a b,
            front j (omega arith) g,
            t (i + l1) (j + l1) (omega arith) (omega arith) (omega arith),
          )
          | no g ↦ omega (
            arith,
            front i a b,
            below (i + l1) (omega arith) (omega arith),
            from_p j (omega arith) d,
          )
        ];
        first = λ i j a b c. omega (
          arith,
          back i a (omega arith),
          back j (omega arith) (omega arith),
          s (i - h) (j - h) (omega arith) (omega arith) (omega arith),
        );
        second = λ i j a b c. omega (
          arith,
          r.permuted.beyond i (omega arith),
          r.permuted.beyond j (omega arith),
          t i j (omega arith) b c,
        );
        next = λ i j a b c d.
            let same : i ≡ p + h = omega arith in
            let zero_at : p + h - h ≡ p = omega arith in
            rw (same, back (p + h) (omega arith) (omega arith), zero_at) (from_p j (omega arith) d);
      }

pub merge_first-sorts :
    (fuel : ℕ) (xs : List ℕ) (p l1 l2 : ℕ)
    → l1 < fuel
    → p + l1 + l2 ≤ length xs
    → IsSortedIn value xs p (p + l1)
    → IsSortedIn value xs (p + l1) (p + l1 + l2)
    → Returns (IsSortedRange value p (p + l1 + l2) xs) (merge_first fuel xs p l1 l2)
unfolding merge_first
merge_first-sorts zero xs p l1 l2 h f s t = absurd (omega arith)
merge_first-sorts (suc fuel) xs p l1 l2 h f s t =
    Returns-if (l1 == 0)
      (λ e.
        let none_left : l1 ≡ 0 = ground arith in
        returns (IsPermutedIn-refl p (p + l1 + l2) xs, λ i j a b c. t i j (omega arith) b c))
      λ e.
        let some_left : 0 < l1 = ground arith in
        Returns-bind (search_left-splits xs (p + l1) p l2 f (omega arith) t) λ n q.
          Returns-bind
            (Returns-if (n == 0) (λ g. returns (IsRotated-none p l1 n xs (inr (ground arith))))
              λ g. rotate-IsRotated xs p l1 n (omega (arith, q.0)))
            λ ys r.
              let ready = rotated-IsReady xs p l1 l2 some_left f s t n ys q.0 q.1 q.2 r in
              Returns-if (l2 - n == 0)
                (λ g.
                  let all : n ≡ l2 = ground (arith, q.0) in
                  returns (
                    least-IsSortedRange p (p + n) (p + l1 + l2) xs ys ys (omega arith) (omega arith)
                      ready.permuted ready.least
                      (
                        IsPermutedIn-refl (p + n) (p + l1 + l2) ys,
                        λ i j a b c. ready.first i j a b (omega arith),
                      )))
                λ g.
                  Returns-bind
                    (advance-IsLeast l1 ys (p + n) (p + l1 + l2) some_left (ground (arith, q.0))
                      (omega (arith, ready.permuted.size)) ready.first ready.second ready.next)
                    λ a w.
                      let end : a.0 + a.1 + (l2 - n) ≡ p + l1 + l2 = omega (arith, w.0, q.0) in
                      let start : a.0 + a.1 ≡ p + n + l1 = omega (arith, w.0) in
                      Returns-map
                        (merge_first-sorts fuel ys a.0 a.1 (l2 - n) (omega (arith, w.0, w.1))
                          (omega (arith, ready.permuted.size))
                          (λ i j b c d. ready.first i j (omega (arith, w.1)) c (omega arith))
                          λ i j b c d. ready.second i j (omega arith) c (omega arith))
                        λ zs v.
                          least-IsSortedRange p a.0 (p + l1 + l2) xs ys zs (omega (arith, w.1))
                            (omega arith) ready.permuted
                            (λ i j b c d u. elim (dec_lt i (p + n)) [
                              | yes k ↦ ready.least i j b k d u
                              | no k ↦ w.2 i j (omega arith) c d u
                            ])
                            (rw end at v)
