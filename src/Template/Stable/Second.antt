-- ===== src/Template/Stable/Second.antt =====
-- The merge without a buffer, for a second run that is not longer.
use native.Mathlib.Decide.{dec_lt}
use ksort.Base.{ℕ, zero, suc, ◌+◌, ◌-◌, ◌≤◌, ◌<◌, ◌≡◌, refl, inl, List, arith, ◌==◌, is_positive}
use ksort.Run.{Returns, returns, Returns-bind, Returns-map, Returns-if}
use ksort.Array.{length, key_at, IsPermutedIn, IsSortedIn, IsSortedRange}
use ksort.Array.Access.{compare_at-Compared}
use ksort.Array.Range.{IsPermutedIn-refl, IsPermutedIn-trans, IsPermutedIn-widen}
use ksort.Template.{sort_cmp}
use ksort.Template.Bitonic.{value}
use ksort.Template.Bitonic.Exchange.{sort_cmp-IsThreeWay}
use ksort.Template.Stable.{retreat, merge_second}
use ksort.Template.Stable.Rotate.{IsRotated, IsRotated-none, rotate-IsRotated}
use ksort.Template.Stable.Search.{search_right-splits}

-- the elements from `q` up to `end` ascend, and none of them is below one from `p` on in front of it
abbrev pub IsGreatest : List ℕ → ℕ → ℕ → ℕ → Type 0
IsGreatest xs p q end =
    (i j : ℕ) → p ≤ i → i ≤ j → q ≤ j → j < end → key_at value xs i ≤ key_at value xs j

-- what comes last is in its place, and the rest is sorted
pub greatest-IsSortedRange :
    (p q end : ℕ) (xs ys zs : List ℕ)
    → p ≤ q
    → q ≤ end
    → IsPermutedIn value p end xs ys
    → IsGreatest ys p q end
    → IsSortedRange value p q ys zs
    → IsSortedRange value p end xs zs
greatest-IsSortedRange p q end xs ys zs h g w l s = (
  IsPermutedIn-trans w (IsPermutedIn-widen (omega arith) g s.0),
  λ i j a b c. elim (dec_lt j q) [
    | yes d ↦ s.1 i j a b d
    | no d ↦ elim (dec_lt i q) [
      | no e ↦
          omega (
            arith,
            s.0.beyond i (omega arith),
            s.0.beyond j (omega arith),
            l i j a b (omega arith) c,
          )
      | yes e ↦
          let (m, lo, hi, eq) = s.0.within i a e in
          omega (arith, s.0.beyond j (omega arith), eq, l m j lo (omega arith) (omega arith) c)
    ]
  ],
)

-- the next element of the second run, where the first does not end above it
greatest_next :
    (xs : List ℕ) (p l1 l2 : ℕ)
    → 0 < l1
    → 0 < l2
    → IsSortedIn value xs p (p + l1)
    → IsSortedIn value xs (p + l1) (p + l1 + l2)
    → key_at value xs (p + l1 - 1) ≤ key_at value xs (p + l1 + l2 - 1)
    → IsGreatest xs p (p + l1 + l2 - 1) (p + l1 + l2)
greatest_next xs p l1 l2 z z' s t low i j a b c d =
    let same : j ≡ p + l1 + l2 - 1 = omega arith in
    rw same (elim (dec_lt i (p + l1)) [
      | yes g ↦ omega (arith, low, s i (p + l1 - 1) a (omega arith) (omega arith))
      | no g ↦ t i (p + l1 + l2 - 1) (omega arith) (omega arith) (omega arith)
    ])

retreat-IsGreatest :
    (l2 : ℕ) (xs : List ℕ) (p l1 : ℕ)
    → 0 < l2
    → 0 < l1
    → p + l1 + l2 ≤ length xs
    → IsSortedIn value xs p (p + l1)
    → IsSortedIn value xs (p + l1) (p + l1 + l2)
    → IsGreatest xs p (p + l1 + l2 - 1) (p + l1 + l2)
    → Returns (λ r. (r < l2) × IsGreatest xs p (p + l1 + r) (p + l1 + l2)) (retreat l2 xs p l1)
unfolding retreat
retreat-IsGreatest zero xs p l1 z z' f s t l = absurd (omega arith)
retreat-IsGreatest (suc l2) xs p l1 z z' f s t l =
    Returns-if (l2 == 0) (λ e. returns (omega arith, λ i j a b c d. l i j a b (ground arith) d))
      λ e.
        Returns-bind
          (compare_at-Compared value xs (p + l1 - 1) (p + l1 + l2 - 1) (omega arith) (omega arith)
            sort_cmp sort_cmp-IsThreeWay)
          λ v w.
            Returns-if (is_positive v)
              (λ b. returns (omega arith, λ i j a b' c d. l i j a b' (omega arith) d))
              λ b.
                let low : key_at value xs (p + l1 - 1) ≤ key_at value xs (p + l1 + l2 - 1) =
                  ground (arith, w.positive) in
                let t' : IsSortedIn value xs (p + l1) (p + l1 + l2) =
                  λ i j a b' c. t i j a b' (omega arith) in
                Returns-map
                  (retreat-IsGreatest l2 xs p l1 (ground arith) z' (omega arith) s t'
                    (greatest_next xs p l1 l2 z' (ground arith) s t' low))
                  λ r q. (
                    omega (arith, q.0),
                    λ i j a b' c d. elim (dec_lt j (p + l1 + l2)) [
                      | yes g ↦ q.1 i j a b' c g
                      | no g ↦ l i j a b' (omega arith) d
                    ],
                  )

-- the array after the rotation: `h` elements of the first run are left
record IsReady (p h l2 end : ℕ) (xs ys : List ℕ) : Type 0 where
  permuted : IsPermutedIn value p end xs ys
  greatest : IsGreatest ys p (p + h + l2) end
  first : IsSortedIn value ys p (p + h)
  second : IsSortedIn value ys (p + h) (p + h + l2)
  next : IsGreatest ys p (p + h + l2 - 1) (p + h + l2)

module _ (xs : List ℕ) (p l1 l2 : ℕ) (z : 0 < l2) (f : p + l1 + l2 ≤ length xs)
    (s : IsSortedIn value xs p (p + l1)) (t : IsSortedIn value xs (p + l1) (p + l1 + l2)) where
  rotated-IsReady :
      (h : ℕ) (ys : List ℕ)
      → h ≤ l1
      → ((k : ℕ) → p ≤ k → k < p + h → key_at value xs k ≤ key_at value xs (p + l1 + l2 - 1))
      → ((k : ℕ) → p + h ≤ k → k < p + l1 → key_at value xs (p + l1 + l2 - 1) < key_at value xs k)
      → IsRotated (p + h) (l1 - h) l2 xs ys
      → IsReady p h l2 (p + l1 + l2) xs ys
  rotated-IsReady h ys le below above r =
      let last = key_at value xs (p + l1 + l2 - 1) in
      let front : (k : ℕ)
          → p + h ≤ k
          → k < p + h + l2
          → key_at value ys k ≡ key_at value xs (k + (l1 - h)) =
        λ k a b. r.front k (k + (l1 - h)) a b refl in
      let back : (k : ℕ)
          → p + h + l2 ≤ k
          → k < p + l1 + l2
          → key_at value ys k ≡ key_at value xs (k - l2) =
        λ k a b. r.back k (k - l2) a (omega arith) (omega arith) in
      let to_last : (k : ℕ) → p ≤ k → k < p + h + l2 → key_at value ys k ≤ last = λ k a b.
        elim (dec_lt k (p + h)) [
          | yes c ↦ omega (arith, r.permuted.before k c, below k a c)
          | no c ↦ omega (
            arith,
            front k (omega arith) b,
            t (k + (l1 - h)) (p + l1 + l2 - 1) (omega arith) (omega arith) (omega arith),
          )
        ] in
      record {
        permuted = IsPermutedIn-widen (omega arith) (omega arith) r.permuted;
        greatest = λ i j a b c d. elim (dec_lt i (p + h + l2)) [
          | yes g ↦
              omega (arith, back j c d, to_last i a g, above (j - l2) (omega arith) (omega arith))
          | no g ↦ omega (
            arith,
            back i (omega arith) (omega arith),
            back j c d,
            s (i - l2) (j - l2) (omega arith) (omega arith) (omega arith),
          )
        ];
        first = λ i j a b c. omega (
          arith,
          r.permuted.before i (omega arith),
          r.permuted.before j c,
          s i j a b (omega arith),
        );
        second = λ i j a b c. omega (
          arith,
          front i a (omega arith),
          front j (omega arith) c,
          t (i + (l1 - h)) (j + (l1 - h)) (omega arith) (omega arith) (omega arith),
        );
        next = λ i j a b c d.
            let end : j + (l1 - h) ≡ p + l1 + l2 - 1 = omega arith in
            rw (front j (omega arith) d, end) (to_last i a (omega arith));
      }

pub merge_second-sorts :
    (fuel : ℕ) (xs : List ℕ) (p l1 l2 : ℕ)
    → l2 < fuel
    → p + l1 + l2 ≤ length xs
    → IsSortedIn value xs p (p + l1)
    → IsSortedIn value xs (p + l1) (p + l1 + l2)
    → Returns (IsSortedRange value p (p + l1 + l2) xs) (merge_second fuel xs p l1 l2)
unfolding merge_second
merge_second-sorts zero xs p l1 l2 h f s t = absurd (omega arith)
merge_second-sorts (suc fuel) xs p l1 l2 h f s t =
    Returns-if (l2 == 0)
      (λ e.
        let none_left : l2 ≡ 0 = ground arith in
        returns (IsPermutedIn-refl p (p + l1 + l2) xs, λ i j a b c. s i j a b (omega arith)))
      λ e.
        let some_left : 0 < l2 = ground arith in
        Returns-bind (search_right-splits xs p (p + l1 + l2 - 1) l1 (omega arith) (omega arith) s)
          λ n q.
            Returns-bind
              (Returns-if (n == l1)
                (λ g. returns (IsRotated-none (p + n) (l1 - n) l2 xs (inl (ground arith))))
                λ g. rotate-IsRotated xs (p + n) (l1 - n) l2 (omega (arith, q.0)))
              λ ys r.
                let ready = rotated-IsReady xs p l1 l2 some_left f s t n ys q.0 q.1 q.2 r in
                Returns-if (n == 0)
                  (λ g.
                    let none_kept : n ≡ 0 = ground arith in
                    returns (
                      greatest-IsSortedRange p (p + n + l2) (p + l1 + l2) xs ys ys (omega arith)
                        (omega (arith, q.0)) ready.permuted ready.greatest
                        (
                          IsPermutedIn-refl p (p + n + l2) ys,
                          λ i j a b c. ready.second i j (omega arith) b c,
                        )))
                  λ g.
                    Returns-bind
                      (retreat-IsGreatest l2 ys p n some_left (ground arith)
                        (omega (arith, ready.permuted.size, q.0)) ready.first ready.second
                        ready.next)
                      λ a w.
                        Returns-map
                          (merge_second-sorts fuel ys p n a (omega (arith, w.0))
                            (omega (arith, ready.permuted.size, q.0, w.0)) ready.first
                            λ i j b c d. ready.second i j b c (omega (arith, w.0)))
                          λ zs v.
                            greatest-IsSortedRange p (p + n + a) (p + l1 + l2) xs ys zs
                              (omega arith) (omega (arith, q.0, w.0)) ready.permuted
                              (λ i j b c d u. elim (dec_lt j (p + n + l2)) [
                                | yes k ↦ w.1 i j b c d k
                                | no k ↦ ready.greatest i j b c (omega arith) u
                              ])
                              v
