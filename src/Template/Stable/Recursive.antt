-- ===== src/Template/Stable/Recursive.antt =====
-- GRAIL_REC_MERGE sorts two neighbouring runs.
use native.Mathlib.Decide.{dec_lt}
use ksort.Base.{
  ℕ, zero, suc, ◌+◌, ◌-◌, ◌/◌, ◌≤◌, ◌<◌, ◌≡◌, refl, List, arith, ltb, ◌||◌, if◌then◌else◌,
}
use ksort.Run.{◌>>=◌, Returns, Returns-bind, Returns-map, Returns-if}
use ksort.Array.{length, key_at, IsSortedIn, IsSortedRange}
use ksort.Array.Range.{IsPermutedIn-trans, IsPermutedIn-widen}
use ksort.Template.Bitonic.{value}
use ksort.Template.Stable.{rec_merge}
use ksort.Template.Stable.Merge.{merge_without_buffer-sorts}
use ksort.Template.Stable.Parts.{IsThree, IsGrouped, past_equal-IsThree, rotate_parts-IsGrouped}
use ksort.Template.Stable.Search.{search_left-splits}
use ksort.Template.Stable.Second.{greatest-IsSortedRange}
use ksort.Template.Stable.Groups.{
  below_first-IsSortedIn, below_second-IsSortedIn, above_first-IsSortedIn, above_second-IsSortedIn,
  grouped-IsGreatest,
}

-- both halves of the key's position lie inside one of the runs
key_inside : (l1 l2 : ℕ) → 3 ≤ l1 → 3 ≤ l2 → (if ltb l1 l2 then l1 + l2 / 2 else l1 / 2) < l1 + l2
key_inside l1 l2 h g = ground arith

-- a run that holds the key has elements equal to it
some_equal :
    (xs : List ℕ) (p len v k1 k2 k : ℕ)
    → IsThree xs p len v k1 k2
    → k < len
    → key_at value xs (p + k) ≡ v
    → k1 < k2
some_equal xs p len v k1 k2 k a h e = elim (dec_lt k k1) [
  | yes c ↦ absurd (omega (arith, a.below (p + k) (omega arith) (omega arith)))
  | no c ↦ elim (dec_lt k k2) [
    | yes d ↦ omega arith
    | no d ↦ absurd (omega (arith, a.above (p + k) (omega arith) (omega arith)))
  ]
]

-- one run of the two holds the key, so that both recursive calls get fewer elements
parts_smaller :
    (xs : List ℕ) (p l1 l2 k k1 k2 m1 m2 : ℕ)
    → k < l1 + l2
    → IsThree xs p l1 (key_at value xs (p + k)) k1 k2
    → IsThree xs (p + l1) l2 (key_at value xs (p + k)) m1 m2
    → (0 < k2 + m2) × (k1 + m1 < l1 + l2)
parts_smaller xs p l1 l2 k k1 k2 m1 m2 h a b =
    let order = a.order in
    let inside = a.inside in
    let order' = b.order in
    let inside' = b.inside in
    elim (dec_lt k l1) [
      | yes c ↦ let lt = some_equal xs p l1 _ k1 k2 k a c refl in (omega arith, omega arith)
      | no c ↦
          let place : p + l1 + (k - l1) ≡ p + k = omega arith in
          let lt = some_equal xs (p + l1) l2 _ m1 m2 (k - l1) b (omega arith) (rw place refl) in
          (omega arith, omega arith)
    ]

-- what the calls of GRAIL_REC_MERGE with less fuel do
abbrev MergesRuns : ℕ → Type 0
MergesRuns fuel =
    (xs : List ℕ) (p l1 l2 : ℕ)
    → l1 + l2 < fuel
    → p + l1 + l2 ≤ length xs
    → IsSortedIn value xs p (p + l1)
    → IsSortedIn value xs (p + l1) (p + l1 + l2)
    → Returns (IsSortedRange value p (p + l1 + l2) xs) (rec_merge fuel xs p l1 l2)

-- the two calls of GRAIL_REC_MERGE, on the upper and on the lower part
grouped-sorts :
    (fuel : ℕ) (xs : List ℕ) (p l1 l2 v k1 k2 m1 m2 : ℕ)
    → l1 + l2 ≤ fuel
    → p + l1 + l2 ≤ length xs
    → IsSortedIn value xs p (p + l1)
    → IsSortedIn value xs (p + l1) (p + l1 + l2)
    → IsThree xs p l1 v k1 k2
    → IsThree xs (p + l1) l2 v m1 m2
    → (ys : List ℕ) → IsGrouped p l1 l2 v k1 k2 m1 m2 xs ys
    → (0 < k2 + m2) × (k1 + m1 < l1 + l2)
    → MergesRuns fuel
    → Returns
        (IsSortedRange value p (p + l1 + l2) xs)
        (rec_merge fuel ys (p + (k2 + m2)) (l1 - k2) (l2 - m2) >>= λ zs. rec_merge fuel zs p k1 m1)
grouped-sorts fuel xs p l1 l2 v k1 k2 m1 m2 h f s t a b ys w small merges =
    let order = a.order in
    let inside = a.inside in
    let order' = b.order in
    let inside' = b.inside in
    let start : p + (k2 + m2) ≡ p + k2 + m2 = omega arith in
    let end : p + k2 + m2 + (l1 - k2) + (l2 - m2) ≡ p + l1 + l2 = omega arith in
    let less : l1 - k2 + (l2 - m2) < fuel = omega (arith, small.0) in
    let less' : k1 + m1 < fuel = omega (arith, small.1) in
    let upper : Returns (IsSortedRange value (p + k2 + m2) (p + k2 + m2 + (l1 - k2) + (l2 - m2)) ys)
        (rec_merge fuel ys (p + (k2 + m2)) (l1 - k2) (l2 - m2)) =
      rw start (
        merges ys (p + k2 + m2) (l1 - k2) (l2 - m2) less (omega (arith, w.permuted.size))
          (above_first-IsSortedIn xs ys p l1 l2 v k1 k2 m1 m2 s t a b w)
          (above_second-IsSortedIn xs ys p l1 l2 v k1 k2 m1 m2 s t a b w)) in
    Returns-bind upper λ zs r0.
      let r : IsSortedRange value (p + k2 + m2) (p + l1 + l2) ys zs = rw end at r0 in
      let low = below_first-IsSortedIn xs ys p l1 l2 v k1 k2 m1 m2 s t a b w in
      let low' = below_second-IsSortedIn xs ys p l1 l2 v k1 k2 m1 m2 s t a b w in
      Returns-map
        (merges zs p k1 m1 less' (omega (arith, r.0.size, w.permuted.size))
          (λ i j c d e.
            omega (arith, low i j c d e, r.0.before i (omega arith), r.0.before j (omega arith)))
          λ i j c d e.
            omega (arith, low' i j c d e, r.0.before i (omega arith), r.0.before j (omega arith)))
        λ us u.
          greatest-IsSortedRange p (p + k1 + m1) (p + l1 + l2) xs zs us (omega arith) (omega arith)
            (IsPermutedIn-trans w.permuted (IsPermutedIn-widen (omega arith) (omega arith) r.0))
            (grouped-IsGreatest xs ys p l1 l2 v k1 k2 m1 m2 s t a b w zs r) u

-- For two ascending runs behind each other inside the array, GRAIL_REC_MERGE, whose calls of itself go at most
-- as deep as the runs have elements, returns with both in one ascending run, rearranged among themselves,
-- and touches no other element.
pub rec_merge-sorts :
    (fuel : ℕ) (xs : List ℕ) (p l1 l2 : ℕ)
    → l1 + l2 < fuel
    → p + l1 + l2 ≤ length xs
    → IsSortedIn value xs p (p + l1)
    → IsSortedIn value xs (p + l1) (p + l1 + l2)
    → Returns (IsSortedRange value p (p + l1 + l2) xs) (rec_merge fuel xs p l1 l2)
unfolding rec_merge
rec_merge-sorts zero xs p l1 l2 h f s t = absurd (omega arith)
rec_merge-sorts (suc fuel) xs p l1 l2 h f s t =
    let k = if ltb l1 l2 then l1 + l2 / 2 else l1 / 2 in
    Returns-if (ltb l1 3 || ltb l2 3) (λ e. merge_without_buffer-sorts xs p l1 l2 f s t)
      λ e.
        let inside : k < l1 + l2 = key_inside l1 l2 (ground arith) (ground arith) in
        let key : p + k < length xs = omega (arith, inside) in
        let f1 : p + l1 ≤ length xs = omega arith in
        Returns-bind (search_left-splits xs p (p + k) l1 f1 key s) λ k1 q1.
          Returns-bind (past_equal-IsThree xs p (p + k) l1 f1 key s k1 q1.0 q1.1 q1.2) λ k2 a.
            Returns-bind (search_left-splits xs (p + l1) (p + k) l2 f key t) λ m1 q2.
              Returns-bind (past_equal-IsThree xs (p + l1) (p + k) l2 f key t m1 q2.0 q2.1 q2.2)
                λ m2 b. Returns-bind (rotate_parts-IsGrouped xs p l1 l2 _ k1 k2 m1 m2 f a b) λ ys w.
                  grouped-sorts fuel xs p l1 l2 _ k1 k2 m1 m2 (omega arith) f s t a b ys w
                    (parts_smaller xs p l1 l2 k k1 k2 m1 m2 inside a b) (rec_merge-sorts fuel)
