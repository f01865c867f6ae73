-- ===== src/Template/Stable/Blocks.antt =====
-- One round of REC_STABLE_SORT doubles the length of the sorted blocks.
use native.Mathlib.Decide.{dec_lt}
use native.Mathlib.Nat.{add-mul, mul-le-mul_right, mul_assoc}
use ksort.Base.{ℕ, zero, suc, ◌+◌, ◌-◌, ◌*◌, ◌≤◌, ◌<◌, ◌^◌, ◌≡◌, List, arith, ltb, leb}
use ksort.Run.{Returns, returns, Returns-bind, Returns-map, Returns-if}
use ksort.Array.{length, key_at, IsPermutedIn, IsSortedRange}
use ksort.Array.Range.{IsPermutedIn-trans, IsPermutedIn-widen}
use ksort.Template.Bitonic.{value}
use ksort.Template.Stable.{block_loop, int_difference, below, less_by}
use ksort.Template.Stable.Ints.{fits_int-ok, int_difference-pos, at_most-fits}
use ksort.Template.Stable.Recursive.{rec_merge-sorts}

-- `p` is a multiple of `h`
abbrev pub Multiple : ℕ → ℕ → Type 0
Multiple h p = (q : ℕ) × (p ≡ q * h)

Multiple-half : (h p : ℕ) → Multiple (2 * h) p → Multiple h p
Multiple-half h p (q, e) = (q * 2, rw (mul_assoc q 2 h) e)

pub Multiple-next : (h p : ℕ) → Multiple h p → Multiple h (p + h)
Multiple-next h p (q, e) = (q + 1, omega (arith, e, add-mul q 1 h))

-- two multiples are no less than one step apart
Multiple-apart : (h p p' : ℕ) → Multiple h p → Multiple h p' → p < p' → p + h ≤ p'
Multiple-apart h p p' (q, e) (q', e') l = elim (dec_lt q q') [
  | yes c ↦
      let le : (q + 1) * h ≤ q' * h = mul-le-mul_right h (omega arith) in
      omega (arith, le, e, e', add-mul q 1 h)
  | no c ↦
      let le : q' * h ≤ q * h = mul-le-mul_right h (omega arith) in
      absurd (omega (arith, le, e, e'))
]

-- the elements from `p` on, `h` of them or up to the end, ascend
abbrev pub IsBlock : List ℕ → ℕ → ℕ → ℕ → Type 0
IsBlock xs size h p =
    (i j : ℕ) → p ≤ i → i ≤ j → j < p + h → j < size → key_at value xs i ≤ key_at value xs j

-- all blocks that start at a multiple of `h`
abbrev pub AllBlocks : List ℕ → ℕ → ℕ → Type 0
AllBlocks xs size h = (p : ℕ) → Multiple h p → IsBlock xs size h p

-- the blocks in front of `p0` have the double length
pub record IsHalfway (xs ys : List ℕ) (size h p0 : ℕ) : Type 0 where
  pub permuted : IsPermutedIn value 0 size xs ys
  pub front : (p : ℕ) → Multiple (2 * h) p → p < p0 → IsBlock ys size (2 * h) p
  pub back : (p : ℕ) → Multiple h p → p0 ≤ p → IsBlock ys size h p

-- a merge at `p0` of the next `n` elements
pub merged-IsHalfway :
    (xs ys zs : List ℕ) (size h p0 n : ℕ)
    → Multiple (2 * h) p0
    → p0 + n ≤ size
    → n ≤ 2 * h
    → (n < 2 * h → size ≡ p0 + n)
    → IsHalfway xs ys size h p0
    → IsSortedRange value p0 (p0 + n) ys zs
    → IsHalfway xs zs size h (p0 + 2 * h)
merged-IsHalfway xs ys zs size h p0 n m f le full w s = record {
  permuted = IsPermutedIn-trans w.permuted (IsPermutedIn-widen (omega arith) f s.0);
  front = λ p mp l i j a b c d. elim (dec_lt p p0) [
    | yes g ↦
        let apart = Multiple-apart (2 * h) p p0 mp m g in
        omega (
          arith,
          w.front p mp g i j a b c d,
          s.0.before i (omega arith),
          s.0.before j (omega arith),
        )
    | no g ↦ elim (dec_lt p0 p) [
      | yes k ↦ absurd (omega (arith, Multiple-apart (2 * h) p0 p m mp k))
      | no k ↦ elim (dec_lt n (2 * h)) [
        | yes u ↦ s.1 i j (omega arith) b (omega (arith, full u))
        | no u ↦ s.1 i j (omega arith) b (omega arith)
      ]
    ]
  ];
  back = λ p mp l i j a b c d. omega (
    arith,
    w.back p mp (omega arith) i j a b c d,
    s.0.beyond i (omega arith),
    s.0.beyond j (omega arith),
  );
}

-- past the end, all blocks have the double length
pub halfway_end :
    (xs ys : List ℕ) (size h p0 : ℕ)
    → Multiple (2 * h) p0
    → size ≤ p0 + h
    → IsHalfway xs ys size h p0
    → IsPermutedIn value 0 size xs ys × AllBlocks ys size (2 * h)
halfway_end xs ys size h p0 m f w = (
  w.permuted,
  λ p mp i j a b c d. elim (dec_lt p p0) [
    | yes g ↦ w.front p mp g i j a b c d
    | no g ↦ w.back p (Multiple-half h p mp) (omega arith) i j a b (omega arith) d
  ],
)

pub block_loop-AllBlocks :
    (fuel : ℕ) (xs ys : List ℕ) (p0 h size : ℕ)
    → size < fuel + p0
    → 0 < h
    → 2 * h < 2 ^ 31
    → p0 ≤ size
    → size ≤ 2 ^ 30
    → size ≤ length xs
    → Multiple (2 * h) p0
    → IsHalfway xs ys size h p0
    → Returns
        (λ zs. IsPermutedIn value 0 size xs zs × AllBlocks zs size (2 * h))
        (block_loop fuel ys p0 (int_difference size (2 * h)) h size)
unfolding block_loop below less_by
block_loop-AllBlocks zero xs ys p0 h size e z k l g f m w = absurd (omega arith)
block_loop-AllBlocks (suc fuel) xs ys p0 h size e z k l g f m w =
    let half = Multiple-half h p0 m in
    rw (at_most-fits p0 size (2 * h) g k, int_difference-pos size p0 l g)
      (Returns-if (leb (p0 + 2 * h) size)
        (λ b.
          let fits : p0 + 2 * h ≤ size = ground arith in
          let sum : p0 + h + h ≡ p0 + 2 * h = omega arith in
          let in_range : p0 + 2 * h < 2 ^ 31 = omega arith in
          Returns-bind
            (rec_merge-sorts (h + h + 1) ys p0 h h (omega arith) (omega (arith, w.permuted.size))
              (λ i j a c d. w.back p0 half (omega arith) i j a c d (omega arith))
              λ i j a c d.
                w.back (p0 + h) (Multiple-next h p0 half) (omega arith) i j a c d (omega arith))
            λ zs s. rw (fits_int-ok (p0 + 2 * h) in_range) (
              block_loop-AllBlocks fuel xs zs (p0 + 2 * h) h size (omega arith) z k fits g f
                (Multiple-next (2 * h) p0 m)
                (merged-IsHalfway xs ys zs size h p0 (2 * h) m fits (omega arith)
                  (λ u. absurd (omega arith)) w (rw sum at s))))
        λ b.
          Returns-if (ltb h (size - p0))
            (λ c.
              let lt : h < size - p0 = ground arith in
              let short : size < p0 + 2 * h = ground arith in
              let sum : p0 + h + (size - p0 - h) ≡ p0 + (size - p0) = omega arith in
              Returns-map
                (rec_merge-sorts (h + (size - p0 - h) + 1) ys p0 h (size - p0 - h) (omega arith)
                  (omega (arith, w.permuted.size))
                  (λ i j a c d. w.back p0 half (omega arith) i j a c d (omega arith))
                  λ i j a c d.
                    w.back (p0 + h) (Multiple-next h p0 half) (omega arith) i j a c (omega arith)
                      (omega arith))
                λ zs s.
                  halfway_end xs zs size h (p0 + 2 * h) (Multiple-next (2 * h) p0 m) (omega arith) (
                    merged-IsHalfway xs ys zs size h p0 (size - p0) m (omega arith) (omega arith)
                      (λ u. omega arith) w (rw sum at s)))
            λ c. returns (halfway_end xs ys size h p0 m (ground arith) w))
