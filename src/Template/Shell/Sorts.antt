-- ===== src/Template/Shell/Sorts.antt =====
-- SHELL_SORT sorts: its last gap is one.
use ksort.Base.{
  ℕ, zero, suc, ◌+◌, ◌-◌, ◌/◌, ◌≤◌, ◌<◌, ◌≡◌, refl, List, [], ◌∷◌, Bool, true, false, ◌&&◌, ◌||◌,
  arith, Bool-cases, inl, inr, ltb, leb, ◌==◌,
}
use ksort.Run.{Returns, returns, Returns-bind, Returns-map, Returns-if}
use ksort.Array.{length, IsPermutedIn, IsSortedIn, IsSortedRange}
use ksort.Array.Range.{IsPermutedIn-refl, IsPermutedIn-trans, IsPermutedIn-widen}
use ksort.Pdqsort.Insertion.Sorts.{single_sorted}
use ksort.Template.Bitonic.{value}
use ksort.Template.Insertion.Sorts.{narrow}
use ksort.Template.Shell.{shell_pass, shell_rounds, skip_gaps, shell_gaps, shell_sort}
use ksort.Template.Shell.Sift.{shell_at-IsPermutedIn, shell_at-sorts}

shell_pass-IsPermutedIn :
    (hi rest : ℕ) (xs : List ℕ) (inc i : ℕ)
    → hi ≤ length xs
    → 0 < inc
    → rest ≤ hi - i
    → Returns (IsPermutedIn value 0 hi xs) (shell_pass rest xs inc i)
unfolding shell_pass
shell_pass-IsPermutedIn hi zero xs inc i f z h = returns (IsPermutedIn-refl 0 hi xs)
shell_pass-IsPermutedIn hi (suc rest) xs inc i f z h =
    Returns-bind (shell_at-IsPermutedIn hi xs inc i f z (omega arith)) λ ys p.
      Returns-map
        (shell_pass-IsPermutedIn hi rest ys inc (i + 1) (omega (arith, p.size)) z (omega arith))
        λ zs q. IsPermutedIn-trans p q

shell_pass-sorts :
    (hi rest : ℕ) (xs : List ℕ) (b : ℕ)
    → hi ≤ length xs
    → suc b + rest ≡ hi
    → IsSortedIn value xs 0 (b + 1)
    → Returns (IsSortedRange value 0 hi xs) (shell_pass rest xs 1 (suc b))
unfolding shell_pass
shell_pass-sorts hi zero xs b f e s = returns (IsPermutedIn-refl 0 hi xs, narrow _ (omega arith) s)
shell_pass-sorts hi (suc rest) xs b f e s =
    let next : suc b + 1 ≡ suc (suc b) = omega arith in
    Returns-bind (shell_at-sorts xs b (omega arith) s) λ ys p.
      let more : Returns (IsSortedRange value 0 hi ys) (shell_pass rest ys 1 (suc b + 1)) =
        rw next (
          shell_pass-sorts hi rest ys (suc b) (omega (arith, p.0.size)) (omega arith)
            (narrow _ (omega arith) p.1)) in
      Returns-map more
        λ zs q. (IsPermutedIn-trans (IsPermutedIn-widen (omega arith) (omega arith) p.0) q.0, q.1)

-- the gaps are positive up to the first that is one
unfoldable ends_in_one : List ℕ → Bool
ends_in_one [] = false
ends_in_one (inc ∷ gaps) = ltb 0 inc && (inc == 1 || ends_in_one gaps)

skip_gaps-ends_in_one :
    (gaps : List ℕ) (size : ℕ)
    → 1 < size
    → ends_in_one gaps ≡ true
    → ends_in_one (skip_gaps gaps size) ≡ true
unfolding skip_gaps ends_in_one
skip_gaps-ends_in_one [] size h e = e
skip_gaps-ends_in_one (inc ∷ gaps) size h e = elim (Bool-cases (ltb (size / 2) inc)) [
  | inl t ↦ rw t (skip_gaps-ends_in_one gaps size h (ground arith))
  | inr t ↦ rw t e
]

shell_gaps-ends_in_one : ends_in_one shell_gaps ≡ true
unfolding shell_gaps ends_in_one
shell_gaps-ends_in_one = refl

shell_rounds-sorts :
    (gaps : List ℕ) (xs : List ℕ) (size : ℕ)
    → 1 < size
    → size ≤ length xs
    → ends_in_one gaps ≡ true
    → Returns (IsSortedRange value 0 size xs) (shell_rounds gaps xs size)
unfolding shell_rounds ends_in_one
shell_rounds-sorts [] xs size h f e = ground arith
shell_rounds-sorts (inc ∷ gaps) xs size h f e = elim (Bool-cases (inc == 1)) [
  | inl t ↦
      let one : inc ≡ 1 = ground arith in
      rw one (
        Returns-bind
          (shell_pass-sorts size (size - 1) xs 0 f (omega arith) (single_sorted value 0 xs))
          λ ys p. returns p)
  | inr t ↦
      Returns-bind
        (shell_pass-IsPermutedIn size (size - inc) xs inc inc f (ground arith) (omega arith))
        λ ys p. rw t (
          Returns-map (shell_rounds-sorts gaps ys size h (omega (arith, p.size)) (ground arith))
            λ zs q. (IsPermutedIn-trans p q.0, q.1))
]

-- For an array with that many elements, SHELL_SORT returns with the first `size` elements in ascending
-- order, rearranged among themselves, and touches no other element.
pub shell_sort-sorts :
    (xs : List ℕ) (size : ℕ)
    → size ≤ length xs
    → Returns (IsSortedRange value 0 size xs) (shell_sort xs size)
unfolding shell_sort
shell_sort-sorts xs size f =
    Returns-if (leb size 1)
      (λ b.
        returns (IsPermutedIn-refl 0 size xs, narrow _ (ground arith) (single_sorted value 0 xs)))
      λ b.
        shell_rounds-sorts (skip_gaps shell_gaps size) xs size (ground arith) f
          (skip_gaps-ends_in_one shell_gaps size (ground arith) shell_gaps-ends_in_one)
