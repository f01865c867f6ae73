-- ===== src/Device/Comparison.antt =====
-- dev_read: all 17 sorts sort the ten words, so it returns and no test fails.
use ksort.Base.{
  zero, suc, ℕ, Option, ◌≤◌, ◌≡◌, refl, ◌∙◌, List, [], ◌∷◌, Bool, true, false, ℤ, pos, negsuc, ltb,
  ◌==◌, if◌then◌else◌, arith, Bool-cases, inl, inr,
}
use ksort.Run.{Run, Returns, returns, Returns-bind, Returns-map, Returns-if}
use ksort.Array.{length, IsSortedIn, IsSortedRange}
use ksort.Template.Bitonic.{value}
use ksort.Template.Insertion.Sorts.{binary_insertion_sort-sorts}
use ksort.Template.Small.Sorts.{bitonic_sort-sorts}
use ksort.Template.Simple.Selection.{selection_sort-sorts}
use ksort.Template.Simple.Bubble.{bubble_sort-sorts}
use ksort.Template.Shell.Sorts.{shell_sort-sorts}
use ksort.Template.Heapsort.Sorts.{ksort_heap_sort-sorts}
use ksort.Template.Merge.Sorts.{merge_sort-sorts}
use ksort.Template.Quick.Sorts.{quick_sort-sorts}
use ksort.Template.Stable.Sorts.{rec_stable_sort-sorts}
use ksort.Template.Tim.{tim_sort}
use ksort.Intro.Quick.Sorts.{sort_intro-sorts}
use ksort.Pdqsort.Loop.Sorts.{sort_pdqsort-sorts}
use ksort.Compare.{cmpint64, cmpuint64, comparators_order}
use ksort.Xoroshiro.{State}
use ksort.Xoroshiro.Invert.{after}
use ksort.Template.Short.Sorts.{
  merge_sort_in_place-ten, grail_sort-ten, grail_sort_dyn_buffer-ten, sqrt_sort-ten,
}
use ksort.Device.{
  Device, Memory, compared_sorts, fill, sort_round, sort_rounds, heap_sort, copy_out, dev_read,
}
use ksort.Device.Rounds.{length-fill, fill-after, test_loop-passes, heap_sort-sorts}

-- a sort that returns an array of ten words in ascending order
abbrev pub IsRoundSort : (List ℕ → Run (List ℕ)) → Type 0
IsRoundSort sort =
    (arr : List ℕ)
    → length arr ≡ 10
    → Returns (λ ys. (length ys ≡ 10) × IsSortedIn value ys 0 10) (sort arr)

infixr 20 ◌▹◌
pub data AllRoundSort : List (List ℕ → Run (List ℕ)) → Type 0 where
  no_more : AllRoundSort []
  ◌▹◌ :
      {sort : List ℕ → Run (List ℕ)} {sorts : List (List ℕ → Run (List ℕ))}
      → IsRoundSort sort
      → AllRoundSort sorts
      → AllRoundSort (sort ∷ sorts)

-- a passed test for each sort
abbrev pub passes : List (List ℕ → Run (List ℕ)) → List Bool
passes [] = []
passes (sort ∷ sorts) = true ∷ passes sorts

-- no failure in so many tests
abbrev pub all_passed : ℕ → List Bool
all_passed zero = []
all_passed (suc n) = true ∷ all_passed n

sort_rounds-passes :
    (sorts : List (List ℕ → Run (List ℕ))) (arr : List ℕ)
    → AllRoundSort sorts
    → length arr ≡ 10
    → Returns (λ passed. passed ≡ passes sorts) (sort_rounds sorts arr)
unfolding sort_rounds sort_round
sort_rounds-passes [] arr no_more e = returns refl
sort_rounds-passes (sort ∷ sorts) arr (this ▹ rest) e =
    let round : Returns (λ b. b ≡ true) (sort_round sort arr) =
      Returns-bind (this arr e) λ ys s. test_loop-passes 9 ys 0 (omega (arith, s.0)) s.1 in
    Returns-bind round
      λ b t. Returns-bind (sort_rounds-passes sorts arr rest e) λ bs ts. returns (rw (t, ts) refl)

heap_sort-IsRoundSort : IsRoundSort heap_sort
heap_sort-IsRoundSort arr e = Returns-map (heap_sort-sorts arr e) λ ys s. (s.0.size ∙ e, s.1)

copy_out-Returns :
    {M : Type 0} (n_notcopied len : ℕ) (passed : List Bool) (prng : State) (d : Device M)
    → len ≤ 136
    → Returns
        (λ r.
          (r.0.prng ≡ prng)
          × (r.1 ≡ (if n_notcopied == 0 then pos len else negsuc 13))
          × (r.2 ≡ passed))
        (copy_out n_notcopied len passed prng d)
unfolding copy_out
copy_out-Returns n_notcopied len passed prng d h =
    let short : ltb 136 len ≡ false = ground arith in
    rw short (elim (Bool-cases (n_notcopied == 0)) [
      | inl t ↦ rw t (returns (refl, refl, refl))
      | inr t ↦ rw t (returns (refl, refl, refl))
    ])

tim_sort-ten :
    (krealloc : Option (List ℕ) → ℕ → Option (List ℕ)) (memory : Bool) (arr : List ℕ)
    → length arr ≡ 10
    → Returns (IsSortedRange value 0 10 arr) (tim_sort krealloc memory arr 10)
unfolding tim_sort
tim_sort-ten krealloc memory arr e = bitonic_sort-sorts arr 10 e

of_range :
    (sort : List ℕ → Run (List ℕ))
    → ((arr : List ℕ) → length arr ≡ 10 → Returns (IsSortedRange value 0 10 arr) (sort arr))
    → IsRoundSort sort
of_range sort h arr e = Returns-map (h arr e) λ ys s. (s.0.size ∙ e, s.1)

compared_sorts-AllRoundSort :
    (m : Memory) → m.sqrt_buffer ≡ true → m.sqrt_tags ≡ true → AllRoundSort (compared_sorts m)
compared_sorts-AllRoundSort m b t =
    heap_sort-IsRoundSort
    ▹ of_range _
        (λ arr e. merge_sort-sorts m.merge arr 10 (omega (arith, e)) λ h. absurd (omega arith))
    ▹ of_range _ (λ arr e. shell_sort-sorts arr 10 (omega (arith, e)))
    ▹ of_range _ (λ arr e. binary_insertion_sort-sorts arr 10 (omega (arith, e)))
    ▹ of_range _ (λ arr e. ksort_heap_sort-sorts arr 10 (omega (arith, e)))
    ▹ of_range _ (λ arr e. quick_sort-sorts arr 10 (omega (arith, e)) (omega (arith, e)))
    ▹ of_range _ (λ arr e. selection_sort-sorts arr 10 (omega (arith, e)))
    ▹ of_range _ (tim_sort-ten m.krealloc m.tim)
    ▹ of_range _ (λ arr e. bubble_sort-sorts arr 10 (omega (arith, e)))
    ▹ of_range _ (λ arr e. bitonic_sort-sorts arr 10 e)
    ▹ of_range _ (merge_sort_in_place-ten m.longer_in_place)
    ▹ of_range _ (grail_sort-ten m.longer_grail)
    ▹ of_range _ (λ arr e. rw (b, t) (sqrt_sort-ten m.longer_sqrt arr e))
    ▹ of_range _ (λ arr e. rec_stable_sort-sorts arr 10 (omega arith) (omega (arith, e)))
    ▹ of_range _ (grail_sort_dyn_buffer-ten m.longer_grail m.grail)
    ▹ of_range _ (λ arr e.
      sort_intro-sorts value cmpint64 comparators_order.0 m.intro_tmp m.intro_stack arr 10
        (λ g. absurd (omega arith)) (omega arith) (omega arith) (omega (arith, e)))
    ▹ of_range _ (λ arr e.
      sort_pdqsort-sorts value cmpuint64 comparators_order.1 m.pdqsort value arr 10 (omega arith)
        (omega (arith, e)))
    ▹ no_more

-- Where both arrays and the two buffers of the sqrt sort get their memory, and at most 8 bytes are read,
-- dev_read returns: each of its 17 sorts has passed its test, the generator is ten steps on, and
-- the result is the length, or EFAULT where bytes were not copied.
pub dev_read-passes :
    {M : Type 0} (memory : Memory) (n_notcopied len : ℕ) (d : Device M)
    → memory.arrays ≡ true
    → memory.sqrt_buffer ≡ true
    → memory.sqrt_tags ≡ true
    → len ≤ 8
    → Returns
        (λ r.
          (r.0.prng ≡ after 10 d.prng)
          × (r.1 ≡ (if n_notcopied == 0 then pos len else negsuc 13))
          × (r.2 ≡ all_passed 17))
        (dev_read memory n_notcopied len d)
unfolding dev_read
dev_read-passes {M} memory n_notcopied len d a b t h =
    let filled = fill 10 d.prng in
    let copied : List Bool → Run (Device M × ℤ × List Bool) =
      λ passed. copy_out n_notcopied len passed filled.1 d in
    let rounds =
      sort_rounds-passes (compared_sorts memory) filled.0 (compared_sorts-AllRoundSort memory b t)
        (length-fill 10 d.prng) in
    Returns-if memory.arrays
      (λ _. Returns-bind {rest = copied} rounds λ passed e.
        Returns-map (copy_out-Returns n_notcopied len passed filled.1 d (omega arith))
          λ r p. (p.0 ∙ fill-after 10 d.prng, p.1, p.2 ∙ e))
      λ c. absurd (ground (arith, a, c))
