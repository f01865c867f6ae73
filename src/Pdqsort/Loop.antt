-- ===== src/Pdqsort/Loop.antt =====
-- pdqsort.c: `pdqsort_loop` and `sort_pdqsort`. A recursive call and a further round both take fuel; each
-- works on a shorter range. `word_at` reads an element's first eight bytes, which `cmpint64` compares.
-- `memory` is whether the kmalloc of the fallback returns memory, which is written without a test.
pub mod Choose
pub mod Joined
pub mod Steps
pub mod Sorts
pub mod Safe
use ksort.Base.{
  ℕ, zero, suc, ◌+◌, ◌-◌, ◌/◌, List, ℤ, ◌==◌, ltb, if◌then◌else◌, Bool, true, false, not, ◌||◌,
}
use ksort.Run.{Run, ok, fault, out_of_fuel, ◌>>=◌}
use ksort.Words.{sub64, log2}
use ksort.Array.{swap_at}
use ksort.Compare.{cmpint64}
use ksort.Fallback.{heap_fallback}
use ksort.Pdqsort.{
  back, less_at, insertion_sort, unguarded_insertion_sort, partial_insertion_sort, sort3,
}
use ksort.Pdqsort.Partition.{partition_left, partition_right}

module _ {A : Type 0} where
  -- the exchanges that break patterns on the left of the pivot
  unfoldable pub break_left : List A → ℕ → ℕ → ℕ → Run (List A)
  unfolding swap_at
  break_left xs begin pivot l_size =
      let more : List A → Run (List A) = λ ys. (do
        ys ← swap_at ys (begin + 1) (begin + (l_size / 4 + 1))
        ys ← swap_at ys (begin + 2) (begin + (l_size / 4 + 2))
        ys ← swap_at ys (pivot - 2) (pivot - (l_size / 4 + 1))
        swap_at ys (pivot - 3) (pivot - (l_size / 4 + 2))) in
      let go : Run (List A) = (do
        ys ← swap_at xs begin (begin + l_size / 4)
        ys ← swap_at ys (pivot - 1) (pivot - l_size / 4)
        if ltb 128 l_size then more ys else ok ys) in
      if ltb l_size 24 then ok xs else go

  -- those on its right
  unfoldable pub break_right : List A → ℕ → ℕ → ℕ → Run (List A)
  unfolding swap_at
  break_right xs pivot end r_size =
      let more : List A → Run (List A) = λ ys. (do
        ys ← swap_at ys (pivot + 2) (pivot + (2 + r_size / 4))
        ys ← swap_at ys (pivot + 3) (pivot + (3 + r_size / 4))
        ys ← swap_at ys (end - 2) (end - (1 + r_size / 4))
        swap_at ys (end - 3) (end - (2 + r_size / 4))) in
      let go : Run (List A) = (do
        ys ← swap_at xs (pivot + 1) (pivot + (1 + r_size / 4))
        ys ← swap_at ys (end - 1) (end - r_size / 4)
        if ltb 128 r_size then more ys else ok ys) in
      if ltb r_size 24 then ok xs else go

module _ {A : Type 0} (cmp_func : A → A → ℤ) where
  -- the pivot goes to `begin`
  unfoldable pub choose_pivot : List A → ℕ → ℕ → Run (List A)
  unfolding sort3 swap_at
  choose_pivot xs begin end =
      let m = (end - begin) / 2 in
      let ninther : Run (List A) = (do
        ys ← sort3 cmp_func xs begin (begin + m) (end - 1)
        ys ← sort3 cmp_func ys (begin + 1) (begin + (m - 1)) (end - 2)
        ys ← sort3 cmp_func ys (begin + 2) (begin + (m + 1)) (end - 3)
        ys ← sort3 cmp_func ys (begin + (m - 1)) (begin + m) (begin + (m + 1))
        swap_at ys begin (begin + m)) in
      let median = sort3 cmp_func xs begin (begin + m) (end - 1) in
      if ltb 128 (end - begin) then ninther else median

  -- `!leftmost && !cmp_func(begin - idx(1), begin)`
  unfoldable pub is_repeated : List A → ℕ → Bool → Run Bool
  unfolding back less_at
  is_repeated xs begin true = ok false
  is_repeated xs begin false = do
    before ← back begin
    below ← less_at cmp_func xs before begin
    ok (not below)

  -- where nothing had to be exchanged: try to end at once, or go on by `rest`
  unfoldable pub try_sorted : (List A → Run (List A)) → List A → ℕ → ℕ → ℕ → Bool → Run (List A)
  unfolding partial_insertion_sort
  try_sorted rest xs begin pivot end already =
      let both : Run (List A) = partial_insertion_sort cmp_func xs begin pivot >>= λ p.
      (let right : Run (List A) = partial_insertion_sort cmp_func p.0 (pivot + 1) end >>= λ q.
      (if q.1 then ok q.0 else rest q.0) in
        if p.1 then right else rest p.0) in
      if already then both else rest xs

  -- a round of the `while`, behind `partition_right`: `rest` sorts both sides to a depth
  unfoldable pub pdqsort_round :
      Bool → (A → ℕ) → (List A → ℕ → Run (List A)) → List A → ℕ → ℕ → ℕ → Bool → ℕ → Run (List A)
  unfolding break_left break_right try_sorted heap_fallback cmpint64 sub64
  pdqsort_round memory word_at rest xs begin pivot end already max_depth =
      let l_size = pivot - begin in
      let r_size = end - (pivot + 1) in
      let eighth = (end - begin) / 8 in
      let depth = sub64 max_depth 1 in
      let fallback =
        if memory || end - begin == 0
        then heap_fallback (λ x y. cmpint64 (word_at x) (word_at y)) begin xs (end - begin)
        else fault in
      let broken : Run (List A) = (do
        ys ← break_left xs begin pivot l_size
        ys ← break_right ys pivot end r_size
        rest ys depth) in
      let balanced = try_sorted (λ ys. rest ys max_depth) xs begin pivot end already in
      let unbalanced = if depth == 0 then fallback else broken in
      if ltb l_size eighth || ltb r_size eighth then unbalanced else balanced

  unfoldable pub pdqsort_loop : Bool → (A → ℕ) → ℕ → List A → ℕ → ℕ → ℕ → Bool → Run (List A)
  unfolding choose_pivot is_repeated pdqsort_round partition_left partition_right insertion_sort
      unguarded_insertion_sort
  pdqsort_loop memory word_at zero xs begin end max_depth leftmost = out_of_fuel
  pdqsort_loop memory word_at (suc fuel) xs begin end max_depth leftmost =
      let small : Run (List A) =
        if leftmost
        then insertion_sort cmp_func xs begin end
        else unguarded_insertion_sort cmp_func xs begin end in
      let large : Run (List A) = choose_pivot xs begin end >>= λ ys.
      is_repeated ys begin leftmost >>= λ repeated.
      (let equal : Run (List A) = partition_left cmp_func ys begin end >>= λ r.
      pdqsort_loop memory word_at fuel r.0 (r.1 + 1) end max_depth leftmost in
        let parted : Run (List A) = partition_right cmp_func ys begin end >>= λ r.
        pdqsort_round memory word_at
          (λ zs depth. pdqsort_loop memory word_at fuel zs begin r.1 depth leftmost >>= λ us.
            pdqsort_loop memory word_at fuel us (r.1 + 1) end depth false)
          r.0 begin r.1 end r.2 max_depth in
        if repeated then equal else parted) in
      if ltb (end - begin) 24 then small else large

  -- the swap function that sort_pdqsort gets is not used
  unfoldable pub sort_pdqsort : Bool → (A → ℕ) → List A → ℕ → Run (List A)
  unfolding pdqsort_loop log2
  sort_pdqsort memory word_at xs num =
      pdqsort_loop memory word_at (num + 1) xs 0 num (log2 64 num) true
