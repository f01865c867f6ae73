-- ===== src/Heap/Offsets/Sort.antt =====
-- `sort_r` on offsets against the loop on indices.
use native.Mathlib.Nat.{mul-le-mul_right}
use ksort.Base.{
  ℕ, zero, suc, ◌+◌, ◌-◌, ◌*◌, ◌/◌, ◌%◌, ◌^◌, ◌≤◌, ◌<◌, ◌≡◌, refl, arith, inl, inr, List, ℤ, ◌==◌,
  false, Bool-cases,
}
use ksort.Run.{bind-cong}
use ksort.Words.{word, wrap64}
use ksort.Heap
use ksort.Heap.{SwapFunc, do_swap, sort_r}
use ksort.Heap.Index
use ksort.Heap.Offsets.Scale.{eq-offset_zero, sub64-offset, offset-index}
use ksort.Heap.Offsets.Loops.{sift-offset}

module _ {A : Type 0} (cmp : A → A → ℤ) (swap_func : SwapFunc A) (size : ℕ) (positive : 0 < size)
    (small : size < 2 ^ 31) where
  smaller_fits : (n : ℕ) → 2 * (n * size) < word → 2 * ((n - 1) * size) < word
  smaller_fits n h = omega (arith, mul-le-mul_right {m = n - 1} {n = n} size (omega arith))

  one_fits : (n : ℕ) → 2 * (n * size) < word → n * size < word
  one_fits n h = omega arith

  start_fits : (n a : ℕ) → a < n → 2 * (n * size) < word → a * size < word
  start_fits n a p h = omega (arith, mul-le-mul_right {m = a} {n = n} size (omega arith))

  -- the extraction, with the two calls on offsets rewritten to indices
  pub sort_loop-offset :
      (fuel n a : ℕ) (xs : List A)
      → a < n
      → 2 * (n * size) < word
      → Heap.sort_loop cmp swap_func size fuel xs (n * size) (a * size)
        ≡ Index.sort_loop cmp (do_swap swap_func) fuel xs n a
  unfolding Heap.sort_loop Index.sort_loop
  sort_loop-offset zero n a xs h f = refl
  sort_loop-offset (suc fuel) n a xs h f =
      let zero_offset : 0 * size ≡ 0 = omega arith in
      let sift_root = λ (p : 0 < n - 1) (ys : List A).
        rw zero_offset at
          (sift-offset cmp swap_func size positive small ys (n - 1) (smaller_fits n f) 0 p) in
      let loop_root = λ (p : 0 < n - 1) (ys : List A).
        rw zero_offset at (sort_loop-offset fuel (n - 1) 0 ys p (smaller_fits n f)) in
      rw (eq-offset_zero size positive a) (elim (Bool-cases (a == 0)) [
        | inl e ↦
            rw
              (
                e,
                sub64-offset size positive n (omega arith) (one_fits n f),
                eq-offset_zero size positive (n - 1),
              )
              (elim (Bool-cases (n - 1 == 0)) [
                | inl g ↦ rw g
                | inr g ↦
                    let more : 0 < n - 1 = ground arith in
                    let root : 0 / size ≡ 0 = rw zero_offset at (offset-index size positive 0) in
                    rw (g, root, offset-index size positive (n - 1))
                      (bind-cong (do_swap swap_func xs 0 (n - 1)) λ ys. rw (sift_root more ys) (
                        bind-cong (Index.sift cmp (do_swap swap_func) ys 0 (n - 1))
                          (loop_root more)))
              ])
        | inr e ↦
            rw
              (
                e,
                sub64-offset size positive a (ground arith) (start_fits n a h f),
                sift-offset cmp swap_func size positive small xs n f (a - 1) (omega arith),
              )
              (bind-cong (Index.sift cmp (do_swap swap_func) xs (a - 1) n)
                λ ys. sort_loop-offset fuel n (a - 1) ys (omega arith) f)
      ])

  -- Away from arrays of fewer than two elements, sort_r runs as the reference from a half heap.
  pub sort_r-index :
      (xs : List A) (num : ℕ)
      → 2 ≤ num
      → 2 * (num * size) < word
      → sort_r xs num size cmp swap_func
        ≡ Index.sort_loop cmp (do_swap swap_func) (num + num + 1) xs num (num / 2)
  unfolding sort_r wrap64
  sort_r-index xs num h f =
      let half : num / 2 < num = omega arith in
      let whole : num * size % word ≡ num * size = omega (arith, one_fits num f) in
      let middle : num / 2 * size % word ≡ num / 2 * size =
        omega (arith, start_fits num (num / 2) half f) in
      let start : (num / 2 == 0) ≡ false = ground arith in
      rw (whole, middle, eq-offset_zero size positive (num / 2), start)
        (sort_loop-offset (num + num + 1) num (num / 2) xs half f)
