-- ===== src/Heap/Correct.antt =====
-- `sort_heap` sorts.
use ksort.Base.{ℕ, ◌+◌, ◌*◌, ◌/◌, ◌%◌, ◌^◌, ◌≤◌, ◌<◌, ◌≡◌, refl, arith, ◌⊎◌, inl, inr, List, ℤ}
use ksort.Run.{ok, Returns}
use ksort.Words.{word, wrap64}
use ksort.Array.{length, IsThreeWay, IsSwapFunc}
use ksort.Heap.{SwapFunc, do_swap, sort_r, sort_heap}
use ksort.Heap.Index.Sort.{LoopInv, IsSortedFront, sort_loop-sorts}
use ksort.Heap.Offsets.Sort.{sort_r-index}

module _ {A : Type 0} (key : A → ℕ) (cmp : A → A → ℤ) (swap_func : SwapFunc A) (size num : ℕ)
    (xs : List A) where
  start_LoopInv : 2 ≤ num → num ≤ length xs → LoopInv key num num (num / 2) xs
  start_LoopInv h f = record {
    fits = f;
    positive = omega arith;
    inside = omega arith;
    start = omega arith;
    building = λ _. refl;
    heap = λ k p q r. absurd (omega arith);
    tail = λ i j p q r. absurd (omega arith);
  }

  -- For a three-way comparator by `key`, a swap function that exchanges two elements, two
  -- elements or more, of 1 to 2 ^ 31 - 1 bytes, and an array whose doubled length in bytes fits size_t, sort_heap
  -- returns: no access is outside the array, the first `num` elements are the same elements in
  -- ascending order, and the others stay as they are.
  pub sort_heap-sorts :
      IsThreeWay key cmp
      → IsSwapFunc key (do_swap swap_func)
      → 2 ≤ num
      → num ≤ length xs
      → 0 < size
      → size < 2 ^ 31
      → 2 * (num * size) < word
      → Returns (IsSortedFront key num xs) (sort_heap xs num size cmp swap_func)
  unfolding sort_heap
  sort_heap-sorts three_way swaps two inside positive small fits =
      rw (sort_r-index cmp swap_func size positive small xs num two fits) (
        sort_loop-sorts key cmp three_way (do_swap swap_func) swaps (num + num + 1) num num
          (num / 2) xs (omega arith) (start_LoopInv two inside))

  -- sort_heap leaves an array of fewer than two elements, or elements of size 0, as it is.
  pub sort_heap_short : (num < 2) ⊎ (size ≡ 0) → sort_heap xs num size cmp swap_func ≡ ok xs
  unfolding sort_heap sort_r wrap64
  sort_heap_short (inl h) =
      let e : num / 2 ≡ 0 = omega arith in
      let zero_middle : 0 * size % word ≡ 0 = omega arith in rw (e, zero_middle)
  sort_heap_short (inr e) =
      let zero_middle : num / 2 * 0 % word ≡ 0 = omega arith in rw (e, zero_middle)
