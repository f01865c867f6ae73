-- ===== src/Fallback.antt =====
-- The heap sort that intro.c and pdqsort.c fall back on when a partition goes too deep, over element
-- indices: the elements from `low` to `low + part_length`, both included. The children of the element
-- with offset `i` are those with offsets 2 i + 2 and 2 i + 3; the first two elements have no parent.
-- `tmp` is the element that was copied out. Each loop goes on by at least one offset a round.
pub mod Safe
use ksort.Base.{
  ℕ, zero, suc, ◌+◌, ◌-◌, ◌*◌, ◌/◌, List, ℤ, ◌==◌, ltb, leb, if◌then◌else◌, is_negative,
  is_positive, Bool,
}
use ksort.Run.{Run, ok, out_of_fuel, ◌>>=◌}
use ksort.Array.{load, store, compare_at}

module _ {A : Type 0} (cmp_func : A → A → ℤ) (low : ℕ) where
  -- `j += (cmp_func(low + idx(j), low + idx(j + 1)) < 0)`, where there is a second child
  unfoldable pub larger : List A → Bool → ℕ → Run ℕ
  unfolding compare_at
  larger xs two j =
      let choose : Run ℕ = (do
        z ← compare_at cmp_func xs (low + j) (low + (j + 1))
        ok (if is_negative z then j + 1 else j)) in
      if two then choose else ok j

  -- the `while` of the heapification: the array, and where `tmp` belongs
  unfoldable pub heap_down : ℕ → List A → ℕ → A → ℕ → Run (List A × ℕ)
  unfolding larger load store
  heap_down zero xs part_length tmp i = out_of_fuel
  heap_down (suc fuel) xs part_length tmp i =
      let j = 2 * i + 2 in
      let step : Run (List A × ℕ) = (do
        j' ← larger xs (ltb j part_length) j
        y ← load xs (low + j')
        let move : Run (List A × ℕ) = (do
          ys ← store xs (low + i) y
          heap_down fuel ys part_length tmp j')
        if is_positive (cmp_func y tmp) then move else ok (xs, i)) in
      if leb j part_length then step else ok (xs, i)

  -- a round of the heapification
  unfoldable pub heapify_at : List A → ℕ → ℕ → Run (List A)
  unfolding heap_down
  heapify_at xs part_length k = load xs (low + k) >>= λ tmp.
      heap_down (part_length + 1) xs part_length tmp k >>= λ r. store r.0 (low + r.1) tmp

  -- the heapification, from offset `k` down
  unfoldable pub heapify : List A → ℕ → ℕ → Run (List A)
  unfolding heapify_at
  heapify xs part_length zero = heapify_at xs part_length zero
  heapify xs part_length (suc k) = do
    ys ← heapify_at xs part_length (suc k)
    heapify ys part_length k

  -- Floyd's `while`, down to a leaf: the array, and the leaf
  unfoldable pub floyd_down : ℕ → List A → ℕ → ℕ → ℕ → Run (List A × ℕ)
  unfolding larger load store
  floyd_down zero xs part_length i j = out_of_fuel
  floyd_down (suc fuel) xs part_length i j =
      let step : Run (List A × ℕ) = (do
        j' ← larger xs (ltb j (part_length - 1)) j
        y ← load xs (low + j')
        ys ← store xs (low + i) y
        floyd_down fuel ys part_length j' (2 * j' + 2)) in
      if ltb j part_length then step else ok (xs, i)

  -- the `while` that goes up again: the array, and where `tmp` belongs
  unfoldable pub floyd_up : ℕ → List A → A → ℕ → Run (List A × ℕ)
  unfolding load store
  floyd_up zero xs tmp i = out_of_fuel
  floyd_up (suc fuel) xs tmp i =
      let j = (i - 2) / 2 in
      let step : Run (List A × ℕ) = (do
        y ← load xs (low + j)
        let move : Run (List A × ℕ) = (do ys ← store xs (low + i) y; floyd_up fuel ys tmp j)
        if is_positive (cmp_func tmp y) then move else ok (xs, i)) in
      if ltb 1 i then step else ok (xs, i)

  -- a round of the heap sort
  unfoldable pub extract_at : List A → ℕ → Run (List A)
  unfolding floyd_down floyd_up
  extract_at xs part_length = load xs (low + part_length) >>= λ tmp.
      floyd_down (part_length + 1) xs part_length part_length 0 >>= λ r.
      floyd_up (part_length + 1) r.0 tmp r.1 >>= λ q. store q.0 (low + q.1) tmp

  -- the heap sort, from `part_length` down
  unfoldable pub extract : List A → ℕ → Run (List A)
  unfolding extract_at
  extract xs zero = extract_at xs zero
  extract xs (suc part_length) = do ys ← extract_at xs (suc part_length); extract ys part_length

  unfoldable pub heap_fallback : List A → ℕ → Run (List A)
  unfolding heapify extract
  heap_fallback xs part_length =
      let sorted : Run (List A) = (do
        ys ← heapify xs part_length (part_length / 2)
        extract ys part_length) in
      if part_length == 0 then ok xs else sorted
