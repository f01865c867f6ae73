-- ===== src/Intro/Quick.antt =====
-- intro.c: the quicksort of `sort_intro`, with its stack of partitions. `top` points one above the last
-- partition on the stack; the entry under all of them is never written, and the loop ends when it is
-- popped. What is allocated is written without a test. The differences of pointers are those of the invariants in
-- `Intro.Quick.Stack`, where none is negative.
pub mod Scans
pub mod Split
pub mod Stack
pub mod Sorts
use ksort.Base.{
  ℕ, zero, suc, ◌+◌, ◌-◌, ◌*◌, ◌/◌, List, [], ◌∷◌, ℤ, Bool, ◌==◌, ltb, leb, is_negative,
  is_positive, if◌then◌else◌, ◌&&◌,
}
use ksort.Run.{Run, ok, fault, out_of_fuel, ◌>>=◌}
use ksort.Words.{log2}
use ksort.Array.{length, compare_at, swap_at}
use ksort.Pdqsort.{back}
use ksort.Fallback.{heap_fallback}
use ksort.Intro.{sort_leftovers}

-- `STACK_SIZE`
abbrev pub stack_size : ℕ
stack_size = 64

-- `stack_node_t`
pub record StackNode : Type 0 where
  pub low : ℕ
  pub high : ℕ

module _ {A : Type 0} where
  -- `--top; --depth;` and the partition there, then `rest`
  unfoldable pub pop :
      (List A → StackNode → List StackNode → ℕ → Run (List A))
      → List A
      → List StackNode
      → ℕ
      → Run (List A)
  pop rest xs [] depth = ok xs
  pop rest xs (node ∷ stack) depth = rest xs node stack (depth - 1)

  -- `top->low = low, top->high = high; ++top; ++depth;` and then `rest`
  unfoldable pub push :
      (List StackNode → ℕ → Run (List A)) → StackNode → List StackNode → ℕ → Run (List A)
  push rest node stack depth =
      let pushed = rest (node ∷ stack) (depth + 1) in
      if ltb (length stack + 1) stack_size then pushed else fault

  -- which partition comes next, behind the array's split at `left` and `right`
  unfoldable pub next_partition :
      (List A → StackNode → List StackNode → ℕ → Run (List A))
      → List A
      → ℕ
      → ℕ
      → ℕ
      → ℕ
      → List StackNode
      → ℕ
      → Run (List A)
  unfolding pop push
  next_partition rest xs low high left right stack depth =
      let lower : StackNode = record { low = low; high = right } in
      let upper : StackNode = record { low = left; high = high } in
      let both =
        if ltb (high - left) (right - low)
        then push (λ st d. rest xs upper st d) lower stack depth
        else push (λ st d. rest xs lower st d) upper stack depth in
      let popped = pop rest xs stack depth in
      let small_lower = leb (right - low) 16 in
      let small_upper = leb (high - left) 16 in
      if small_lower && small_upper
      then popped
      else if small_lower
      then rest xs upper stack depth
      else if small_upper
      then rest xs lower stack depth
      else both

module _ {A : Type 0} (cmp_func : A → A → ℤ) where
  -- `if (cmp_func(mid, low) < 0) do_swap(mid, low, size, 0)`
  unfoldable pub swap_below : List A → ℕ → ℕ → Run (List A)
  unfolding compare_at swap_at
  swap_below xs mid low = do
    z ← compare_at cmp_func xs mid low
    if is_negative z then swap_at xs mid low else ok xs

  -- the three tests that order the ends and the middle
  unfoldable pub order_three : List A → ℕ → ℕ → ℕ → Run (List A)
  unfolding swap_below
  order_three xs low mid high = swap_below xs mid low >>= λ ys.
      compare_at cmp_func ys mid high >>= λ z.
      (let swapped : Run (List A) = (do zs ← swap_at ys mid high; swap_below zs mid low) in
        if is_positive z then swapped else ok ys)

  -- `while (cmp_func(left, mid) < 0)`
  unfoldable pub left_scan : ℕ → List A → ℕ → ℕ → Run ℕ
  unfolding compare_at
  left_scan zero xs mid left = out_of_fuel
  left_scan (suc fuel) xs mid left = do
    z ← compare_at cmp_func xs left mid
    let rest = left_scan fuel xs mid (left + 1)
    if is_negative z then rest else ok left

  -- `while (cmp_func(mid, right) < 0)`
  unfoldable pub right_scan : ℕ → List A → ℕ → ℕ → Run ℕ
  unfolding compare_at back
  right_scan zero xs mid right = out_of_fuel
  right_scan (suc fuel) xs mid right = do
    z ← compare_at cmp_func xs mid right
    let rest : Run ℕ = (do right' ← back right; right_scan fuel xs mid right')
    if is_negative z then rest else ok right

  -- the `do … while (left <= right)`: the array, `left` and `right`
  unfoldable pub split_loop : ℕ → List A → ℕ → ℕ → ℕ → Run (List A × ℕ × ℕ)
  unfolding left_scan right_scan
  split_loop zero xs mid left right = out_of_fuel
  split_loop (suc fuel) xs mid left right = left_scan (length xs + 1) xs mid left >>= λ l.
      right_scan (length xs + 1) xs mid right >>= λ r.
      (let exchange : Run (List A × ℕ × ℕ) = swap_at xs l r >>= λ ys.
      (let mid' = if mid == l then r else if mid == r then l else mid in
        let rest = split_loop fuel ys mid' (l + 1) (r - 1) in
        if leb (l + 1) (r - 1) then rest else ok (ys, l + 1, r - 1)) in
        let rest' = split_loop fuel xs mid l r in
        let apart = if leb l r then rest' else ok (xs, l, r) in
        if ltb l r then exchange else if l == r then ok (xs, l + 1, r - 1) else apart)

  -- a partition: the array, `left` and `right`
  unfoldable pub split : List A → ℕ → ℕ → Run (List A × ℕ × ℕ)
  unfolding order_three split_loop
  split xs low high =
      let mid = low + (high - low) / 2 in
      order_three xs low mid high >>= λ ys. split_loop (length xs + 1) ys mid (low + 1) (high - 1)

  -- the `while (stack < top)`
  unfoldable pub quick_loop : Bool → ℕ → ℕ → List A → StackNode → List StackNode → ℕ → Run (List A)
  unfolding split next_partition heap_fallback
  quick_loop tmp max_depth zero xs node stack depth = out_of_fuel
  quick_loop tmp max_depth (suc fuel) xs node stack depth =
      let rest = quick_loop tmp max_depth fuel in
      let deep : Run (List A) =
        heap_fallback cmp_func node.low xs (node.high - node.low - 1) >>= λ ys.
        pop rest ys stack depth in
      let shallow : Run (List A) = split xs node.low node.high >>= λ r.
      next_partition rest r.0 node.low node.high r.1 r.2 stack depth in
      let heap = if tmp then deep else fault in if ltb max_depth depth then heap else shallow

  -- `tmp` and `stack` are whether kmalloc and kmalloc_array return memory
  unfoldable pub sort_intro : Bool → Bool → List A → ℕ → Run (List A)
  unfolding quick_loop log2 sort_leftovers
  sort_intro tmp stack xs num =
      let whole : StackNode = record { low = 0; high = num - 1 } in
      let quick = quick_loop tmp (log2 64 num * 2) (2 * num) xs whole [] 0 in
      let partitioned = if stack then quick else fault in
      let sorted =
        (if ltb 16 num then partitioned else ok xs) >>= λ ys. sort_leftovers cmp_func ys num in
      if num == 0 then ok xs else sorted
