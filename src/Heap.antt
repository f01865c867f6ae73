-- ===== src/Heap.antt =====
-- heap.c: `sort_heap`, over the elements of the array. Positions are byte offsets from `base`, as in
-- the source; the element at offset `o` is the one with index `o / size`. Each loop runs on fuel:
-- its variable is an offset that goes up or down by whole elements, so the number of elements,
-- and one for the last test, are enough rounds.
pub mod Correct
pub mod Index
pub mod Offsets
use Prim.Native.Nat.{bit_and}
use ksort.Base.{
  ℕ, zero, suc, ◌+◌, ◌*◌, ◌/◌, ◌%◌, ◌^◌, List, Option, none, some, ℤ, ◌==◌, ltb, if◌then◌else◌,
  is_nonnegative,
}
use ksort.Run.{Run, ok, fault, out_of_fuel, ◌>>=◌}
use ksort.Words.{wrap64, sub64, neg64, neg_signed64}
use ksort.Array.{length, compare_at, swap_at}

unfoldable pub parent : ℕ → ℕ → ℕ → ℕ
unfolding sub64 neg64
parent i lsbit size = let j = sub64 i size in sub64 j (bit_and size (neg64 (bit_and j lsbit))) / 2

-- `const unsigned int lsbit`
unfoldable pub low_bit : ℕ → ℕ
unfolding neg_signed64
low_bit size = bit_and size (neg_signed64 size) % 2 ^ 32

-- The caller's swap function, on two elements; `none` is the null pointer.
abbrev pub SwapFunc : Type 0 → Type 0
SwapFunc A = Option (List A → ℕ → ℕ → Run (List A))

-- the null pointer stands for the exchange of the two elements' bytes
unfoldable pub do_swap : {A : Type 0} → SwapFunc A → List A → ℕ → ℕ → Run (List A)
do_swap none xs i j = swap_at xs i j
do_swap (some swap) xs i j = swap xs i j

module _ {A : Type 0} (cmp : A → A → ℤ) (swap_func : SwapFunc A) (size : ℕ) where
  -- the `for` that goes down to a leaf, and the special case of the last leaf
  unfoldable pub descend : ℕ → List A → ℕ → ℕ → Run ℕ
  unfolding wrap64
  descend zero xs n b = out_of_fuel
  descend (suc fuel) xs n b =
      let c = wrap64 (2 * b + size) in
      let d = wrap64 (c + size) in
      let down : Run ℕ = do
        z ← compare_at cmp xs (c / size) (d / size)
        descend fuel xs n (if is_nonnegative z then c else d)
      in if ltb d n then down else if d == n then ok c else ok b

  -- the first `while`: back up to where the element at `a` belongs
  unfoldable pub backtrack : ℕ → List A → ℕ → ℕ → Run ℕ
  unfolding parent low_bit
  backtrack zero xs a b = out_of_fuel
  backtrack (suc fuel) xs a b =
      let up : Run ℕ = do
        z ← compare_at cmp xs (a / size) (b / size)
        let higher = backtrack fuel xs a (parent b (low_bit size) size)
        if is_nonnegative z then higher else ok b
      in if b == a then ok b else up

  -- the second `while`: shift it into place
  unfoldable pub shift : ℕ → List A → ℕ → ℕ → ℕ → Run (List A)
  unfolding parent low_bit do_swap
  shift zero xs a b c = out_of_fuel
  shift (suc fuel) xs a b c =
      let up : Run (List A) = do
        let p = parent b (low_bit size) size
        ys ← do_swap swap_func xs (p / size) (c / size)
        shift fuel ys a p c
      in if b == a then ok xs else up

  -- the body of the `for (;;)` behind its three cases
  unfoldable pub sift : List A → ℕ → ℕ → Run (List A)
  unfolding descend backtrack shift
  sift xs a n = do
    b ← descend (length xs + 1) xs n a
    c ← backtrack (length xs + 1) xs a b
    shift (length xs + 1) xs a c c

  -- the `for (;;)`
  unfoldable pub sort_loop : ℕ → List A → ℕ → ℕ → Run (List A)
  unfolding sub64 do_swap
  sort_loop zero xs n a = out_of_fuel
  sort_loop (suc fuel) xs n a =
      let build : Run (List A) = do let a' = sub64 a size; ys ← sift xs a' n; sort_loop fuel ys n a'
      in let n' = sub64 n size in
        let extract : Run (List A) = do
          ys ← do_swap swap_func xs (0 / size) (n' / size)
          zs ← sift ys 0 n'
          sort_loop fuel zs n' 0
        in if a == 0 then (if n' == 0 then ok xs else extract) else build

module _ {A : Type 0} where
  unfoldable pub sort_r : List A → ℕ → ℕ → (A → A → ℤ) → SwapFunc A → Run (List A)
  unfolding wrap64 sort_loop sift
  sort_r xs num size cmp swap_func =
      let n = wrap64 (num * size) in
      let a = wrap64 (num / 2 * size) in
      if a == 0 then ok xs else sort_loop cmp swap_func size (num + num + 1) xs n a

  unfoldable pub sort_heap : List A → ℕ → ℕ → (A → A → ℤ) → SwapFunc A → Run (List A)
  unfolding sort_r
  sort_heap xs num size cmp swap_func = sort_r xs num size cmp swap_func
