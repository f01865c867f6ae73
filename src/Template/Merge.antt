-- ===== src/Template/Merge.antt =====
-- sort.h: the merge sort with a buffer. `base` is the index of the element that `dst` points to.
pub mod Merged
pub mod Loop
pub mod Sorts
use ksort.Base.{
  ℕ, zero, suc, ◌+◌, ◌-◌, ◌/◌, List, ◌++◌, Option, none, some, leb, ltb, ◌&&◌, if◌then◌else◌,
  is_positive,
}
use ksort.Run.{Run, ok, fault, out_of_fuel, ◌>>=◌}
use ksort.Array.{length, load, store, compare_at}
use ksort.Array.Slice.{take, drop, on_slice}
use ksort.Template.{sort_cmp}
use ksort.Template.Insertion.{binary_insertion_sort}

-- `SORT_TYPE_CPY(&dst[base], src, size)`
unfoldable pub copy_words : List ℕ → ℕ → List ℕ → ℕ → Run (List ℕ)
copy_words xs base src size =
    if leb (base + size) (length xs) && leb size (length src)
    then ok (take base xs ++ (take size src ++ drop (base + size) xs))
    else fault

-- `newdst[out] = dst[i]`
unfoldable pub emit : List ℕ → List ℕ → ℕ → ℕ → Run (List ℕ)
unfolding load store
emit new xs out i = do x ← load xs i; store new out x

-- the loop of MERGE_SORT_RECURSIVE, with `rest` rounds left
unfoldable pub merge_loop : ℕ → List ℕ → List ℕ → ℕ → ℕ → ℕ → ℕ → ℕ → ℕ → Run (List ℕ)
unfolding emit compare_at sort_cmp
merge_loop zero new xs base middle size out i j = ok new
merge_loop (suc rest) new xs base middle size out i j =
    let from_left = emit new xs out (base + i) >>= λ new'.
    merge_loop rest new' xs base middle size (out + 1) (i + 1) j in
    let from_right = emit new xs out (base + j) >>= λ new'.
    merge_loop rest new' xs base middle size (out + 1) i (j + 1) in
    if ltb i middle
    then (if ltb j size
        then (do
          z ← compare_at sort_cmp xs (base + i) (base + j)
          if is_positive z then from_right else from_left)
        else from_left)
    else from_right

-- MERGE_SORT_RECURSIVE, with the buffer and the array that it leaves
unfoldable pub merge_recursive : ℕ → List ℕ → List ℕ → ℕ → ℕ → Run (List ℕ × List ℕ)
unfolding on_slice binary_insertion_sort merge_loop copy_words
merge_recursive zero new xs base size = out_of_fuel
merge_recursive (suc fuel) new xs base size =
    let middle = size / 2 in
    if leb size 1
    then ok (new, xs)
    else if leb size 16
    then (do ys ← on_slice binary_insertion_sort xs base size; ok (new, ys))
    else (do
      r ← merge_recursive fuel new xs base middle
      s ← merge_recursive fuel r.0 r.1 (base + middle) (size - middle)
      new' ← merge_loop size s.0 s.1 base middle size 0 0 middle
      ys ← copy_words s.1 base new' size
      ok (new', ys))

-- MERGE_SORT; `buffer` is what the memory holds that SORT_NEW_BUFFER returns, and `none` the null pointer
unfoldable pub merge_sort : Option (List ℕ) → List ℕ → ℕ → Run (List ℕ)
unfolding binary_insertion_sort merge_recursive
merge_sort buffer xs size =
    let allocated : Option (List ℕ) → Run (List ℕ) = λ b. elim b [
      | none ↦ fault
      | some new ↦ (do r ← merge_recursive (size + 1) new xs 0 size; ok r.1)
    ] in
    if leb size 1
    then ok xs
    else if leb size 16
    then binary_insertion_sort xs size
    else allocated buffer
