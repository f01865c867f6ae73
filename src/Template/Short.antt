-- ===== src/Template/Short.antt =====
-- sort.h: the sorts of which the branches for short arrays are modelled, merge_sort_in_place, grail_sort,
-- grail_sort_dyn_buffer and sqrt_sort. What they do with more elements is the argument `longer`.
pub mod Sorts
use ksort.Base.{ℕ, zero, suc, ◌+◌, ◌-◌, ◌*◌, List, Bool, ltb, leb, ◌&&◌, if◌then◌else◌, is_negative}
use ksort.Run.{Run, ok, out_of_fuel, ◌>>=◌}
use ksort.Array.{compare_at, swap_at}
use ksort.Template.{sort_cmp}
use ksort.Template.Small.{bitonic_sort}

-- `SMALL_SORT_BND`
abbrev pub small_sort_bnd : ℕ
small_sort_bnd = 16

-- `GRAIL_EXT_BUFFER_LENGTH`
abbrev pub grail_ext_buffer_length : ℕ
grail_ext_buffer_length = 512

-- the start of MERGE_SORT_IN_PLACE
unfoldable pub merge_sort_in_place : (List ℕ → ℕ → Run (List ℕ)) → List ℕ → ℕ → Run (List ℕ)
unfolding bitonic_sort
merge_sort_in_place longer arr len =
    if leb len 1
    then ok arr
    else if leb len small_sort_bnd
    then bitonic_sort arr len
    else longer arr len

-- the start of GRAIL_COMMON_SORT, with the length of its buffer
unfoldable pub grail_common_sort : (List ℕ → ℕ → ℕ → Run (List ℕ)) → List ℕ → ℕ → ℕ → Run (List ℕ)
unfolding bitonic_sort
grail_common_sort longer arr len ext =
    if leb len small_sort_bnd then bitonic_sort arr len else longer arr len ext

-- GRAIL_SORT
unfoldable pub grail_sort : (List ℕ → ℕ → ℕ → Run (List ℕ)) → List ℕ → ℕ → Run (List ℕ)
unfolding grail_common_sort
grail_sort longer arr len = grail_common_sort longer arr len 0

-- `while (L * L < Len) L *= 2`
unfoldable pub buffer_length : ℕ → ℕ → ℕ → Run ℕ
buffer_length zero l len = out_of_fuel
buffer_length (suc fuel) l len = if ltb (l * l) len then buffer_length fuel (l * 2) len else ok l

-- GRAIL_SORT_DYN_BUFFER, and GRAIL_SORT_FIXED_BUFFER where SORT_NEW_BUFFER finds no `memory`
unfoldable pub grail_sort_dyn_buffer :
    (List ℕ → ℕ → ℕ → Run (List ℕ)) → Bool → List ℕ → ℕ → Run (List ℕ)
unfolding grail_common_sort buffer_length
grail_sort_dyn_buffer longer memory arr len = do
  l ← buffer_length (len + 1) 1 len
  if memory
      then grail_common_sort longer arr len l
      else grail_common_sort longer arr len grail_ext_buffer_length

-- the inner loop of SQRT_SORT_SORT_INS, with `j + 1`
unfoldable pub sink : ℕ → List ℕ → Run (List ℕ)
unfolding compare_at swap_at sort_cmp
sink zero arr = ok arr
sink (suc j) arr = do
  z ← compare_at sort_cmp arr (j + 1) j
  if is_negative z then (do ys ← swap_at arr j (j + 1); sink j ys) else ok arr

-- the outer loop, from `i` on
unfoldable pub sort_ins_loop : ℕ → List ℕ → ℕ → ℕ → Run (List ℕ)
unfolding sink
sort_ins_loop zero arr i len = out_of_fuel
sort_ins_loop (suc fuel) arr i len =
    if ltb i len then (do ys ← sink i arr; sort_ins_loop fuel ys (i + 1) len) else ok arr

-- SQRT_SORT_SORT_INS
unfoldable pub sort_ins : List ℕ → ℕ → Run (List ℕ)
unfolding sort_ins_loop
sort_ins arr len = sort_ins_loop (len + 1) arr 1 len

-- SQRT_SORT with the start of SQRT_SORT_COMMON_SORT; `buffer` and `tags` are whether kmalloc finds memory
-- for ExtBuf and for Tags
unfoldable pub sqrt_sort : (List ℕ → ℕ → Run (List ℕ)) → Bool → Bool → List ℕ → ℕ → Run (List ℕ)
unfolding buffer_length sort_ins
sqrt_sort longer buffer tags arr len = do
  l ← buffer_length (len + 1) 1 len
  if buffer && tags then (if ltb len 16 then sort_ins arr len else longer arr len) else ok arr
