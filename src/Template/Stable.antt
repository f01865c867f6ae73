-- ===== src/Template/Stable.antt =====
-- sort.h: the recursive stable sort, with the rotation, the searches and the merge without a buffer of the
-- grail sort. An `int` of REC_STABLE_SORT has 32 bits. Those of the functions that it calls are natural
-- numbers: they are at most the sum of both lengths, which its own positions bound. In the searches
-- `a` is one more than in the source, where it starts at -1.
pub mod Rotate
pub mod Search
pub mod First
pub mod Second
pub mod Merge
pub mod Parts
pub mod Groups
pub mod Recursive
pub mod Ints
pub mod Blocks
pub mod Sorts
use ksort.Base.{
  ◌^◌, ◌%◌, pos, negsuc, ℕ, zero, suc, ◌+◌, ◌-◌, ◌*◌, ◌/◌, List, ℤ, Bool, true, false, ◌==◌, ◌||◌,
  ltb, leb, if◌then◌else◌, is_positive, is_nonzero, is_nonnegative,
}
use ksort.Words.{sub64}
use ksort.Compare.{to_int}
use ksort.Run.{Run, ok, fault, out_of_fuel, ◌>>=◌}
use ksort.Array.{compare_at, swap_at}
use ksort.Template.{sort_cmp, cswap}

-- GRAIL_SWAP_N
unfoldable pub swap_n : ℕ → List ℕ → ℕ → ℕ → Run (List ℕ)
unfolding swap_at
swap_n zero xs a b = ok xs
swap_n (suc n) xs a b = do ys ← swap_at xs a b; swap_n n ys (a + 1) (b + 1)

-- the loop of GRAIL_ROTATE
unfoldable pub rotate_loop : ℕ → List ℕ → ℕ → ℕ → ℕ → Run (List ℕ)
unfolding swap_n
rotate_loop zero xs a l1 l2 = out_of_fuel
rotate_loop (suc fuel) xs a l1 l2 =
    if l1 == 0 || l2 == 0
    then ok xs
    else if leb l1 l2
    then (do ys ← swap_n l1 xs a (a + l1); rotate_loop fuel ys (a + l1) l1 (l2 - l1))
    else (do ys ← swap_n l2 xs (a + (l1 - l2)) (a + l1); rotate_loop fuel ys a (l1 - l2) l2)

-- GRAIL_ROTATE
unfoldable pub rotate : List ℕ → ℕ → ℕ → ℕ → Run (List ℕ)
unfolding rotate_loop
rotate xs a l1 l2 = rotate_loop (l1 + l2 + 1) xs a l1 l2

-- the loop of the searches in the elements from `p` on
unfoldable pub search_loop : (ℤ → Bool) → ℕ → List ℕ → ℕ → ℕ → ℕ → ℕ → Run ℕ
unfolding compare_at sort_cmp
search_loop found zero xs p key a b = out_of_fuel
search_loop found (suc fuel) xs p key a b =
    let c = a + (b - a + 1) / 2 - 1 in
    if ltb a b
    then (do
      z ← compare_at sort_cmp xs (p + c) key
      if found z
          then search_loop found fuel xs p key a c
          else search_loop found fuel xs p key (c + 1) b)
    else ok b

-- GRAIL_BIN_SEARCH_LEFT; the key is element `key` of the array
unfoldable pub search_left : List ℕ → ℕ → ℕ → ℕ → Run ℕ
unfolding search_loop
search_left xs p len key = search_loop is_nonnegative (len + 1) xs p key 0 len

-- GRAIL_BIN_SEARCH_RIGHT
unfoldable pub search_right : List ℕ → ℕ → ℕ → ℕ → Run ℕ
unfolding search_loop
search_right xs p len key = search_loop is_positive (len + 1) xs p key 0 len

-- the `do … while` over the first run: where it goes on, and what is left of it
unfoldable pub advance : ℕ → List ℕ → ℕ → Run (ℕ × ℕ)
unfolding compare_at sort_cmp
advance zero xs p = ok (p, 0)
advance (suc l1) xs p = if l1 == 0 then ok (p + 1, 0) else (do
  z ← compare_at sort_cmp xs (p + 1) (p + 1 + l1)
  if is_positive z then ok (p + 1, l1) else advance l1 xs (p + 1))

-- the loop of GRAIL_MERGE_WITHOUT_BUFFER for a shorter first run
unfoldable pub merge_first : ℕ → List ℕ → ℕ → ℕ → ℕ → Run (List ℕ)
unfolding search_left rotate advance
merge_first zero xs p l1 l2 = out_of_fuel
merge_first (suc fuel) xs p l1 l2 = if l1 == 0 then ok xs else (do
  h ← search_left xs (p + l1) l2 p
  ys ← (if h == 0 then ok xs else rotate xs p l1 h)
  if l2 - h == 0
      then ok ys
      else (do r ← advance l1 ys (p + h); merge_first fuel ys r.0 r.1 (l2 - h)))

-- the `do … while` over the second run, and what is left of it
unfoldable pub retreat : ℕ → List ℕ → ℕ → ℕ → Run ℕ
unfolding compare_at sort_cmp
retreat zero xs p l1 = ok 0
retreat (suc l2) xs p l1 = if l2 == 0 then ok 0 else (do
  z ← compare_at sort_cmp xs (p + l1 - 1) (p + l1 + l2 - 1)
  if is_positive z then ok l2 else retreat l2 xs p l1)

-- the loop for the other case
unfoldable pub merge_second : ℕ → List ℕ → ℕ → ℕ → ℕ → Run (List ℕ)
unfolding search_right rotate retreat
merge_second zero xs p l1 l2 = out_of_fuel
merge_second (suc fuel) xs p l1 l2 = if l2 == 0 then ok xs else (do
  h ← search_right xs p l1 (p + l1 + l2 - 1)
  ys ← (if h == l1 then ok xs else rotate xs (p + h) (l1 - h) l2)
  if h == 0 then ok ys else (do rest ← retreat l2 ys p h; merge_second fuel ys p h rest))

-- GRAIL_MERGE_WITHOUT_BUFFER
unfoldable pub merge_without_buffer : List ℕ → ℕ → ℕ → ℕ → Run (List ℕ)
unfolding merge_first merge_second
merge_without_buffer xs p l1 l2 =
    if ltb l1 l2 then merge_first (l1 + 1) xs p l1 l2 else merge_second (l2 + 1) xs p l1 l2

-- `GRAIL_BIN_SEARCH_RIGHT` behind `k1`, where the element there is equal to the key
unfoldable pub past_equal : List ℕ → ℕ → ℕ → ℕ → ℕ → Run ℕ
unfolding compare_at sort_cmp search_right
past_equal xs p k1 len key =
    if ltb k1 len
    then (do
      z ← compare_at sort_cmp xs (p + k1) key
      if is_nonzero z then ok k1 else (do r ← search_right xs (p + k1) (len - k1) key; ok (r + k1)))
    else ok k1

-- the rotations of GRAIL_REC_MERGE
unfoldable pub rotate_parts : List ℕ → ℕ → ℕ → ℕ → ℕ → ℕ → ℕ → Run (List ℕ)
unfolding rotate
rotate_parts xs p l1 k1 k2 m1 m2 = if k1 == k2 then rotate xs (p + k2) (l1 - k2) m2 else (do
  ys ← rotate xs (p + k1) (l1 - k1) m1
  if m2 == m1 then ok ys else rotate ys (p + (k2 + m1)) (l1 - k2) (m2 - m1))

-- GRAIL_REC_MERGE
unfoldable pub rec_merge : ℕ → List ℕ → ℕ → ℕ → ℕ → Run (List ℕ)
unfolding merge_without_buffer search_left past_equal rotate_parts
rec_merge zero xs p l1 l2 = out_of_fuel
rec_merge (suc fuel) xs p l1 l2 =
    let k = if ltb l1 l2 then l1 + l2 / 2 else l1 / 2 in
    if ltb l1 3 || ltb l2 3 then merge_without_buffer xs p l1 l2 else (do
      k1 ← search_left xs p l1 (p + k)
      k2 ← past_equal xs p k1 l1 (p + k)
      m1 ← search_left xs (p + l1) l2 (p + k)
      m2 ← past_equal xs (p + l1) m1 l2 (p + k)
      ys ← rotate_parts xs p l1 k1 k2 m1 m2
      zs ← rec_merge fuel ys (p + (k2 + m2)) (l1 - k2) (l2 - m2)
      rec_merge fuel zs p k1 m1)

-- an `int` sum or product; an overflow is a fault
unfoldable pub fits_int : ℕ → Run ℕ
fits_int n = if ltb n (2 ^ 31) then ok n else fault

-- the `int` that the difference of two `size_t`s is converted to
unfoldable pub int_difference : ℕ → ℕ → ℤ
unfolding sub64 to_int
int_difference a b = to_int (sub64 a b % 2 ^ 32)

-- `p <= z`, `h < z` and `z - h` for an `int` that may be negative
unfoldable pub at_most : ℕ → ℤ → Bool
at_most p (pos n) = leb p n
at_most p (negsuc n) = false

unfoldable pub below : ℕ → ℤ → Bool
below h (pos n) = ltb h n
below h (negsuc n) = false

unfoldable pub less_by : ℤ → ℕ → ℕ
less_by (pos n) h = n - h
less_by (negsuc n) h = 0

-- the pairs of REC_STABLE_SORT, from `m` on
unfoldable pub pair_loop : ℕ → List ℕ → ℕ → ℕ → Run (List ℕ)
unfolding cswap fits_int
pair_loop zero xs m size = out_of_fuel
pair_loop (suc fuel) xs m size =
    if ltb m size
    then (do ys ← cswap xs (m - 1) m; m' ← fits_int (m + 2); pair_loop fuel ys m' size)
    else ok xs

-- the merges of runs of `h` elements, from `p0` up to `p1`, and the one at the end
unfoldable pub block_loop : ℕ → List ℕ → ℕ → ℤ → ℕ → ℕ → Run (List ℕ)
unfolding rec_merge fits_int int_difference at_most below less_by
block_loop zero xs p0 p1 h size = out_of_fuel
block_loop (suc fuel) xs p0 p1 h size =
    let rest = int_difference size p0 in
    if at_most p0 p1
    then (do
      ys ← rec_merge (h + h + 1) xs p0 h h
      p0' ← fits_int (p0 + 2 * h)
      block_loop fuel ys p0' p1 h size)
    else if below h rest
    then rec_merge (h + less_by rest h + 1) xs p0 h (less_by rest h)
    else ok xs

-- the loop over the length of the runs
unfoldable pub height_loop : ℕ → List ℕ → ℕ → ℕ → Run (List ℕ)
unfolding block_loop fits_int int_difference
height_loop zero xs h size = out_of_fuel
height_loop (suc fuel) xs h size =
    if ltb h size
    then (do
      double ← fits_int (2 * h)
      ys ← block_loop (size + 1) xs 0 (int_difference size double) h size
      h' ← fits_int (h * 2)
      height_loop fuel ys h' size)
    else ok xs

-- REC_STABLE_SORT
unfoldable pub rec_stable_sort : List ℕ → ℕ → Run (List ℕ)
unfolding pair_loop height_loop
rec_stable_sort xs size = do ys ← pair_loop (size + 1) xs 1 size; height_loop (size + 1) ys 2 size
