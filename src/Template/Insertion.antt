-- ===== src/Template/Insertion.antt =====
-- sort.h: the binary insertion sort.
pub mod Find
pub mod Shift
pub mod Sorts
use ksort.Base.{ℕ, zero, suc, ◌+◌, ◌-◌, ◌/◌, List, leb, if◌then◌else◌, is_negative, is_positive}
use ksort.Run.{Run, ok, fault, out_of_fuel, ◌>>=◌}
use ksort.Array.{load, store, compare_at}
use ksort.Template.{sort_cmp, copy_to}

-- the `while` loop of BINARY_INSERTION_FIND
unfoldable pub find_loop : ℕ → List ℕ → ℕ → ℕ → ℕ → ℕ → ℕ → Run ℕ
unfolding sort_cmp load
find_loop zero xs x cx l c r = out_of_fuel
find_loop (suc fuel) xs x cx l c r =
    if is_negative (sort_cmp x cx)
    then (if leb (c - l) 1
        then ok c
        else (let c' = l + (c - l) / 2 in do cx' ← load xs c'; find_loop fuel xs x cx' l c' c))
    else (if leb (r - c) 1
        then ok (c + 1)
        else (let c' = c + (r - c) / 2 in do cx' ← load xs c'; find_loop fuel xs x cx' c c' r))

-- BINARY_INSERTION_FIND; `size` is not 0, and `r` is the last index
unfoldable pub binary_insertion_find : List ℕ → ℕ → ℕ → Run ℕ
unfolding find_loop sort_cmp load
binary_insertion_find xs x size =
    let r = size - 1 in
    let c = r / 2 in
    do
      first ← load xs 0
      if is_negative (sort_cmp x first) then ok 0 else (do
        last ← load xs r
        if is_positive (sort_cmp x last)
            then ok r
            else (do cx ← load xs c; find_loop size xs x cx 0 c r))

-- the loop that moves the elements from `location` on up by one place, from index `j` down
unfoldable pub shift_up : ℕ → ℕ → List ℕ → Run (List ℕ)
unfolding copy_to
shift_up zero location xs = if leb location 0 then copy_to xs 1 0 else ok xs
shift_up (suc j) location xs =
    if leb location (suc j)
    then (do ys ← copy_to xs (suc j + 1) (suc j); shift_up j location ys)
    else ok xs

-- the body of the loop of BINARY_INSERTION_SORT_START; in front of index 0 there is no element
unfoldable pub insert_at : List ℕ → ℕ → Run (List ℕ)
unfolding sort_cmp load store binary_insertion_find shift_up compare_at
insert_at xs zero = fault
insert_at xs (suc b) = do
  z ← compare_at sort_cmp xs b (suc b)
  if is_positive z
      then (do
        x ← load xs (suc b)
        location ← binary_insertion_find xs x (suc b)
        ys ← shift_up b location xs
        store ys location x)
      else ok xs

-- the loop, over the entries from `i` on
unfoldable pub insert_entries : ℕ → List ℕ → ℕ → Run (List ℕ)
unfolding insert_at
insert_entries zero xs i = ok xs
insert_entries (suc entries) xs i = do ys ← insert_at xs i; insert_entries entries ys (i + 1)

-- BINARY_INSERTION_SORT_START
unfoldable pub binary_insertion_sort_start : List ℕ → ℕ → ℕ → Run (List ℕ)
unfolding insert_entries
binary_insertion_sort_start xs start size = insert_entries (size - start) xs start

-- BINARY_INSERTION_SORT
unfoldable pub binary_insertion_sort : List ℕ → ℕ → Run (List ℕ)
unfolding binary_insertion_sort_start
binary_insertion_sort xs size = if leb size 1 then ok xs else binary_insertion_sort_start xs 1 size
