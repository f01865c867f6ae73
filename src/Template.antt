-- ===== src/Template.antt =====
-- sort.h, which main.c instantiates for `uint64_t` under the name ksort: an element is the number that its
-- bytes stand for. Positions are indices from `dst`.
pub mod Networks
pub mod Bitonic
pub mod Insertion
pub mod Small
pub mod Minrun
pub mod Simple
pub mod Shell
pub mod Heapsort
pub mod Quick
pub mod Merge
pub mod Tim
pub mod Timsort
pub mod Stable
pub mod Short
use ksort.Base.{ℕ, List, [], ◌∷◌, ℤ, pos, negsuc, ltb, if◌then◌else◌, is_positive}
use ksort.Run.{Run, ok, ◌>>=◌}
use ksort.Array.{compare_at, swap_at, load, store}

-- `SORT_CMP`
unfoldable pub sort_cmp : ℕ → ℕ → ℤ
sort_cmp x y = if ltb x y then negsuc 0 else if ltb y x then pos 1 else pos 0

-- `SORT_CSWAP`
unfoldable pub cswap : List ℕ → ℕ → ℕ → Run (List ℕ)
unfolding sort_cmp compare_at swap_at
cswap xs i j = do z ← compare_at sort_cmp xs i j; if is_positive z then swap_at xs i j else ok xs

-- the lines of a sorting network
unfoldable pub run_network : List (ℕ × ℕ) → List ℕ → Run (List ℕ)
unfolding cswap
run_network [] xs = ok xs
run_network ((i, j) ∷ net) xs = do ys ← cswap xs i j; run_network net ys

-- `dst[to] = dst[from]`
unfoldable pub copy_to : List ℕ → ℕ → ℕ → Run (List ℕ)
unfolding load store
copy_to xs to from = do x ← load xs from; store xs to x
