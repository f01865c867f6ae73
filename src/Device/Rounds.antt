-- ===== src/Device/Rounds.antt =====
-- The rounds of dev_read: the array that it fills, and the test of the array that a sort returns.
use ksort.Base.{ℕ, zero, suc, ◌+◌, ◌<◌, ◌≡◌, refl, ap, ◌∙◌, List, none, true, ltb, arith}
use ksort.Run.{Returns, returns, Returns-bind, Returns-if}
use ksort.Array.{length, load, IsSortedIn, IsSwapFunc}
use ksort.Array.Access.{swap_at-IsSwapped}
use ksort.Array.Laws.{get_elem?-some, key_at-some}
use ksort.Compare.{cmpint64, comparators_order}
use ksort.Heap.{do_swap}
use ksort.Heap.Index.Sort.{IsSortedFront}
use ksort.Heap.Correct.{sort_heap-sorts}
use ksort.Xoroshiro.{State, next}
use ksort.Xoroshiro.Invert.{after}
use ksort.Device.{test_len, fill, test_loop, sort_round, heap_sort}

pub length-fill : (n : ℕ) (s : State) → length (fill n s).0 ≡ n
unfolding fill
length-fill zero s = refl
length-fill (suc n) s = ap suc (length-fill n (next s).0)

after-next : (n : ℕ) (s : State) → after n (next s).0 ≡ (next (after n s)).0
after-next zero s = refl
after-next (suc n) s = ap (λ t. (next t).0) (after-next n s)

pub fill-after : (n : ℕ) (s : State) → (fill n s).1 ≡ after n s
unfolding fill
fill-after zero s = refl
fill-after (suc n) s = fill-after n (next s).0 ∙ after-next n s

abbrev value : ℕ → ℕ
value x = x

pub test_loop-passes :
    (rounds : ℕ) (xs : List ℕ) (i : ℕ)
    → i + rounds < length xs
    → IsSortedIn value xs 0 (i + rounds + 1)
    → Returns (λ b. b ≡ true) (test_loop rounds xs i)
unfolding test_loop load
test_loop-passes zero xs i h s = returns refl
test_loop-passes (suc rounds) xs i h s =
    let (x, ex) = get_elem?-some xs i (omega arith) in
    let (y, ey) = get_elem?-some xs (i + 1) (omega arith) in
    let kx = key_at-some value xs i x ex in
    let ky = key_at-some value xs (i + 1) y ey in
    let le = s i (i + 1) (omega arith) (omega arith) (omega arith) in
    rw (ex, ey)
      (Returns-if (ltb y x) (λ g. absurd (ground (arith, kx, ky, le)))
        λ g. test_loop-passes rounds xs (i + 1) (omega arith) λ a b p q r. s a b p q (omega arith))

do_swap-IsSwapFunc : IsSwapFunc value (do_swap none)
unfolding do_swap
do_swap-IsSwapFunc xs i j hi hj = swap_at-IsSwapped value xs i j hi hj

pub heap_sort-sorts :
    (arr : List ℕ) → length arr ≡ 10 → Returns (IsSortedFront value 10 arr) (heap_sort arr)
unfolding heap_sort
heap_sort-sorts arr size =
    sort_heap-sorts value cmpint64 none 8 10 arr comparators_order.0 do_swap-IsSwapFunc
      (omega arith) (omega arith) (omega arith) (omega arith) (omega arith)

-- Whatever array of ten words dev_read fills, the sort by sort_heap returns and passes the test.
pub sort_round-heap_sort :
    (s : State) → Returns (λ b. b ≡ true) (sort_round heap_sort (fill test_len s).0)
unfolding sort_round
sort_round-heap_sort s =
    let arr = (fill test_len s).0 in
    let size : length arr ≡ 10 = length-fill test_len s in
    Returns-bind (heap_sort-sorts arr size)
      λ ys e. test_loop-passes 9 ys 0 (omega (arith, e.0.size)) e.1
