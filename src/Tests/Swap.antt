-- ===== src/Tests/Swap.antt =====
-- Tests and examples for `Swap` and for the arithmetic of `Heap`.
use ksort.Base.{ℕ, ◌*◌, ◌≡◌, refl, List, [], ◌∷◌, true, false, inr, inl, arith}
use ksort.Run.{◌>>=◌, ok, fault, Returns}
use ksort.Swap.{choose_swap, do_swap, exchange, words_64}
use ksort.Swap.Chunk.{IsExchanged}
use ksort.Array.{swap_at}
use ksort.Swap.Elements.{do_swap-swap_at}
use ksort.Swap.Elements.Bytes.{flatten}
use ksort.Swap.Correct.{do_swap-exchanges, swap_words_64-misaligned}

abbrev bytes : List ℕ
bytes = 1 ∷ 2 ∷ 3 ∷ 4 ∷ 5 ∷ 6 ∷ 7 ∷ 8 ∷ []

-- two elements of 4 bytes
four_swapped :
    do_swap true bytes 0 4 4 (choose_swap true 0 4) ≡ ok (5 ∷ 6 ∷ 7 ∷ 8 ∷ 1 ∷ 2 ∷ 3 ∷ 4 ∷ [])
unfolding do_swap choose_swap exchange
four_swapped = refl

do_swap-exchanges_example :
    Returns (IsExchanged 0 4 4 bytes) (do_swap true bytes 0 4 4 (choose_swap false 0 4))
do_swap-exchanges_example =
    do_swap-exchanges bytes 0 4 4 (omega arith) (omega arith) (inr (inl (omega arith)))
      (omega arith) (omega arith) true false 0

swap_words_64-misaligned_example : do_swap true bytes 0 4 4 words_64 ≡ fault
swap_words_64-misaligned_example =
    swap_words_64-misaligned 0 4 true 4 bytes (omega arith) (inr (inl (omega arith))) (omega arith)
      (omega arith) (omega arith)

-- three elements of 4 bytes
abbrev elements : List (List ℕ)
elements = (1 ∷ 2 ∷ 3 ∷ 4 ∷ []) ∷ (5 ∷ 6 ∷ 7 ∷ 8 ∷ []) ∷ (9 ∷ 9 ∷ 9 ∷ 9 ∷ []) ∷ []

do_swap-swap_at_example :
    do_swap true (flatten elements) (0 * 4) (2 * 4) 4 (choose_swap true 0 4)
    ≡ (swap_at elements 0 2 >>= λ ys. ok (flatten ys))
do_swap-swap_at_example =
    do_swap-swap_at 4 elements 0 2 (omega arith) (refl, (refl, (refl, tt))) (omega arith)
      (omega arith) true true 0 (omega arith)
