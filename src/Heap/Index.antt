-- ===== src/Heap/Index.antt =====
-- The same heap sort over element indices: the reference that `Heap.Offsets` compares heap.c with.
pub mod Order
pub mod Shift
pub mod Sift
pub mod Sort
use ksort.Base.{ℕ, zero, suc, ◌+◌, ◌-◌, ◌*◌, ◌/◌, List, ℤ, ◌==◌, ltb, if◌then◌else◌, is_nonnegative}
use ksort.Run.{Run, ok, out_of_fuel, ◌>>=◌}
use ksort.Array.{length, compare_at}

abbrev pub up : ℕ → ℕ
up k = (k - 1) / 2

module _ {A : Type 0} (cmp : A → A → ℤ) (swap : List A → ℕ → ℕ → Run (List A)) where
  unfoldable pub descend : ℕ → List A → ℕ → ℕ → Run ℕ
  descend zero xs n b = out_of_fuel
  descend (suc fuel) xs n b =
      let down : Run ℕ = do
        z ← compare_at cmp xs (2 * b + 1) (2 * b + 2)
        descend fuel xs n (if is_nonnegative z then 2 * b + 1 else 2 * b + 2)
      in if ltb (2 * b + 2) n then down else if 2 * b + 2 == n then ok (2 * b + 1) else ok b

  unfoldable pub backtrack : ℕ → List A → ℕ → ℕ → Run ℕ
  backtrack zero xs a b = out_of_fuel
  backtrack (suc fuel) xs a b =
      let climb : Run ℕ = do
        z ← compare_at cmp xs a b
        let higher = backtrack fuel xs a (up b)
        if is_nonnegative z then higher else ok b
      in if b == a then ok b else climb

  unfoldable pub shift : ℕ → List A → ℕ → ℕ → ℕ → Run (List A)
  shift zero xs a b c = out_of_fuel
  shift (suc fuel) xs a b c =
      let climb : Run (List A) = (do ys ← swap xs (up b) c; shift fuel ys a (up b) c) in
      if b == a then ok xs else climb

  unfoldable pub sift : List A → ℕ → ℕ → Run (List A)
  unfolding descend backtrack shift
  sift xs a n = do
    b ← descend (length xs + 1) xs n a
    c ← backtrack (length xs + 1) xs a b
    shift (length xs + 1) xs a c c

  unfoldable pub sort_loop : ℕ → List A → ℕ → ℕ → Run (List A)
  sort_loop zero xs n a = out_of_fuel
  sort_loop (suc fuel) xs n a =
      let build : Run (List A) = (do ys ← sift xs (a - 1) n; sort_loop fuel ys n (a - 1)) in
      let extract : Run (List A) = do
        ys ← swap xs 0 (n - 1)
        zs ← sift ys 0 (n - 1)
        sort_loop fuel zs (n - 1) 0
      in if a == 0 then (if n - 1 == 0 then ok xs else extract) else build
