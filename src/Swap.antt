-- ===== src/Swap.antt =====
-- heap.c: the exchange of two elements in memory. intro.c and pdqsort.c hold copies of these
-- functions. The memory is the object that both elements lie in, as the list of its bytes; `a` and
-- `b` are offsets in it, and an address past its end is a fault. A word is the list of its bytes.
pub mod Chunk
pub mod Correct
pub mod Elements
pub mod Exact
use Prim.Native.Nat.{bit_and, bit_or}
use ksort.Base.{
  ℕ, zero, suc, ◌+◌, ◌-◌, ◌*◌, ◌%◌, ◌^◌, List, [], ◌∷◌, Bool, true, false, ◌==◌, if◌then◌else◌,
}
use ksort.Run.{Run, ok, fault, out_of_fuel, ◌>>=◌}
use ksort.Words.{sub64}
use ksort.Array.{length, load, store}

unfoldable pub is_aligned : Bool → ℕ → ℕ → ℕ → Bool
is_aligned efficient_unaligned base size align =
    let lsbits = size % 256 in
    let lsbits' = if efficient_unaligned then lsbits else bit_or lsbits (base % 256) in
    bit_and lsbits' (align - 1) == 0

module _ {B : Type 0} where
  -- a load of a word of `w` bytes
  unfoldable pub read : ℕ → List B → ℕ → Run (List B)
  unfolding load
  read zero m i = ok []
  read (suc w) m i = do x ← load m i; xs ← read w m (suc i); ok (x ∷ xs)

  -- a store of a word
  unfoldable pub write : List B → ℕ → List B → Run (List B)
  unfolding store
  write m i [] = ok m
  write m i (x ∷ xs) = do m' ← store m i x; write m' (suc i) xs

  -- `t = *a; *a = *b; *b = t`
  unfoldable pub exchange : ℕ → List B → ℕ → ℕ → Run (List B)
  unfolding read write
  exchange w m a b = do t ← read w m a; u ← read w m b; m' ← write m a u; write m' b t

  -- the `do … while (n)` that goes down by `w` bytes
  unfoldable pub swap_down : ℕ → ℕ → List B → ℕ → ℕ → ℕ → Run (List B)
  unfolding sub64
  swap_down w zero m a b n = out_of_fuel
  swap_down w (suc fuel) m a b n =
      let n' = sub64 n w in
      exchange w m (a + n') (b + n') >>= λ m'.
      let rest = swap_down w fuel m' a b n' in if n' == 0 then ok m' else rest

  unfoldable pub swap_words_32 : List B → ℕ → ℕ → ℕ → Run (List B)
  unfolding swap_down
  swap_words_32 m a b n = swap_down 4 (n + 1) m a b n

  -- two 32-bit transfers a round, without CONFIG_64BIT
  unfoldable pub swap_down_twice : ℕ → List B → ℕ → ℕ → ℕ → Run (List B)
  unfolding sub64
  swap_down_twice zero m a b n = out_of_fuel
  swap_down_twice (suc fuel) m a b n =
      let n' = sub64 n 4 in
      exchange 4 m (a + n') (b + n') >>= λ m'.
      let n'' = sub64 n' 4 in
      exchange 4 m' (a + n'') (b + n'') >>= λ m''.
      let rest = swap_down_twice fuel m'' a b n'' in if n'' == 0 then ok m'' else rest

  unfoldable pub swap_words_64 : Bool → List B → ℕ → ℕ → ℕ → Run (List B)
  unfolding swap_down swap_down_twice
  swap_words_64 true m a b n = swap_down 8 (n + 1) m a b n
  swap_words_64 false m a b n = swap_down_twice (n + 1) m a b n

  unfoldable pub swap_bytes : List B → ℕ → ℕ → ℕ → Run (List B)
  unfolding swap_down
  swap_bytes m a b n = swap_down 1 (n + 1) m a b n

-- The values of a `swap_func_t`: three small numbers, or the caller's function.
pub data SwapFunc (B : Type 0) : Type 0 where
  words_64 words_32 bytes : SwapFunc B
  custom : (List B → ℕ → ℕ → ℕ → Run (List B)) → SwapFunc B

-- what sort_r takes for the null pointer
unfoldable pub choose_swap : {B : Type 0} → Bool → ℕ → ℕ → SwapFunc B
unfolding is_aligned
choose_swap efficient_unaligned base size =
    if is_aligned efficient_unaligned base size 8
    then words_64
    else if is_aligned efficient_unaligned base size 4
    then words_32
    else bytes

unfoldable pub do_swap : {B : Type 0} → Bool → List B → ℕ → ℕ → ℕ → SwapFunc B → Run (List B)
unfolding swap_words_64 swap_words_32 swap_bytes
do_swap config_64bit m a b size words_64 = swap_words_64 config_64bit m a b size
do_swap config_64bit m a b size words_32 = swap_words_32 m a b size
do_swap config_64bit m a b size bytes = swap_bytes m a b size
do_swap config_64bit m a b size (custom swap) = swap m a b size
