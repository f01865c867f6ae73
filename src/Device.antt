-- ===== src/Device.antt =====
-- main.c: the device's file operations. The state is the mutex, the count of opens, the generator's
-- words and the nesting of preempt_disable. The mutex is the kernel's, an interface. What the sorts get
-- from the kernel, and what they do with longer arrays where that is not modelled, is a `Memory`. The
-- clock and the log are left out.
pub mod Rounds
pub mod History
pub mod Comparison
use ksort.Base.{
  ℕ, zero, suc, ◌+◌, ◌-◌, ◌%◌, ◌^◌, ◌≡◌, List, [], ◌∷◌, Option, none, some, Bool, true, false, ℤ,
  pos, negsuc, ◌==◌, ltb, if◌then◌else◌,
}
use ksort.Run.{Run, ok, fault, out_of_fuel, ◌>>=◌}
use ksort.Words.{word}
use ksort.Array.{load}
use ksort.Compare.{cmpint64, cmpuint64}
use ksort.Heap.{sort_heap}
use ksort.Template.Insertion.{binary_insertion_sort}
use ksort.Template.Small.{bitonic_sort}
use ksort.Template.Simple.{selection_sort, bubble_sort}
use ksort.Template.Shell.{shell_sort}
use ksort.Template.Heapsort.{ksort_heap_sort}
use ksort.Template.Merge.{merge_sort}
use ksort.Template.Quick.{quick_sort}
use ksort.Template.Stable.{rec_stable_sort}
use ksort.Template.Tim.{tim_sort}
use ksort.Template.Short.{merge_sort_in_place, grail_sort, grail_sort_dyn_buffer, sqrt_sort}
use ksort.Intro.Quick.{sort_intro}
use ksort.Pdqsort.Loop.{sort_pdqsort}
use ksort.Xoroshiro.{State, next, jump}

-- `struct mutex`: mutex_trylock returns 0 (`none`) or takes the mutex
pub record Mutex (M : Type 0) : Type 0 where
  pub trylock : M → Option M
  pub unlock : M → M

-- what the kernel documents of them
pub record IsMutex {M : Type 0} (ops : Mutex M) (locked : M → Bool) : Type 0 where
  pub trylock-locked : (m : M) → locked m ≡ true → ops.trylock m ≡ none
  pub trylock-free :
      (m : M) → locked m ≡ false → (m' : M) × (ops.trylock m ≡ some m') × (locked m' ≡ true)
  pub unlock-free : (m : M) → locked (ops.unlock m) ≡ false

pub record Device (M : Type 0) : Type 0 where
  pub mutex : M
  pub n_opens : ℕ
  pub prng : State
  pub preempt : ℕ

-- `TEST_LEN`
abbrev pub test_len : ℕ
test_len = 10

-- the loop of dev_read that fills the array
unfoldable pub fill : ℕ → State → List ℕ × State
unfolding next
fill zero s = ([], s)
fill (suc n) s = let rest = fill n (next s).0 in ((next s).1 ∷ rest.0, rest.1)

-- the loop over neighbours that tests a sorted array, with `rounds` rounds left; `false` is the failure
unfoldable pub test_loop : ℕ → List ℕ → ℕ → Run Bool
unfolding load
test_loop zero xs i = ok true
test_loop (suc rounds) xs i =
    let rest = test_loop rounds xs (i + 1) in
    (do x ← load xs i; y ← load xs (i + 1); if ltb y x then ok false else rest)

-- one comparison: a copy of the array is sorted and tested
unfoldable pub sort_round : (List ℕ → Run (List ℕ)) → List ℕ → Run Bool
unfolding test_loop
sort_round sort arr = do ys ← sort arr; test_loop (test_len - 1) ys 0

unfoldable pub sort_rounds : List (List ℕ → Run (List ℕ)) → List ℕ → Run (List Bool)
unfolding sort_round
sort_rounds [] arr = ok []
sort_rounds (sort ∷ sorts) arr = do
  passed ← sort_round sort arr
  rest ← sort_rounds sorts arr
  ok (passed ∷ rest)

-- the call of sort_heap
unfoldable pub heap_sort : List ℕ → Run (List ℕ)
unfolding sort_heap cmpint64
heap_sort arr = sort_heap arr test_len 8 cmpint64 none

-- What the calls of kmalloc and krealloc return in a read: whether `arr` and `arr_copy` get memory, what
-- the buffer of the merge sort holds, the runs of the timsort, the buffers of the grail and the sqrt
-- sort, `tmp` and the stack of the introsort, and the buffer of the fallback of pdqsort. The last three are the sorts of longer arrays.
pub record Memory : Type 0 where
  pub arrays : Bool
  pub merge : Option (List ℕ)
  pub tim : Bool
  pub krealloc : Option (List ℕ) → ℕ → Option (List ℕ)
  pub grail : Bool
  pub sqrt_buffer : Bool
  pub sqrt_tags : Bool
  pub intro_tmp : Bool
  pub intro_stack : Bool
  pub pdqsort : Bool
  pub longer_in_place : List ℕ → ℕ → Run (List ℕ)
  pub longer_grail : List ℕ → ℕ → ℕ → Run (List ℕ)
  pub longer_sqrt : List ℕ → ℕ → Run (List ℕ)

-- the calls of dev_read, in their order
abbrev pub compared_sorts : Memory → List (List ℕ → Run (List ℕ))
compared_sorts m =
    heap_sort
    ∷ (λ arr. merge_sort m.merge arr test_len)
    ∷ (λ arr. shell_sort arr test_len)
    ∷ (λ arr. binary_insertion_sort arr test_len)
    ∷ (λ arr. ksort_heap_sort arr test_len)
    ∷ (λ arr. quick_sort arr test_len)
    ∷ (λ arr. selection_sort arr test_len)
    ∷ (λ arr. tim_sort m.krealloc m.tim arr test_len)
    ∷ (λ arr. bubble_sort arr test_len)
    ∷ (λ arr. bitonic_sort arr test_len)
    ∷ (λ arr. merge_sort_in_place m.longer_in_place arr test_len)
    ∷ (λ arr. grail_sort m.longer_grail arr test_len)
    ∷ (λ arr. sqrt_sort m.longer_sqrt m.sqrt_buffer m.sqrt_tags arr test_len)
    ∷ (λ arr. rec_stable_sort arr test_len)
    ∷ (λ arr. grail_sort_dyn_buffer m.longer_grail m.grail arr test_len)
    ∷ (λ arr. sort_intro cmpint64 m.intro_tmp m.intro_stack arr test_len)
    ∷ (λ arr. sort_pdqsort cmpuint64 m.pdqsort (λ x. x) arr test_len)
    ∷ []

module _ {M : Type 0} (ops : Mutex M) where
  -- after mutex_trylock
  unfoldable pub open_with : Option M → Device M → Device M × ℤ
  unfolding jump
  open_with none d = (d, negsuc 15)
  open_with (some m) d = (
    record {
      mutex = m;
      n_opens = (d.n_opens + 1) % 2 ^ 32;
      prng = jump d.prng;
      preempt = d.preempt;
    },
    pos 0,
  )

  unfoldable pub dev_open : Device M → Device M × ℤ
  unfolding open_with
  dev_open d = open_with (ops.trylock d.mutex) d

  unfoldable pub dev_release : Device M → Device M × ℤ
  dev_release d = (
    record { mutex = ops.unlock d.mutex; n_opens = d.n_opens; prng = d.prng; preempt = d.preempt },
    pos 0,
  )

module _ {M : Type 0} where
  -- the end of dev_read, with the generator's new state: `len` bytes are copied out of the 136 of
  -- `times`, and preempt_enable is left out where the copy fails; `n_notcopied` is what copy_to_user
  -- returns
  unfoldable pub copy_out : ℕ → ℕ → List Bool → State → Device M → Run (Device M × ℤ × List Bool)
  copy_out n_notcopied len passed prng d =
      let after_read : ℕ → Device M = λ preempt. record {
        mutex = d.mutex;
        n_opens = d.n_opens;
        prng = prng;
        preempt = preempt;
      } in
      let copied : Run (Device M × ℤ × List Bool) =
        if n_notcopied == 0
        then ok (after_read (d.preempt + 1 - 1), pos len, passed)
        else ok (after_read (d.preempt + 1), negsuc 13, passed) in
      if ltb 136 len then fault else copied

  -- `arr` and `arr_copy` are written without a test
  unfoldable pub dev_read : Memory → ℕ → ℕ → Device M → Run (Device M × ℤ × List Bool)
  unfolding fill sort_rounds heap_sort copy_out
  dev_read memory n_notcopied len d =
      let filled = fill test_len d.prng in
      let body = sort_rounds (compared_sorts memory) filled.0 >>= λ passed.
      copy_out n_notcopied len passed filled.1 d in
      if memory.arrays then body else fault
