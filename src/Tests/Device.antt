-- ===== src/Tests/Device.antt =====
-- Tests and examples for `Device`, with a mutex that is one Boolean.
use ksort.Base.{
  ℕ, ℤ, List, ◌≡◌, refl, sym, arith, Option, none, some, Bool, true, false, pos, negsuc,
}
use mathlib.Core.Bool.{true≢false}
use ksort.Run.{ok, fault, Returns}
use ksort.Array.{swap_at, compare_at}
use ksort.Xoroshiro.{seed, jump, jump_loop, jump_bits}
use ksort.Heap.{sort_heap}
use ksort.Compare.{cmpint64, cmpuint64}
use ksort.Template.Merge.{merge_sort}
use ksort.Template.Shell.{shell_sort}
use ksort.Template.Heapsort.{ksort_heap_sort}
use ksort.Template.Quick.{quick_sort}
use ksort.Template.Networks.{bitonic_sort_10}
use ksort.Template.Simple.{selection_sort, bubble_sort}
use ksort.Template.Tim.{tim_sort}
use ksort.Template.Short.{merge_sort_in_place, grail_sort, grail_sort_dyn_buffer, sqrt_sort}
use ksort.Template.Stable.{rec_stable_sort}
use ksort.Intro.Quick.{sort_intro}
use ksort.Pdqsort.Loop.{sort_pdqsort}
use ksort.Device.{
  Mutex, IsMutex, Device, Memory, test_len, fill, sort_round, heap_sort, open_with, dev_open,
  dev_read,
}
use ksort.Device.Comparison.{all_passed, dev_read-passes}
use ksort.Xoroshiro.Invert.{after}
use ksort.Device.History.{
  Reachable, start, opens, reads, DeviceInv, Reachable-DeviceInv, Reachable-open,
}

abbrev try_flag : Bool → Option Bool
try_flag true = none
try_flag false = some true

abbrev flag : Mutex Bool
flag = record { trylock = try_flag; unlock = λ b. false }

abbrev is_locked : Bool → Bool
is_locked b = b

try_flag-locked : (b : Bool) → is_locked b ≡ true → flag.trylock b ≡ none
try_flag-locked true e = refl
try_flag-locked false e = absurd (true≢false (sym e))

try_flag-free :
    (b : Bool)
    → is_locked b ≡ false
    → (m' : Bool) × (flag.trylock b ≡ some m') × (is_locked m' ≡ true)
try_flag-free true e = absurd (true≢false e)
try_flag-free false e = (true, refl, refl)

flag-IsMutex : IsMutex flag is_locked
flag-IsMutex = record {
  trylock-locked = try_flag-locked;
  trylock-free = try_flag-free;
  unlock-free = λ b. refl;
}

abbrev loaded : Device Bool
loaded = record { mutex = false; n_opens = 0; prng = seed 314159265 1618033989; preempt = 0 }

abbrev opened : Device Bool
opened = record { mutex = true; n_opens = 1; prng = jump (seed 314159265 1618033989); preempt = 0 }

opened-Reachable : Reachable flag is_locked 1 1 0 0 opened
unfolding dev_open open_with
opened-Reachable = opens (start refl) refl

-- a read of the first time
abbrev was_read : Device Bool
was_read = record { mutex = true; n_opens = 1; prng = (fill test_len opened.prng).1; preempt = 0 }

abbrev no_memory : Option (List ℕ) → ℕ → Option (List ℕ)
no_memory old n = none

-- memory for the arrays and the sqrt sort, and no longer arrays
abbrev little : Memory
little = record {
  arrays = true;
  merge = none;
  tim = false;
  krealloc = no_memory;
  grail = false;
  sqrt_buffer = true;
  sqrt_tags = true;
  intro_tmp = false;
  intro_stack = false;
  pdqsort = false;
  longer_in_place = λ xs len. fault;
  longer_grail = λ xs len ext. fault;
  longer_sqrt = λ xs len. fault;
}

opened_read : dev_read little 0 8 opened ≡ ok (was_read, pos 8, all_passed 17)
unfolding dev_read fill sort_round heap_sort sort_heap cmpint64 compare_at swap_at jump jump_loop
    jump_bits seed merge_sort shell_sort ksort_heap_sort quick_sort bitonic_sort_10 selection_sort
    tim_sort bubble_sort merge_sort_in_place grail_sort sqrt_sort rec_stable_sort
    grail_sort_dyn_buffer sort_intro sort_pdqsort cmpuint64
opened_read = refl

Reachable-open_example : (dev_open flag opened).1 ≡ negsuc 15
Reachable-open_example = Reachable-open flag is_locked flag-IsMutex opened-Reachable

Reachable-DeviceInv_example : DeviceInv flag is_locked 1 1 1 0 was_read
Reachable-DeviceInv_example =
    Reachable-DeviceInv flag is_locked flag-IsMutex
      (reads little 0 8 (pos 8) (all_passed 17) opened-Reachable opened_read)

dev_read-passes_example :
    Returns
      (λ (r : Device Bool × ℤ × List Bool).
        (r.0.prng ≡ after 10 opened.prng) × (r.1 ≡ pos 8) × (r.2 ≡ all_passed 17))
      (dev_read little 0 8 opened)
dev_read-passes_example = dev_read-passes little 0 8 opened refl refl refl (omega arith)
