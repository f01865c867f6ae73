-- ===== src/Module/Resources.antt =====
-- Which resources a run of the module's functions leaves taken.
use ksort.Base.{
  ◌≡◌, refl, List, [], ◌∷◌, ◌++◌, Option, none, some, Bool, true, false, not, ℤ, pos, negsuc,
  if◌then◌else◌, is_negative, ◌⊎◌, inl, inr,
}
use ksort.Run.{ok, Returns, returns}
use ksort.Array.{compare_at, swap_at}
use ksort.Array.Slice.{take}
use ksort.Compare.{cmpint, is_above}
use ksort.Module.{
  Call, register_chrdev, unregister_chrdev, class_create, class_unregister, class_destroy,
  device_create, device_destroy, kmalloc_array, kfree, self_test, with_memory, with_device,
  with_class, xoro_init, xoro_exit, fill_test, check_loop,
}

-- whether the character device, the class, the device and the memory are taken
pub record Held : Type 0 where
  pub chrdev : Bool
  pub class : Bool
  pub device : Bool
  pub memory : Bool

abbrev allowed : Bool → Held → Option Held
allowed may h = if may then some h else none

-- The resources after a call. To take one that is taken, or to give back one that is not, is a mistake.
abbrev after_call : Call → Held → Option Held
after_call register_chrdev h =
    allowed (not h.chrdev)
      (record { chrdev = true; class = h.class; device = h.device; memory = h.memory })
after_call unregister_chrdev h =
    allowed h.chrdev
      (record { chrdev = false; class = h.class; device = h.device; memory = h.memory })
after_call class_create h =
    allowed (not h.class)
      (record { chrdev = h.chrdev; class = true; device = h.device; memory = h.memory })
after_call class_unregister h =
    allowed h.class
      (record { chrdev = h.chrdev; class = false; device = h.device; memory = h.memory })
after_call class_destroy h =
    allowed h.class
      (record { chrdev = h.chrdev; class = false; device = h.device; memory = h.memory })
after_call device_create h =
    allowed (not h.device)
      (record { chrdev = h.chrdev; class = h.class; device = true; memory = h.memory })
after_call device_destroy h =
    allowed h.device
      (record { chrdev = h.chrdev; class = h.class; device = false; memory = h.memory })
after_call kmalloc_array h =
    allowed (not h.memory)
      (record { chrdev = h.chrdev; class = h.class; device = h.device; memory = true })
after_call kfree h =
    allowed h.memory
      (record { chrdev = h.chrdev; class = h.class; device = h.device; memory = false })

-- `none` where one of the calls was a mistake
abbrev pub after_calls : List Call → Option Held → Option Held
after_calls cs none = none
after_calls [] (some h) = some h
after_calls (c ∷ cs) (some h) = after_calls cs (after_call c h)

abbrev pub nothing : Held
nothing = record { chrdev = false; class = false; device = false; memory = false }

abbrev pub all_but_memory : Held
all_but_memory = record { chrdev = true; class = true; device = true; memory = false }

-- the self-test passes
self_test-passes : self_test ≡ ok (kfree ∷ [], pos 0)
unfolding self_test fill_test check_loop compare_at cmpint swap_at is_above
self_test-passes = refl

-- an error pointer stands for a negative number
abbrev pub IsError : Option ℤ → Type 0
IsError none = Unit
IsError (some err) = is_negative err ≡ true

-- Loading stops early with an error and keeps nothing, or gets as far as the self-test and keeps all
-- but the memory, whatever comes of that.
abbrev pub IsLoaded : Bool → List Call × ℤ → Type 0
IsLoaded allocated r =
    ((after_calls r.0 (some nothing) ≡ some nothing) × (is_negative r.1 ≡ true))
    ⊎ ((after_calls r.0 (some nothing) ≡ some all_but_memory)
        × (r.1 ≡ (if allocated then pos 0 else negsuc 11)))

-- Where error pointers stand for negative numbers, xoro_init returns, takes no resource twice and gives back
-- none that it has not: either with an error and nothing
-- kept, or with the character device, the class and the device kept and the memory given back, and
-- then with 0, or with ENOMEM where there is no memory.
pub xoro_init-IsLoaded :
    (major : ℤ) (class device : Option ℤ) (allocated : Bool)
    → IsError class
    → IsError device
    → Returns (IsLoaded allocated) (xoro_init major class device allocated)
unfolding xoro_init with_class with_device with_memory
xoro_init-IsLoaded (negsuc n) class device allocated c d = returns (inl (refl, refl))
xoro_init-IsLoaded (pos n) (some err) device allocated c d = returns (inl (refl, c))
xoro_init-IsLoaded (pos n) none (some err) allocated c d = returns (inl (refl, d))
xoro_init-IsLoaded (pos n) none none false c d = returns (inr (refl, refl))
xoro_init-IsLoaded (pos n) none none true c d = rw self_test-passes (returns (inr (refl, refl)))

-- the device and its class are given back, and the character device is not
abbrev pub chrdev_only : Held
chrdev_only = record { chrdev = true; class = false; device = false; memory = false }

-- What xoro_exit does up to its second call on the class, and what comes of that.
abbrev pub IsDoubleRelease : List Call → Type 0
IsDoubleRelease calls =
    (after_calls (calls ++ take 2 xoro_exit) (some nothing) ≡ some chrdev_only)
    × (after_calls (calls ++ xoro_exit) (some nothing) ≡ none)
