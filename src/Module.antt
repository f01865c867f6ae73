-- ===== src/Module.antt =====
-- main.c: loading and unloading the module. What the kernel's functions return is a parameter. A run
-- yields the calls that take or give back a resource, those that fail left out, and the result. An
-- `int` is its 32-bit pattern; the product in the loop that fills the array wraps.
pub mod Resources
use ksort.Base.{
  ℕ, zero, suc, ◌+◌, ◌-◌, ◌*◌, ◌%◌, ◌^◌, List, [], ◌∷◌, Option, none, some, Bool, true, false, ℤ,
  pos, negsuc, ltb, if◌then◌else◌, is_negative,
}
use ksort.Run.{Run, ok, fault, out_of_fuel, ◌>>=◌}
use ksort.Array.{load}
use ksort.Compare.{cmpint, to_int, is_above}
use ksort.Heap.{sort_heap}

pub data Call : Type 0 where
  register_chrdev unregister_chrdev : Call
  class_create class_unregister class_destroy : Call
  device_create device_destroy : Call
  kmalloc_array kfree : Call

abbrev pub Outcome : Type 0
Outcome = Run (List Call × ℤ)

abbrev pub call : Call → Outcome → Outcome
call c rest = rest >>= λ r. ok (c ∷ r.0, r.1)

abbrev pub return : ℤ → Outcome
return err = ok ([], err)

-- `z % 6599`, where the sign is that of `z`
unfoldable pub rem_6599 : ℤ → ℕ
rem_6599 (pos n) = n % 6599
rem_6599 (negsuc n) = (2 ^ 32 - (n + 1) % 6599) % 2 ^ 32

-- the loop that fills the array, with `rounds` rounds left
unfoldable pub fill_test : ℕ → ℕ → List ℕ
unfolding rem_6599
fill_test zero r = []
fill_test (suc rounds) r =
    let r' = rem_6599 (to_int (r * 725861 % 2 ^ 32)) in r' ∷ fill_test rounds r'

-- the loop over neighbours, with `rounds` rounds left: `err`
unfoldable pub check_loop : ℕ → List ℕ → ℕ → Run ℤ
unfolding load
check_loop zero xs i = ok (pos 0)
check_loop (suc rounds) xs i =
    let rest = check_loop rounds xs (i + 1) in
    (do x ← load xs i; y ← load xs (i + 1); if is_above x y then ok (negsuc 21) else rest)

-- from the sort to the end
unfoldable pub self_test : Outcome
unfolding fill_test check_loop sort_heap
self_test = do
  ys ← sort_heap (fill_test 10 1) 10 4 cmpint none
  err ← check_loop 9 ys 0
  call kfree (return err)

-- from `kmalloc_array` on
unfoldable pub with_memory : Bool → Outcome
unfolding self_test
with_memory false = return (negsuc 11)
with_memory true = call kmalloc_array self_test

-- from `device_create` on; `some err` is an error pointer
unfoldable pub with_device : Option ℤ → Bool → Outcome
unfolding with_memory
with_device (some err) allocated = call class_destroy (call unregister_chrdev (return err))
with_device none allocated = call device_create (with_memory allocated)

-- from `class_create` on
unfoldable pub with_class : Option ℤ → Option ℤ → Bool → Outcome
unfolding with_device
with_class (some err) device allocated = call unregister_chrdev (return err)
with_class none device allocated = call class_create (with_device device allocated)

-- `major` is what register_chrdev returns.
unfoldable pub xoro_init : ℤ → Option ℤ → Option ℤ → Bool → Outcome
unfolding with_class
xoro_init major class device allocated =
    let go = call register_chrdev (with_class class device allocated) in
    if is_negative major then return major else go

abbrev pub xoro_exit : List Call
xoro_exit = device_destroy ∷ class_unregister ∷ class_destroy ∷ unregister_chrdev ∷ []
