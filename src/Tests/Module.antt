-- ===== src/Tests/Module.antt =====
-- Tests and examples for `Module`, and for the comparator of its self-test.
use ksort.Base.{
  ◌≡◌, refl, [], ◌∷◌, none, some, true, false, pos, negsuc, ltb, is_negative, is_positive, arith,
}
use ksort.Run.{ok, Returns}
use ksort.Compare.{cmpint, int_rank, cmpint-order}
use ksort.Module.{register_chrdev, class_create, device_create, xoro_init}
use ksort.Module.Resources.{IsLoaded, xoro_init-IsLoaded}

-- -5 is below 3, as 32-bit patterns
cmpint-order_example :
    (is_negative (cmpint 4294967291 3) ≡ ltb (int_rank 4294967291) (int_rank 3))
    × (is_positive (cmpint 4294967291 3) ≡ ltb (int_rank 3) (int_rank 4294967291))
unfolding int_rank
cmpint-order_example =
    cmpint-order 4294967291 3 (omega arith) (omega arith) (omega arith) (omega arith)

-- 2 ^ 31 - 1 is not below -1, but the difference wraps
cmpint_wraps : is_negative (cmpint 2147483647 4294967295) ≡ true
unfolding cmpint
cmpint_wraps = refl

-- the device cannot be created
xoro_init-IsLoaded_example :
    Returns (IsLoaded true) (xoro_init (pos 240) none (some (negsuc 11)) true)
xoro_init-IsLoaded_example = xoro_init-IsLoaded (pos 240) none (some (negsuc 11)) true tt refl

-- without memory for the self-test, loading fails and keeps the device
no_memory :
    xoro_init (pos 240) none none false
    ≡ ok (register_chrdev ∷ class_create ∷ device_create ∷ [], negsuc 11)
unfolding xoro_init
no_memory = refl
