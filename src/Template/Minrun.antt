-- ===== src/Template/Minrun.antt =====
-- sort.h: the length of the runs of the timsort.
pub mod Bounds
use ksort.Base.{ℕ, ◌+◌, ◌-◌, ◌/◌, ◌%◌, ◌^◌, ◌==◌, ltb, if◌then◌else◌}
use ksort.Words.{log2}

-- `shift`; `64 - CLZ(size)` is one more than the logarithm of a size that is not 0
unfoldable pub minrun_shift : ℕ → ℕ
minrun_shift size = let top_bit = log2 64 size + 1 in (if ltb 6 top_bit then top_bit else 6) - 6

-- `mask & size` is the remainder by `2 ^ shift`
unfoldable pub compute_minrun : ℕ → ℕ
unfolding minrun_shift
compute_minrun size =
    let shift = minrun_shift size in
    let minrun = size / 2 ^ shift in if size % 2 ^ shift == 0 then minrun else minrun + 1
