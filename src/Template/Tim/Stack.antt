-- ===== src/Template/Tim/Stack.antt =====
-- The stack of runs, and CHECK_INVARIANT.
use ksort.Base.{ℕ, ◌+◌, List, [], ◌∷◌, Bool, true, not, ◌||◌, leb}

-- `TIM_SORT_RUN_T`
pub record RunEntry : Type 0 where
  pub start : ℕ
  pub length : ℕ

unfoldable pub check_invariant : List RunEntry → Bool
check_invariant (b ∷ a ∷ []) = not (leb a.length b.length)
check_invariant (c ∷ b ∷ a ∷ rest) =
    not (leb a.length (b.length + c.length) || leb b.length c.length)
check_invariant stack = true
