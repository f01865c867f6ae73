-- ===== src/Template/Quick/Pivot.antt =====
-- The pivot of the quicksort lies in its range.
use ksort.Base.{ℕ, ◌+◌, ◌-◌, ◌/◌, ◌≤◌, ◌<◌, ◌≡◌, List, ltb, arith}
use ksort.Run.{Returns, returns, Returns-bind, Returns-if}
use ksort.Array.{length, key_at}
use ksort.Array.Access.{compare_at-Compared}
use ksort.Template.{sort_cmp}
use ksort.Template.Bitonic.{value}
use ksort.Template.Bitonic.Exchange.{sort_cmp-IsThreeWay}
use ksort.Template.Quick.{is_below, median, quick_pivot}

-- whatever the array holds, the call on element `i` and `j` returns
is_below-Returns :
    (xs : List ℕ) (i j : ℕ)
    → i < length xs
    → j < length xs
    → Returns (λ b. b ≡ ltb (key_at value xs i) (key_at value xs j)) (is_below xs i j)
unfolding is_below
is_below-Returns xs i j hi hj =
    Returns-bind (compare_at-Compared value xs i j hi hj sort_cmp sort_cmp-IsThreeWay)
      λ z c. returns c.negative

abbrev pub IsInside : ℕ → ℕ → ℕ → Type 0
IsInside lo hi k = (lo ≤ k) × (k ≤ hi)

module _ (xs : List ℕ) (lo hi : ℕ) (f : hi < length xs) where
  -- MEDIAN returns an index of the range that its three lie in
  median-IsInside :
      (a b c : ℕ)
      → IsInside lo hi a
      → IsInside lo hi b
      → IsInside lo hi c
      → Returns (IsInside lo hi) (median xs a b c)
  unfolding median
  median-IsInside a b c ia ib ic =
      let test : (i j : ℕ)
          → IsInside lo hi i
          → IsInside lo hi j
          → Returns (λ t. t ≡ ltb (key_at value xs i) (key_at value xs j)) (is_below xs i j) =
        λ i j p q. is_below-Returns xs i j (omega (arith, p.1)) (omega (arith, q.1)) in
      Returns-bind (test a b ia ib) λ ab t.
        Returns-if ab
          (λ e. Returns-bind (test b c ib ic) λ bc u.
            Returns-if bc (λ e'. returns ib)
              λ e'.
                Returns-bind (test a c ia ic)
                  λ ac w. Returns-if ac (λ e''. returns ic) λ e''. returns ia)
          λ e. Returns-bind (test a b ia ib) λ ac u.
            Returns-if ac (λ e'. returns ia)
              λ e'.
                Returns-bind (test b c ib ic)
                  λ bc w. Returns-if bc (λ e''. returns ic) λ e''. returns ib

pub quick_pivot-IsInside :
    (xs : List ℕ) (left right : ℕ)
    → left ≤ right
    → right < length xs
    → Returns (IsInside left right) (quick_pivot xs left right)
unfolding quick_pivot
quick_pivot-IsInside xs left right h f =
    let middle = left + (right - left) / 2 in
    let first =
      median-IsInside xs left right f left middle right (omega arith, h) (omega arith, omega arith)
        (h, omega arith) in
    Returns-bind first λ pivot p.
      median-IsInside xs left right f (left + (middle - left) / 2) pivot
        (middle + (right - middle) / 2) (omega arith, omega arith) p (omega arith, omega arith)
