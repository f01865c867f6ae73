-- ===== src/Pdqsort/Loop/Choose.antt =====
-- The choice of the pivot and the exchanges that break patterns rearrange their range.
use ksort.Base.{ℕ, ◌+◌, ◌-◌, ◌/◌, ◌≤◌, ◌<◌, List, arith, ltb, ℤ}
use ksort.Run.{Returns, returns, Returns-bind, Returns-map, Returns-if}
use ksort.Array.{length, key_at, IsLess, IsPermutedIn, swap_at}
use ksort.Array.Access.{swap_at-IsSwapped}
use ksort.Array.Range.{
  IsPermutedIn-refl, IsPermutedIn-trans, IsPermutedIn-widen, IsSwapped-IsPermutedIn,
}
use ksort.Pdqsort.{sort3}
use ksort.Pdqsort.Insertion.Partial.{sort3-IsSort3}
use ksort.Pdqsort.Loop.{break_left, break_right, choose_pivot}

module _ {A : Type 0} (key : A → ℕ) where
  -- one more exchange inside the range
  swap_inside :
      {lo hi : ℕ} {xs : List A} (ys : List A) (i j : ℕ)
      → hi ≤ length xs
      → IsPermutedIn key lo hi xs ys
      → (lo ≤ i) × (i < hi) × (lo ≤ j) × (j < hi)
      → Returns (IsPermutedIn key lo hi xs) (swap_at ys i j)
  swap_inside ys i j h p b =
      Returns-map
        (swap_at-IsSwapped key ys i j (omega (arith, p.size, b.1)) (omega (arith, p.size, b.3)))
        λ zs s. IsPermutedIn-trans p (IsSwapped-IsPermutedIn b.0 b.1 b.2 b.3 s)

  pub break_left-IsPermutedIn :
      (xs : List A) (begin pivot : ℕ)
      → begin ≤ pivot
      → pivot ≤ length xs
      → Returns (IsPermutedIn key begin pivot xs) (break_left xs begin pivot (pivot - begin))
  unfolding break_left
  break_left-IsPermutedIn xs begin pivot h l =
      Returns-if (ltb (pivot - begin) 24) (λ e. returns (IsPermutedIn-refl begin pivot xs))
        λ e.
          let big : 24 ≤ pivot - begin = ground arith in
          Returns-bind
            (swap_inside xs begin _ l (IsPermutedIn-refl begin pivot xs)
              (omega arith, omega arith, omega arith, omega arith))
            λ ys p.
              Returns-bind
                (swap_inside ys _ _ l p (omega arith, omega arith, omega arith, omega arith))
                λ zs q.
                  Returns-if (ltb 128 (pivot - begin))
                    (λ g.
                      let huge : 128 < pivot - begin = ground arith in
                      Returns-bind
                        (swap_inside zs _ _ l q
                          (omega arith, omega arith, omega arith, omega arith))
                        λ us r.
                          Returns-bind
                            (swap_inside us _ _ l r
                              (omega arith, omega arith, omega arith, omega arith))
                            λ vs t.
                              Returns-bind
                                (swap_inside vs _ _ l t
                                  (omega arith, omega arith, omega arith, omega arith))
                                λ ws u.
                                  swap_inside ws _ _ l u
                                    (omega arith, omega arith, omega arith, omega arith))
                    λ g. returns q

  pub break_right-IsPermutedIn :
      (xs : List A) (pivot end : ℕ)
      → pivot < end
      → end ≤ length xs
      → Returns (IsPermutedIn key (pivot + 1) end xs) (break_right xs pivot end (end - (pivot + 1)))
  unfolding break_right
  break_right-IsPermutedIn xs pivot end h l =
      Returns-if (ltb (end - (pivot + 1)) 24) (λ e. returns (IsPermutedIn-refl (pivot + 1) end xs))
        λ e.
          let big : 24 ≤ end - (pivot + 1) = ground arith in
          Returns-bind
            (swap_inside xs _ _ l (IsPermutedIn-refl (pivot + 1) end xs)
              (omega arith, omega arith, omega arith, omega arith))
            λ ys p.
              Returns-bind
                (swap_inside ys _ _ l p (omega arith, omega arith, omega arith, omega arith))
                λ zs q.
                  Returns-if (ltb 128 (end - (pivot + 1)))
                    (λ g.
                      let huge : 128 < end - (pivot + 1) = ground arith in
                      Returns-bind
                        (swap_inside zs _ _ l q
                          (omega arith, omega arith, omega arith, omega arith))
                        λ us r.
                          Returns-bind
                            (swap_inside us _ _ l r
                              (omega arith, omega arith, omega arith, omega arith))
                            λ vs t.
                              Returns-bind
                                (swap_inside vs _ _ l t
                                  (omega arith, omega arith, omega arith, omega arith))
                                λ ws u.
                                  swap_inside ws _ _ l u
                                    (omega arith, omega arith, omega arith, omega arith))
                    λ g. returns q

  -- the range is rearranged, and some element behind the pivot at its front is not below it
  abbrev pub IsChosen : ℕ → ℕ → List A → List A → Type 0
  IsChosen begin end xs ys =
      IsPermutedIn key begin end xs ys
      × ((t : ℕ) × (begin < t) × (t < end) × (key_at key ys begin ≤ key_at key ys t))

  module _ (cmp_func : A → A → ℤ) (less : IsLess key cmp_func) where
    -- one more sort of three elements inside the range
    sort3_inside :
        {lo hi : ℕ} {xs : List A} (ys : List A) (a b c : ℕ)
        → hi ≤ length xs
        → IsPermutedIn key lo hi xs ys
        → (lo ≤ a) × (a < b) × (b < c) × (c < hi)
        → Returns
            (λ zs.
              IsPermutedIn key lo hi xs zs
              × (key_at key zs a ≤ key_at key zs b)
              × (key_at key zs b ≤ key_at key zs c))
            (sort3 cmp_func ys a b c)
    sort3_inside ys a b c h p w =
        Returns-map (sort3-IsSort3 key cmp_func less ys a b c w.1 w.2 (omega (arith, p.size, w.3)))
          λ zs s. (IsPermutedIn-trans p (IsPermutedIn-widen w.0 (omega (arith, w.3)) s.0), s.1, s.2)

    pub choose_pivot-IsChosen :
        (xs : List A) (begin end : ℕ)
        → begin + 24 ≤ end
        → end ≤ length xs
        → Returns (IsChosen begin end xs) (choose_pivot cmp_func xs begin end)
    unfolding choose_pivot
    choose_pivot-IsChosen xs begin end h l =
        let m = (end - begin) / 2 in
        Returns-if (ltb 128 (end - begin))
          (λ g.
            Returns-bind
              (sort3_inside xs begin (begin + m) (end - 1) l (IsPermutedIn-refl begin end xs)
                (omega arith, omega arith, omega arith, omega arith))
              λ ys p.
                Returns-bind
                  (sort3_inside ys (begin + 1) (begin + (m - 1)) (end - 2) l p.0
                    (omega arith, omega arith, omega arith, omega arith))
                  λ zs q.
                    Returns-bind
                      (sort3_inside zs (begin + 2) (begin + (m + 1)) (end - 3) l q.0
                        (omega arith, omega arith, omega arith, omega arith))
                      λ us r.
                        Returns-bind
                          (sort3_inside us (begin + (m - 1)) (begin + m) (begin + (m + 1)) l r.0
                            (omega arith, omega arith, omega arith, omega arith))
                          λ vs t.
                            Returns-map
                              (swap_at-IsSwapped key vs begin (begin + m) (omega (arith, t.0.size))
                                (omega (arith, t.0.size)))
                              λ ws s. (
                                IsPermutedIn-trans t.0 (
                                    IsSwapped-IsPermutedIn (omega arith) (omega arith) (omega arith)
                                      (omega arith) s),
                                (
                                  begin + (m + 1),
                                  omega arith,
                                  omega arith,
                                  ground (arith, s.at begin, s.at (begin + (m + 1)), t.2),
                                ),
                              ))
          λ g.
            Returns-map
              (sort3_inside xs begin (begin + m) (end - 1) l (IsPermutedIn-refl begin end xs)
                (omega arith, omega arith, omega arith, omega arith))
              λ ys p. (p.0, (end - 1, omega arith, omega arith, omega (arith, p.1, p.2)))
