-- ===== src/Pdqsort/Insertion/Partial.antt =====
-- partial_insertion_sort, and the sorts of two and of three elements.
use ksort.Base.{
  ℕ, zero, suc, ◌+◌, ◌-◌, ◌≤◌, ◌<◌, ◌≡◌, ◌≢◌, refl, List, arith, ◌==◌, ltb, if◌then◌else◌, Bool,
  true, ℤ,
}
use ksort.Run.{ok, ◌>>=◌, Returns, returns, Returns-bind, Returns-map, Returns-if}
use ksort.Array.{length, key_at, IsLess, IsSortedIn, IsPermutedIn, IsSortedRange}
use ksort.Array.Access.{swap_at-IsSwapped}
use ksort.Array.Range.{
  IsPermutedIn-refl, IsPermutedIn-trans, IsPermutedIn-widen, IsSwapped-IsPermutedIn,
}
use ksort.Pdqsort.{less_at, sift, partial_loop, partial_insertion_sort, sort2, sort3}
use ksort.Pdqsort.Insertion.Sift.{SiftEnd-sorted, less_at-ltb, sift-SiftEnd}
use ksort.Pdqsort.Insertion.Sorts.{start_SiftInv, grow_sorted, single_sorted}

module _ {A : Type 0} (key : A → ℕ) where
  -- the range is rearranged, and ascends if the sort says that it is done
  abbrev pub IsTried : ℕ → ℕ → List A → List A × Bool → Type 0
  IsTried begin end xs r =
      IsPermutedIn key begin end xs r.0 × (r.1 ≡ true → IsSortedIn key r.0 begin end)

  -- what sort2 does to the keys at its two positions, and to no other
  pub record IsSort2 (xs : List A) (a b : ℕ) (ys : List A) : Type 0 where
    pub kept : (lo hi : ℕ) → lo ≤ a → a < b → b < hi → IsPermutedIn key lo hi xs ys
    pub size : length ys ≡ length xs
    pub first :
        key_at key ys a
        ≡ (if ltb (key_at key xs b) (key_at key xs a) then key_at key xs b else key_at key xs a)
    pub second :
        key_at key ys b
        ≡ (if ltb (key_at key xs b) (key_at key xs a) then key_at key xs a else key_at key xs b)
    pub others : (k : ℕ) → k ≢ a → k ≢ b → key_at key ys k ≡ key_at key xs k

  -- the three positions ascend, and only elements between `a` and `c` moved
  abbrev pub IsSort3 : List A → ℕ → ℕ → ℕ → List A → Type 0
  IsSort3 xs a b c ys =
      IsPermutedIn key a (c + 1) xs ys
      × (key_at key ys a ≤ key_at key ys b)
      × (key_at key ys b ≤ key_at key ys c)
      × ((k : ℕ) → k ≢ a → k ≢ b → k ≢ c → key_at key ys k ≡ key_at key xs k)

module _ {A : Type 0} (key : A → ℕ) (cmp_func : A → A → ℤ) (less : IsLess key cmp_func) where
  partial_moved :
      (xs : List A) (begin cur limit : ℕ)
      → begin < cur
      → cur < length xs
      → IsSortedIn key xs begin cur
      → Returns
          (λ (r : List A × ℕ). IsSortedRange key begin (cur + 1) xs r.0)
          (less_at cmp_func xs cur (cur - 1) >>= λ b.
            if b
            then sift cmp_func (cur + 1) xs begin cur (cur - 1)
              >>= (λ r. ok (r.0, limit + (cur - r.1)))
            else ok (xs, limit))
  partial_moved xs begin cur limit h f s =
      Returns-bind (less_at-ltb key cmp_func less xs cur (cur - 1) f (omega arith)) λ b t.
        Returns-if b
          (λ g.
            Returns-bind
              (sift-SiftEnd key cmp_func less (cur + 1) xs begin cur cur (omega arith)
                (start_SiftInv key s (omega arith) f) h (ground arith))
              λ r e. returns (SiftEnd-sorted key e))
          λ g. returns (IsPermutedIn-refl begin (cur + 1) xs, grow_sorted key xs s h (ground arith))

  partial_loop-IsTried :
      (fuel : ℕ) (xs : List A) (begin cur end limit : ℕ)
      → end < cur + fuel
      → begin < cur
      → cur ≤ end
      → end ≤ length xs
      → IsSortedIn key xs begin cur
      → Returns (IsTried key begin end xs) (partial_loop cmp_func fuel xs begin cur end limit)
  unfolding partial_loop
  partial_loop-IsTried zero xs begin cur end limit f h g l s = absurd (omega arith)
  partial_loop-IsTried (suc fuel) xs begin cur end limit f h g l s =
      Returns-if (cur == end)
        (λ e.
          let same : cur ≡ end = ground arith in
          returns (IsPermutedIn-refl begin end xs, λ _. rw same at s))
        λ e.
          let next : cur + 1 ≤ end = ground arith in
          Returns-bind (partial_moved xs begin cur limit h (omega arith) s) λ r w.
            Returns-if (ltb 8 r.1)
              (λ _. returns (IsPermutedIn-widen (omega arith) next w.0, λ c. absurd (ground arith)))
              λ _.
                Returns-map
                  (partial_loop-IsTried fuel r.0 begin (cur + 1) end r.1 (omega arith) (omega arith)
                    next (omega (arith, w.0.size)) w.1)
                  λ q u. (IsPermutedIn-trans (IsPermutedIn-widen (omega arith) next w.0) u.0, u.1)

  -- For a strict order test, partial_insertion_sort returns with the elements of the range rearranged
  -- among themselves and no other touched; if it returns true, the range is in ascending order.
  pub partial_insertion_sort-IsTried :
      (xs : List A) (begin end : ℕ)
      → begin ≤ end
      → end ≤ length xs
      → Returns (IsTried key begin end xs) (partial_insertion_sort cmp_func xs begin end)
  unfolding partial_insertion_sort
  partial_insertion_sort-IsTried xs begin end h l =
      Returns-if (begin == end)
        (λ e. returns (IsPermutedIn-refl begin end xs, λ _ i j p q r. absurd (ground arith)))
        λ e.
          partial_loop-IsTried (end + 1) xs begin (begin + 1) end 0 (omega arith) (omega arith)
            (ground arith) l (single_sorted key begin xs)

  sort2-IsSort2 :
      (xs : List A) (a b : ℕ)
      → a < b
      → b < length xs
      → Returns (IsSort2 key xs a b) (sort2 cmp_func xs a b)
  unfolding sort2
  sort2-IsSort2 xs a b h l =
      Returns-bind (less_at-ltb key cmp_func less xs b a l (omega arith)) λ t e.
        Returns-if t
          (λ g. Returns-map (swap_at-IsSwapped key xs a b (omega arith) l) λ ys s. record {
            kept = λ lo hi p q r. IsSwapped-IsPermutedIn p (omega arith) (omega arith) r s;
            size = s.size;
            first = ground (arith, s.at a);
            second = ground (arith, s.at b);
            others = λ k p q. ground (arith, s.at k);
          })
          λ g. returns (record {
            kept = λ lo hi p q r. IsPermutedIn-refl lo hi xs;
            size = refl;
            first = ground arith;
            second = ground arith;
            others = λ k p q. refl;
          })

  -- For a strict order test and positions a < b < c inside the array, sort3 returns with the elements
  -- at the three positions in ascending order, rearranged among themselves.
  pub sort3-IsSort3 :
      (xs : List A) (a b c : ℕ)
      → a < b
      → b < c
      → c < length xs
      → Returns (IsSort3 key xs a b c) (sort3 cmp_func xs a b c)
  unfolding sort3
  sort3-IsSort3 xs a b c h g l = Returns-bind (sort2-IsSort2 xs a b h (omega arith)) λ ys p.
      Returns-bind (sort2-IsSort2 ys b c g (omega (arith, p.size))) λ zs q.
        Returns-map (sort2-IsSort2 zs a b h (omega (arith, p.size, q.size))) λ us r.
          let z = q.others a (omega arith) (omega arith) in
          let y = p.others c (omega arith) (omega arith) in
          let u = r.others c (omega arith) (omega arith) in
          (
            IsPermutedIn-trans (p.kept a (c + 1) (omega arith) h (omega arith)) (
                IsPermutedIn-trans (q.kept a (c + 1) (omega arith) g (omega arith))
                  (r.kept a (c + 1) (omega arith) h (omega arith))),
            ground (arith, r.first, r.second),
            ground (arith, r.second, u, q.first, q.second, z, p.first, p.second, y),
            λ k s t v. ground (arith, p.others k, q.others k, r.others k),
          )
