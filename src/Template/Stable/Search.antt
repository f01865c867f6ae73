-- ===== src/Template/Stable/Search.antt =====
-- The two binary searches split ascending elements at a key.
use ksort.Base.{
  ℕ, zero, suc, ℤ, ◌+◌, ◌-◌, ◌/◌, ◌≤◌, ◌<◌, ◌≡◌, refl, List, Bool, true, false, arith, leb, ltb,
  is_positive, is_nonnegative,
}
use ksort.Run.{Returns, returns, Returns-bind, Returns-map, Returns-if}
use ksort.Array.{length, key_at, IsSortedIn}
use ksort.Array.Access.{Compared, compare_at-Compared}
use ksort.Template.{sort_cmp}
use ksort.Template.Bitonic.{value}
use ksort.Template.Bitonic.Exchange.{sort_cmp-IsThreeWay}
use ksort.Template.Stable.{search_loop, search_left, search_right}

-- `test` holds from position `b` on, and not in front of it
abbrev IsCut : (ℕ → Bool) → ℕ → ℕ → Type 0
IsCut test len b =
    (b ≤ len) × ((k : ℕ) → k < b → test k ≡ false) × ((k : ℕ) → b ≤ k → k < len → test k ≡ true)

not_above : (b : Bool) → (b ≡ true → false ≡ true) → b ≡ false
not_above false h = refl
not_above true h = absurd (ground (arith, h refl))

module _ (found : ℤ → Bool) (test : ℕ → Bool) (xs : List ℕ) (p key len : ℕ)
    (f : p + len ≤ length xs) (g : key < length xs)
    (reads : (k : ℕ) (z : ℤ)
      → Compared (key_at value xs (p + k)) (key_at value xs key) z
      → found z ≡ test k)
    (up : (i j : ℕ) → i ≤ j → j < len → test i ≡ true → test j ≡ true) where
  search_loop-IsCut :
      (fuel a b : ℕ)
      → b < fuel + a
      → a ≤ b
      → b ≤ len
      → ((k : ℕ) → k < a → test k ≡ false)
      → ((k : ℕ) → b ≤ k → k < len → test k ≡ true)
      → Returns (IsCut test len) (search_loop found fuel xs p key a b)
  unfolding search_loop
  search_loop-IsCut zero a b h l u low high = absurd (omega arith)
  search_loop-IsCut (suc fuel) a b h l u low high =
      let c = a + (b - a + 1) / 2 - 1 in
      Returns-if (ltb a b)
        (λ e.
          Returns-bind
            (compare_at-Compared value xs (p + c) key (ground arith) g sort_cmp sort_cmp-IsThreeWay)
            λ z w.
              Returns-if (found z)
                (λ q.
                  search_loop-IsCut fuel a c (ground arith) (ground arith) (ground arith) low
                    λ k i j. up c k i j (ground (arith, reads c z w)))
                λ q.
                  search_loop-IsCut fuel (c + 1) b (ground arith) (ground arith) u
                    (λ k i.
                      not_above (test k)
                        λ t. ground (arith, reads c z w, up k c (omega arith) (ground arith) t))
                    high)
        λ e. let same : b ≡ a = ground arith in returns (u, (λ k i. low k (omega arith)), high)

module _ (xs : List ℕ) (p key len : ℕ) (f : p + len ≤ length xs) (g : key < length xs)
    (s : IsSortedIn value xs p (p + len)) where
  -- For ascending elements from `p` on, and a key inside the array, GRAIL_BIN_SEARCH_LEFT returns the place in
  -- front of those that are not below the key.
  pub search_left-splits :
      Returns
        (λ b.
          (b ≤ len)
          × ((k : ℕ) → p ≤ k → k < p + b → key_at value xs k < key_at value xs key)
          × ((k : ℕ) → p + b ≤ k → k < p + len → key_at value xs key ≤ key_at value xs k))
        (search_left xs p len key)
  unfolding search_left
  search_left-splits =
      Returns-map
        (search_loop-IsCut is_nonnegative (λ k. leb (key_at value xs key) (key_at value xs (p + k)))
          xs p key len f g (λ k z w. w.nonnegative) (λ i j a b t. ground (arith, s (p + i) (p + j)))
          (len + 1) 0 len (omega arith) (omega arith) (omega arith) (λ k i. absurd (omega arith))
          λ k i j. absurd (omega arith))
        λ b c. (
          c.0,
          (λ k i j. let e : p + (k - p) ≡ k = omega arith in ground (arith, e, c.1 (k - p))),
          λ k i j. let e : p + (k - p) ≡ k = omega arith in ground (arith, e, c.2 (k - p)),
        )

  -- Under the same conditions, GRAIL_BIN_SEARCH_RIGHT returns the place behind those that are not above the key.
  pub search_right-splits :
      Returns
        (λ b.
          (b ≤ len)
          × ((k : ℕ) → p ≤ k → k < p + b → key_at value xs k ≤ key_at value xs key)
          × ((k : ℕ) → p + b ≤ k → k < p + len → key_at value xs key < key_at value xs k))
        (search_right xs p len key)
  unfolding search_right
  search_right-splits =
      Returns-map
        (search_loop-IsCut is_positive (λ k. ltb (key_at value xs key) (key_at value xs (p + k))) xs
          p key len f g (λ k z w. w.positive) (λ i j a b t. ground (arith, s (p + i) (p + j)))
          (len + 1) 0 len (omega arith) (omega arith) (omega arith) (λ k i. absurd (omega arith))
          λ k i j. absurd (omega arith))
        λ b c. (
          c.0,
          (λ k i j. let e : p + (k - p) ≡ k = omega arith in ground (arith, e, c.1 (k - p))),
          λ k i j. let e : p + (k - p) ≡ k = omega arith in ground (arith, e, c.2 (k - p)),
        )
