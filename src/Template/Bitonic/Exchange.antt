-- ===== src/Template/Bitonic/Exchange.antt =====
-- What `SORT_CSWAP` does to the elements at `i` and `j`.
use ksort.Base.{ℕ, ◌≤◌, ◌<◌, ◌≡◌, ◌≢◌, ◌⊎◌, inl, inr, refl, List, arith, is_positive}
use ksort.Run.{Returns, returns, Returns-bind, Returns-map, Returns-if}
use ksort.Array.{length, key_at, IsThreeWay, IsPermutedIn}
use ksort.Array.Access.{compare_at-Compared, swap_at-IsSwapped}
use ksort.Array.Range.{IsPermutedIn-refl, IsSwapped-IsPermutedIn}
use ksort.Template.{sort_cmp, cswap}
use ksort.Template.Bitonic.{value}

pub sort_cmp-IsThreeWay : IsThreeWay value sort_cmp
unfolding sort_cmp
sort_cmp-IsThreeWay = record { below = λ x y. ground arith; above = λ x y. ground arith }

-- `ys` is `xs` with the elements at `i` and `j` in order.
pub record IsExchanged (xs : List ℕ) (i j : ℕ) (ys : List ℕ) : Type 0 where
  pub permuted : IsPermutedIn value 0 (length xs) xs ys
  pub ordered : key_at value ys i ≤ key_at value ys j
  pub same :
      (key_at value ys i ≡ key_at value xs i) × (key_at value ys j ≡ key_at value xs j)
      ⊎ (key_at value ys i ≡ key_at value xs j) × (key_at value ys j ≡ key_at value xs i)
  pub others : (k : ℕ) → k ≢ i → k ≢ j → key_at value ys k ≡ key_at value xs k

pub cswap-IsExchanged :
    (xs : List ℕ) (i j : ℕ) → i < j → j < length xs → Returns (IsExchanged xs i j) (cswap xs i j)
unfolding cswap
cswap-IsExchanged xs i j hij hj =
    Returns-bind (compare_at-Compared value xs i j (omega arith) hj sort_cmp sort_cmp-IsThreeWay)
      λ z c.
        Returns-if (is_positive z)
          (λ e. Returns-map (swap_at-IsSwapped value xs i j (omega arith) hj) λ ys s. record {
            permuted = IsSwapped-IsPermutedIn (omega arith) (omega arith) (omega arith) hj s;
            ordered = ground (arith, s.at i, s.at j, c.positive);
            same = inr (ground (arith, s.at i), ground (arith, s.at j));
            others = λ k p q. ground (arith, s.at k);
          })
          (λ e. returns (record {
            permuted = IsPermutedIn-refl 0 (length xs) xs;
            ordered = ground (arith, c.positive);
            same = inl (refl, refl);
            others = λ k p q. refl;
          }))
