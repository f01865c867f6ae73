-- ===== src/Heap/Index/Order.antt =====
-- The heap order, and the path of larger children along which an element sinks.
use ksort.Base.{ℕ, ◌≤◌, ◌<◌, ◌≡◌, ◌≢◌, refl, List, arith}
use ksort.Array.{key_at}
use ksort.Heap.Index.{up}

module _ {A : Type 0} (key : A → ℕ) where
  -- among the first `n` elements, no child of a node from `lo` on is above its parent
  abbrev pub IsHeapFrom : ℕ → ℕ → List A → Type 0
  IsHeapFrom lo n xs = (k : ℕ) → 0 < k → k < n → lo ≤ up k → key_at key xs k ≤ key_at key xs (up k)

  -- `m` is a child of `p`, and no child of `p` is above it
  pub record IsMaxChild (xs : List A) (n p m : ℕ) : Type 0 where
    pub inside : m < n
    pub positive : 0 < m
    pub child : up m ≡ p
    pub most : (k : ℕ) → 0 < k → k < n → up k ≡ p → key_at key xs k ≤ key_at key xs m

  -- the larger children lead from `r` down to `j`
  pub data IsPath (xs : List A) (n r : ℕ) : ℕ → Type 0 where
    start : IsPath xs n r r
    down : {p m : ℕ} → IsPath xs n r p → IsMaxChild xs n p m → IsPath xs n r m

  pub IsPath-le : {xs : List A} {n r j : ℕ} → IsPath xs n r j → r ≤ j
  IsPath-le start = omega arith
  IsPath-le (down p m) = omega (arith, IsPath-le p, m.child, m.positive)

  pub IsPath-lt : {xs : List A} {n r j : ℕ} → r < n → IsPath xs n r j → j < n
  IsPath-lt h start = h
  IsPath-lt h (down p m) = m.inside

  -- the last step of a path that leaves its start
  pub IsPath-last :
      {xs : List A} {n r j : ℕ}
      → IsPath xs n r j
      → r ≢ j
      → IsPath xs n r (up j) × IsMaxChild xs n (up j) j
  IsPath-last start h = absurd (h refl)
  IsPath-last {xs} {n} {r} (down {m = m} p c) h = rw c.child (p, c)

  -- a path depends only on the elements whose parents stand above its end
  pub IsPath-kept :
      {xs ys : List A} {n r j : ℕ}
      → IsPath xs n r j
      → ((k : ℕ) → 0 < k → up k < j → key_at key ys k ≡ key_at key xs k)
      → IsPath ys n r j
  IsPath-kept start h = start
  IsPath-kept (down {p = p} {m = m} path c) h =
      down (IsPath-kept path λ k a b. h k a (omega (arith, c.child, c.positive))) (record {
        inside = c.inside;
        positive = c.positive;
        child = c.child;
        most = λ k a b e. omega (
          arith,
          c.most k a b e,
          h k a (omega (arith, c.child, c.positive)),
          h m c.positive (omega (arith, c.child, c.positive)),
        );
      })
