-- ===== src/Array.antt =====
-- The array that the sorting functions are handed, as the list of its elements. An index outside
-- the array is a fault. `key_at` reads the key by which a comparator orders the elements.
pub mod Access
pub mod Hole
pub mod Laws
pub mod Range
pub mod Slice
pub mod Rearranged
use ksort.Base.{
  ℕ, zero, suc, ◌≤◌, ◌<◌, ◌≡◌, List, [], ◌∷◌, Perm, Option, none, some, ℤ, ◌==◌, ltb, if◌then◌else◌,
  Bool, is_negative, is_positive, is_nonzero,
}
use ksort.Run.{Run, ok, ◌>>=◌, or_fault, Returns}

module _ {A : Type 0} where
  abbrev pub length : List A → ℕ
  length [] = 0
  length (x ∷ xs) = suc (length xs)

  abbrev pub get_elem? : List A → ℕ → Option A
  get_elem? [] i = none
  get_elem? (x ∷ xs) zero = some x
  get_elem? (x ∷ xs) (suc i) = get_elem? xs i

  abbrev pub set : List A → ℕ → A → List A
  set [] i v = []
  set (x ∷ xs) zero v = v ∷ xs
  set (x ∷ xs) (suc i) v = x ∷ set xs i v

  -- a read of element `i`
  unfoldable pub load : List A → ℕ → Run A
  load xs i = or_fault (get_elem? xs i)

  -- a write of element `i`
  unfoldable pub store : List A → ℕ → A → Run (List A)
  unfolding load
  store xs i v = load xs i >>= λ _. ok (set xs i v)

  -- a call of the comparator on elements `i` and `j`
  unfoldable pub compare_at : (A → A → ℤ) → List A → ℕ → ℕ → Run ℤ
  unfolding load
  compare_at cmp xs i j = do x ← load xs i; y ← load xs j; ok (cmp x y)

  -- an exchange of elements `i` and `j`
  unfoldable pub swap_at : List A → ℕ → ℕ → Run (List A)
  unfolding load
  swap_at xs i j = do x ← load xs i; y ← load xs j; ok (set (set xs i y) j x)

  -- the key of element `i`, and 0 outside the array
  unfoldable pub key_at : (A → ℕ) → List A → ℕ → ℕ
  key_at key [] i = 0
  key_at key (x ∷ xs) zero = key x
  key_at key (x ∷ xs) (suc i) = key_at key xs i

  -- A three-way comparator orders the elements by `key`.
  pub record IsThreeWay (key : A → ℕ) (cmp : A → A → ℤ) : Type 0 where
    pub below : (x y : A) → is_negative (cmp x y) ≡ ltb (key x) (key y)
    pub above : (x y : A) → is_positive (cmp x y) ≡ ltb (key y) (key x)

  -- A comparator is a strict order test: it is true exactly where the first key is less.
  abbrev pub IsLess : (A → ℕ) → (A → A → ℤ) → Type 0
  IsLess key cmp = (x y : A) → is_nonzero (cmp x y) ≡ ltb (key x) (key y)

  -- `ys` is `xs` with elements `i` and `j` exchanged.
  pub record IsSwapped (key : A → ℕ) (xs : List A) (i j : ℕ) (ys : List A) : Type 0 where
    pub size : length ys ≡ length xs
    pub perm : Perm ys xs
    pub at :
        (k : ℕ)
        → key_at key ys k ≡ (
            if j == k then key_at key xs i else if i == k then key_at key xs j else key_at key xs k)

  -- The elements from `lo` up to `hi` ascend.
  abbrev pub IsSortedIn : (A → ℕ) → List A → ℕ → ℕ → Type 0
  IsSortedIn key xs lo hi = (i j : ℕ) → lo ≤ i → i ≤ j → j < hi → key_at key xs i ≤ key_at key xs j

  -- `ys` holds the elements of `xs`, in ascending order.
  abbrev pub IsSortOf : (A → ℕ) → List A → List A → Type 0
  IsSortOf key xs ys = Perm ys xs × IsSortedIn key ys 0 (length ys)

  -- a swap function exchanges two elements of the array
  abbrev pub IsSwapFunc : (A → ℕ) → (List A → ℕ → ℕ → Run (List A)) → Type 0
  IsSwapFunc key swap =
      (xs : List A) (i j : ℕ)
      → i < length xs
      → j < length xs
      → Returns (IsSwapped key xs i j) (swap xs i j)

  -- `ys` is `xs` with its first `n` elements rearranged among themselves.
  pub record IsRearranged (key : A → ℕ) (n : ℕ) (xs ys : List A) : Type 0 where
    pub size : length ys ≡ length xs
    pub perm : Perm ys xs
    pub beyond : (k : ℕ) → n ≤ k → key_at key ys k ≡ key_at key xs k
    pub within : (k : ℕ) → k < n → (m : ℕ) × (m < n) × (key_at key ys k ≡ key_at key xs m)

  -- `ys` is `xs` with the elements from `lo` up to `hi` rearranged among themselves.
  pub record IsPermutedIn (key : A → ℕ) (lo hi : ℕ) (xs ys : List A) : Type 0 where
    pub size : length ys ≡ length xs
    pub perm : Perm ys xs
    pub before : (k : ℕ) → k < lo → key_at key ys k ≡ key_at key xs k
    pub beyond : (k : ℕ) → hi ≤ k → key_at key ys k ≡ key_at key xs k
    pub within :
        (k : ℕ)
        → lo ≤ k
        → k < hi
        → (m : ℕ) × (lo ≤ m) × (m < hi) × (key_at key ys k ≡ key_at key xs m)

  -- the elements from `lo` up to `hi` are rearranged into ascending order, and no other is touched
  abbrev pub IsSortedRange : (A → ℕ) → ℕ → ℕ → List A → List A → Type 0
  IsSortedRange key lo hi xs ys = IsPermutedIn key lo hi xs ys × IsSortedIn key ys lo hi
