-- ===== src/Array/Slice.antt =====
-- A part of an array, by a pointer into it: the code that gets the pointer works on the part, which is
-- then put back.
use mathlib.Core.List.Perm
use ksort.Base.{
  ℕ, zero, suc, ◌+◌, ◌-◌, ◌≤◌, ◌<◌, ◌≡◌, refl, ap, ◌∙◌, sym, List, [], ◌∷◌, ◌++◌, some, arith, ltb,
  if◌then◌else◌,
}
use ksort.Run.{Run, ok, ◌>>=◌, Returns, returns, Returns-bind}
use mathlib.Core.Option.{some-injective}
use ksort.Array.{length, get_elem?, set, key_at, IsSortedRange}

module _ {A : Type 0} where
  abbrev pub take : ℕ → List A → List A
  take zero xs = []
  take (suc n) [] = []
  take (suc n) (x ∷ xs) = x ∷ take n xs

  abbrev pub drop : ℕ → List A → List A
  drop zero xs = xs
  drop (suc n) [] = []
  drop (suc n) (x ∷ xs) = drop n xs

  -- the `n` elements from `left` on
  abbrev pub slice : ℕ → ℕ → List A → List A
  slice left n xs = take n (drop left xs)

  -- a call on a pointer to element `left`, for `n` elements
  unfoldable pub on_slice : (List A → ℕ → Run (List A)) → List A → ℕ → ℕ → Run (List A)
  on_slice call xs left n = do
    part ← call (slice left n xs) n
    ok (take left xs ++ (part ++ drop (left + n) xs))

  pub length-take : (n : ℕ) (xs : List A) → n ≤ length xs → length (take n xs) ≡ n
  length-take zero xs h = refl
  length-take (suc n) [] h = absurd (omega arith)
  length-take (suc n) (x ∷ xs) h = ap suc (length-take n xs (omega arith))

  pub length-drop : (n : ℕ) (xs : List A) → length (drop n xs) ≡ length xs - n
  length-drop zero xs = omega arith
  length-drop (suc n) [] = omega arith
  length-drop (suc n) (x ∷ xs) = omega (arith, length-drop n xs)

  pub length-slice :
      (left n : ℕ) (xs : List A) → left + n ≤ length xs → length (slice left n xs) ≡ n
  length-slice left n xs h = length-take n (drop left xs) (omega (arith, length-drop left xs))

  pub length-++ : (xs ys : List A) → length (xs ++ ys) ≡ length xs + length ys
  length-++ [] ys = omega arith
  length-++ (x ∷ xs) ys = omega (arith, length-++ xs ys)

  pub take-++-drop : (n : ℕ) (xs : List A) → take n xs ++ drop n xs ≡ xs
  take-++-drop zero xs = refl
  take-++-drop (suc n) [] = refl
  take-++-drop (suc n) (x ∷ xs) = ap (◌∷◌ x) (take-++-drop n xs)

  drop-nil : (n : ℕ) → drop n [] ≡ []
  drop-nil zero = refl
  drop-nil (suc n) = refl

  drop-drop : (left n : ℕ) (xs : List A) → drop n (drop left xs) ≡ drop (left + n) xs
  drop-drop zero n xs = let e : 0 + n ≡ n = omega arith in rw e refl
  drop-drop (suc left) n [] = drop-nil n ∙ sym (drop-nil (suc left + n))
  drop-drop (suc left) n (x ∷ xs) =
      let e : suc left + n ≡ suc (left + n) = omega arith in rw e (drop-drop left n xs)

  -- an array is its front, a slice and its back
  pub slice-join :
      (left n : ℕ) (xs : List A) → take left xs ++ (slice left n xs ++ drop (left + n) xs) ≡ xs
  slice-join left n xs =
      rw (← drop-drop left n xs, take-++-drop n (drop left xs)) (take-++-drop left xs)

  -- the first element of a slice
  pub slice-cons :
      (left n : ℕ) (xs : List A) (x : A)
      → get_elem? xs left ≡ some x
      → slice left (suc n) xs ≡ x ∷ slice (left + 1) n xs
  slice-cons left n [] x e = absurd (ground arith)
  slice-cons zero n (y ∷ xs) x e = let same : y ≡ x = some-injective y x e in rw same refl
  slice-cons (suc left) n (y ∷ xs) x e =
      let next : suc left + 1 ≡ suc (left + 1) = omega arith in rw next (slice-cons left n xs x e)

  take-nil : (n : ℕ) → take n [] ≡ []
  take-nil zero = refl
  take-nil (suc n) = refl

  take-add : (n m : ℕ) (xs : List A) → take (n + m) xs ≡ take n xs ++ take m (drop n xs)
  take-add zero m xs = let e : 0 + m ≡ m = omega arith in rw e refl
  take-add (suc n) m [] = rw (take-nil m, take-nil (suc n + m)) refl
  take-add (suc n) m (x ∷ xs) =
      let e : suc n + m ≡ suc (n + m) = omega arith in rw e (ap (◌∷◌ x) (take-add n m xs))

  -- a slice and the one behind it
  pub slice-++ :
      (left n m : ℕ) (xs : List A)
      → slice left (n + m) xs ≡ slice left n xs ++ slice (left + n) m xs
  slice-++ left n m xs = take-add n m (drop left xs) ∙ rw (drop-drop left n xs) refl

  -- a write behind the front
  pub take-set :
      (k : ℕ) (xs : List A) (v : A)
      → k < length xs
      → take (k + 1) (set xs k v) ≡ take k xs ++ (v ∷ [])
  take-set k [] v h = absurd (omega arith)
  take-set zero (x ∷ xs) v h = refl
  take-set (suc k) (x ∷ xs) v h =
      let e : suc k + 1 ≡ suc (k + 1) = omega arith in
      rw e (ap (◌∷◌ x) (take-set k xs v (omega arith)))

  -- a write in front of the rest of an array
  pub drop-set : (n : ℕ) (xs : List A) (k : ℕ) (v : A) → k < n → drop n (set xs k v) ≡ drop n xs
  drop-set zero xs k v h = absurd (omega arith)
  drop-set (suc n) [] k v h = refl
  drop-set (suc n) (x ∷ xs) zero v h = refl
  drop-set (suc n) (x ∷ xs) (suc k) v h = drop-set n xs k v (omega arith)

  -- a write at the first element of the rest
  pub drop-set_same :
      (k : ℕ) (xs : List A) (v : A) → k < length xs → drop k (set xs k v) ≡ v ∷ drop (k + 1) xs
  drop-set_same k [] v h = absurd (omega arith)
  drop-set_same zero (x ∷ xs) v h = refl
  drop-set_same (suc k) (x ∷ xs) v h =
      let e : suc k + 1 ≡ suc (k + 1) = omega arith in rw e (drop-set_same k xs v (omega arith))

  pub take-set_beyond :
      (n : ℕ) (xs : List A) (k : ℕ) (v : A) → n ≤ k → take n (set xs k v) ≡ take n xs
  take-set_beyond zero xs k v h = refl
  take-set_beyond (suc n) [] k v h = refl
  take-set_beyond (suc n) (x ∷ xs) zero v h = absurd (omega arith)
  take-set_beyond (suc n) (x ∷ xs) (suc k) v h = ap (◌∷◌ x) (take-set_beyond n xs k v (omega arith))

  -- a write behind a slice
  pub slice-set_beyond :
      (left n : ℕ) (xs : List A) (k : ℕ) (v : A)
      → left + n ≤ k
      → slice left n (set xs k v) ≡ slice left n xs
  slice-set_beyond zero n xs k v h = take-set_beyond n xs k v (omega arith)
  slice-set_beyond (suc left) n [] k v h = refl
  slice-set_beyond (suc left) n (x ∷ xs) zero v h = absurd (omega arith)
  slice-set_beyond (suc left) n (x ∷ xs) (suc k) v h = slice-set_beyond left n xs k v (omega arith)

  -- the last element of a slice
  pub slice-snoc :
      (left n : ℕ) (xs : List A) (x : A)
      → get_elem? xs (left + n) ≡ some x
      → slice left (n + 1) xs ≡ slice left n xs ++ (x ∷ [])
  slice-snoc left n xs x e =
      slice-++ left n 1 xs ∙ ap (λ r. slice left n xs ++ r) (slice-cons (left + n) 0 xs x e)

  module _ (key : A → ℕ) where
    pub key_at-++ :
        (xs ys : List A) (k : ℕ)
        → key_at key (xs ++ ys) k
          ≡ (if ltb k (length xs) then key_at key xs k else key_at key ys (k - length xs))
    unfolding key_at
    key_at-++ [] ys k = ground arith
    key_at-++ (x ∷ xs) ys zero = ground arith
    key_at-++ (x ∷ xs) ys (suc k) = ground (arith, key_at-++ xs ys k)

    pub key_at-take :
        (n : ℕ) (xs : List A) (k : ℕ) → k < n → key_at key (take n xs) k ≡ key_at key xs k
    unfolding key_at
    key_at-take zero xs k h = absurd (omega arith)
    key_at-take (suc n) [] k h = refl
    key_at-take (suc n) (x ∷ xs) zero h = refl
    key_at-take (suc n) (x ∷ xs) (suc k) h = key_at-take n xs k (omega arith)

    pub key_at-drop :
        (n : ℕ) (xs : List A) (k : ℕ) → key_at key (drop n xs) k ≡ key_at key xs (n + k)
    unfolding key_at
    key_at-drop zero xs k = let e : 0 + k ≡ k = omega arith in rw e refl
    key_at-drop (suc n) [] k = refl
    key_at-drop (suc n) (x ∷ xs) k =
        let e : suc n + k ≡ suc (n + k) = omega arith in rw e (key_at-drop n xs k)

    pub key_at-slice :
        (left n : ℕ) (xs : List A) (k : ℕ)
        → k < n
        → key_at key (slice left n xs) k ≡ key_at key xs (left + k)
    key_at-slice left n xs k h = key_at-take n (drop left xs) k h ∙ key_at-drop left xs k

    module _ (xs part : List A) (left n : ℕ) (f : left + n ≤ length xs)
        (size : length part ≡ n) where
      -- the elements of an array with a part put back
      pub key_at-put_back :
          (k : ℕ)
          → key_at key (take left xs ++ (part ++ drop (left + n) xs)) k ≡ (
              if ltb k left
              then key_at key xs k
              else if ltb k (left + n)
              then key_at key part (k - left)
              else key_at key xs k)
      key_at-put_back k =
          let front = length-take left xs (omega arith) in
          ground (
            arith,
            key_at-++ (take left xs) (part ++ drop (left + n) xs) k,
            key_at-++ part (drop (left + n) xs) (k - left),
            key_at-take left xs k,
            key_at-drop (left + n) xs (k - left - n),
          )

      -- a sorted slice is a sorted range
      pub slice-IsSortedRange :
          IsSortedRange key 0 n (slice left n xs) part
          → IsSortedRange key left (left + n) xs (take left xs ++ (part ++ drop (left + n) xs))
      slice-IsSortedRange s = (
        record {
          size = omega (
            arith,
            length-++ (take left xs) (part ++ drop (left + n) xs),
            length-++ part (drop (left + n) xs),
            length-take left xs (omega arith),
            length-drop (left + n) xs,
          );
          perm =
              rw (slice-join left n xs) at
                (Perm.append_left (take left xs) (Perm.append_right (drop (left + n) xs) s.0.perm));
          before = λ k h. ground (arith, key_at-put_back k);
          beyond = λ k h. ground (arith, key_at-put_back k);
          within = λ k h h'.
              let (m, lo, hi, e) = s.0.within (k - left) (omega arith) (omega arith) in
              (
                left + m,
                omega arith,
                omega arith,
                ground (arith, key_at-put_back k, key_at-slice left n xs m hi),
              );
        },
        λ i j p q r.
            ground (arith, key_at-put_back i, key_at-put_back j, s.1 (i - left) (j - left)),
      )

    -- a call that sorts its array sorts a range
    pub on_slice-IsSortedRange :
        (call : List A → ℕ → Run (List A)) (xs : List A) (left n : ℕ)
        → left + n ≤ length xs
        → Returns (IsSortedRange key 0 n (slice left n xs)) (call (slice left n xs) n)
        → Returns (IsSortedRange key left (left + n) xs) (on_slice call xs left n)
    unfolding on_slice
    on_slice-IsSortedRange call xs left n f r = Returns-bind r λ part s.
        let size : length part ≡ n = s.0.size ∙ length-slice left n xs f in
        returns (slice-IsSortedRange xs part left n f size s)
