-- ===== src/Array/Hole.antt =====
-- An array with a hole: one element is held in a variable, and its place may be overwritten.
use ksort.Base.{ℕ, ◌≤◌, ◌<◌, ◌≡◌, ◌≢◌, refl, ◌∙◌, List, some, arith, ℤ}
use ksort.Run.{Returns, returns, Returns-bind, Returns-map, Returns-ok}
use ksort.Array.{length, get_elem?, set, load, store, compare_at, swap_at, IsSwapped, IsPermutedIn}
use ksort.Array.Access.{swap_at-IsSwapped}
use ksort.Array.Laws.{get_elem?-some, get_elem?-set, length-set, set-set, set-same}
use ksort.Array.Range.{IsPermutedIn-trans, IsSwapped-IsPermutedIn}

module _ {A : Type 0} where
  pub load-Returns :
      (xs : List A) (i : ℕ) → i < length xs → Returns (λ x. get_elem? xs i ≡ some x) (load xs i)
  unfolding load
  load-Returns xs i h = let (x, e) = get_elem?-some xs i h in rw e (returns refl)

  pub store-Returns :
      (xs : List A) (i : ℕ) (v : A) → i < length xs → Returns (λ ys. ys ≡ set xs i v) (store xs i v)
  unfolding store
  store-Returns xs i v h = Returns-bind (load-Returns xs i h) λ x e. returns refl

  pub compare_at-Returns :
      (cmp : A → A → ℤ) (xs : List A) (i j : ℕ)
      → i < length xs
      → j < length xs
      → Returns (λ _. Unit {0}) (compare_at cmp xs i j)
  unfolding compare_at
  compare_at-Returns cmp xs i j hi hj =
      Returns-bind (load-Returns xs i hi)
        λ x _. Returns-bind (load-Returns xs j hj) λ y _. returns tt

module _ {A : Type 0} (key : A → ℕ) where
  -- with the element put back at the hole `i`, the range is rearranged among itself
  pub record IsHoled (lo hi : ℕ) (xs ys : List A) (i : ℕ) (tmp : A) : Type 0 where
    pub size : length ys ≡ length xs
    pub low : lo ≤ i
    pub high : i < hi
    pub filled : IsPermutedIn key lo hi xs (set ys i tmp)

  -- an element is taken out
  pub take_out :
      {lo hi : ℕ} {xs ys : List A} (i : ℕ) (tmp : A)
      → IsPermutedIn key lo hi xs ys
      → lo ≤ i
      → i < hi
      → get_elem? ys i ≡ some tmp
      → IsHoled lo hi xs ys i tmp
  take_out {ys = ys} i tmp p l h e = record {
    size = p.size;
    low = l;
    high = h;
    filled = rw (set-same ys i tmp e) p;
  }

  hole-IsSwapped :
      (ys : List A) (i j : ℕ) (tmp y : A)
      → i < length ys
      → j < length ys
      → i ≢ j
      → get_elem? ys j ≡ some y
      → IsSwapped key (set ys i tmp) i j (set (set ys i y) j tmp)
  unfolding swap_at load
  hole-IsSwapped ys i j tmp y hi hj n e =
      let at_i : get_elem? (set ys i tmp) i ≡ some tmp =
        ground (arith, get_elem?-set ys i i tmp hi) in
      let at_j : get_elem? (set ys i tmp) j ≡ some y =
        ground (arith, get_elem?-set ys i j tmp hi) in
      let size = length-set ys i tmp in
      Returns-ok (
        rw (at_i, at_j, set-set ys i tmp y) at
          (swap_at-IsSwapped key (set ys i tmp) i j (omega arith) (omega arith)))

  -- the element at `j` moves into the hole, which moves to `j`
  pub move_hole :
      {lo hi i : ℕ} {xs ys : List A} {tmp : A} (j : ℕ) (y : A)
      → hi ≤ length xs
      → IsHoled lo hi xs ys i tmp
      → lo ≤ j
      → j < hi
      → i ≢ j
      → get_elem? ys j ≡ some y
      → IsHoled lo hi xs (set ys i y) j tmp
  move_hole {i = i} {ys = ys} {tmp = tmp} j y f v l h n e = record {
    size = length-set ys i y ∙ v.size;
    low = l;
    high = h;
    filled = IsPermutedIn-trans v.filled (
        IsSwapped-IsPermutedIn v.low v.high l h (
          hole-IsSwapped ys i j tmp y (omega (arith, v.size, v.high)) (omega (arith, v.size)) n e));
  }

  -- the element is put back
  pub fill_hole :
      {lo hi i : ℕ} {xs ys : List A} {tmp : A}
      → hi ≤ length xs
      → IsHoled lo hi xs ys i tmp
      → Returns (IsPermutedIn key lo hi xs) (store ys i tmp)
  fill_hole {i = i} {ys = ys} {tmp = tmp} f v =
      Returns-map (store-Returns ys i tmp (omega (arith, v.size, v.high))) λ zs e. rw e v.filled
