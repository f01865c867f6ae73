-- ===== src/Template/Tim/Merge/Sorts.antt =====
-- TIM_SORT_MERGE sorts two neighbouring runs, whichever of them it copies.
use ksort.Base.{
  ℕ, zero, suc, ◌+◌, ◌-◌, ◌≤◌, ◌≡◌, ◌∙◌, refl, ap, sym, List, [], ◌∷◌, ◌++◌, Option, some, none,
  arith, ltb, leb, ◌&&◌, if◌then◌else◌, true, Bool-cases, inl, inr,
}
use mathlib.Core.Option.{some-injective}
use ksort.Run.{Returns, returns, Returns-bind, Returns-map, Returns-if, ◌>>=◌}
use ksort.Array.{length, IsSortedIn, IsSortedRange}
use ksort.Array.Slice.{take, drop, slice, length-slice, length-drop, length-++, key_at-slice}
use ksort.Template.Bitonic.{value}
use ksort.Template.Merge.{copy_words}
use ksort.Template.Merge.Merged.{Merged}
use ksort.Template.Merge.Sorts.{merge-put_back}
use ksort.Template.Tim.Merge.{Store, resize, left_merge, right_merge, merge_runs}
use ksort.Template.Tim.Merge.Left.{left_merge-IsMergedFrom}
use ksort.Template.Tim.Merge.Right.{right_merge-IsMergedTo}

-- memory for as many words as `alloc` says, where there is any
abbrev pub HasRoom : Store → Type 0
HasRoom st = (words : List ℕ) → st.storage ≡ some words → st.alloc ≤ length words

-- a krealloc that always finds memory
abbrev pub Grants : (Option (List ℕ) → ℕ → Option (List ℕ)) → Type 0
Grants krealloc =
    (old : Option (List ℕ)) (n : ℕ)
    → (words : List ℕ) × (krealloc old n ≡ some words) × (n ≤ length words)

-- the storage holds the first `n` elements of a run
record IsFilled (n : ℕ) (storage xs : List ℕ) (left : ℕ) (filled : List ℕ) : Type 0 where
  size : length filled ≡ length storage
  part : slice 0 n filled ≡ slice left n xs

take-++ : (n : ℕ) (xs ys : List ℕ) → length xs ≡ n → take n (xs ++ ys) ≡ xs
take-++ zero [] ys h = refl
take-++ zero (x ∷ xs) ys h = absurd (omega arith)
take-++ (suc n) [] ys h = absurd (omega arith)
take-++ (suc n) (x ∷ xs) ys h = ap (◌∷◌ x) (take-++ n xs ys (omega arith))

copy_words-IsFilled :
    (storage xs : List ℕ) (left n : ℕ)
    → left + n ≤ length xs
    → n ≤ length storage
    → Returns (IsFilled n storage xs left) (copy_words storage 0 (drop left xs) n)
unfolding copy_words
copy_words-IsFilled storage xs left n f g =
    let fits : (leb (0 + n) (length storage) && leb n (length (drop left xs))) ≡ true =
      ground (arith, length-drop left xs) in
    let size = length-slice left n xs f in
    rw fits (
      returns (record {
        size = omega (
          arith,
          length-++ (slice left n xs) (drop (0 + n) storage),
          length-drop (0 + n) storage,
          size,
        );
        part = take-++ n (slice left n xs) (drop (0 + n) storage) size;
      }))

filled-IsSortedIn :
    (n : ℕ) (storage xs : List ℕ) (left : ℕ) (filled : List ℕ)
    → IsFilled n storage xs left filled
    → IsSortedIn value xs left (left + n)
    → IsSortedIn value filled 0 n
filled-IsSortedIn n storage xs left filled w s i j p q r =
    let at_i = sym (key_at-slice value 0 n filled i (omega arith)) in
    let at_j = sym (key_at-slice value 0 n filled j r) in
    let zero_i : 0 + i ≡ i = omega arith in
    let zero_j : 0 + j ≡ j = omega arith in
    let le = s (left + i) (left + j) (omega arith) (omega arith) (omega arith) in
    rw
      (
        rw zero_i at at_i,
        rw zero_j at at_j,
        w.part,
        key_at-slice value left n xs i (omega arith),
        key_at-slice value left n xs j r,
      )
      le

-- a storage of at least `n` words
record IsResized (n : ℕ) (st : Store) : Type 0 where
  words : List ℕ
  there : st.storage ≡ some words
  enough : n ≤ length words
  room : HasRoom st

module _ (krealloc : Option (List ℕ) → ℕ → Option (List ℕ)) (grants : Grants krealloc) (n : ℕ) where
  grown-IsResized :
      (old : Option (List ℕ)) → IsResized n (record { alloc = n; storage = krealloc old n })
  grown-IsResized old =
      let (words, e, g) = grants old n in
      record {
        words = words;
        there = e;
        enough = g;
        room = λ ws q. let same : words ≡ ws = some-injective words ws (sym e ∙ q) in rw (← same) g;
      }

  resize-IsResized :
      (alloc : ℕ) (storage : Option (List ℕ))
      → HasRoom (record { alloc = alloc; storage = storage })
      → IsResized n (resize krealloc (record { alloc = alloc; storage = storage }) n)
  unfolding resize
  resize-IsResized alloc none r = grown-IsResized none
  resize-IsResized alloc (some words) r = elim (Bool-cases (ltb alloc n)) [
    | inl h ↦ rw h (grown-IsResized (some words))
    | inr h ↦ rw h (record {
      words = words;
      there = refl;
      enough = let le = r words refl in ground arith;
      room = r;
    })
  ]

module _ (xs : List ℕ) (curr a b : ℕ) (f : curr + a + b ≤ length xs)
    (s : IsSortedIn value xs curr (curr + a))
    (t : IsSortedIn value xs (curr + a) (curr + a + b)) where
  -- the merge of both runs, written over them
  put_back-IsSortedRange :
      (m ys : List ℕ)
      → Merged (slice curr a xs) (slice (curr + a) b xs) m
      → ys ≡ take curr xs ++ (m ++ drop (curr + a + b) xs)
      → IsSortedRange value curr (curr + a + b) xs ys
  put_back-IsSortedRange m ys d e =
      let end : curr + (a + b) ≡ curr + a + b = omega arith in
      let count : a + b - a ≡ b = omega arith in
      rw (e, ← end)
        (merge-put_back xs m curr a (a + b) (omega arith) (omega arith) s (rw end t) (rw count d))

  left_merge-sorts :
      (storage : List ℕ)
      → a ≤ length storage
      → Returns (IsSortedRange value curr (curr + a + b) xs) (
          copy_words storage 0 (drop curr xs) a >>= λ filled.
          left_merge (a + b) filled xs a (curr + a + b) 0 (curr + a) curr)
  left_merge-sorts storage room =
      Returns-bind (copy_words-IsFilled storage xs curr a (omega arith) room) λ filled w.
        Returns-map
          (left_merge-IsMergedFrom filled a (curr + a + b) (omega (arith, w.size)) (a + b) xs 0
            (curr + a) curr f (omega arith) (omega arith) (omega arith) (omega arith))
          λ ys m.
            let front : a - 0 ≡ a = omega arith in
            let back : curr + a + b - (curr + a) ≡ b = omega arith in
            put_back-IsSortedRange m.merge ys (rw (front, back, w.part) at m.merged) m.written

  right_merge-sorts :
      (storage : List ℕ)
      → b ≤ length storage
      → Returns (IsSortedRange value curr (curr + a + b) xs) (
          copy_words storage 0 (drop (curr + a) xs) b >>= λ filled.
          right_merge (a + b) filled xs curr b (curr + a) (curr + a + b))
  right_merge-sorts storage room =
      Returns-bind (copy_words-IsFilled storage xs (curr + a) b f room) λ filled w.
        Returns-map
          (right_merge-IsMergedTo filled curr (a + b) xs b (curr + a) (curr + a + b)
            (omega (arith, w.size)) (omega arith) refl f (omega arith) s
            (filled-IsSortedIn b storage xs (curr + a) filled w t))
          λ ys m.
            let front : curr + a - curr ≡ a = omega arith in
            put_back-IsSortedRange m.merge ys (rw (front, w.part) at m.merged) m.written

  module _ (krealloc : Option (List ℕ) → ℕ → Option (List ℕ)) (grants : Grants krealloc) where
    -- For two ascending runs behind each other inside the array, a krealloc that finds memory and a storage as
    -- large as it says, TIM_SORT_MERGE returns with both in one ascending run, rearranged among themselves,
    -- with no other element touched, and with such a storage.
    pub merge_runs-sorts :
        (st : Store)
        → HasRoom st
        → Returns
            (λ r. HasRoom r.0 × IsSortedRange value curr (curr + a + b) xs r.1)
            (merge_runs krealloc st xs curr a b)
    unfolding merge_runs
    merge_runs-sorts st r =
        let need = if ltb a b then a else b in
        let w : IsResized need (resize krealloc st need) =
          resize-IsResized krealloc grants need st.alloc st.storage r in
        rw (merge_runs, w.there)
          (Returns-bind
            (Returns-if (ltb a b) (λ h. left_merge-sorts w.words (ground arith))
              λ h. right_merge-sorts w.words (ground arith))
            λ ys p. returns (w.room, p))
