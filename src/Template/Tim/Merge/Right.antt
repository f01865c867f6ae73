-- ===== src/Template/Tim/Merge/Right.antt =====
-- The right merge writes a merge of both runs over them, from the last element down.
use mathlib.Core.List.{append_assoc}
use ksort.Base.{
  ℕ, zero, suc, ◌+◌, ◌-◌, ◌≤◌, ◌<◌, ◌≡◌, ◌∙◌, refl, ap, sym, List, [], ◌∷◌, ◌++◌, some, arith, ltb,
  ◌&&◌, is_positive,
}
use ksort.Run.{Returns, returns, Returns-bind, Returns-map, Returns-if, ◌>>=◌}
use ksort.Array.{length, get_elem?, set, key_at, IsSortedIn}
use ksort.Array.Laws.{length-set, key_at-set}
use ksort.Array.Slice.{
  take, drop, slice, slice-snoc, slice-join, length-slice, key_at-slice, take-set_beyond,
  slice-set_beyond, drop-set_same,
}
use ksort.Template.{sort_cmp, copy_to}
use ksort.Template.Bitonic.{value}
use ksort.Template.Insertion.Find.{load-value}
use ksort.Template.Bitonic.Exchange.{sort_cmp-IsThreeWay}
use ksort.Template.Merge.{emit}
use ksort.Template.Merge.Merged.{Merged, Merged-nil, Merged-swap, Merged-snoc}
use ksort.Template.Tim.Merge.{right_merge}
use ksort.Template.Tim.Merge.Parts.{IsMoved, emit-IsMoved, copy_to-IsMoved, IsMoved-value}

-- the elements from `curr` up to `k` are a merge of `l` and `r`
pub record IsMergedTo (curr k : ℕ) (l r xs ys : List ℕ) : Type 0 where
  pub merge : List ℕ
  pub merged : Merged l r merge
  pub written : ys ≡ take curr xs ++ (merge ++ drop k xs)

-- one element more behind the merge
written-snoc :
    (curr k : ℕ) (xs ys merge : List ℕ) (v : ℕ)
    → curr ≤ k
    → k < length xs
    → ys ≡ take curr (set xs k v) ++ (merge ++ drop k (set xs k v))
    → ys ≡ take curr xs ++ ((merge ++ (v ∷ [])) ++ drop (k + 1) xs)
written-snoc curr k xs ys merge v h g e =
    e
    ∙ rw
        (
          take-set_beyond curr xs k v h,
          drop-set_same k xs v g,
          append_assoc merge (v ∷ []) (drop (k + 1) xs),
        )
        refl

part-last :
    (left n : ℕ) (xs : List ℕ) (x : ℕ)
    → 0 < n
    → get_elem? xs (left + n - 1) ≡ some x
    → slice left n xs ≡ slice left (n - 1) xs ++ (x ∷ [])
part-last left n xs x h e =
    let count : n ≡ n - 1 + 1 = omega arith in
    let place : left + n - 1 ≡ left + (n - 1) = omega arith in
    ap (λ c. slice left c xs) count ∙ slice-snoc left (n - 1) xs x (rw place at e)

-- no element of a part is above `v`
part_below :
    (left n : ℕ) (xs : List ℕ) (v : ℕ)
    → left + n ≤ length xs
    → IsSortedIn value xs left (left + n)
    → (0 < n → key_at value xs (left + n - 1) ≤ v)
    → (k : ℕ) → k < length (slice left n xs)
    → key_at value (slice left n xs) k ≤ v
part_below left n xs v f s h k b =
    let inside : k < n = omega (arith, length-slice left n xs f) in
    let last = s (left + k) (left + n - 1) (omega arith) (omega arith) (omega arith) in
    rw (key_at-slice value left n xs k inside) (omega (arith, last, h (omega arith)))

-- a write behind a part that ascends
moved-IsSortedIn :
    (xs ys from : List ℕ) (i curr j k : ℕ)
    → j ≤ k
    → k < length xs
    → IsMoved from i xs k ys
    → IsSortedIn value xs curr j
    → IsSortedIn value ys curr j
moved-IsSortedIn xs ys from i curr j k h f w s p q a b c =
    let v = w.element in
    rw w.set_to
      (ground (arith, key_at-set value xs k p v f, key_at-set value xs k q v f, s p q a b c))

module _ (storage : List ℕ) (curr : ℕ) where
  move_storage :
      (xs ys zs : List ℕ) (i j k : ℕ)
      → 0 < i
      → i ≤ length storage
      → curr ≤ j
      → k ≡ j + i
      → k ≤ length xs
      → IsSortedIn value xs curr j
      → (curr < j → key_at value xs (j - 1) ≤ key_at value storage (i - 1))
      → IsMoved storage (i - 1) xs (k - 1) ys
      → IsMergedTo curr (k - 1) (slice curr (j - curr) ys) (slice 0 (i - 1) storage) ys zs
      → IsMergedTo curr k (slice curr (j - curr) xs) (slice 0 i storage) xs zs
  move_storage xs ys zs i j k h g l e f s c w m =
      let v = w.element in
      let same = w.set_to in
      let end : curr + (j - curr) ≡ j = omega arith in
      let front : 0 + i - 1 ≡ i - 1 = omega arith in
      let next : k - 1 + 1 ≡ k = omega arith in
      let kept : slice curr (j - curr) ys ≡ slice curr (j - curr) xs =
        rw same (slice-set_beyond curr (j - curr) xs (k - 1) v (omega arith)) in
      let low =
        part_below curr (j - curr) xs v (omega arith) (rw end s)
          λ z. rw end (omega (arith, IsMoved-value w, c (omega arith))) in
      let added = Merged-swap (Merged-snoc v (Merged-swap (rw kept at m.merged)) low) in
      record {
        merge = m.merge ++ (v ∷ []);
        merged = rw (part-last 0 i storage v h (rw front w.found)) added;
        written = rw next at (
            written-snoc curr (k - 1) xs zs m.merge v (omega arith) (omega arith)
              (rw same at m.written));
      }

  move_dst :
      (xs ys zs : List ℕ) (i j k : ℕ)
      → 0 < i
      → i ≤ length storage
      → curr < j
      → k ≡ j + i
      → k ≤ length xs
      → IsSortedIn value storage 0 i
      → key_at value storage (i - 1) ≤ key_at value xs (j - 1)
      → IsMoved xs (j - 1) xs (k - 1) ys
      → IsMergedTo curr (k - 1) (slice curr (j - 1 - curr) ys) (slice 0 i storage) ys zs
      → IsMergedTo curr k (slice curr (j - curr) xs) (slice 0 i storage) xs zs
  move_dst xs ys zs i j k h g l e f s c w m =
      let v = w.element in
      let same = w.set_to in
      let end : curr + (j - curr) - 1 ≡ j - 1 = omega arith in
      let count : j - curr - 1 ≡ j - 1 - curr = omega arith in
      let all : 0 + i ≡ i = omega arith in
      let next : k - 1 + 1 ≡ k = omega arith in
      let kept : slice curr (j - 1 - curr) ys ≡ slice curr (j - 1 - curr) xs =
        rw same (slice-set_beyond curr (j - 1 - curr) xs (k - 1) v (omega arith)) in
      let low =
        part_below 0 i storage v (omega arith) (rw all s)
          λ z. rw all (omega (arith, IsMoved-value w)) in
      let added = Merged-snoc v (rw kept at m.merged) low in
      record {
        merge = m.merge ++ (v ∷ []);
        merged = rw (part-last curr (j - curr) xs v (omega arith) (rw end w.found), count) added;
        written = rw next at (
            written-snoc curr (k - 1) xs zs m.merge v (omega arith) (omega arith)
              (rw same at m.written));
      }

  -- no element of the second run is left
  rest_of_dst :
      (xs : List ℕ) (i j k : ℕ)
      → i ≡ 0
      → k ≡ j
      → curr ≤ j
      → IsMergedTo curr k (slice curr (j - curr) xs) (slice 0 i storage) xs xs
  rest_of_dst xs i j k h e l =
      let whole : curr + (j - curr) ≡ j = omega arith in
      record {
        merge = slice curr (j - curr) xs;
        merged = rw h (Merged-swap (Merged-nil (slice curr (j - curr) xs)));
        written = rw e (sym (rw whole at (slice-join curr (j - curr) xs)));
      }

  pub right_merge-IsMergedTo :
      (rest : ℕ) (xs : List ℕ) (i j k : ℕ)
      → i ≤ length storage
      → curr ≤ j
      → k ≡ j + i
      → k ≤ length xs
      → k ≤ curr + rest
      → IsSortedIn value xs curr j
      → IsSortedIn value storage 0 i
      → Returns
          (IsMergedTo curr k (slice curr (j - curr) xs) (slice 0 i storage) xs)
          (right_merge rest storage xs curr i j k)
  unfolding right_merge
  right_merge-IsMergedTo zero xs i j k g l e f h s t =
      returns (rest_of_dst xs i j k (omega arith) (omega arith) l)
  right_merge-IsMergedTo (suc rest) xs i j k g l e f h s t =
      let go_storage : 0 < i
          → (curr < j → key_at value xs (j - 1) ≤ key_at value storage (i - 1))
          → Returns (IsMergedTo curr k (slice curr (j - curr) xs) (slice 0 i storage) xs) (
              emit xs storage (k - 1) (i - 1) >>= λ ys.
              right_merge rest storage ys curr (i - 1) j (k - 1)) =
        λ z c.
          Returns-bind (emit-IsMoved xs storage (k - 1) (i - 1) (omega arith) (omega arith)) λ ys w.
            Returns-map
              (right_merge-IsMergedTo rest ys (i - 1) j (k - 1) (omega arith) l (omega arith)
                (omega (arith, length-set xs (k - 1) w.element, ap length w.set_to)) (omega arith)
                (moved-IsSortedIn xs ys storage (i - 1) curr j (k - 1) (omega arith) (omega arith) w
                  s)
                λ p q a b b'. t p q a b (omega arith))
              λ zs m. move_storage xs ys zs i j k z g l e f s c w m in
      let go_dst : 0 < i
          → curr < j
          → key_at value storage (i - 1) ≤ key_at value xs (j - 1)
          → Returns (IsMergedTo curr k (slice curr (j - curr) xs) (slice 0 i storage) xs) (
              copy_to xs (k - 1) (j - 1) >>= λ ys.
              right_merge rest storage ys curr i (j - 1) (k - 1)) =
        λ z l' c.
          Returns-bind (copy_to-IsMoved xs (k - 1) (j - 1) (omega arith) (omega arith)) λ ys w.
            Returns-map
              (right_merge-IsMergedTo rest ys i (j - 1) (k - 1) g (omega arith) (omega arith)
                (omega (arith, length-set xs (k - 1) w.element, ap length w.set_to)) (omega arith)
                (moved-IsSortedIn xs ys xs (j - 1) curr (j - 1) (k - 1) (omega arith) (omega arith)
                  w λ p q a b b'. s p q a b (omega arith))
                t)
              λ zs m. move_dst xs ys zs i j k z g l' e f t c w m in
      Returns-if (ltb 0 i && ltb curr j)
        (λ b. Returns-bind (load-value xs (j - 1) (ground arith)) λ x ex.
          Returns-bind (load-value storage (i - 1) (ground arith)) λ y ey.
            let order = sort_cmp-IsThreeWay.above x y in
            Returns-if (is_positive (sort_cmp x y))
              (λ p. go_dst (ground arith) (ground arith) (ground (arith, order)))
              λ p. go_storage (ground arith) λ l'. ground (arith, order))
        λ b.
          Returns-if (ltb 0 i) (λ b'. go_storage (ground arith) λ l'. absurd (ground arith))
            λ b'. returns (rest_of_dst xs i j k (ground arith) (ground arith) l)
