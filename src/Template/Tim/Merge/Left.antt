-- ===== src/Template/Tim/Merge/Left.antt =====
-- The left merge writes a merge of both runs over them.
use mathlib.Core.List.{append_assoc}
use ksort.Base.{
  ℕ, zero, suc, ◌+◌, ◌-◌, ◌≤◌, ◌<◌, ◌≡◌, ◌∙◌, ap, sym, List, [], ◌∷◌, ◌++◌, some, arith, ltb, ◌&&◌,
  is_positive,
}
use ksort.Run.{Returns, returns, Returns-bind, Returns-map, Returns-if, ◌>>=◌}
use ksort.Array.{length, get_elem?, set, key_at}
use ksort.Array.Laws.{length-set}
use ksort.Array.Slice.{take, drop, slice, slice-cons, slice-join, take-set, drop-set}
use ksort.Template.{sort_cmp, copy_to}
use ksort.Template.Bitonic.{value}
use ksort.Template.Insertion.Find.{load-value}
use ksort.Template.Bitonic.Exchange.{sort_cmp-IsThreeWay}
use ksort.Template.Merge.{emit}
use ksort.Template.Merge.Merged.{Merged, from_left, from_right, Merged-nil}
use ksort.Template.Tim.Merge.{left_merge}
use ksort.Template.Tim.Merge.Parts.{
  IsMoved, emit-IsMoved, copy_to-IsMoved, IsMoved-value, below_part,
}

-- the elements from `k` up to `end` are a merge of `l` and `r`
pub record IsMergedFrom (k end : ℕ) (l r xs ys : List ℕ) : Type 0 where
  pub merge : List ℕ
  pub merged : Merged l r merge
  pub written : ys ≡ take k xs ++ (merge ++ drop end xs)

-- one element more in front of the merge
written-cons :
    (k end : ℕ) (xs ys merge : List ℕ) (v : ℕ)
    → k < length xs
    → k < end
    → ys ≡ take (k + 1) (set xs k v) ++ (merge ++ drop end (set xs k v))
    → ys ≡ take k xs ++ ((v ∷ merge) ++ drop end xs)
written-cons k end xs ys merge v h g e =
    e
    ∙ rw (take-set k xs v h, drop-set end xs k v g)
        (append_assoc (take k xs) (v ∷ []) (merge ++ drop end xs))

part-next :
    (i n : ℕ) (xs : List ℕ) (x : ℕ)
    → i < n
    → get_elem? xs i ≡ some x
    → slice i (n - i) xs ≡ x ∷ slice (i + 1) (n - (i + 1)) xs
part-next i n xs x h e =
    let count : n - i ≡ suc (n - (i + 1)) = omega arith in
    rw count (slice-cons i (n - (i + 1)) xs x e)

module _ (storage : List ℕ) (a end : ℕ) (room : a ≤ length storage) where
  move_storage :
      (xs ys zs : List ℕ) (i j k : ℕ)
      → end ≤ length xs
      → i < a
      → k < j
      → j ≤ end
      → (j < end → key_at value storage i ≤ key_at value xs j)
      → IsMoved storage i xs k ys
      → IsMergedFrom (k + 1) end (slice (i + 1) (a - (i + 1)) storage) (slice j (end - j) ys) ys zs
      → IsMergedFrom k end (slice i (a - i) storage) (slice j (end - j) xs) xs zs
  move_storage xs ys zs i j k f h l g c w m =
      let v = w.element in
      let same = w.set_to in
      record {
        merge = v ∷ m.merge;
        merged = rw (part-next i a storage v h w.found) (
            from_left v
              (below_part j (end - j) xs v (omega arith)
                λ z. omega (arith, IsMoved-value w, c (omega arith)))
              (rw (same, drop-set j xs k v l) at m.merged));
        written =
            written-cons k end xs zs m.merge v (omega arith) (omega arith) (rw same at m.written);
      }

  move_dst :
      (xs ys zs : List ℕ) (i j k : ℕ)
      → end ≤ length xs
      → i < a
      → k < j
      → j < end
      → key_at value xs j ≤ key_at value storage i
      → IsMoved xs j xs k ys
      → IsMergedFrom (k + 1) end (slice i (a - i) storage) (slice (j + 1) (end - (j + 1)) ys) ys zs
      → IsMergedFrom k end (slice i (a - i) storage) (slice j (end - j) xs) xs zs
  move_dst xs ys zs i j k f h l g c w m =
      let v = w.element in
      let same = w.set_to in
      record {
        merge = v ∷ m.merge;
        merged = rw (part-next j end xs v g w.found) (
            from_right v
              (below_part i (a - i) storage v (omega arith) λ z. omega (arith, IsMoved-value w, c))
              (rw (same, drop-set (j + 1) xs k v (omega arith)) at m.merged));
        written =
            written-cons k end xs zs m.merge v (omega arith) (omega arith) (rw same at m.written);
      }

  -- no element of the first run is left
  rest_of_dst :
      (xs : List ℕ) (i j k : ℕ)
      → i ≡ a
      → k ≡ j
      → j ≤ end
      → IsMergedFrom k end (slice i (a - i) storage) (slice j (end - j) xs) xs xs
  rest_of_dst xs i j k h e g =
      let none_left : a - i ≡ 0 = omega arith in
      let whole : j + (end - j) ≡ end = omega arith in
      record {
        merge = slice j (end - j) xs;
        merged = rw none_left (Merged-nil (slice j (end - j) xs));
        written = rw e (sym (rw whole at (slice-join j (end - j) xs)));
      }

  pub left_merge-IsMergedFrom :
      (rest : ℕ) (xs : List ℕ) (i j k : ℕ)
      → end ≤ length xs
      → i ≤ a
      → j ≤ end
      → k + a ≡ i + j
      → end ≤ k + rest
      → Returns
          (IsMergedFrom k end (slice i (a - i) storage) (slice j (end - j) xs) xs)
          (left_merge rest storage xs a end i j k)
  unfolding left_merge
  left_merge-IsMergedFrom zero xs i j k f hi hj e h =
      returns (rest_of_dst xs i j k (omega arith) (omega arith) hj)
  left_merge-IsMergedFrom (suc rest) xs i j k f hi hj e h =
      let go_storage : i < a
          → (j < end → key_at value storage i ≤ key_at value xs j)
          → Returns (IsMergedFrom k end (slice i (a - i) storage) (slice j (end - j) xs) xs)
              (emit xs storage k i >>= λ ys. left_merge rest storage ys a end (i + 1) j (k + 1)) =
        λ l c. Returns-bind (emit-IsMoved xs storage k i (omega arith) (omega arith)) λ ys w.
          Returns-map
            (left_merge-IsMergedFrom rest ys (i + 1) j (k + 1)
              (omega (arith, length-set xs k w.element, ap length w.set_to)) (omega arith) hj
              (omega arith) (omega arith))
            λ zs m. move_storage xs ys zs i j k f l (omega arith) hj c w m in
      let go_dst : i < a
          → j < end
          → key_at value xs j ≤ key_at value storage i
          → Returns (IsMergedFrom k end (slice i (a - i) storage) (slice j (end - j) xs) xs)
              (copy_to xs k j >>= λ ys. left_merge rest storage ys a end i (j + 1) (k + 1)) =
        λ l g c. Returns-bind (copy_to-IsMoved xs k j (omega arith) (omega arith)) λ ys w.
          Returns-map
            (left_merge-IsMergedFrom rest ys i (j + 1) (k + 1)
              (omega (arith, length-set xs k w.element, ap length w.set_to)) hi (omega arith)
              (omega arith) (omega arith))
            λ zs m. move_dst xs ys zs i j k f l (omega arith) g c w m in
      Returns-if (ltb i a && ltb j end)
        (λ b. Returns-bind (load-value storage i (ground arith)) λ x ex.
          Returns-bind (load-value xs j (ground arith)) λ y ey.
            let order = sort_cmp-IsThreeWay.above x y in
            Returns-if (is_positive (sort_cmp x y))
              (λ p. go_dst (ground arith) (ground arith) (ground (arith, order)))
              λ p. go_storage (ground arith) λ l. ground (arith, order))
        λ b.
          Returns-if (ltb i a) (λ b'. go_storage (ground arith) λ l. absurd (ground arith))
            λ b'. returns (rest_of_dst xs i j k (ground arith) (ground arith) hj)
