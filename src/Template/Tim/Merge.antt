-- ===== src/Template/Tim/Merge.antt =====
-- TIM_SORT_RESIZE and TIM_SORT_MERGE.
pub mod Parts
pub mod Left
pub mod Right
pub mod Sorts
use ksort.Base.{
  ℕ, zero, suc, ◌+◌, ◌-◌, List, Option, none, some, ◌&&◌, ltb, if◌then◌else◌, is_positive,
}
use ksort.Run.{Run, ok, fault, ◌>>=◌}
use ksort.Array.{load}
use ksort.Array.Slice.{drop}
use ksort.Template.{sort_cmp, copy_to}
use ksort.Template.Merge.{copy_words, emit}

-- `TEMP_STORAGE_T`
pub record Store : Type 0 where
  pub alloc : ℕ
  pub storage : Option (List ℕ)

unfoldable pub resize : (Option (List ℕ) → ℕ → Option (List ℕ)) → Store → ℕ → Store
resize krealloc st new_size =
    let grown : Store = record { alloc = new_size; storage = krealloc st.storage new_size } in
    elim st.storage [ none ↦ grown | some _ ↦ if ltb st.alloc new_size then grown else st ]

-- the loop of the left merge, from `k` on; the elements of the first run are in `storage`
unfoldable pub left_merge : ℕ → List ℕ → List ℕ → ℕ → ℕ → ℕ → ℕ → ℕ → Run (List ℕ)
unfolding load emit copy_to sort_cmp
left_merge zero storage xs a end i j k = ok xs
left_merge (suc rest) storage xs a end i j k =
    let from_storage =
      emit xs storage k i >>= λ ys. left_merge rest storage ys a end (i + 1) j (k + 1) in
    let from_dst = copy_to xs k j >>= λ ys. left_merge rest storage ys a end i (j + 1) (k + 1) in
    if ltb i a && ltb j end
    then (do
      x ← load storage i
      y ← load xs j
      if is_positive (sort_cmp x y) then from_dst else from_storage)
    else if ltb i a
    then from_storage
    else ok xs

-- the loop of the right merge, from `k - 1` down; the elements of the second run are in `storage`
unfoldable pub right_merge : ℕ → List ℕ → List ℕ → ℕ → ℕ → ℕ → ℕ → Run (List ℕ)
unfolding load emit copy_to sort_cmp
right_merge zero storage xs curr i j k = ok xs
right_merge (suc rest) storage xs curr i j k =
    let from_storage = emit xs storage (k - 1) (i - 1) >>= λ ys.
    right_merge rest storage ys curr (i - 1) j (k - 1) in
    let from_dst =
      copy_to xs (k - 1) (j - 1) >>= λ ys. right_merge rest storage ys curr i (j - 1) (k - 1) in
    if ltb 0 i && ltb curr j
    then (do
      x ← load xs (j - 1)
      y ← load storage (i - 1)
      if is_positive (sort_cmp x y) then from_dst else from_storage)
    else if ltb 0 i
    then from_storage
    else ok xs

-- TIM_SORT_MERGE of the runs of lengths `a` and `b` at `curr`
unfoldable pub merge_runs :
    (Option (List ℕ) → ℕ → Option (List ℕ)) → Store → List ℕ → ℕ → ℕ → ℕ → Run (Store × List ℕ)
unfolding resize copy_words left_merge right_merge
merge_runs krealloc st xs curr a b =
    let st' = resize krealloc st (if ltb a b then a else b) in
    let merged : List ℕ → Run (List ℕ) = λ storage.
      if ltb a b
      then (do
        filled ← copy_words storage 0 (drop curr xs) a
        left_merge (a + b) filled xs a (curr + a + b) 0 (curr + a) curr)
      else (do
        filled ← copy_words storage 0 (drop (curr + a) xs) b
        right_merge (a + b) filled xs curr b (curr + a) (curr + a + b)) in
    elim st'.storage [ none ↦ fault | some storage ↦ (do ys ← merged storage; ok (st', ys)) ]
