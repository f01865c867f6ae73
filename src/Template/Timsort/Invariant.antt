-- ===== src/Template/Timsort/Invariant.antt =====
-- The runs on the stack of TIM_SORT cover the front of the array, and a merge keeps them so.
use ksort.Base.{ℕ, ◌+◌, ◌≤◌, ◌<◌, ◌≡◌, List, [], ◌∷◌, Option, arith}
use ksort.Run.{Returns, returns, Returns-bind, Returns-map}
use ksort.Array.{length, key_at, IsPermutedIn, IsSortedIn, IsSortedRange}
use ksort.Array.Range.{IsPermutedIn-trans, IsPermutedIn-widen}
use ksort.Template.Bitonic.{value}
use ksort.Template.Tim.{merge_entries, merge_all}
use ksort.Template.Tim.Merge.{Store}
use ksort.Template.Tim.Merge.Sorts.{HasRoom, Grants, merge_runs-sorts}
use ksort.Template.Tim.Stack.{RunEntry}

-- the entries are ascending runs, not empty, one behind the other from 0 up to `end`
abbrev pub Runs : List ℕ → List RunEntry → ℕ → Type 0
Runs dst [] end = end ≡ 0
Runs dst (e ∷ rest) end =
    (e.start + e.length ≡ end)
    × (0 < e.length)
    × IsSortedIn value dst e.start end
    × Runs dst rest e.start

-- a change behind the runs
pub Runs-before :
    (xs ys : List ℕ) (stack : List RunEntry) (end : ℕ)
    → ((k : ℕ) → k < end → key_at value ys k ≡ key_at value xs k)
    → Runs xs stack end
    → Runs ys stack end
Runs-before xs ys [] end h r = r
Runs-before xs ys (e ∷ rest) end h (sum, z, s, r) = (
  sum,
  z,
  λ i j p q u. omega (arith, s i j p q u, h i (omega arith), h j u),
  Runs-before xs ys rest e.start (λ k l. h k (omega arith)) r,
)

pub record IsTim (xs : List ℕ) (size end : ℕ) (store : Store) (dst : List ℕ) (stack : List RunEntry)
    : Type 0 where
  pub room : HasRoom store
  pub permuted : IsPermutedIn value 0 size xs dst
  pub runs : Runs dst stack end

module _ (krealloc : Option (List ℕ) → ℕ → Option (List ℕ)) (grants : Grants krealloc) (xs : List ℕ)
    (size : ℕ) (fits : size ≤ length xs) where
  -- what a merge of two neighbouring runs leaves
  record IsJoined (c : RunEntry) (end : ℕ) (dst : List ℕ) (rest : List RunEntry)
      (r : Store × List ℕ × RunEntry) : Type 0 where
    room : HasRoom r.0
    kept : IsSortedRange value c.start end dst r.1
    runs : Runs r.1 (r.2 ∷ rest) end

  merge_entries-IsJoined :
      (end : ℕ) (st : Store) (dst : List ℕ) (d c : RunEntry) (rest : List RunEntry)
      → end ≤ length dst
      → HasRoom st
      → Runs dst (d ∷ c ∷ rest) end
      → Returns (IsJoined c end dst rest) (merge_entries krealloc st dst c d)
  unfolding merge_entries
  merge_entries-IsJoined end st dst d c rest h room (sum_d, z_d, s_d, (sum_c, z_c, s_c, runs)) =
      let whole : c.start + c.length + d.length ≡ end = omega arith in
      Returns-bind
        (merge_runs-sorts dst c.start c.length d.length (omega arith) (rw sum_c s_c)
          (rw (sum_c, sum_d) s_d) krealloc grants st room)
        λ r m.
          let kept : IsSortedRange value c.start end dst r.1 = rw whole at m.1 in
          returns (record {
            room = m.0;
            kept = kept;
            runs = (
              omega arith,
              omega arith,
              kept.1,
              Runs-before dst r.1 rest c.start kept.0.before runs,
            );
          })

  -- a merge of the last two runs
  pub merge_entries-last :
      (end : ℕ) (st : Store) (dst : List ℕ) (d c : RunEntry) (rest : List RunEntry)
      → end ≤ size
      → IsTim xs size end st dst (d ∷ c ∷ rest)
      → Returns (λ r. IsTim xs size end r.0 r.1 (r.2 ∷ rest)) (merge_entries krealloc st dst c d)
  merge_entries-last end st dst d c rest h t =
      Returns-map
        (merge_entries-IsJoined end st dst d c rest (omega (arith, t.permuted.size)) t.room t.runs)
        λ r m. record {
          room = m.room;
          permuted = IsPermutedIn-trans t.permuted (IsPermutedIn-widen (omega arith) h m.kept.0);
          runs = m.runs;
        }

  -- a merge of the two runs in front of the last
  pub merge_entries-under :
      (end : ℕ) (st : Store) (dst : List ℕ) (d c b : RunEntry) (rest : List RunEntry)
      → end ≤ size
      → IsTim xs size end st dst (d ∷ c ∷ b ∷ rest)
      → Returns
          (λ r. IsTim xs size end r.0 r.1 (d ∷ r.2 ∷ rest))
          (merge_entries krealloc st dst b c)
  merge_entries-under end st dst d c b rest h t =
      let (sum, z, s, runs) = t.runs in
      Returns-map
        (merge_entries-IsJoined d.start st dst c b rest (omega (arith, t.permuted.size)) t.room
          runs)
        λ r m. record {
          room = m.room;
          permuted =
              IsPermutedIn-trans t.permuted
                (IsPermutedIn-widen (omega arith) (omega arith) m.kept.0);
          runs = (
            sum,
            z,
            λ i j p q u.
                omega (arith, s i j p q u, m.kept.0.beyond i p, m.kept.0.beyond j (omega arith)),
            m.runs,
          );
        }

  -- the merges that end the sort
  pub merge_all-sorts :
      (end : ℕ) (st : Store) (dst : List ℕ) (e : RunEntry) (rest : List RunEntry)
      → end ≤ size
      → IsTim xs size end st dst (e ∷ rest)
      → Returns
          (λ r. IsPermutedIn value 0 size xs r.1 × IsSortedIn value r.1 0 end)
          (merge_all krealloc st dst e rest)
  unfolding merge_all
  merge_all-sorts end st dst e [] h t =
      let (sum, z, s, none_left) = t.runs in returns (t.permuted, rw (← none_left) s)
  merge_all-sorts end st dst e (a ∷ rest) h t =
      Returns-bind (merge_entries-last end st dst e a rest h t)
        λ r t'. merge_all-sorts end r.0 r.1 r.2 rest h t'
