-- ===== src/Template/Quick/Partition.antt =====
-- QUICK_SORT_PARTITION splits its range around the pivot, and tells when all elements are the same.
use ksort.Base.{
  ℕ, zero, suc, ℤ, pos, negsuc, ◌+◌, ◌-◌, ◌≤◌, ◌<◌, ◌≡◌, ◌≢◌, ◌⊎◌, inl, inr, refl, List, Bool, true,
  false, ◌||◌, arith, is_negative, is_nonzero,
}
use ksort.Words.{word}
use ksort.Run.{Returns, returns, Returns-bind, Returns-if}
use ksort.Array.{length, key_at, IsPermutedIn, IsSwapped, IsSortedRange}
use ksort.Array.Access.{swap_at-IsSwapped}
use ksort.Array.Range.{IsPermutedIn-trans, IsSwapped-IsPermutedIn}
use ksort.Pdqsort.Partition.Right.{IsPivoted}
use ksort.Template.{sort_cmp}
use ksort.Template.Bitonic.{value}
use ksort.Template.Insertion.Find.{load-value, below_cmp}
use ksort.Template.Quick.{partition_loop, quick_partition, size_max}

nonzero_cmp : (x y : ℕ) → is_nonzero (sort_cmp x y) ≡ false → x ≡ y
unfolding sort_cmp
nonzero_cmp x y h = ground arith

negative_nonzero : (z : ℤ) → is_negative z ≡ true → is_nonzero z ≡ true
negative_nonzero (pos n) h = ground arith
negative_nonzero (negsuc n) h = refl

-- the elements in front of `index` are below `v`, those from there up to `i` are not, and unless `seen`
-- all are `v`
record IsSplit (left right : ℕ) (xs ys : List ℕ) (v i index : ℕ) (seen : Bool) : Type 0 where
  permuted : IsPermutedIn value left (right + 1) xs ys
  low : left ≤ index
  high : index ≤ i
  front : (k : ℕ) → left ≤ k → k < index → key_at value ys k < v
  back : (k : ℕ) → index ≤ k → k < i → v ≤ key_at value ys k
  pivot : key_at value ys right ≡ v
  same : seen ≡ false → (k : ℕ) → left ≤ k → k < i → key_at value ys k ≡ v

swap_IsSplit :
    (left right : ℕ) (xs ys zs : List ℕ) (v i index : ℕ) (seen seen' : Bool)
    → seen' ≡ true
    → i < right
    → IsSplit left right xs ys v i index seen
    → key_at value ys i < v
    → IsSwapped value ys i index zs
    → IsSplit left right xs zs v (i + 1) (index + 1) seen'
swap_IsSplit left right xs ys zs v i index seen seen' t h p lt s = record {
  permuted = IsPermutedIn-trans p.permuted (
      IsSwapped-IsPermutedIn (omega (arith, p.low, p.high)) (omega arith) p.low
        (omega (arith, p.high)) s);
  low = omega (arith, p.low);
  high = omega (arith, p.high);
  front = λ k a b. ground (arith, s.at k, p.front k, p.high, p.low);
  back = λ k a b. ground (arith, s.at k, p.back k, p.back index, p.high, p.low);
  pivot = ground (arith, s.at right, p.pivot, p.high);
  same = λ e. absurd (ground arith);
}

keep_IsSplit :
    (left right : ℕ) (xs ys : List ℕ) (v i index : ℕ) (seen : Bool) (x : ℕ)
    → x ≡ key_at value ys i
    → IsSplit left right xs ys v i index seen
    → v ≤ x
    → IsSplit left right xs ys v (i + 1) index (seen || is_nonzero (sort_cmp x v))
keep_IsSplit left right xs ys v i index seen x e p le = record {
  permuted = p.permuted;
  low = p.low;
  high = omega (arith, p.high);
  front = p.front;
  back = λ k a b. ground (arith, p.back k);
  pivot = p.pivot;
  same = λ f k a b.
      let before : seen ≡ false = ground arith in
      let now : is_nonzero (sort_cmp x v) ≡ false = ground arith in
      ground (arith, p.same before k a, nonzero_cmp x v now);
}

partition_loop-IsSplit :
    (left right rest : ℕ) (xs ys : List ℕ) (v i index : ℕ) (seen : Bool)
    → right < length xs
    → i + rest ≡ right
    → IsSplit left right xs ys v i index seen
    → Returns
        (λ r. IsSplit left right xs r.0 v right r.1 r.2)
        (partition_loop rest ys v i index seen)
unfolding partition_loop
partition_loop-IsSplit left right zero xs ys v i index seen f e p =
    let done : i ≡ right = omega arith in returns (rw done at p)
partition_loop-IsSplit left right (suc rest) xs ys v i index seen f e p =
    Returns-bind (load-value ys i (omega (arith, p.permuted.size))) λ x ex.
      Returns-if (is_negative (sort_cmp x v))
        (λ b.
          let lt : key_at value ys i < v = ground (arith, below_cmp x v) in
          Returns-bind
            (swap_at-IsSwapped value ys i index (omega (arith, p.permuted.size))
              (omega (arith, p.permuted.size, p.high)))
            λ zs s.
              partition_loop-IsSplit left right rest xs zs v (i + 1) (index + 1) _ f (omega arith) (
                swap_IsSplit left right xs ys zs v i index seen _
                  (ground (arith, negative_nonzero (sort_cmp x v))) (omega arith) p lt s))
        λ b.
          partition_loop-IsSplit left right rest xs ys v (i + 1) index _ f (omega arith)
            (keep_IsSplit left right xs ys v i index seen x ex p (ground (arith, below_cmp x v)))

-- the elements are all the same and the range is left as it is sorted, or it is split around `m`
abbrev pub IsQuickSplit : ℕ → ℕ → List ℕ → List ℕ → ℕ → Type 0
IsQuickSplit left right xs ys m =
    (m ≡ size_max) × IsSortedRange value left (right + 1) xs ys
    ⊎ (m ≢ size_max) × IsPivoted value left (right + 1) xs ys m

split_end :
    (left right : ℕ) (xs ys zs : List ℕ) (v index : ℕ) (seen : Bool)
    → left < right
    → IsSplit left right xs ys v right index seen
    → IsSwapped value ys right index zs
    → IsPivoted value left (right + 1) xs zs index
split_end left right xs ys zs v index seen h p s = record {
  kept =
      IsPermutedIn-trans p.permuted
        (IsSwapped-IsPermutedIn (omega arith) (omega arith) p.low (omega (arith, p.high)) s);
  low = p.low;
  high = omega (arith, p.high);
  front = λ k a b. ground (arith, s.at k, s.at index, p.front k, p.pivot, p.high);
  rear = λ k a b. ground (arith, s.at k, s.at index, p.back k, p.back index, p.pivot, p.high);
}

same_end :
    (left right : ℕ) (xs ys zs : List ℕ) (v index : ℕ)
    → left < right
    → IsSplit left right xs ys v right index false
    → IsSwapped value ys right index zs
    → IsSortedRange value left (right + 1) xs zs
same_end left right xs ys zs v index h p s =
    let whole = split_end left right xs ys zs v index false h p s in
    (
      whole.kept,
      λ i j a b c. ground (
        arith,
        s.at i,
        s.at j,
        p.same refl i,
        p.same refl j,
        p.same refl index,
        p.pivot,
        p.low,
        p.high,
      ),
    )

-- For ends and a pivot inside the array, QUICK_SORT_PARTITION returns with the range rearranged: split
-- around the position that it returns, or sorted, where it returns SIZE_MAX.
pub quick_partition-IsQuickSplit :
    (xs : List ℕ) (left right pivot : ℕ)
    → left < right
    → left ≤ pivot
    → pivot ≤ right
    → right < length xs
    → length xs < word
    → Returns (λ r. IsQuickSplit left right xs r.0 r.1) (quick_partition xs left right pivot)
unfolding quick_partition
quick_partition-IsQuickSplit xs left right pivot h lo hi f w =
    Returns-bind (load-value xs pivot (omega arith)) λ v ev.
      Returns-bind (swap_at-IsSwapped value xs pivot right (omega arith) f) λ ys s.
        Returns-bind
          (partition_loop-IsSplit left right (right - left) xs ys v left left false f (omega arith)
            (record {
              permuted = IsSwapped-IsPermutedIn lo (omega arith) (omega arith) (omega arith) s;
              low = omega arith;
              high = omega arith;
              front = λ k a b. absurd (omega arith);
              back = λ k a b. absurd (omega arith);
              pivot = ground (arith, s.at right);
              same = λ e k a b. absurd (omega arith);
            }))
          λ r p.
            Returns-bind
              (swap_at-IsSwapped value r.0 right r.1 (omega (arith, p.permuted.size))
                (omega (arith, p.permuted.size, p.high)))
              λ zs t.
                Returns-if r.2
                  (λ b.
                    returns
                      (inr (omega (arith, p.high), split_end left right xs r.0 zs v r.1 r.2 h p t)))
                  λ b. returns (inl (refl, same_end left right xs r.0 zs v r.1 h (rw b at p) t))
