-- ===== src/Template/Heapsort/Sift.antt =====
-- HEAP_SIFT_DOWN restores the heap below its root.
use ksort.Base.{
  ℕ, zero, suc, ◌+◌, ◌*◌, ◌/◌, ◌≤◌, ◌<◌, ◌≡◌, ◌≢◌, ◌⊎◌, List, leb, ltb, arith, is_negative,
}
use ksort.Run.{Returns, returns, Returns-bind, Returns-map, Returns-if}
use ksort.Array.{length, key_at, IsPermutedIn, IsSwapped}
use ksort.Array.Access.{compare_at-Compared, swap_at-IsSwapped}
use ksort.Array.Range.{IsPermutedIn-refl, IsPermutedIn-trans, IsSwapped-IsPermutedIn}
use ksort.Template.{sort_cmp}
use ksort.Template.Bitonic.{value}
use ksort.Template.Bitonic.Exchange.{sort_cmp-IsThreeWay}
use ksort.Template.Heapsort.{sift_child, heap_sift_down}

-- no element up to `end` is above its parent, for the parents from `start` on
abbrev pub IsHeap : List ℕ → ℕ → ℕ → Type 0
IsHeap xs start end =
    (k : ℕ) → 0 < k → k ≤ end → start ≤ k / 2 → key_at value xs k ≤ key_at value xs (k / 2)

-- a heap but for the element at `root`, whose children are not above its parent
pub record IsSifting (xs : List ℕ) (start end root : ℕ) : Type 0 where
  pub others :
      (k : ℕ)
      → 0 < k
      → k ≤ end
      → start ≤ k / 2
      → k / 2 ≢ root
      → key_at value xs k ≤ key_at value xs (k / 2)
  pub bridge :
      (k : ℕ)
      → 0 < root
      → k ≤ end
      → k / 2 ≡ root
      → start ≤ root / 2
      → key_at value xs k ≤ key_at value xs (root / 2)

-- no child of `root` is above `child`, which is one, or 0 for 0
record IsLargerChild (xs : List ℕ) (end root child : ℕ) : Type 0 where
  inside : child ≤ end
  parent : child / 2 ≡ root
  largest : (k : ℕ) → 0 < k → k ≤ end → k / 2 ≡ root → key_at value xs k ≤ key_at value xs child

-- the children of `root` are two
children : (k root : ℕ) → k / 2 ≡ root → (k ≡ root * 2) ⊎ (k ≡ root * 2 + 1)
children k root e = ground arith

sift_child-IsLargerChild :
    (xs : List ℕ) (root end : ℕ)
    → end < length xs
    → root * 2 ≤ end
    → Returns (IsLargerChild xs end root) (sift_child xs root end)
unfolding sift_child
sift_child-IsLargerChild xs root end f h =
    Returns-if (ltb (root * 2) end)
      (λ b.
        Returns-bind
          (compare_at-Compared value xs (root * 2) (root * 2 + 1) (omega arith) (ground arith)
            sort_cmp sort_cmp-IsThreeWay)
          λ z c.
            Returns-if (is_negative z)
              (λ n. returns (record {
                inside = ground arith;
                parent = omega arith;
                largest = λ k p q e. ground (arith, children k root e, c.negative);
              }))
              λ n. returns (record {
                inside = omega arith;
                parent = omega arith;
                largest = λ k p q e. ground (arith, children k root e, c.negative);
              }))
      λ b. returns (record {
        inside = h;
        parent = omega arith;
        largest = λ k p q e. ground (arith, children k root e);
      })

swap_IsSifting :
    (xs ys : List ℕ) (start end root child : ℕ)
    → start ≤ root
    → IsSifting xs start end root
    → IsLargerChild xs end root child
    → key_at value xs root < key_at value xs child
    → IsSwapped value xs root child ys
    → IsSifting ys start end child
swap_IsSifting xs ys start end root child h v c lt s =
    let moved : root ≢ child = λ e. ground (arith, lt) in
    record {
      others = λ k p q from n.
          ground (arith, s.at k, s.at (k / 2), v.others k, v.bridge child, c.largest k, c.parent);
      bridge = λ k p q e from. ground (arith, s.at k, s.at root, v.others k, c.parent);
    }

pub heap_sift_down-IsHeap :
    (fuel : ℕ) (xs : List ℕ) (start root end : ℕ)
    → end < length xs
    → end + 1 < root + fuel
    → root ≤ end + 1
    → start ≤ root
    → IsSifting xs start end root
    → Returns
        (λ ys. IsPermutedIn value 0 (end + 1) xs ys × IsHeap ys start end)
        (heap_sift_down fuel xs root end)
unfolding heap_sift_down
heap_sift_down-IsHeap zero xs start root end f h g l v = absurd (omega arith)
heap_sift_down-IsHeap (suc fuel) xs start root end f h g l v =
    Returns-if (leb (root * 2) end)
      (λ b. Returns-bind (sift_child-IsLargerChild xs root end f (ground arith)) λ child c.
        Returns-bind
          (compare_at-Compared value xs root child (ground arith) (omega (arith, c.inside)) sort_cmp
            sort_cmp-IsThreeWay)
          λ z o.
            Returns-if (is_negative z)
              (λ n.
                let lt : key_at value xs root < key_at value xs child =
                  ground (arith, o.negative) in
                Returns-bind
                  (swap_at-IsSwapped value xs root child (ground arith) (omega (arith, c.inside)))
                  λ ys s.
                    Returns-map
                      (heap_sift_down-IsHeap fuel ys start child end (omega (arith, s.size))
                        (ground (arith, c.parent)) (omega (arith, c.inside))
                        (omega (arith, c.parent))
                        (swap_IsSifting xs ys start end root child l v c lt s))
                      λ zs q. (
                        IsPermutedIn-trans
                            (IsSwapped-IsPermutedIn (omega arith) (ground arith) (omega arith)
                              (omega (arith, c.inside)) s)
                            q.0,
                        q.1,
                      ))
              λ n. returns (
                IsPermutedIn-refl 0 (end + 1) xs,
                λ k p q from. ground (arith, v.others k, c.largest k, o.negative),
              ))
      λ b. returns (IsPermutedIn-refl 0 (end + 1) xs, λ k p q from. ground (arith, v.others k))
