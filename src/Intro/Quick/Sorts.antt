-- ===== src/Intro/Quick/Sorts.antt =====
-- `sort_intro` sorts four elements or more.
use ksort.Base.{
  ℕ, zero, suc, ◌*◌, ◌^◌, ◌≤◌, ◌<◌, ◌≡◌, Bool, true, refl, List, [], arith, ltb, ◌==◌, ℤ,
}
use ksort.Run.{Returns, returns, Returns-bind, Returns-map, Returns-if}
use ksort.Words.{log2}
use ksort.Array.{length, IsThreeWay, IsSortedRange}
use ksort.Array.Range.{IsPermutedIn-refl, IsPermutedIn-trans, IsPermutedIn-widen}
use ksort.Intro.Leftovers.{sort_leftovers-sorts}
use ksort.Intro.Quick.{quick_loop, sort_intro}
use ksort.Intro.Quick.Split.{split-IsSplit}
use ksort.Intro.Quick.Stack.{IsRest, depth_bound, next_partition-Returns}

module _ {A : Type 0} (key : A → ℕ) (cmp_func : A → A → ℤ) (three : IsThreeWay key cmp_func) where
  -- With enough fuel the quicksort returns from any partition and stack within their bounds, with
  -- the first `num` elements rearranged among themselves.
  quick_loop-Returns :
      (tmp : Bool) (fuel : ℕ) (orig : List A) (num : ℕ)
      → num < 2 ^ 64
      → num ≤ length orig
      → IsRest key num orig fuel (quick_loop cmp_func tmp (log2 64 num * 2) fuel)
  unfolding quick_loop
  quick_loop-Returns tmp zero orig num small l xs node stack depth f v w = absurd (omega arith)
  quick_loop-Returns tmp (suc fuel) orig num small l xs node stack depth f v w =
      Returns-if (ltb (log2 64 num * 2) depth)
        (λ e. absurd (ground (arith, (depth_bound small v).1, w.2)))
        λ e.
          Returns-bind
            (split-IsSplit key cmp_func three xs node.low node.high (omega (arith, v.long))
              (omega (arith, v.high, w.0.size)))
            λ r s.
              next_partition-Returns key num orig stack v s fuel
                (quick_loop cmp_func tmp (log2 64 num * 2) fuel) depth small
                (quick_loop-Returns tmp fuel orig num small l) (omega arith)
                (
                  IsPermutedIn-trans w.0
                      (IsPermutedIn-widen (omega arith) (omega (arith, v.high)) s.kept),
                  w.1,
                  w.2,
                )

  -- For a three-way comparator by a key and at least four and fewer than 2 ^ 64 elements, sort_intro
  -- returns with the first `num` elements in ascending order, rearranged among themselves, and touches no
  -- other element; above 16 elements its stack must get memory, and `tmp` need not.
  pub sort_intro-sorts :
      (tmp stack : Bool) (xs : List A) (num : ℕ)
      → (16 < num → stack ≡ true)
      → 4 ≤ num
      → num < 2 ^ 64
      → num ≤ length xs
      → Returns (IsSortedRange key 0 num xs) (sort_intro cmp_func tmp stack xs num)
  unfolding sort_intro
  sort_intro-sorts tmp stack xs num m h small l =
      Returns-if (num == 0) (λ e. absurd (ground arith))
        λ _.
          Returns-bind
            (Returns-if (ltb 16 num)
              (λ e.
                let many : 16 < num = ground arith in
                let given = m many in
                Returns-if stack
                  (λ _.
                    quick_loop-Returns tmp (2 * num) xs num small l xs _ [] 0 (omega arith)
                      (record { long = omega arith; high = omega arith; halved = omega arith })
                      (IsPermutedIn-refl 0 num xs, tt, refl))
                  λ c. absurd (ground (arith, given, c)))
              λ _. returns (IsPermutedIn-refl 0 num xs))
            λ ys p.
              Returns-map (sort_leftovers-sorts key cmp_func three ys num h (omega (arith, p.size)))
                λ zs q. (IsPermutedIn-trans p q.0, q.1)
