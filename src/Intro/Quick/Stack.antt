-- ===== src/Intro/Quick/Stack.antt =====
-- The quicksort returns: the stack never overflows, and the depth never calls for the heap sort.
use native.Mathlib.Nat.{mul-le-mul_right, mul_left_comm, mul_assoc}
use ksort.Base.{
  ℕ, suc, ◌+◌, ◌-◌, ◌*◌, ◌^◌, ◌≤◌, ◌<◌, ◌≡◌, sym, ◌∙◌, List, [], ◌∷◌, arith, ltb, leb, ◌&&◌,
}
use ksort.Run.{Run, Returns, returns, Returns-if}
use ksort.Words.{log2}
use ksort.Words.Log.{log2-le, log2-le-bits, pow-suc, pow-add_four}
use ksort.Array.{length, IsPermutedIn}
use ksort.Intro.Quick.{StackNode, pop, push, next_partition, stack_size}
use ksort.Intro.Quick.Split.{IsSplit}

-- a partition with `d` others under it: long enough to be split, and at most num / 2 ^ d long
pub record IsNode (num d : ℕ) (node : StackNode) : Type 0 where
  pub long : node.low + 16 ≤ node.high
  pub high : node.high < num
  pub halved : (node.high - node.low) * 2 ^ d ≤ num

abbrev pub IsStack : ℕ → List StackNode → Type 0
IsStack num [] = Unit
IsStack num (node ∷ stack) = IsNode num (length stack) node × IsStack num stack

-- how many rounds the partitions on the stack may take
abbrev pub rounds : List StackNode → ℕ
rounds [] = 0
rounds (node ∷ stack) = 2 * (node.high - node.low) + 1 + rounds stack

shrink : (a b d num : ℕ) → 2 * a ≤ b → b * 2 ^ d ≤ num → a * 2 ^ suc d ≤ num
shrink a b d num h g =
    let e : a * (2 * 2 ^ d) ≡ 2 * a * 2 ^ d =
      mul_left_comm a 2 (2 ^ d) ∙ sym (mul_assoc 2 a (2 ^ d)) in
    rw (pow-suc d, e) (omega (arith, mul-le-mul_right (2 ^ d) h))

shorter : (a b d num : ℕ) → a ≤ b → b * 2 ^ d ≤ num → a * 2 ^ d ≤ num
shorter a b d num h g = omega (arith, mul-le-mul_right (2 ^ d) h)

-- a partition of 16 elements or more is less than 60 deep, and not below the logarithm
pub depth_bound :
    {num d : ℕ} {node : StackNode} → num < 2 ^ 64 → IsNode num d node → (d < 61) × (d ≤ log2 64 num)
depth_bound {num} {d} {node} small v =
    let wide =
      mul-le-mul_right {m = 16} {n = node.high - node.low} (2 ^ d) (omega (arith, v.long)) in
    let power : 2 ^ (d + 4) ≤ num = omega (arith, wide, v.halved, pow-add_four d) in
    let deep = log2-le 64 num (d + 4) small power in
    (omega (arith, deep, log2-le-bits 64 num), omega (arith, deep))

module _ {A : Type 0} (key : A → ℕ) (num : ℕ) (orig : List A) where
  -- what the loop goes on with
  abbrev pub IsState : List A → List StackNode → ℕ → Type 0
  IsState xs stack depth =
      IsPermutedIn key 0 num orig xs × IsStack num stack × (depth ≡ length stack)

  -- a way to go on that returns, with enough fuel for the rounds of the partitions
  abbrev pub IsRest : ℕ → (List A → StackNode → List StackNode → ℕ → Run (List A)) → Type 0
  IsRest fuel rest =
      (xs : List A) (node : StackNode) (stack : List StackNode) (depth : ℕ)
      → rounds (node ∷ stack) ≤ fuel
      → IsNode num (length stack) node
      → IsState xs stack depth
      → Returns (IsPermutedIn key 0 num orig) (rest xs node stack depth)

  pop-Returns :
      (fuel : ℕ) (rest : List A → StackNode → List StackNode → ℕ → Run (List A)) (xs : List A)
      (stack : List StackNode) (depth : ℕ)
      → IsRest fuel rest
      → rounds stack ≤ fuel
      → IsState xs stack depth
      → Returns (IsPermutedIn key 0 num orig) (pop rest xs stack depth)
  unfolding pop
  pop-Returns fuel rest xs [] depth go f v = returns v.0
  pop-Returns fuel rest xs (node ∷ stack) depth go f v =
      go xs node stack (depth - 1) f v.1.0 (v.0, v.1.1, omega (arith, v.2))

  push-Returns :
      (rest : List StackNode → ℕ → Run (List A)) (xs : List A) (node : StackNode)
      (stack : List StackNode) (depth : ℕ)
      → num < 2 ^ 64
      → IsNode num (length stack) node
      → IsState xs stack depth
      → (IsState xs (node ∷ stack) (depth + 1)
          → Returns (IsPermutedIn key 0 num orig) (rest (node ∷ stack) (depth + 1)))
      → Returns (IsPermutedIn key 0 num orig) (push rest node stack depth)
  unfolding push
  push-Returns rest xs node stack depth small v w go =
      let bound = depth_bound small v in
      Returns-if (ltb (length stack + 1) stack_size) (λ _. go (w.0, (v, w.1), omega (arith, w.2)))
        λ e. absurd (ground (arith, bound.0))

  module _ {low high left right : ℕ} {xs ys : List A} (stack : List StackNode)
      (v : IsNode num (length stack) (record { low = low; high = high }))
      (s : IsSplit key low high xs ys left right) where
    lower-IsNode : 16 < right - low → IsNode num (length stack) (record { low = low; high = right })
    lower-IsNode h = record {
      long = omega arith;
      high = omega (arith, v.high, s.last);
      halved =
          shorter (right - low) (high - low) (length stack) num (omega (arith, s.last)) v.halved;
    }

    upper-IsNode : 16 < high - left → IsNode num (length stack) (record { low = left; high = high })
    upper-IsNode h = record {
      long = omega arith;
      high = v.high;
      halved =
          shorter (high - left) (high - low) (length stack) num (omega (arith, s.first)) v.halved;
    }

    lower-smaller :
        16 < right - low
        → right - low ≤ high - left
        → IsNode num (suc (length stack)) (record { low = low; high = right })
    lower-smaller h g = record {
      long = omega arith;
      high = omega (arith, v.high, s.last);
      halved =
          shrink (right - low) (high - low) (length stack) num
            (omega (arith, s.last, s.apart, s.left_end)) v.halved;
    }

    upper-smaller :
        16 < high - left
        → high - left ≤ right - low
        → IsNode num (suc (length stack)) (record { low = left; high = high })
    upper-smaller h g = record {
      long = omega arith;
      high = v.high;
      halved =
          shrink (high - left) (high - low) (length stack) num
            (omega (arith, s.first, s.apart, s.left_end)) v.halved;
    }

    pub next_partition-Returns :
        (fuel : ℕ) (rest : List A → StackNode → List StackNode → ℕ → Run (List A)) (depth : ℕ)
        → num < 2 ^ 64
        → IsRest fuel rest
        → 2 * (high - low) + rounds stack ≤ fuel
        → IsState ys stack depth
        → Returns
            (IsPermutedIn key 0 num orig)
            (next_partition rest ys low high left right stack depth)
    unfolding next_partition
    next_partition-Returns fuel rest depth small go f w =
        let lower : StackNode = record { low = low; high = right } in
        let upper : StackNode = record { low = left; high = high } in
        Returns-if (leb (right - low) 16 && leb (high - left) 16)
          (λ _. pop-Returns fuel rest ys stack depth go (omega arith) w)
          λ e.
            Returns-if (leb (right - low) 16)
              (λ g.
                go ys _ stack depth (omega (arith, s.first, s.left_end))
                  (upper-IsNode (ground arith)) w)
              λ g.
                Returns-if (leb (high - left) 16)
                  (λ h.
                    go ys _ stack depth (omega (arith, s.last, s.right_start))
                      (lower-IsNode (ground arith)) w)
                  λ h.
                    Returns-if (ltb (high - left) (right - low))
                      (λ i.
                        push-Returns (rest ys upper) ys _ stack depth small
                          (lower-IsNode (ground arith)) w
                          λ w'.
                            go ys upper (lower ∷ stack) (depth + 1)
                              (omega (arith, s.apart, s.left_end, s.right_start))
                              (upper-smaller (ground arith) (ground arith)) w')
                      λ i.
                        push-Returns (rest ys lower) ys _ stack depth small
                          (upper-IsNode (ground arith)) w
                          λ w'.
                            go ys lower (upper ∷ stack) (depth + 1)
                              (omega (arith, s.apart, s.left_end, s.right_start))
                              (lower-smaller (ground arith) (ground arith)) w'
