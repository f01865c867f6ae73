-- ===== src/Template/Shell/Sift.antt =====
-- One element goes to its place by steps of `inc`: the elements are rearranged, and by steps of one
-- the front of the array ascends.
use ksort.Base.{ℕ, zero, suc, ◌+◌, ◌-◌, ◌≤◌, ◌<◌, ◌≡◌, List, false, arith, ltb, is_positive}
use ksort.Run.{Returns, returns, Returns-bind, Returns-map, Returns-if}
use ksort.Array.{length, key_at, IsPermutedIn, IsSortedIn, IsSortedRange}
use ksort.Array.Hole.{IsHoled, take_out, fill_hole, load-Returns, store-Returns}
use ksort.Array.Range.{IsPermutedIn-refl, IsPermutedIn-widen}
use ksort.Template.{sort_cmp}
use ksort.Template.Bitonic.{value}
use ksort.Template.Insertion.Find.{IsPlaceOf, load-value, above_cmp}
use ksort.Template.Insertion.Shift.{copy_to-IsCopied, IsShifted, shift_once}
use ksort.Template.Insertion.Sorts.{narrow, placed_sorted, start_IsShifted}
use ksort.Template.Shell.{shell_sift, shell_at}

shell_sift-IsHoled :
    (hi fuel : ℕ) (xs ys : List ℕ) (temp inc j : ℕ)
    → hi ≤ length xs
    → 0 < inc
    → j < fuel
    → IsHoled value 0 hi xs ys j temp
    → Returns (λ r. IsHoled value 0 hi xs r.0 r.1 temp) (shell_sift fuel ys temp inc j)
unfolding shell_sift
shell_sift-IsHoled hi zero xs ys temp inc j f z h v = absurd (omega arith)
shell_sift-IsHoled hi (suc fuel) xs ys temp inc j f z h v =
    Returns-if (ltb j inc) (λ b. returns v)
      λ b.
        let far : inc ≤ j = ground arith in
        Returns-bind (load-Returns ys (j - inc) (omega (arith, v.size, v.high))) λ y e.
          Returns-if (is_positive (sort_cmp y temp))
            (λ c.
              Returns-bind
                (copy_to-IsCopied hi xs ys j (j - inc) temp f v (omega (arith, v.high))
                  (omega arith))
                λ zs w.
                  shell_sift-IsHoled hi fuel xs zs temp inc (j - inc) f z (omega arith) w.holed)
            λ c. returns v

pub shell_at-IsPermutedIn :
    (hi : ℕ) (xs : List ℕ) (inc i : ℕ)
    → hi ≤ length xs
    → 0 < inc
    → i < hi
    → Returns (IsPermutedIn value 0 hi xs) (shell_at xs inc i)
unfolding shell_at
shell_at-IsPermutedIn hi xs inc i f z h = Returns-bind (load-Returns xs i (omega arith)) λ temp e.
    Returns-bind
      (shell_sift-IsHoled hi (i + 1) xs xs temp inc i f z (omega arith)
        (take_out value i temp (IsPermutedIn-refl 0 hi xs) (omega arith) h e))
      λ r v. fill_hole value f v

shell_sift-IsPlaceOf :
    (fuel : ℕ) (xs ys : List ℕ) (temp i j : ℕ)
    → i < length xs
    → j < fuel
    → j ≤ i
    → IsSortedIn value xs 0 i
    → IsShifted (i + 1) xs i j temp ys
    → ((k : ℕ) → j ≤ k → k < i → temp < key_at value xs k)
    → Returns
        (λ r. IsShifted (i + 1) xs i r.1 temp r.0 × IsPlaceOf xs temp i r.1)
        (shell_sift fuel ys temp 1 j)
unfolding shell_sift
shell_sift-IsPlaceOf zero xs ys temp i j f h l s v above = absurd (omega arith)
shell_sift-IsPlaceOf (suc fuel) xs ys temp i zero f h l s v above = returns (
  v,
  record { inside = omega arith; front = λ k p. absurd (omega arith); back = λ k p q. above k p q },
)
shell_sift-IsPlaceOf (suc fuel) xs ys temp i (suc j) f h l s v above =
    let far : ltb (suc j) 1 ≡ false = ground arith in
    let down : suc j - 1 ≡ j = omega arith in
    let up : suc j ≡ j + 1 = omega arith in
    rw (far, down)
      (Returns-bind (load-value ys j (omega (arith, v.holed.size))) λ y e.
        let read : y ≡ key_at value xs j = ground (arith, v.at j) in
        Returns-if (is_positive (sort_cmp y temp))
          (λ c.
            Returns-bind
              (rw up (shift_once (i + 1) xs ys i j temp (omega arith) (omega arith) (rw up at v)))
              λ zs w.
                shell_sift-IsPlaceOf fuel xs zs temp i j f (omega arith) (omega arith) s w
                  λ k p q. ground (arith, above k, above_cmp y temp))
          λ c. returns (
            v,
            record {
              inside = l;
              front = λ k p. ground (arith, s k j, above_cmp y temp);
              back = λ k p q. above k p q;
            },
          ))

pub shell_at-sorts :
    (xs : List ℕ) (b : ℕ)
    → b + 1 < length xs
    → IsSortedIn value xs 0 (b + 1)
    → Returns (IsSortedRange value 0 (b + 2) xs) (shell_at xs 1 (suc b))
unfolding shell_at
shell_at-sorts xs b f s =
    let next : b + 1 ≡ suc b = omega arith in
    Returns-bind (load-Returns xs (suc b) (omega arith)) λ temp e.
      Returns-bind
        (shell_sift-IsPlaceOf (suc b + 1) xs xs temp (suc b) (suc b) (omega arith) (omega arith)
          (omega arith) (narrow _ (omega arith) s) (rw next at (start_IsShifted xs b temp f e))
          λ k p q. absurd (omega arith))
        λ r v.
          Returns-map (store-Returns r.0 r.1 temp (omega (arith, v.0.holed.size, v.1.inside)))
            λ zs e'. rw e' (
              IsPermutedIn-widen (omega arith) (omega arith) v.0.holed.filled,
              narrow _ (omega arith)
                  (placed_sorted (narrow _ (omega arith) s) (omega arith) v.1 v.0),
            )
