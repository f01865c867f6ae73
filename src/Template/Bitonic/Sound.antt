-- ===== src/Template/Bitonic/Sound.antt =====
-- A network that passes the check on unknown truth values sorts.
use native.Mathlib.Decide.{ℕ_discrete}
use ksort.Base.{
  ℕ, zero, suc, ◌≤◌, ◌<◌, ◌≡◌, ◌⊎◌, refl, ap, ◌∙◌, sym, List, [], ◌∷◌, Option, none, some, Bool,
  true, false, ◌==◌, if◌then◌else◌, arith,
}
use ksort.Run.{Returns, returns, Returns-bind, Returns-map, Returns-ok, Returns-inv}
use ksort.Array.{length, set, key_at, IsPermutedIn, IsSortedRange}
use ksort.Array.Laws.{length-set}
use ksort.Array.Range.{IsPermutedIn-refl, IsPermutedIn-trans, IsPermutedIn-widen}
use ksort.Template.{run_network}
use ksort.Template.Bitonic.{value, known, Fits, ascending, check, valid, unknown}
use ksort.Template.Bitonic.Exchange.{IsExchanged, cswap-IsExchanged}
use ksort.Template.Bitonic.Outcomes.{known-set, HasOutcome, HasOutcome-unknown, outcomes-HasOutcome}

-- the truth values hold of the elements that reach `t`
abbrev pub Covers : ℕ → List (Option Bool) → List ℕ → Type 0
Covers t st xs = (k : ℕ) → Fits t (known st k) (key_at value xs k)

-- behind an element that reaches `t`, every one does
abbrev pub Ascends : ℕ → List ℕ → Type 0
Ascends t xs = (i j : ℕ) → i ≤ j → j < length xs → t ≤ key_at value xs i → t ≤ key_at value xs j

abbrev pub Sorts : List (ℕ × ℕ) → List (Option Bool) → Type 0
Sorts net st =
    (t : ℕ) (xs : List ℕ)
    → length xs ≡ length st
    → Covers t st xs
    → Returns (Ascends t) (run_network net xs)

ascending-reached :
    (t : ℕ) (st : List (Option Bool)) (xs : List ℕ)
    → length xs ≡ length st
    → Covers t st xs
    → ascending true st ≡ true
    → (k : ℕ) → k < length xs
    → t ≤ key_at value xs k
unfolding ascending key_at
ascending-reached t [] [] e c h k b = absurd (omega arith)
ascending-reached t (some true ∷ st) (x ∷ xs) e c h zero b = ground (arith, c 0)
ascending-reached t (some true ∷ st) (x ∷ xs) e c h (suc k) b =
    ascending-reached t st xs (omega (arith, e)) (λ l. c (suc l)) h k (omega (arith, b))
ascending-reached t (some false ∷ st) xs e c h k b = ground arith
ascending-reached t (none ∷ st) xs e c h k b = ground arith
ascending-reached t [] (x ∷ xs) e c h k b = absurd (omega arith)
ascending-reached t (b' ∷ st) [] e c h k b = absurd (omega arith)

ascending-Ascends :
    (t : ℕ) (st : List (Option Bool)) (xs : List ℕ)
    → length xs ≡ length st
    → Covers t st xs
    → ascending false st ≡ true
    → Ascends t xs
unfolding ascending key_at
ascending-Ascends t [] [] e c h i j p q r = absurd (omega arith)
ascending-Ascends t (b ∷ st) (x ∷ xs) e c h zero zero p q r = r
ascending-Ascends t (b ∷ st) (x ∷ xs) e c h (suc i) zero p q r = absurd (omega arith)
ascending-Ascends t (some true ∷ st) (x ∷ xs) e c h i (suc j) p q r =
    ascending-reached t st xs (omega (arith, e)) (λ l. c (suc l)) h j (omega (arith, q))
ascending-Ascends t (none ∷ st) (x ∷ xs) e c h i (suc j) p q r =
    ascending-reached t st xs (omega (arith, e)) (λ l. c (suc l)) h j (omega (arith, q))
ascending-Ascends t (some false ∷ st) (x ∷ xs) e c h (suc i) (suc j) p q r =
    ascending-Ascends t st xs (omega (arith, e)) (λ l. c (suc l)) h i j (omega (arith, p))
      (omega (arith, q)) r
ascending-Ascends t (some false ∷ st) (x ∷ xs) e c h zero (suc j) p q r = ground (arith, c 0)
ascending-Ascends t [] (x ∷ xs) e c h i j p q r = absurd (omega arith)
ascending-Ascends t (b ∷ st) [] e c h i j p q r = absurd (omega arith)

Covers-step :
    (t : ℕ) (st : List (Option Bool)) (xs ys : List ℕ) (i j : ℕ) (b c : Option Bool)
    → i < j
    → j < length st
    → Covers t st xs
    → IsExchanged xs i j ys
    → Fits t b (key_at value ys i)
    → Fits t c (key_at value ys j)
    → Covers t (set (set st i b) j c) ys
Covers-step t st xs ys i j b c hij hj cov e f g k =
    let st' = set (set st i b) j c in
    let now : (l : ℕ) → known st' l ≡ (if j == l then c else if i == l then b else known st l) =
      λ l. ground (arith, known-set (set st i b) j l c, known-set st i l b, length-set st i b) in
    elim (ℕ_discrete j k) [
      | yes jk ↦ let at_k : known st' k ≡ c = ground (arith, now k) in rw (at_k, sym jk) g
      | no jk ↦ elim (ℕ_discrete i k) [
        | yes ik ↦ let at_k : known st' k ≡ b = ground (arith, now k) in rw (at_k, sym ik) f
        | no ik ↦
            let at_k : known st' k ≡ known st k = ground (arith, now k) in
            rw (at_k, e.others k (λ p. ik (sym p)) (λ p. jk (sym p))) (cov k)
      ]
    ]

-- a network that goes on to sort whichever outcome of its first comparison holds sorts
Sorts-step :
    (net : List (ℕ × ℕ)) (st : List (Option Bool)) (i j : ℕ)
    → i < j
    → j < length st
    → ((t x y x' y' : ℕ)
        → Fits t (known st i) x
        → Fits t (known st j) y
        → x' ≤ y'
        → (x' ≡ x) × (y' ≡ y) ⊎ (x' ≡ y) × (y' ≡ x)
        → HasOutcome t (λ b c. Sorts net (set (set st i b) j c)) x' y')
    → Sorts ((i, j) ∷ net) st
unfolding run_network
Sorts-step net st i j hij hj go t xs e cov =
    Returns-bind (cswap-IsExchanged xs i j hij (omega (arith, e))) λ ys ex.
      let (b, c, next, f, g) = go t _ _ _ _ (cov i) (cov j) ex.ordered ex.same in
      next t ys (ex.permuted.size ∙ e ∙ sym (length-set (set st i b) j c ∙ length-set st i b))
        (Covers-step t st xs ys i j b c hij hj cov ex f g)

-- the first comparison of a network, of two unknown truth values
pub Sorts-branch :
    (net : List (ℕ × ℕ)) (st : List (Option Bool)) (i j : ℕ)
    → i < j
    → j < length st
    → known st i ≡ none
    → known st j ≡ none
    → Sorts net (set (set st i (some false)) j (some false))
    → Sorts net (set (set st i (some false)) j (some true))
    → Sorts net (set (set st i (some true)) j (some true))
    → Sorts ((i, j) ∷ net) st
Sorts-branch net st i j hij hj ei ej ff ft tt' =
    Sorts-step net st i j hij hj λ t x y x' y' f g h s. HasOutcome-unknown t x' y' h ff ft tt'

pub check-Sorts :
    (net : List (ℕ × ℕ)) (st : List (Option Bool))
    → valid (length st) net ≡ true
    → check net st ≡ true
    → Sorts net st
unfolding check valid run_network
check-Sorts [] st v h = λ t xs e cov. returns (ascending-Ascends t st xs e cov h)
check-Sorts ((i, j) ∷ net) st v h =
    Sorts-step net st i j (ground arith) (ground arith) λ t x y x' y' f g p s.
      let (b, c, accepted, f', g') =
        outcomes-HasOutcome t x y x' y' (λ b c. check net (set (set st i b) j c)) (known st i)
          (known st j) f g p s h in
      let size : length (set (set st i b) j c) ≡ length st =
        length-set (set st i b) j c ∙ length-set st i b in
      (b, c, check-Sorts net _ (rw size (ground arith)) accepted, f', g')

known-unknown : (n k : ℕ) → known (unknown n) k ≡ none
known-unknown zero k = refl
known-unknown (suc n) zero = refl
known-unknown (suc n) (suc k) = known-unknown n k

length-unknown : (n : ℕ) → length (unknown n) ≡ n
length-unknown zero = refl
length-unknown (suc n) = ap suc (length-unknown n)

run_network-IsPermutedIn :
    (net : List (ℕ × ℕ)) (xs : List ℕ)
    → valid (length xs) net ≡ true
    → Returns (IsPermutedIn value 0 (length xs) xs) (run_network net xs)
unfolding valid run_network
run_network-IsPermutedIn [] xs v = returns (IsPermutedIn-refl 0 (length xs) xs)
run_network-IsPermutedIn ((i, j) ∷ net) xs v =
    Returns-bind (cswap-IsExchanged xs i j (ground arith) (ground arith)) λ ys e.
      let rest : valid (length ys) net ≡ true = rw e.permuted.size (ground arith) in
      Returns-map (run_network-IsPermutedIn net ys rest) λ zs p.
        IsPermutedIn-trans e.permuted
          (IsPermutedIn-widen (omega arith) (omega (arith, e.permuted.size)) p)

-- a network that sorts truth values sorts
pub network-Sorts :
    (net : List (ℕ × ℕ)) (n : ℕ)
    → valid n net ≡ true
    → Sorts net (unknown n)
    → (xs : List ℕ) → length xs ≡ n
    → Returns (IsSortedRange value 0 n xs) (run_network net xs)
network-Sorts net n v s xs e =
    let (ys, run, p) = Returns-inv (run_network-IsPermutedIn net xs (rw e v)) in
    let all : (t : ℕ) → Ascends t ys = λ t.
      let done = s t xs (e ∙ sym (length-unknown n)) λ k. rw (known-unknown n k) tt in
      Returns-ok (rw run at done) in
    rw run (
      returns (
        IsPermutedIn-widen (omega arith) (omega (arith, e)) p,
        λ i j lo h hi. all (key_at value ys i) i j h (omega (arith, p.size, e)) (omega arith),
      ))
