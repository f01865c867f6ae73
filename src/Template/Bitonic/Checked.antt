-- ===== src/Template/Bitonic/Checked.antt =====
-- The networks `BITONIC_SORT_2` to `BITONIC_SORT_16` pass the check.
use ksort.Base.{ℕ, ◌≡◌, refl, List, [], ◌∷◌, Option, some, Bool, true, false, arith}
use ksort.Run.{Returns}
use ksort.Array.{length, set, IsSortedRange}
use ksort.Template.{run_network}
use ksort.Template.Networks.{
  bitonic_sort_2, bitonic_sort_3, bitonic_sort_4, bitonic_sort_5, bitonic_sort_6, bitonic_sort_7,
  bitonic_sort_8, bitonic_sort_9, bitonic_sort_10, bitonic_sort_11, bitonic_sort_12,
  bitonic_sort_13, bitonic_sort_14, bitonic_sort_15, bitonic_sort_16,
}
use ksort.Template.Bitonic.{value, check, valid, unknown}
use ksort.Template.Bitonic.Sound.{Sorts, Sorts-branch, check-Sorts, network-Sorts}

-- a call of a network sorts an array of its size
abbrev pub IsNetworkOf : ℕ → List (ℕ × ℕ) → Type 0
IsNetworkOf n net =
    (xs : List ℕ) → length xs ≡ n → Returns (IsSortedRange value 0 n xs) (run_network net xs)

pub bitonic_sort_2-sorts : IsNetworkOf 2 bitonic_sort_2
unfolding check valid bitonic_sort_2
bitonic_sort_2-sorts =
    network-Sorts bitonic_sort_2 2 refl (check-Sorts bitonic_sort_2 (unknown 2) refl refl)

pub bitonic_sort_3-sorts : IsNetworkOf 3 bitonic_sort_3
unfolding check valid bitonic_sort_3
bitonic_sort_3-sorts =
    network-Sorts bitonic_sort_3 3 refl (check-Sorts bitonic_sort_3 (unknown 3) refl refl)

pub bitonic_sort_4-sorts : IsNetworkOf 4 bitonic_sort_4
unfolding check valid bitonic_sort_4
bitonic_sort_4-sorts =
    network-Sorts bitonic_sort_4 4 refl (check-Sorts bitonic_sort_4 (unknown 4) refl refl)

pub bitonic_sort_5-sorts : IsNetworkOf 5 bitonic_sort_5
unfolding check valid bitonic_sort_5
bitonic_sort_5-sorts =
    network-Sorts bitonic_sort_5 5 refl (check-Sorts bitonic_sort_5 (unknown 5) refl refl)

pub bitonic_sort_6-sorts : IsNetworkOf 6 bitonic_sort_6
unfolding check valid bitonic_sort_6
bitonic_sort_6-sorts =
    network-Sorts bitonic_sort_6 6 refl (check-Sorts bitonic_sort_6 (unknown 6) refl refl)

pub bitonic_sort_7-sorts : IsNetworkOf 7 bitonic_sort_7
unfolding check valid bitonic_sort_7
bitonic_sort_7-sorts =
    network-Sorts bitonic_sort_7 7 refl (check-Sorts bitonic_sort_7 (unknown 7) refl refl)

pub bitonic_sort_8-sorts : IsNetworkOf 8 bitonic_sort_8
unfolding check valid bitonic_sort_8
bitonic_sort_8-sorts =
    network-Sorts bitonic_sort_8 8 refl (check-Sorts bitonic_sort_8 (unknown 8) refl refl)

pub bitonic_sort_9-sorts : IsNetworkOf 9 bitonic_sort_9
unfolding check valid bitonic_sort_9
bitonic_sort_9-sorts =
    network-Sorts bitonic_sort_9 9 refl (check-Sorts bitonic_sort_9 (unknown 9) refl refl)

pub bitonic_sort_10-sorts : IsNetworkOf 10 bitonic_sort_10
unfolding check valid bitonic_sort_10
bitonic_sort_10-sorts =
    network-Sorts bitonic_sort_10 10 refl (check-Sorts bitonic_sort_10 (unknown 10) refl refl)

pub bitonic_sort_11-sorts : IsNetworkOf 11 bitonic_sort_11
unfolding check valid bitonic_sort_11
bitonic_sort_11-sorts =
    network-Sorts bitonic_sort_11 11 refl (check-Sorts bitonic_sort_11 (unknown 11) refl refl)

pub bitonic_sort_12-sorts : IsNetworkOf 12 bitonic_sort_12
unfolding check valid bitonic_sort_12
bitonic_sort_12-sorts =
    network-Sorts bitonic_sort_12 12 refl (check-Sorts bitonic_sort_12 (unknown 12) refl refl)

pub bitonic_sort_13-sorts : IsNetworkOf 13 bitonic_sort_13
unfolding check valid bitonic_sort_13
bitonic_sort_13-sorts =
    network-Sorts bitonic_sort_13 13 refl (check-Sorts bitonic_sort_13 (unknown 13) refl refl)

pub bitonic_sort_14-sorts : IsNetworkOf 14 bitonic_sort_14
unfolding check valid bitonic_sort_14
bitonic_sort_14-sorts =
    network-Sorts bitonic_sort_14 14 refl (check-Sorts bitonic_sort_14 (unknown 14) refl refl)

pub bitonic_sort_15-sorts : IsNetworkOf 15 bitonic_sort_15
unfolding check valid bitonic_sort_15
bitonic_sort_15-sorts =
    network-Sorts bitonic_sort_15 15 refl (check-Sorts bitonic_sort_15 (unknown 15) refl refl)

-- the lines of `BITONIC_SORT_16` after the first
unfoldable tail_16 : List (ℕ × ℕ)
unfolding bitonic_sort_16
tail_16 = elim bitonic_sort_16 [ [] ↦ [] | (x ∷ net) ↦ net ]

-- the truth values after its first line
unfoldable after_first : Bool → Bool → List (Option Bool)
after_first b c = set (set (unknown 16) 0 (some b)) 1 (some c)

check-ff : check tail_16 (after_first false false) ≡ true
unfolding check tail_16 after_first
check-ff = refl

check-ft : check tail_16 (after_first false true) ≡ true
unfolding check tail_16 after_first
check-ft = refl

check-tt : check tail_16 (after_first true true) ≡ true
unfolding check tail_16 after_first
check-tt = refl

tail_16-Sorts :
    (b c : Bool) → check tail_16 (after_first b c) ≡ true → Sorts tail_16 (after_first b c)
unfolding valid tail_16 after_first
tail_16-Sorts b c = check-Sorts tail_16 (after_first b c) refl

bitonic_sort_16-Sorts : Sorts bitonic_sort_16 (unknown 16)
unfolding bitonic_sort_16 tail_16 after_first
bitonic_sort_16-Sorts =
    Sorts-branch tail_16 (unknown 16) 0 1 (omega arith) (omega arith) refl refl
      (tail_16-Sorts false false check-ff) (tail_16-Sorts false true check-ft)
      (tail_16-Sorts true true check-tt)

pub bitonic_sort_16-sorts : IsNetworkOf 16 bitonic_sort_16
unfolding valid bitonic_sort_16
bitonic_sort_16-sorts = network-Sorts bitonic_sort_16 16 refl bitonic_sort_16-Sorts
