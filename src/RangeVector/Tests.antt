-- ===== src/RangeVector/Tests.antt =====
-- Runs of the range vector of rangevector.c, and its theorems at concrete inputs.
use mathlib.Core.List.{Perm, map}
use veeamsnap.Prelude.{
  ℕ, ◌+◌, ◌-◌, ◌≤◌, ◌≡◌, refl, true, some, [], ◌∷◌, take, drop, min, length, success, arith,
}
use veeamsnap.Prelude.Word.{add64}
use veeamsnap.Range.{Range, run, sectors}
use veeamsnap.RangeVector.{RangeVector, slots, v2p, v2p_el, sort, find_first_hit, found, missing}
use veeamsnap.RangeVector.Translate.{v2p-sectors, v2p_overwritten}
use veeamsnap.RangeVector.Sort.{Sorted, sort-Sorted}
use veeamsnap.RangeVector.Search.{find_first_hit-found, find_first_hit_misses, is_hit}

abbrev low : Range
low = record { ofs = 1000; cnt = 8 }

abbrev high : Range
high = record { ofs = 5000; cnt = 16 }

abbrev two : RangeVector
two = record { els = (low ∷ high ∷ []) ∷ []; blocks_cnt = 1 }

-- As two elements: the shape that a thousand and one ranges take.
abbrev split : RangeVector
split = record { els = (low ∷ []) ∷ (high ∷ []) ∷ []; blocks_cnt = 2 }

v2p-sectors_example :
    (p : ℕ) × (n : ℕ) × (v2p two 10 4 ≡ (success, some (p, n)))
    × (n ≤ 4)
    × (min 1 4 ≤ n)
    × (take n (drop 10 (sectors (low ∷ high ∷ []))) ≡ run p n)
v2p-sectors_example =
    v2p-sectors two (low ∷ high ∷ []) 10 4 refl (omega arith) (omega arith) (omega arith)

-- Sector 3 of the ranges is 1003; the translation says 5003.
v2p_overwritten_example : v2p split 3 4 ≡ (success, some (add64 5000 (3 - 0), min 4 (0 + 16 - 3)))
unfolding v2p_el
v2p_overwritten_example =
    v2p_overwritten split (low ∷ []) [] high 3 4 _ refl refl (omega arith) (omega arith)
      (omega arith)

find_first_hit-found_example :
    (j : ℕ) × (find_first_hit (low ∷ high ∷ []) 5004 5010 ≡ some (found j))
    × (is_hit (low ∷ high ∷ []) 5004 5010 j ≡ true)
    × (j ≤ 1)
find_first_hit-found_example =
    find_first_hit-found (low ∷ high ∷ []) 5004 5010 (omega arith) 1 (omega arith) (omega arith)
      refl

find_first_hit_misses_example : find_first_hit (low ∷ high ∷ []) 1000 1004 ≡ some missing
find_first_hit_misses_example =
    find_first_hit_misses (low ∷ high ∷ []) 1000 1004 (omega arith) (omega arith) (omega arith)
      (omega arith)

sort-Sorted_example :
    (v' : RangeVector) × (sort split ≡ some v')
    × Sorted (slots v'.els)
    × Perm (slots v'.els) (slots split.els)
    × (map length v'.els ≡ map length split.els)
sort-Sorted_example = sort-Sorted split
