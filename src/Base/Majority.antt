-- ===== src/Base/Majority.antt =====
-- base/votecount.go: the majority among the counts of votes. `uint` is 64 bits wide.
pub mod Spec
pub mod Slice
use mitum.Common.{
  ℕ, zero, suc, ◌+◌, ◌-◌, ◌%◌, List, [], ◌∷◌, Option, none, some, ltb, leb, if◌then◌else◌,
}
use mitum.Common.Int.{ℤ, pos, negsuc}

abbrev pub uint_mod : ℕ
uint_mod = 18446744073709551616

abbrev pub add_uint : ℕ → ℕ → ℕ
add_uint a b = (a + b) % uint_mod

abbrev pub sub_uint : ℕ → ℕ → ℕ
sub_uint a b = (a + uint_mod - b) % uint_mod

-- `for _, n := range set { sum += n }`.
unfoldable pub sum_from : ℕ → List ℕ → ℕ
sum_from sum [] = sum
sum_from sum (n ∷ set) = sum_from (add_uint sum n) set

-- The loop that returns the index of the first count over the threshold.
unfoldable pub first_over : ℕ → ℕ → ℕ → List ℕ → Option ℕ
first_over total threshold i [] = none
first_over total threshold i (n ∷ set) =
    let rest = first_over total threshold (suc i) set in
    if leb total n then some i else if leb threshold n then some i else rest

-- `sort.Slice` by `>`: equal counts cannot be told apart, so any sort gives this list.
unfoldable pub insert_desc : ℕ → List ℕ → List ℕ
insert_desc n [] = n ∷ []
insert_desc n (m ∷ set) = if ltb m n then n ∷ m ∷ set else m ∷ insert_desc n set

unfoldable pub sort_desc : List ℕ → List ℕ
unfolding insert_desc
sort_desc [] = []
sort_desc (n ∷ set) = insert_desc n (sort_desc set)

-- `set[0]`, of a set that is not empty.
abbrev pub set_head : List ℕ → ℕ
set_head [] = 0
set_head (n ∷ _) = n

-- The part of `FindMajority` behind the check of an empty set: -1 is not yet, -2 draw.
unfoldable pub decide_majority : ℕ → ℕ → List ℕ → ℤ
unfolding sum_from first_over sort_desc
decide_majority total threshold set = elim (first_over total threshold 0 set) [
  | some i ↦ pos i
  | none ↦
      if ltb (add_uint (sub_uint total (sum_from 0 set)) (set_head (sort_desc set))) threshold
      then negsuc 1
      else negsuc 0
]

unfoldable pub find_majority : ℕ → ℕ → List ℕ → ℤ
unfolding decide_majority
find_majority total threshold [] = negsuc 0
find_majority total threshold (n ∷ set) =
    decide_majority total (if ltb total threshold then total else threshold) (n ∷ set)
