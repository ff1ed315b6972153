-- ===== src/Base/Majority/Slice.antt =====
-- base/votecount.go: FindMajorityFromSlice counts the votes for each key in a Go map, and ranges
-- over that map in the order of the runtime.
pub mod Counts
pub mod Members
pub mod Verdict
pub mod Sound
use mitum.Common.{
  ℕ, zero, suc, String, List, [], ◌∷◌, Option, none, some, string_discrete, get_elem?, ℕ_discrete,
}
use mitum.Common.Dict.{Dict, find, put, values, MapRange}
use mitum.Common.Int.{ℤ, pos, negsuc}
use mitum.Base.Majority.{add_uint, sort_desc, find_majority}
use mitum.Base.VoteResult.{VoteResult, not_yet, draw, majority}

-- The value of a key in a map of numbers, 0 if it is missing.
abbrev pub or_zero : Option ℕ → ℕ
or_zero none = 0
or_zero (some n) = n

-- `for _, k := range s { counts[k]++ }`.
unfoldable pub count_votes : List String → Dict String ℕ → Dict String ℕ
count_votes [] counts = counts
count_votes (k ∷ s) counts =
    count_votes s
      (put string_discrete k (add_uint (or_zero (find string_discrete k counts)) 1) counts)

-- `keys[c] = k`, for each key and its count: of keys with one count the last one stays.
unfoldable pub collect_keys : Dict String ℕ → Dict ℕ String → Dict ℕ String
collect_keys [] keys = keys
collect_keys ((k, c) ∷ counts) keys = collect_keys counts (put ℕ_discrete c k keys)

abbrev pub or_empty : Option String → String
or_empty none = ""
or_empty (some k) = k

-- `keys[set[index]]`.
unfoldable pub key_at : Dict ℕ String → List ℕ → ℕ → String
key_at keys set i = elim (get_elem? set i) [
  | none ↦ ""
  | some c ↦ or_empty (find ℕ_discrete c keys)
]

-- The `switch` on the index. FindMajority returns nothing below -2.
unfoldable pub verdict_of : Dict ℕ String → List ℕ → ℤ → VoteResult × String
unfolding key_at
verdict_of keys set (pos i) = (majority, key_at keys set i)
verdict_of keys set (negsuc zero) = (not_yet, "")
verdict_of keys set (negsuc (suc zero)) = (draw, "")
verdict_of keys set (negsuc (suc (suc n))) = (majority, "")

unfoldable pub find_majority_of_counts : ℕ → ℕ → Dict String ℕ → VoteResult × String
unfolding collect_keys verdict_of
find_majority_of_counts total threshold counts =
    let set = sort_desc (values counts) in
    verdict_of (collect_keys counts []) set (find_majority total threshold set)

unfoldable pub find_majority_from_slice : MapRange → ℕ → ℕ → List String → VoteResult × String
unfolding count_votes find_majority_of_counts
find_majority_from_slice rng total threshold s =
    find_majority_of_counts total threshold (rng.order (String × ℕ) (count_votes s []))
