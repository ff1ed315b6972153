-- ===== src/Base/Majority/Slice/Sound.antt =====
-- A majority that FindMajorityFromSlice names, with no bound by the number of voters.
use mathlib.Core.List.{Permᴰ}
use mitum.Common.{ℕ, zero, suc, ◌≤◌, ◌<◌, min, ◌≡◌, refl, ap, String, List, [], ◌∷◌, arith, length}
use mitum.Common.Dict.{Dict, values, MapRange}
use mitum.Common.Int.{ℤ, pos, negsuc}
use mitum.Base.Majority.{uint_mod, sort_desc, decide_majority, find_majority}
use mitum.Base.Majority.Spec.{find_majority_reached}
use mitum.Base.Majority.Slice.{
  count_votes, collect_keys, key_at, verdict_of, find_majority_of_counts, find_majority_from_slice,
}
use mitum.Base.Majority.Slice.Counts.{votes_for}
use mitum.Base.Majority.Slice.Members.{mem-sort_desc}
use mitum.Base.Majority.Slice.Verdict.{votes_for-key_at}
use mitum.Base.VoteResult.{VoteResult, majority}

find_majority-ge :
    (total threshold n : ℕ) (set : List ℕ)
    → find_majority total threshold set ≡ negsuc (suc (suc n))
    → ⊥
unfolding find_majority decide_majority
find_majority-ge total threshold n [] h = ground arith
find_majority-ge total threshold n (m ∷ set) h = ground arith

verdict_of_sound :
    (total threshold : ℕ) (s : List String) (counts : Dict String ℕ) (k : String)
    → length s < uint_mod
    → Permᴰ counts (count_votes s [])
    → (z : ℤ) → find_majority total threshold (sort_desc (values counts)) ≡ z
    → verdict_of (collect_keys counts []) (sort_desc (values counts)) z ≡ (majority, k)
    → min total threshold ≤ votes_for k s
unfolding verdict_of
verdict_of_sound total threshold s counts k small listed (pos i) e h =
    let set = sort_desc (values counts) in
    let (n, at, over) = find_majority_reached total threshold set {i = i} e in
    let same : key_at (collect_keys counts []) set i ≡ k =
      ap (λ (v : VoteResult × String). v.1) h in
    rw (← same) (
      omega (
        arith,
        votes_for-key_at s counts small listed set (λ m. mem-sort_desc (values counts)) i {n = n}
            at,
      ))
verdict_of_sound total threshold s counts k small listed (negsuc zero) e h =
    absurd (omega (arith, ap (λ (v : VoteResult × String). v.0) h))
verdict_of_sound total threshold s counts k small listed (negsuc (suc zero)) e h =
    absurd (omega (arith, ap (λ (v : VoteResult × String). v.0) h))
verdict_of_sound total threshold s counts k small listed (negsuc (suc (suc n))) e h =
    absurd (find_majority-ge total threshold n (sort_desc (values counts)) e)

-- A key that FindMajorityFromSlice names has the votes of a majority, however many votes there are.
pub find_majority_from_slice_sound :
    (rng : MapRange) (total threshold : ℕ) (s : List String) (k : String)
    → length s < uint_mod
    → find_majority_from_slice rng total threshold s ≡ (majority, k)
    → min total threshold ≤ votes_for k s
unfolding find_majority_from_slice find_majority_of_counts
find_majority_from_slice_sound rng total threshold s k small h =
    let counts = rng.order (String × ℕ) (count_votes s []) in
    verdict_of_sound total threshold s counts k small
      (rng.order-perm (String × ℕ) (count_votes s []))
      (find_majority total threshold (sort_desc (values counts))) refl h
