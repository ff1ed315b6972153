-- ===== src/Base/Majority/Slice/Verdict.antt =====
-- What FindMajorityFromSlice tells about the votes, whatever the order of the runtime's maps.
use mathlib.Core.List.{Memᴰ, Permᴰ}
use mitum.Common.{
  ℕ, zero, suc, ◌+◌, ◌-◌, ◌*◌, ◌≤◌, ◌<◌, min, ◌≡◌, refl, sym, ap, ◌∙◌, ◌≢◌, ◌⊎◌, inl, inr, String,
  List, [], ◌∷◌, ◌++◌, some, string_discrete, arith, length, get_elem?, replicate, count-append,
  count-le-length, length-append,
}
use mitum.Common.Dict.{Dict, find, values, MapRange, mem-perm, find_of_IsMap}
use mitum.Common.Int.{ℤ}
use mitum.Base.Majority.{uint_mod, insert_desc, sort_desc, find_majority}
use mitum.Base.Majority.Spec.{
  total_votes, maximum, best_possible, Outcome, reached, hopeless, open_yet, find_majority_cases,
  maximum-sort_desc, maximum-lt,
}
use mitum.Base.Majority.Slice.{
  count_votes, collect_keys, key_at, verdict_of, find_majority_of_counts, find_majority_from_slice,
}
use mitum.Base.Majority.Slice.Counts.{
  votes_for, count_votes-IsMap, total_votes-count_votes, recorded-count_votes, total_votes-perm,
  total_votes-sort_desc, maximum-perm, recorded-le-maximum,
}
use mitum.Base.Majority.Slice.Members.{
  get_elem?-mem, mem-sort_desc, mem-values, maximum-mem, collect_keys-mem,
}
use mitum.Base.VoteResult.{VoteResult, not_yet, draw, majority}

-- Agreed: the key has the votes of a majority. Never: however the votes that are out are cast, no
-- key gets them. Open: no key has them, and some key still can get them.
pub data Verdict (total threshold : ℕ) (s : List String) : VoteResult × String → Type 0 where
  agreed :
      (k : String) → min total threshold ≤ votes_for k s → Verdict total threshold s (majority, k)
  never :
      ((later : List String) (k : String)
        → length (s ++ later) ≤ total
        → votes_for k (s ++ later) < min total threshold)
      → Verdict total threshold s (draw, "")
  not_settled :
      ((k : String) → (s ≡ []) ⊎ (votes_for k s < min total threshold))
      → (k : String) → min total threshold ≤ votes_for k (s ++ replicate (total - length s) k)
      → Verdict total threshold s (not_yet, "")

votes_for-replicate : (k : String) (n : ℕ) → votes_for k (replicate n k) ≡ n
votes_for-replicate k zero = refl
votes_for-replicate k (suc n) = ground (arith, votes_for-replicate k n)

-- The facts about a listing of the counted votes that do not depend on its order.
module _ (s : List String) (counts : Dict String ℕ) (small : length s < uint_mod)
    (listed : Permᴰ counts (count_votes s [])) where
  total-counts : total_votes (sort_desc (values counts)) ≡ length s
  total-counts = omega (
    arith,
    total_votes-sort_desc (values counts),
    total_votes-perm listed,
    total_votes-count_votes s [] (omega arith),
  )

  count_of_mem : (k : String) {n : ℕ} → Memᴰ (k, n) counts → n ≡ votes_for k s
  unfolding find
  count_of_mem k {n} m =
      let found : find string_discrete k (count_votes s []) ≡ some n =
        find_of_IsMap string_discrete k (count_votes s []) (count_votes-IsMap s [] tt)
          (mem-perm listed m) in
      ground (arith, found, recorded-count_votes k s [] (omega arith))

  votes_for-le-maximum : (k : String) → votes_for k s ≤ maximum (sort_desc (values counts))
  unfolding find
  votes_for-le-maximum k = omega (
    arith,
    maximum-sort_desc (values counts),
    maximum-perm listed,
    recorded-le-maximum k (count_votes s []),
    recorded-count_votes k s [] (omega arith),
  )

  -- The key that is read back at an index has as many votes as the count there says.
  pub votes_for-key_at :
      (set : List ℕ)
      → ((n : ℕ) → Memᴰ n set → Memᴰ n (values counts))
      → (i : ℕ) {n : ℕ} → get_elem? set i ≡ some n
      → votes_for (key_at (collect_keys counts []) set i) s ≡ n
  unfolding key_at
  votes_for-key_at set counted i {n} at =
      let (j, m) = mem-values counts (counted n (get_elem?-mem set i at)) in
      let (k, found, from) = collect_keys-mem counts [] n m in
      rw (at, key_at, found) (sym (count_of_mem k from))

-- Some key has the greatest count, unless nothing is counted.
maximum-key :
    (s : List String) (x : String × ℕ) (counts : Dict String ℕ)
    → length s < uint_mod
    → Permᴰ (x ∷ counts) (count_votes s [])
    → (k : String) × (maximum (sort_desc (values (x ∷ counts))) ≡ votes_for k s)
maximum-key s (j, n) counts small listed =
    let (k, m) = mem-values ((j, n) ∷ counts) (maximum-mem n (values counts)) in
    (k, maximum-sort_desc _ ∙ count_of_mem s ((j, n) ∷ counts) small listed k m)

insert_desc-ne-nil : (n : ℕ) (set : List ℕ) → insert_desc n set ≢ []
unfolding insert_desc
insert_desc-ne-nil n [] h = cc
insert_desc-ne-nil n (m ∷ set) h = ground arith

module _ (total threshold : ℕ) (s : List String) (fits : length s ≤ total)
    (small : total < uint_mod) where
  -- No key can be brought to the threshold by the votes that are out.
  hopeless-never :
      (counts : Dict String ℕ)
      → Permᴰ counts (count_votes s [])
      → best_possible total (sort_desc (values counts)) < min total threshold
      → (later : List String) (k : String) → length (s ++ later) ≤ total
      → votes_for k (s ++ later) < min total threshold
  hopeless-never counts listed low later k le = omega (
    arith,
    count-append string_discrete k s later,
    count-le-length string_discrete k later,
    length-append s later,
    votes_for-le-maximum s counts (omega arith) listed k,
    total-counts s counts (omega arith) listed,
  )

  outcome-Verdict :
      (x : String × ℕ) (counts : Dict String ℕ)
      → Permᴰ (x ∷ counts) (count_votes s [])
      → {z : ℤ} → Outcome total threshold (sort_desc (values (x ∷ counts))) z
      → Verdict total threshold s
          (verdict_of (collect_keys (x ∷ counts) []) (sort_desc (values (x ∷ counts))) z)
  unfolding verdict_of sort_desc
  outcome-Verdict x counts listed (reached i n at over) = agreed _ (
      omega (
        arith,
        votes_for-key_at s (x ∷ counts) (omega arith) listed (sort_desc (values (x ∷ counts)))
            (λ m. mem-sort_desc (values (x ∷ counts))) i at,
      ))
  outcome-Verdict x counts listed (hopeless low) = never (hopeless-never (x ∷ counts) listed low)
  outcome-Verdict x counts listed (open_yet below best) =
      let low =
        maximum-lt (min total threshold) _ (insert_desc-ne-nil x.1 (sort_desc (values counts)))
          below in
      let (k, top) = maximum-key s x counts (omega arith) listed in
      not_settled
        (λ j. inr (omega (arith, low, votes_for-le-maximum s (x ∷ counts) (omega arith) listed j)))
        k
        (omega (
          arith,
          top,
          total-counts s (x ∷ counts) (omega arith) listed,
          count-append string_discrete k s (replicate (total - length s) k),
          votes_for-replicate k (total - length s),
        ))

find_majority_of_counts-Verdict :
    (total threshold : ℕ) (s : List String)
    → length s ≤ total
    → total < uint_mod
    → (counts : Dict String ℕ) → Permᴰ counts (count_votes s [])
    → Verdict total threshold s (find_majority_of_counts total threshold counts)
unfolding find_majority_of_counts
find_majority_of_counts-Verdict total threshold [] fits small [] listed =
    unfold find_majority sort_desc in
    not_settled (λ k. inl refl) ""
      (omega (
        arith,
        count-append string_discrete "" [] (replicate (total - 0) ""),
        votes_for-replicate "" (total - 0),
      ))
find_majority_of_counts-Verdict total threshold (k ∷ s) fits small [] listed =
    absurd (unfold sort_desc in omega (arith, total-counts (k ∷ s) [] (omega arith) listed))
find_majority_of_counts-Verdict total threshold s fits small (x ∷ counts) listed =
    outcome-Verdict total threshold s fits small x counts listed (
      find_majority_cases total threshold (sort_desc (values (x ∷ counts)))
        (unfold sort_desc in insert_desc-ne-nil x.1 (sort_desc (values counts)))
        (omega (arith, total-counts s (x ∷ counts) (omega arith) listed)) small)

-- FindMajorityFromSlice, on at most `total` votes, which are fewer than 2^64: it names a key that has a majority, or it says
-- draw when no further votes can give any key a majority, or not yet when no key has one and some
-- key still can; this holds for every order in which the runtime ranges over the maps.
pub find_majority_from_slice-Verdict :
    (rng : MapRange) (total threshold : ℕ) (s : List String)
    → length s ≤ total
    → total < uint_mod
    → Verdict total threshold s (find_majority_from_slice rng total threshold s)
unfolding find_majority_from_slice
find_majority_from_slice-Verdict rng total threshold s fits small =
    find_majority_of_counts-Verdict total threshold s fits small _
      (rng.order-perm (String × ℕ) (count_votes s []))

-- Two keys share out the votes.
pub votes_for-add-le :
    (s : List String) {j k : String} → j ≢ k → votes_for j s + votes_for k s ≤ length s
votes_for-add-le [] ne = omega arith
votes_for-add-le (x ∷ s) ne = ground (arith, votes_for-add-le s ne)

-- On at most `total` votes, which are fewer than 2^64, and with a threshold of more than half of
-- `total` and not over it, a key that reaches it is the one that
-- FindMajorityFromSlice names, in whatever order the runtime ranges over the maps.
pub find_majority_from_slice_complete :
    (rng : MapRange) (total threshold : ℕ) (s : List String) (k : String)
    → length s ≤ total
    → total < uint_mod
    → threshold ≤ total
    → total < 2 * threshold
    → threshold ≤ votes_for k s
    → find_majority_from_slice rng total threshold s ≡ (majority, k)
find_majority_from_slice_complete rng total threshold s k fits small le half enough =
    go (find_majority_from_slice-Verdict rng total threshold s fits small)
  where
    go : {v : VoteResult × String} → Verdict total threshold s v → v ≡ (majority, k)
    go (agreed j over) = elim (string_discrete j k) [
      | yes e ↦ cc
      | no ne ↦ absurd (omega (arith, votes_for-add-le s ne))
    ]
    go (never no_more) = absurd (
        omega (
          arith,
          count-append string_discrete k s [],
          length-append s [],
          no_more [] k (omega (arith, length-append s [])),
        ))
    go (not_settled below _ _) = elim (below k) [
      | inl none_yet ↦ absurd (
          omega (
            arith,
            count-le-length string_discrete k s,
            ap (λ (l : List String). length l) none_yet,
          ))
      | inr lt ↦ absurd (omega arith)
    ]
