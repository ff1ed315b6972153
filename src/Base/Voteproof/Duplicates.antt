-- ===== src/Base/Voteproof/Duplicates.antt =====
-- `IsValid` of a voteproof counts votes, not voters: nothing compares the nodes of two votes, nor
-- the point of a fact with that of the voteproof.
use mathlib.Core.List.{Memᴰ, Permᴰ}
use mitum.Common.{
  ℕ, zero, suc, ◌+◌, ◌≤◌, ◌<◌, ◌≡◌, refl, ap, ◌∙◌, String, List, [], ◌∷◌, none, some, false, arith,
  length, string_discrete, replicate, subst,
}
use mitum.Common.Dict.{find, put, values, MapRange, length-perm, mem-perm}
use mitum.Common.Int.{pos}
use mitum.Util.Bytes.{Bytes}
use mitum.Util.Checks.{check_valid}
use mitum.Base.Env.{Env, Hash, Address, Time}
use mitum.Base.Stage
use mitum.Base.Stage.{Stage}
use mitum.Base.VoteResult
use mitum.Base.VoteResult.{VoteResult, majority}
use mitum.Base.Threshold.{RatioOps, new_threshold, ratio_is_valid}
use mitum.Base.Majority.{uint_mod, add_uint, first_over, decide_majority, find_majority}
use mitum.Base.Majority.Slice.{count_votes, collect_keys, key_at, or_zero}
use mitum.Base.Fact.{
  Height, SignedBallotFact, signed_fact_is_valid, fact_is_valid, height_is_valid, has_hash,
}
use mitum.Base.Voteproof.{
  Voteproof, find_fact, vote_hashes, count_distinct, is_valid_fields, votes_are_valid,
  facts_are_valid, is_valid_facts, match_recount, recount, is_valid_check_majority, is_valid_counts,
  is_valid, majority_is_valid, tail_is_valid,
}

pub singleton_perm {ℓ} : {A : Type ℓ} (xs : List A) (x : A) → Permᴰ xs (x ∷ []) → xs ≡ x ∷ []
singleton_perm [] x p = absurd (omega (arith, length-perm p))
singleton_perm (y ∷ []) x p = only (mem-perm p (Memᴰ.head refl))
  where
    only : Memᴰ y (x ∷ []) → y ∷ [] ≡ x ∷ []
    only (Memᴰ.head e) = cc
    only (Memᴰ.tail t) = elim t [ ]
singleton_perm (y ∷ z ∷ xs) x p = absurd (omega (arith, length-perm p))

count_again :
    (h : Hash) (c : ℕ)
    → c + 1 < uint_mod
    → put string_discrete h
        (add_uint (or_zero (find string_discrete h ((h, c) ∷ []))) 1)
        ((h, c) ∷ [])
      ≡ (h, c + 1) ∷ []
unfolding put find
count_again h c small = ground arith

count_votes-replicate :
    (v : SignedBallotFact) (k c : ℕ)
    → c + k < uint_mod
    → count_votes (vote_hashes (replicate k v)) ((v.fact.hash, c) ∷ []) ≡ (v.fact.hash, c + k) ∷ []
unfolding count_votes vote_hashes
count_votes-replicate v zero c h = ground arith
count_votes-replicate v (suc k) c h =
    let more : c + 1 + k ≡ c + suc k = omega arith in
    ap (count_votes (vote_hashes (replicate k v))) (count_again v.fact.hash c (omega arith))
    ∙ count_votes-replicate v k (c + 1) (omega arith)
    ∙ ap (λ x. (v.fact.hash, x) ∷ []) more

count_distinct-replicate :
    (v : SignedBallotFact) (k : ℕ)
    → count_distinct (v.fact.hash ∷ []) (vote_hashes (replicate k v)) ≡ 0
unfolding count_distinct vote_hashes has_hash
count_distinct-replicate v zero = refl
count_distinct-replicate v (suc k) = ground (arith, count_distinct-replicate v k)

count_distinct_one :
    (v : SignedBallotFact) (n : ℕ) → count_distinct [] (vote_hashes (replicate (suc n) v)) ≡ 1
unfolding count_distinct vote_hashes has_hash
count_distinct_one v n = ground (arith, count_distinct-replicate v n)

count_votes_one :
    (v : SignedBallotFact) (n : ℕ)
    → suc n < uint_mod
    → count_votes (vote_hashes (replicate (suc n) v)) [] ≡ (v.fact.hash, suc n) ∷ []
unfolding count_votes vote_hashes put find
count_votes_one v n small =
    let more : 1 + n ≡ suc n = omega arith in
    count_votes-replicate v n 1 (omega arith) ∙ ap (λ x. (v.fact.hash, x) ∷ []) more

-- The order of the runtime leaves a map of one entry as it is.
order_one :
    (rng : MapRange) (v : SignedBallotFact) (n : ℕ)
    → suc n < uint_mod
    → rng.order (String × ℕ) (count_votes (vote_hashes (replicate (suc n) v)) [])
      ≡ (v.fact.hash, suc n) ∷ []
order_one rng v n small =
    let cv = count_votes (vote_hashes (replicate (suc n) v)) [] in
    singleton_perm (rng.order (String × ℕ) cv) (v.fact.hash, suc n)
      (subst (λ l. Permᴰ (rng.order (String × ℕ) cv) l) (count_votes_one v n small)
        (rng.order-perm (String × ℕ) cv))

find_majority_one :
    (total threshold n : ℕ)
    → threshold ≤ total
    → threshold ≤ n
    → find_majority total threshold (n ∷ []) ≡ pos 0
unfolding find_majority decide_majority first_over
find_majority_one total threshold n le enough = ground arith

key_at_one :
    (h : Hash) (n : ℕ) → key_at (collect_keys ((h, n) ∷ []) []) (values ((h, n) ∷ [])) 0 ≡ h
unfolding key_at collect_keys find put
key_at_one h n = ground arith

module _ (env : Env) (network_id : Bytes) (v : SignedBallotFact) where
  votes_are_valid-replicate :
      (k : ℕ)
      → signed_fact_is_valid env network_id v ≡ none
      → (ops : RatioOps) → votes_are_valid ops env network_id (v.fact ∷ []) (replicate k v) ≡ none
  unfolding votes_are_valid find_fact
  votes_are_valid-replicate zero signed ops = refl
  votes_are_valid-replicate (suc k) signed ops =
      ground (arith, votes_are_valid-replicate k signed ops)

  signed-fact : signed_fact_is_valid env network_id v ≡ none → fact_is_valid env v.fact ≡ none
  unfolding signed_fact_is_valid check_valid
  signed-fact signed = ground arith

length-replicate : {A : Type 0} (n : ℕ) (a : A) → length (replicate n a) ≡ n
length-replicate zero a = refl
length-replicate (suc n) a = ap suc (length-replicate n a)

module _ (ops : RatioOps) (env : Env) (rng : MapRange) where
  -- One signed fact, `suc n` times, as the votes of a voteproof.
  unfoldable pub duplicated :
      Height
      → ℕ
      → List Address
      → ops.Ratio
      → Stage
      → Time
      → SignedBallotFact
      → ℕ
      → Voteproof ops.Ratio
  duplicated height round suffrages ratio stage at v n = record {
    height = height;
    round = round;
    suffrages = suffrages;
    threshold_ratio = ratio;
    result = majority;
    closed = false;
    stage = stage;
    majority = some v.fact;
    facts = v.fact ∷ [];
    votes = replicate (suc n) v;
    finished_at = at;
  }

  module _ (network_id : Bytes) (height : Height) (round : ℕ) (suffrages : List Address)
      (ratio : ops.Ratio) (stage : Stage) (at : Time) (v : SignedBallotFact) (n : ℕ) where
    abbrev vp : Voteproof ops.Ratio
    vp = duplicated height round suffrages ratio stage at v n

    duplicated-fields :
        signed_fact_is_valid env network_id v ≡ none
        → height_is_valid height ≡ none
        → Stage.is_valid stage ≡ none
        → ratio_is_valid ops ratio ≡ none
        → 0 < at
        → is_valid_fields ops env vp ≡ none
    unfolding duplicated is_valid_fields majority_is_valid tail_is_valid check_valid
        VoteResult.is_valid
    duplicated-fields signed h s r t = ground (arith, signed-fact env network_id v signed)

    duplicated-facts :
        signed_fact_is_valid env network_id v ≡ none → is_valid_facts ops env network_id vp ≡ none
    unfolding duplicated is_valid_facts facts_are_valid check_valid
    duplicated-facts signed = ground (
      arith,
      votes_are_valid-replicate env network_id v (suc n) signed ops,
      signed-fact env network_id v signed,
      count_distinct_one v n,
    )

    recount_one : recount ops env vp ((v.fact.hash, suc n) ∷ []) (pos 0) ≡ none
    unfolding duplicated recount match_recount find_fact
    recount_one = ground (arith, key_at_one v.fact.hash (suc n))

    duplicated-check :
        (new_threshold ops (length suffrages) ratio).1 ≡ none
        → ops.ceil_share (length suffrages) ratio ≤ suc n
        → suc n < uint_mod
        → is_valid_check_majority ops env rng vp ≡ none
    unfolding duplicated is_valid_check_majority new_threshold
    duplicated-check thr enough small =
        let fits : ops.ceil_share (length suffrages) ratio ≤ length suffrages = ground arith in
        ground (
          arith,
          order_one rng v n small,
          find_majority_one (length suffrages) (ops.ceil_share (length suffrages) ratio) (suc n)
              fits enough,
          recount_one,
        )

    duplicated-counts :
        (new_threshold ops (length suffrages) ratio).1 ≡ none
        → ops.ceil_share (length suffrages) ratio ≤ suc n
        → suc n < uint_mod
        → is_valid_counts ops env rng vp ≡ none
    unfolding duplicated is_valid_counts new_threshold
    duplicated-counts thr enough small =
        ground (arith, duplicated-check thr enough small, length-replicate n v)

    -- One valid signed fact, repeated as often as the threshold asks for, passes `IsValid` as a
    -- majority of the suffrage, at any valid height, round and stage.
    pub duplicated-is_valid :
        signed_fact_is_valid env network_id v ≡ none
        → height_is_valid height ≡ none
        → Stage.is_valid stage ≡ none
        → 0 < at
        → (new_threshold ops (length suffrages) ratio).1 ≡ none
        → ops.ceil_share (length suffrages) ratio ≤ suc n
        → suc n < uint_mod
        → is_valid ops env rng network_id (duplicated height round suffrages ratio stage at v n)
          ≡ none
    unfolding is_valid new_threshold
    duplicated-is_valid signed h s t thr enough small = ground (
      arith,
      duplicated-fields signed h s (ground arith) t,
      duplicated-facts signed,
      duplicated-counts thr enough small,
    )
