-- ===== src/Base/Voteproof/Evidence.antt =====
-- What a voteproof without error shows, and what it does not.
use mathlib.Core.List.{Permᴰ}
use mitum.Common.{
  ℕ, zero, suc, ◌≤◌, ◌<◌, min, ◌≡◌, refl, ◌≢◌, ◌⊎◌, inl, inr, String, List, [], ◌∷◌, Option, none,
  some, arith, length, Option-cases,
}
use mitum.Common.Dict.{Dict, values, MapRange}
use mitum.Common.Int.{ℤ, pos, negsuc}
use mitum.Util.Bytes.{Bytes}
use mitum.Base.Env.{Env, Hash}
use mitum.Base.VoteResult.{VoteResult, not_yet, draw, majority}
use mitum.Base.Threshold.{RatioOps, new_threshold}
use mitum.Base.Majority.{uint_mod, find_majority}
use mitum.Base.Majority.Spec.{find_majority_reached}
use mitum.Base.Majority.Slice.{count_votes, collect_keys, key_at}
use mitum.Base.Majority.Slice.Counts.{votes_for}
use mitum.Base.Majority.Slice.Verdict.{votes_for-key_at}
use mitum.Base.Fact.{BallotFact, SignedBallotFact}
use mitum.Base.Voteproof.{
  Voteproof, find_fact, vote_hashes, is_valid_fields, is_valid_facts, match_recount, recount,
  is_valid_check_majority, is_valid_counts, is_valid, majority_is_valid,
}

pub length-vote_hashes : (votes : List SignedBallotFact) → length (vote_hashes votes) ≡ length votes
unfolding vote_hashes
length-vote_hashes [] = refl
length-vote_hashes (v ∷ votes) = omega (arith, length-vote_hashes votes)

module _ (ops : RatioOps) (env : Env) where
  -- The threshold that the suffrage nodes of a voteproof have to reach.
  abbrev pub required : Voteproof ops.Ratio → ℕ
  required vp = ops.ceil_share (length vp.suffrages) vp.threshold_ratio

  match_recount_majority :
      (vp : Voteproof ops.Ratio) (result : VoteResult) (h : Hash) (fact : Option BallotFact)
      (m : BallotFact)
      → match_recount ops env vp result h fact ≡ none
      → vp.result ≡ majority
      → vp.majority ≡ some m
      → (m.hash ≡ h) × (result ≡ majority)
  unfolding match_recount
  match_recount_majority vp result h fact m valid won has = ground arith

  has_majority :
      (vp : Voteproof ops.Ratio)
      → is_valid_fields ops env vp ≡ none
      → vp.result ≡ majority
      → (m : BallotFact) × (vp.majority ≡ some m)
  unfolding is_valid_fields majority_is_valid
  has_majority vp valid won = elim (Option-cases vp.majority) [
    | inl lacks ↦ absurd (ground arith)
    | inr (m, has) ↦ (m, has)
  ]

  -- A voteproof without error is finished: its result is a majority or a draw.
  fields_finished :
      (vp : Voteproof ops.Ratio)
      → is_valid_fields ops env vp ≡ none
      → (vp.result ≡ majority) ⊎ (vp.result ≡ draw)
  unfolding is_valid_fields
  fields_finished vp valid = ground arith

  recount_reached :
      (vp : Voteproof ops.Ratio) (m : BallotFact) (counts : Dict String ℕ) (total threshold : ℕ)
      → vp.result ≡ majority
      → vp.majority ≡ some m
      → length (vote_hashes vp.votes) < uint_mod
      → Permᴰ counts (count_votes (vote_hashes vp.votes) [])
      → (z : ℤ) → find_majority total threshold (values counts) ≡ z
      → recount ops env vp counts z ≡ none
      → min total threshold ≤ votes_for m.hash (vote_hashes vp.votes)
  unfolding recount
  recount_reached vp m counts total threshold won has small listed (pos i) e valid =
      let h = key_at (collect_keys counts []) (values counts) i in
      let same : m.hash ≡ h =
        (match_recount_majority vp majority h (find_fact h vp.facts) m valid won has).0 in
      let (n, at, over) = find_majority_reached total threshold (values counts) {i = i} e in
      rw same (
        omega (
          arith,
          votes_for-key_at (vote_hashes vp.votes) counts small listed (values counts) (λ _ x. x) i
              {n = n} at,
        ))
  recount_reached vp m counts total threshold won has small listed (negsuc zero) e valid =
      absurd (omega (arith, (match_recount_majority vp not_yet "" none m valid won has).1))
  recount_reached vp m counts total threshold won has small listed (negsuc (suc n)) e valid =
      absurd (omega (arith, (match_recount_majority vp draw "" none m valid won has).1))

  module _ (rng : MapRange) where
    is_valid_parts :
        (network_id : Bytes) (vp : Voteproof ops.Ratio)
        → is_valid ops env rng network_id vp ≡ none
        → (is_valid_fields ops env vp ≡ none)
          × (is_valid_facts ops env network_id vp ≡ none)
          × (is_valid_counts ops env rng vp ≡ none)
    unfolding is_valid
    is_valid_parts network_id vp valid = ground arith

    counts_parts :
        (vp : Voteproof ops.Ratio)
        → is_valid_counts ops env rng vp ≡ none
        → vp.result ≢ not_yet
        → (required vp ≤ length vp.votes)
          × (required vp ≤ length vp.suffrages)
          × (is_valid_check_majority ops env rng vp ≡ none)
    unfolding is_valid_counts new_threshold
    counts_parts vp valid finished = ground arith

    recount_majority :
        (vp : Voteproof ops.Ratio) (m : BallotFact)
        → is_valid_check_majority ops env rng vp ≡ none
        → vp.result ≡ majority
        → vp.majority ≡ some m
        → length (vote_hashes vp.votes) < uint_mod
        → min (length vp.suffrages) (required vp) ≤ votes_for m.hash (vote_hashes vp.votes)
    unfolding is_valid_check_majority new_threshold
    recount_majority vp m valid won has small =
        let counts = rng.order (String × ℕ) (count_votes (vote_hashes vp.votes) []) in
        recount_reached vp m counts (length vp.suffrages) (required vp) won has small
          (rng.order-perm (String × ℕ) (count_votes (vote_hashes vp.votes) []))
          (find_majority (length vp.suffrages) (required vp) (values counts)) refl (ground arith)

    -- A voteproof without error is finished, with a majority or a draw, and has at least as many
    -- votes as its threshold asks for, which is not over the number of its suffrage nodes.
    pub is_valid_finished :
        (network_id : Bytes) (vp : Voteproof ops.Ratio)
        → is_valid ops env rng network_id vp ≡ none
        → ((vp.result ≡ majority) ⊎ (vp.result ≡ draw))
          × (required vp ≤ length vp.votes)
          × (required vp ≤ length vp.suffrages)
    is_valid_finished network_id vp valid =
        let (fields, _, counts) = is_valid_parts network_id vp valid in
        let finished = fields_finished vp fields in
        let (enough, fits, _) = counts_parts vp counts (ground arith) in (finished, enough, fits)

    -- A voteproof without error whose result is a majority has a majority fact, and as many of its
    -- votes as its threshold asks for are for the hash of this fact.
    pub is_valid_majority :
        (network_id : Bytes) (vp : Voteproof ops.Ratio)
        → is_valid ops env rng network_id vp ≡ none
        → vp.result ≡ majority
        → length vp.votes < uint_mod
        → (m : BallotFact) × (vp.majority ≡ some m)
          × (required vp ≤ votes_for m.hash (vote_hashes vp.votes))
    is_valid_majority network_id vp valid won small =
        let (fields, _, counts) = is_valid_parts network_id vp valid in
        let (_, fits, check) = counts_parts vp counts (omega arith) in
        let (m, has) = has_majority vp fields won in
        (
          m,
          has,
          omega (
            arith,
            recount_majority vp m check won has (omega (arith, length-vote_hashes vp.votes)),
          ),
        )
