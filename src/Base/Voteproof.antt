-- ===== src/Base/Voteproof.antt =====
-- base/voteproof_v0.go and base/voteproof.go: the result of a vote with its evidence.
pub mod Order
pub mod Evidence
pub mod Duplicates
use mitum.Common.{
  ℕ, zero, suc, ◌+◌, ◌&&◌, String, Bool, true, false, List, [], ◌∷◌, Option, none, some, ltb, ◌==◌,
  if◌then◌else◌, string_discrete, ite, length, not,
}
use mitum.Common.Dict.{Dict, MapRange, values}
use mitum.Common.Int.{ℤ, pos, negsuc, ltb_ℤ}
use mitum.Common.Errors.{Error, invalid, panicked}
use mitum.Util.Bytes.{Bytes}
use mitum.Util.Checks.{check_valid, value, Validity}
use mitum.Base.Env.{Env, Hash, Address, Time}
use mitum.Base.Stage
use mitum.Base.Stage.{Stage}
use mitum.Base.VoteResult
use mitum.Base.VoteResult.{VoteResult, not_yet, draw, majority}
use mitum.Base.Threshold.{RatioOps, Threshold, new_threshold, ratio_is_valid}
use mitum.Base.Majority.{find_majority}
use mitum.Base.Majority.Slice.{count_votes, collect_keys, key_at}
use mitum.Base.Fact.{
  Height, BallotFact, FactSign, SignedBallotFact, height_is_valid, fact_is_valid,
  signed_fact_is_valid, has_hash,
}

pub record Voteproof (Ratio : Type 0) : Type 0 where
  pub height : Height
  pub round : ℕ
  pub suffrages : List Address
  pub threshold_ratio : Ratio
  pub result : VoteResult
  pub closed : Bool
  pub stage : Stage
  pub majority : Option BallotFact
  pub facts : List BallotFact
  pub votes : List SignedBallotFact
  pub finished_at : Time

module _ {Ratio : Type 0} where
  -- `NewVoteproofV0`.
  unfoldable pub new_voteproof : Height → ℕ → List Address → Ratio → Stage → Voteproof Ratio
  new_voteproof height round suffrages ratio stage = record {
    height = height;
    round = round;
    suffrages = suffrages;
    threshold_ratio = ratio;
    result = not_yet;
    closed = false;
    stage = stage;
    majority = none;
    facts = [];
    votes = [];
    finished_at = 0;
  }

  unfoldable pub is_finished : Voteproof Ratio → Bool
  is_finished vp = not (vp.result == not_yet)

  -- `Finish` reads the clock.
  unfoldable pub finish : Time → Voteproof Ratio → Voteproof Ratio
  finish now vp = record vp { finished_at = now }

  unfoldable pub close : Voteproof Ratio → Voteproof Ratio
  close vp = record vp { closed = true }

  -- `CompareVoteproofSamePoint`: 1, 0 or -1, and -1 where one of them is nil.
  unfoldable pub compare_point : Option (Voteproof Ratio) → Option (Voteproof Ratio) → ℤ
  compare_point none b = negsuc 0
  compare_point (some a) none = negsuc 0
  compare_point (some a) (some b) =
      if ltb_ℤ b.height a.height
      then pos 1
      else if ltb_ℤ a.height b.height
      then negsuc 0
      else if ltb b.round a.round
      then pos 1
      else if ltb a.round b.round
      then negsuc 0
      else pos 0

  -- The part of `CompareVoteproof` that compares the stages.
  unfoldable pub compare_stage : Option (Voteproof Ratio) → Option (Voteproof Ratio) → ℤ
  compare_stage (some a) (some b) =
      if ltb b.stage a.stage then pos 1 else if ltb a.stage b.stage then negsuc 0 else pos 0
  compare_stage _ _ = negsuc 0

  unfoldable pub compare_voteproof : Option (Voteproof Ratio) → Option (Voteproof Ratio) → ℤ
  unfolding compare_point compare_stage
  compare_voteproof a b = elim (compare_point a b) [
    | pos zero ↦ compare_stage a b
    | pos (suc n) ↦ pos (suc n)
    | negsuc n ↦ negsuc n
  ]

-- The first of the facts with a hash, as the loop of the source finds it.
unfoldable pub find_fact : Hash → List BallotFact → Option BallotFact
find_fact h [] = none
find_fact h (f ∷ facts) = ite (string_discrete h f.hash) (some f) (find_fact h facts)

-- The hash of the fact of each vote.
unfoldable pub vote_hashes : List SignedBallotFact → List Hash
vote_hashes [] = []
vote_hashes (v ∷ votes) = v.fact.hash ∷ vote_hashes votes

-- `len(factHashes)`: how many different hashes.
unfoldable pub count_distinct : List Hash → List Hash → ℕ
count_distinct founds [] = 0
count_distinct founds (h ∷ hs) =
    let seen = has_hash h founds in
    (if seen then 0 else 1) + count_distinct (if seen then founds else h ∷ founds) hs

module _ (ops : RatioOps) (env : Env) where
  -- The checks of `isValidFields` on facts and votes, and before them on the majority.
  unfoldable pub tail_is_valid : Voteproof ops.Ratio → Option Error
  tail_is_valid vp =
      if length vp.facts == 0
      then some invalid
      else if length vp.votes == 0
      then some invalid
      else none

  unfoldable pub majority_is_valid : Voteproof ops.Ratio → Option Error
  majority_is_valid vp = elim vp.majority [
    | none ↦ if not (vp.result == draw) then some invalid else tail_is_valid vp
    | some m ↦ elim (fact_is_valid env m) [ some e ↦ some e | none ↦ tail_is_valid vp ]
  ]

  -- `isValidFields`.
  unfoldable pub is_valid_fields : Voteproof ops.Ratio → Option Error
  is_valid_fields vp =
      elim (check_valid false (
        value (height_is_valid vp.height)
        ∷ value (Stage.is_valid vp.stage)
        ∷ value (ratio_is_valid ops vp.threshold_ratio)
        ∷ value (VoteResult.is_valid vp.result)
        ∷ [])) [
          | some e ↦ some e
          | none ↦
              if vp.finished_at == 0
              then some invalid
              else if not (vp.result == majority) && not (vp.result == draw)
              then some invalid
              else majority_is_valid vp
        ]

  -- The loop of `isValidFacts` over the votes.
  unfoldable pub votes_are_valid : Bytes → List BallotFact → List SignedBallotFact → Option Error
  votes_are_valid network_id facts [] = none
  votes_are_valid network_id facts (nf ∷ votes) =
      let rest = votes_are_valid network_id facts votes in
      elim (signed_fact_is_valid env network_id nf) [
        | some e ↦ some e
        | none ↦ elim (find_fact nf.fact.hash facts) [ none ↦ some invalid | some _ ↦ rest ]
      ]

  unfoldable pub facts_are_valid : List BallotFact → Option Error
  facts_are_valid [] = none
  facts_are_valid (f ∷ facts) =
      let rest = facts_are_valid facts in
      elim (check_valid false (value (fact_is_valid env f) ∷ [])) [ some e ↦ some e | none ↦ rest ]

  unfoldable pub is_valid_facts : Bytes → Voteproof ops.Ratio → Option Error
  is_valid_facts network_id vp = elim (votes_are_valid network_id vp.facts vp.votes) [
    | some e ↦ some e
    | none ↦
        if count_distinct [] (vote_hashes vp.votes) == length vp.facts
        then facts_are_valid vp.facts
        else some invalid
  ]

  -- The comparison of `isValidCheckMajority` with the recount: the result, the text of the hash
  -- and the fact that is found for it.
  unfoldable pub match_recount :
      Voteproof ops.Ratio → VoteResult → Hash → Option BallotFact → Option Error
  match_recount vp result fact_hash fact =
      if vp.result == result
      then elim fact [
        | none ↦ elim vp.majority [ none ↦ none | some _ ↦ some invalid ]
        | some _ ↦ elim vp.majority [
          | none ↦ some panicked
          | some m ↦ ite (string_discrete m.hash fact_hash) none (some invalid)
        ]
      ]
      else some invalid

  -- The recount, on the counts in the order in which the runtime lists them.
  unfoldable pub recount : Voteproof ops.Ratio → Dict String ℕ → ℤ → Option Error
  recount vp counts (pos i) =
      let h = key_at (collect_keys counts []) (values counts) i in
      match_recount vp majority h (find_fact h vp.facts)
  recount vp counts (negsuc zero) = match_recount vp not_yet "" none
  recount vp counts (negsuc (suc n)) = match_recount vp draw "" none

  module _ (rng : MapRange) where
    -- `isValidCheckMajority`.
    unfoldable pub is_valid_check_majority : Voteproof ops.Ratio → Option Error
    is_valid_check_majority vp =
        let (thr, e) = new_threshold ops (length vp.suffrages) vp.threshold_ratio in
        let counts = rng.order (String × ℕ) (count_votes (vote_hashes vp.votes) []) in
        elim e [
          | some _ ↦ some invalid
          | none ↦ recount vp counts (find_majority thr.total thr.threshold (values counts))
        ]

    -- The check of the threshold, behind those of the fields and the facts.
    unfoldable pub is_valid_counts : Voteproof ops.Ratio → Option Error
    is_valid_counts vp =
        let (thr, e) = new_threshold ops (length vp.suffrages) vp.threshold_ratio in
        elim e [
          | some _ ↦ some invalid
          | none ↦
              if ltb (length vp.votes) thr.threshold
              then if vp.result == not_yet then none else some invalid
              else is_valid_check_majority vp
        ]

    unfoldable pub is_valid : Bytes → Voteproof ops.Ratio → Option Error
    is_valid network_id vp = elim (is_valid_fields vp) [
      | some e ↦ some e
      | none ↦ elim (is_valid_facts network_id vp) [ some e ↦ some e | none ↦ is_valid_counts vp ]
    ]
