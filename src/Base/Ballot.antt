-- ===== src/Base/Ballot.antt =====
-- base/ballot/seal.go, init.go, accept.go and proposal.go: ballots, and the rules that tie a ballot
-- to the voteproofs that it carries. The seal around a ballot is not modelled.
pub mod Point
use mitum.Common.{
  ℕ, zero, suc, ◌+◌, ◌%◌, Bool, true, false, Option, none, some, ltb, ◌==◌, not, if◌then◌else◌,
}
use mitum.Common.Int.{ℤ, pos, negsuc, ◌+ℤ◌, ◌-ℤ◌, eqb_ℤ, wrap_int64}
use mitum.Common.Errors.{Error, invalid, failed, panicked}
use mitum.Base.Env.{Time, Address}
use mitum.Base.Stage.{Stage, stage_init, stage_proposal, stage_accept}
use mitum.Base.VoteResult.{draw, majority}
use mitum.Base.Fact.{BallotFact, FactSign, SignedBallotFact, stage_of}
use mitum.Base.Voteproof.{Voteproof}

-- The type in the hint of a ballot.
pub data BallotType : Type 0 where
  init_ballot proposal_ballot accept_ballot : BallotType

pub record Ballot (Ratio : Type 0) : Type 0 where
  pub type : BallotType
  pub signed_fact : SignedBallotFact
  pub signed_at : Time
  pub base_voteproof : Option (Voteproof Ratio)
  pub accept_voteproof : Option (Voteproof Ratio)

abbrev pub raw_fact : {Ratio : Type 0} → Ballot Ratio → BallotFact
raw_fact blt = blt.signed_fact.fact

abbrev pub node_of : {Ratio : Type 0} → Ballot Ratio → Address
node_of blt = blt.signed_fact.sign.node

abbrev pub fact_stage : BallotFact → Stage
fact_stage fact = stage_of fact.body

-- A round is an `uint64`.
abbrev pub next_round : ℕ → ℕ
next_round r = (r + 1) % 18446744073709551616

module _ {Ratio : Type 0} where
  -- `BaseSeal.isValidHasFact`: the type of the ballot is that of its fact's stage.
  unfoldable pub is_valid_has_fact : Ballot Ratio → Option Error
  is_valid_has_fact sl =
      if fact_stage (raw_fact sl) == stage_init
      then elim sl.type [ init_ballot ↦ none | _ ↦ some invalid ]
      else if fact_stage (raw_fact sl) == stage_proposal
      then elim sl.type [ proposal_ballot ↦ none | _ ↦ some invalid ]
      else if fact_stage (raw_fact sl) == stage_accept
      then elim sl.type [ accept_ballot ↦ none | _ ↦ some invalid ]
      else some invalid

  -- `BaseSeal.isValidSignedAt`.
  unfoldable pub is_valid_signed_at : Ballot Ratio → Option Error
  is_valid_signed_at sl =
      if fact_stage (raw_fact sl) == stage_proposal
      then none
      else if ltb sl.signed_at sl.signed_fact.sign.signed_at
      then some invalid
      else none

  -- `BaseSeal.isValidBaseVoteproofAfterINIT`; a base voteproof that is nil makes it panic.
  unfoldable pub is_valid_base_voteproof_after_init : Ballot Ratio → Option Error
  is_valid_base_voteproof_after_init sl = elim sl.accept_voteproof [
    | some _ ↦ some failed
    | none ↦ elim sl.base_voteproof [
      | none ↦ some panicked
      | some vp ↦
          if not (vp.stage == stage_init)
          then some failed
          else if not (vp.result == majority)
          then some failed
          else if not (eqb_ℤ vp.height (raw_fact sl).height)
          then some failed
          else if not (vp.round == (raw_fact sl).round)
          then some failed
          else none
    ]
  ]

  -- `INIT.isValidACCEPTBaseVoteproof`.
  unfoldable pub is_valid_accept_base_voteproof : Ballot Ratio → Voteproof Ratio → Option Error
  is_valid_accept_base_voteproof sl vp =
      if vp.result == majority
      then elim sl.accept_voteproof [
        | some _ ↦ some invalid
        | none ↦
            if not (eqb_ℤ (raw_fact sl).height (wrap_int64 (vp.height +ℤ pos 1)))
            then some invalid
            else if not ((raw_fact sl).round == 0)
            then some invalid
            else none
      ]
      else elim sl.accept_voteproof [
        | none ↦ some invalid
        | some _ ↦
            if not (eqb_ℤ (raw_fact sl).height vp.height)
            then some invalid
            else if not ((raw_fact sl).round == next_round vp.round)
            then some invalid
            else none
      ]

  -- `INIT.isValidINITBaseVoteproof`.
  unfoldable pub is_valid_init_base_voteproof : Ballot Ratio → Voteproof Ratio → Option Error
  is_valid_init_base_voteproof sl vp = elim sl.accept_voteproof [
    | none ↦ some invalid
    | some _ ↦
        if not (eqb_ℤ (raw_fact sl).height vp.height)
        then some invalid
        else if not ((raw_fact sl).round == next_round vp.round)
        then some invalid
        else none
  ]

  -- `INIT.isValidBaseVoteproof`; a base voteproof that is nil makes it panic.
  unfoldable pub is_valid_base_voteproof : Ballot Ratio → Option Error
  unfolding is_valid_accept_base_voteproof is_valid_init_base_voteproof
  is_valid_base_voteproof sl = elim sl.base_voteproof [
    | none ↦ some panicked
    | some vp ↦
        if vp.stage == stage_accept
        then is_valid_accept_base_voteproof sl vp
        else if vp.stage == stage_init
        then is_valid_init_base_voteproof sl vp
        else none
  ]

  -- `INIT.isValidACCEPTVoteproof`.
  unfoldable pub is_valid_accept_voteproof : Ballot Ratio → Option Error
  is_valid_accept_voteproof sl = elim sl.accept_voteproof [
    | none ↦ none
    | some vp ↦
        if not (vp.stage == stage_accept)
        then some invalid
        else if not (vp.result == majority)
        then some invalid
        else if not (eqb_ℤ vp.height (wrap_int64 ((raw_fact sl).height -ℤ pos 1)))
        then some invalid
        else none
  ]

  -- What `INIT.IsValid` checks of the voteproofs, in its order.
  unfoldable pub init_is_valid_voteproofs : Ballot Ratio → Option Error
  unfolding is_valid_base_voteproof is_valid_accept_voteproof
  init_is_valid_voteproofs sl = elim (is_valid_base_voteproof sl) [
    | some e ↦ some e
    | none ↦ is_valid_accept_voteproof sl
  ]

  -- `INIT.ACCEPTVoteproof`.
  unfoldable pub init_accept_voteproof : Ballot Ratio → Option (Voteproof Ratio)
  init_accept_voteproof sl = elim sl.accept_voteproof [
    | some vp ↦ some vp
    | none ↦ elim sl.base_voteproof [
      | none ↦ none
      | some vp ↦ if vp.stage == stage_accept then some vp else none
    ]
  ]
