-- ===== src/Isaac/BallotChecker.antt =====
-- isaac/ballot_checker.go and isaac/voteproof_checker.go: the checks of a ballot from the network,
-- with the lists in which launch/process/hook_network_handlers.go and states/basic/states.go run
-- them.
pub mod Checked
pub mod Passing
use mitum.Common.{
  ℕ, ◌+◌, String, Bool, true, false, List, [], ◌∷◌, Option, none, some, ltb, leb, ◌==◌, not,
  if◌then◌else◌, string_discrete, ite,
}
use mitum.Common.Dict.{MapRange}
use mitum.Common.Int.{ℤ, ltb_ℤ, eqb_ℤ}
use mitum.Common.Errors.{Error, Result, ok, err, failed, panicked}
use mitum.Util.Bytes.{Bytes}
use mitum.Util.Checks.{CheckerFunc, Outcome, check, pure_check}
use mitum.Base.Env.{Env, Hash, Address, Time}
use mitum.Base.Stage.{stage_proposal}
use mitum.Base.Threshold.{RatioOps}
use mitum.Base.Fact.{FactBody, init, proposal, accept, BallotFact, FactSign, SignedBallotFact}
use mitum.Base.Voteproof
use mitum.Base.Voteproof.{Voteproof}
use mitum.Base.Ballot.{Ballot, raw_fact, node_of, fact_stage}

-- What the checkers read of the node: its policy, its suffrage, its pool of nodes and its database.
-- `request_proposal` is what the other nodes answer to a request for a proposal.
pub record LocalView (Ratio : Type 0) : Type 0 where
  pub network_id : Bytes
  pub threshold_ratio : Ratio
  pub timespan : ℕ
  pub is_inside : Address → Bool
  pub local_address : Address
  pub public_key : Address → Option String
  pub has_channel : Address → Bool
  pub proposal_fact : Option Hash → Result (Option BallotFact)
  pub request_proposal : Option Hash → Result BallotFact

-- `localtime.Within`, for a duration that is not negative.
unfoldable pub within : Time → Time → ℕ → Bool
within base target d =
    if d == 0
    then base == target
    else if ltb (base + d) target
    then false
    else if ltb (target + d) base
    then false
    else true

-- A check that goes on, and one that stops with an error.
abbrev pub go_on : Bool × Option Error
go_on = (true, none)

abbrev pub refuse : Error → Bool × Option Error
refuse e = (false, some e)

-- A check that stops without an error.
abbrev pub drop_it : Bool × Option Error
drop_it = (false, none)

module _ {Ratio : Type 0} (view : LocalView Ratio) where
  -- `IsFromLocal`.
  unfoldable pub is_from_local : Ballot Ratio → Bool × Option Error
  is_from_local blt = ite (string_discrete view.local_address (node_of blt)) drop_it go_on

  -- `InTimespan`.
  unfoldable pub in_timespan : Time → Ballot Ratio → Bool × Option Error
  unfolding within
  in_timespan now blt =
      if fact_stage (raw_fact blt) == stage_proposal
      then (if within now blt.signed_at view.timespan then go_on else refuse failed)
      else if within now blt.signed_fact.sign.signed_at view.timespan
      then go_on
      else refuse failed

  -- `InSuffrage`.
  unfoldable pub in_suffrage : Ballot Ratio → Bool × Option Error
  in_suffrage blt = if view.is_inside (node_of blt) then go_on else drop_it

  -- `CheckBallotSigningNode`.
  unfoldable pub check_signing_node : FactSign → Option Error
  check_signing_node fs = elim (view.public_key fs.node) [
    | none ↦ some failed
    | some key ↦ ite (string_discrete fs.signer key) none (some failed)
  ]

  -- `CheckSigning`.
  unfoldable pub check_signing : Ballot Ratio → Bool × Option Error
  check_signing blt = elim (check_signing_node blt.signed_fact.sign) [
    | none ↦ go_on
    | some e ↦ refuse e
  ]

  -- `IsFromAliveNode`.
  unfoldable pub is_from_alive_node : Ballot Ratio → Bool × Option Error
  is_from_alive_node blt =
      if fact_stage (raw_fact blt) == stage_proposal
      then go_on
      else elim (view.public_key (node_of blt)) [
        | none ↦ refuse failed
        | some _ ↦ if view.has_channel (node_of blt) then go_on else refuse failed
      ]

  -- `CheckWithLastVoteproof`.
  unfoldable pub check_with_last_voteproof :
      Option (Voteproof Ratio) → Ballot Ratio → Bool × Option Error
  check_with_last_voteproof none blt = go_on
  check_with_last_voteproof (some lvp) blt =
      if ltb_ℤ (raw_fact blt).height lvp.height
      then drop_it
      else if ltb_ℤ lvp.height (raw_fact blt).height
      then go_on
      else if leb (raw_fact blt).round lvp.round
      then drop_it
      else go_on

  -- The proposal of an ACCEPT ballot: from the database, or else from the other nodes.
  unfoldable pub find_proposal : Option Hash → Result BallotFact
  find_proposal h = elim (view.proposal_fact h) [
    | err e ↦ err e
    | ok (some fact) ↦ ok fact
    | ok none ↦ view.request_proposal h
  ]

  -- `CheckProposalInACCEPTBallot`.
  unfoldable pub check_proposal_of : BallotFact → FactBody → Bool × Option Error
  unfolding find_proposal
  check_proposal_of bf (init _) = go_on
  check_proposal_of bf (proposal _ _ _) = go_on
  check_proposal_of bf (accept h _) = elim (find_proposal h) [
    | err e ↦ refuse e
    | ok fact ↦
        if not (eqb_ℤ bf.height fact.height)
        then refuse failed
        else if not (bf.round == fact.round)
        then refuse failed
        else go_on
  ]

  unfoldable pub check_proposal_in_accept_ballot : Ballot Ratio → Bool × Option Error
  unfolding check_proposal_of
  check_proposal_in_accept_ballot blt = check_proposal_of (raw_fact blt) (raw_fact blt).body

  -- `VoteProofChecker.NodeIsInSuffrage`.
  unfoldable pub nodes_are_inside : List SignedBallotFact → Bool × Option Error
  nodes_are_inside [] = go_on
  nodes_are_inside (nf ∷ votes) =
      let rest = nodes_are_inside votes in if view.is_inside nf.sign.node then rest else drop_it

  -- `validateBallot` of states/basic/states.go.
  unfoldable pub validate_ballot : Option (Voteproof Ratio) → Ballot Ratio → Option Error
  unfolding check check_with_last_voteproof
  validate_ballot lvp blt = (check (pure_check (check_with_last_voteproof lvp blt) ∷ []) tt).error

module _ (env : Env) (ops : RatioOps) (rng : MapRange) (view : LocalView ops.Ratio) where
  -- `VoteProofChecker.IsValid`.
  unfoldable pub voteproof_is_valid : Voteproof ops.Ratio → Bool × Option Error
  voteproof_is_valid vp = elim (Voteproof.is_valid ops env rng view.network_id vp) [
    | some e ↦ refuse e
    | none ↦ go_on
  ]

  -- `VoteProofChecker.CheckThreshold`.
  unfoldable pub check_threshold : Voteproof ops.Ratio → Bool × Option Error
  check_threshold vp = if ops.equal view.threshold_ratio vp.threshold_ratio then go_on else drop_it

  -- `CheckVoteproof`; a base voteproof that is nil makes it panic.
  unfoldable pub check_voteproof : Ballot ops.Ratio → Bool × Option Error
  unfolding check voteproof_is_valid check_threshold nodes_are_inside
  check_voteproof blt = elim blt.base_voteproof [
    | none ↦ refuse panicked
    | some vp ↦
        elim (check
          (pure_check (voteproof_is_valid vp)
            ∷ pure_check (nodes_are_inside view vp.votes)
            ∷ pure_check (check_threshold vp)
            ∷ [])
          tt).error [ some e ↦ refuse e | none ↦ go_on ]
  ]

  -- The checks of a ballot that comes as a new seal, in the order of `handlerNewSeal`.
  unfoldable pub check_new_ballot :
      Time → Option (Voteproof ops.Ratio) → Ballot ops.Ratio → Option Error
  unfolding check is_from_local in_timespan in_suffrage check_signing is_from_alive_node
      check_with_last_voteproof check_proposal_in_accept_ballot check_voteproof
  check_new_ballot now lvp blt =
      (check
        (pure_check (is_from_local view blt)
          ∷ pure_check (in_timespan view now blt)
          ∷ pure_check (in_suffrage view blt)
          ∷ pure_check (check_signing view blt)
          ∷ pure_check (is_from_alive_node view blt)
          ∷ pure_check (check_with_last_voteproof view lvp blt)
          ∷ pure_check (check_proposal_in_accept_ballot view blt)
          ∷ pure_check (check_voteproof blt)
          ∷ [])
        tt).error
