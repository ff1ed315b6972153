-- ===== src/Isaac/ProposalChecker.antt =====
-- isaac/proposal_checker.go: the checks of a proposal, with the lists in which
-- states/basic/states.go runs them.
pub mod Passing
use mitum.Common.{
  ℕ, String, Bool, true, false, ◌&&◌, List, [], ◌∷◌, Option, none, some, ltb, ◌==◌, not,
  if◌then◌else◌, string_discrete, ite,
}
use mitum.Common.Int.{ℤ, ltb_ℤ, leb_ℤ, eqb_ℤ}
use mitum.Common.Errors.{Error, Result, ok, err, failed, panicked, known_seal, duplicated, ignored}
use mitum.Util.Checks.{CheckerFunc, Checked, Outcome, check, pure_check, pure_checks}
use mitum.Base.Env.{Hash, Address}
use mitum.Base.Fact.{Height, BallotFact, FactSign, FactBody, init, proposal, accept}
use mitum.Base.Voteproof.{Voteproof}
use mitum.Base.Ballot.{Ballot, raw_fact, node_of}
use mitum.Isaac.BallotChecker.{LocalView, check_signing_node, go_on, refuse}

-- What the checks use of the database, whose state they hand on: `Proposal`, `NewProposal` and the
-- height of `LastManifest`; and `Acting` of the suffrage, by its proposer.
pub record ProposalStore (Ratio : Type 0) : Type 1 where
  pub Db : Type 0
  pub has_proposal : Db → Hash → Result Bool
  pub new_proposal : Db → Ballot Ratio → Db × Option Error
  pub last_manifest : Db → Result (Option Height)
  pub acting_proposer : Height → ℕ → Result Address

-- The proposer of a proposal; another fact has none.
unfoldable pub proposer_of : FactBody → Option Address
proposer_of (proposal p _ _) = p
proposer_of (init _) = none
proposer_of (accept _ _) = none

-- The manifest part of `IsOlder`: an error of the database counts as no manifest.
unfoldable pub not_in_manifest : Height → Result (Option Height) → Bool × Option Error
not_in_manifest ph (err e) = go_on
not_in_manifest ph (ok none) = go_on
not_in_manifest ph (ok (some m)) = if leb_ℤ ph m then refuse failed else go_on

-- A check that reads the state.
abbrev reading : {S : Type 0} → (S → Bool × Option Error) → CheckerFunc S
reading f s = pure_check (f s) s

module _ {Ratio : Type 0} (store : ProposalStore Ratio) (view : LocalView Ratio) where
  open store use {Db, has_proposal, new_proposal, last_manifest, acting_proposer}

  -- `IsKnown`.
  unfoldable pub is_known : Ballot Ratio → Db → Bool × Option Error
  is_known pr db = elim (has_proposal db (raw_fact pr).hash) [
    | err e ↦ refuse e
    | ok found ↦ if found then refuse known_seal else go_on
  ]

  -- `CheckSigning`.
  unfoldable pub check_signing : Ballot Ratio → Bool × Option Error
  unfolding check_signing_node
  check_signing pr = elim (check_signing_node view pr.signed_fact.sign) [
    | none ↦ go_on
    | some e ↦ refuse e
  ]

  -- `SaveProposal`.
  unfoldable pub save_proposal : Ballot Ratio → CheckerFunc Db
  save_proposal pr db =
      let (db', saved) = new_proposal db pr in
      elim saved [
        | none ↦ record { state = db'; keep = true; error = none }
        | some duplicated ↦ record { state = db'; keep = true; error = none }
        | some e ↦ record { state = db'; keep = false; error = some e }
      ]

  -- `IsOlder`.
  unfoldable pub is_older : Option (Voteproof Ratio) → Ballot Ratio → Db → Bool × Option Error
  unfolding not_in_manifest
  is_older none pr db = refuse failed
  is_older (some livp) pr db =
      if ltb_ℤ (raw_fact pr).height livp.height
      then refuse failed
      else if eqb_ℤ (raw_fact pr).height livp.height && ltb (raw_fact pr).round livp.round
      then refuse failed
      else not_in_manifest (raw_fact pr).height (last_manifest db)

  -- `IsWaiting`.
  unfoldable pub is_waiting : Option (Voteproof Ratio) → Ballot Ratio → Bool × Option Error
  is_waiting none pr = refuse failed
  is_waiting (some livp) pr =
      if not (eqb_ℤ (raw_fact pr).height livp.height)
      then refuse failed
      else if not ((raw_fact pr).round == livp.round)
      then refuse failed
      else go_on

  -- `CheckNodeIsProposer`.
  unfoldable pub check_node_is_proposer : Option Address → Height → ℕ → Option Error
  check_node_is_proposer n height round = elim (acting_proposer height round) [
    | err e ↦ some e
    | ok p ↦ elim n [ none ↦ some panicked | some a ↦ ite (string_discrete a p) none (some failed) ]
  ]

  -- `IsProposer`.
  unfoldable pub is_proposer : Ballot Ratio → Bool × Option Error
  unfolding check_node_is_proposer proposer_of
  is_proposer pr =
      elim (check_node_is_proposer (proposer_of (raw_fact pr).body) (raw_fact pr).height
        (raw_fact pr).round) [ some e ↦ refuse e | none ↦ go_on ]

  -- The checks of `processProposal`; any error of them is given as an `IgnoreError`.
  unfoldable pub process_proposal_checks :
      Option (Voteproof Ratio) → Ballot Ratio → Db → Option Error
  unfolding check is_older is_waiting is_proposer
  process_proposal_checks livp pr db =
      elim (check (pure_checks (is_older livp pr db ∷ is_waiting livp pr ∷ is_proposer pr ∷ []))
        tt).error [ some e ↦ some ignored | none ↦ none ]

  -- `validateProposal`: the database and the error that it leaves.
  unfoldable pub validate_proposal : Option (Voteproof Ratio) → Ballot Ratio → Db → Outcome Db
  unfolding check is_known check_signing save_proposal is_older proposer_of
  validate_proposal livp pr db =
      let local : Bool = elim (proposer_of (raw_fact pr).body) [
        | none ↦ false
        | some a ↦ ite (string_discrete a view.local_address) true false
      ] in
      let save_list : List (CheckerFunc Db) = save_proposal pr ∷ reading (is_older livp pr) ∷ [] in
      let fns =
        if local
        then save_list
        else reading (is_known pr) ∷ pure_check (check_signing pr) ∷ save_list in
      let done = check fns db in
      elim done.error [
        | none ↦ done
        | some known_seal ↦ record done { error = none }
        | some ignored ↦ record done { error = none }
        | some e ↦ done
      ]
