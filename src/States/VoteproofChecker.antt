-- ===== src/States/VoteproofChecker.antt =====
-- states/basic/voteproof_checker.go: whether a voteproof follows the last one. Heights are int64:
-- their sums and differences wrap around.
pub mod Point
use mitum.Common.{
  ℕ, String, Bool, true, false, ◌&&◌, List, [], ◌∷◌, Option, none, some, ltb, leb, ◌==◌, not,
  if◌then◌else◌, string_discrete, ite,
}
use mitum.Common.Int.{ℤ, pos, ◌+ℤ◌, ◌-ℤ◌, ltb_ℤ, eqb_ℤ, wrap_int64}
use mitum.Common.Errors.{
  Error, Result, ok, err, failed, ignored, not_found, sync_by_voteproof, panicked, known_seal,
}
use mitum.Util.Checks.{Checked, CheckerFunc, check, pure_check}
use mitum.Base.Env.{Hash, Address}
use mitum.Base.Stage.{stage_init, stage_accept}
use mitum.Base.VoteResult.{majority}
use mitum.Base.Fact.{Height, BallotFact, SignedBallotFact, FactBody, init, proposal, accept}
use mitum.Base.Voteproof.{Voteproof}
use mitum.Base.Ballot.{Ballot}
use mitum.Isaac.BallotChecker.{LocalView, go_on, refuse}
use mitum.Isaac.ProposalChecker.{ProposalStore, is_known, check_signing, save_proposal}

module _ {Ratio : Type 0} where
  -- `checkPointINITVoteproof`.
  unfoldable pub check_point_init : Option (Voteproof Ratio) → Voteproof Ratio → Bool × Option Error
  check_point_init none vp = go_on
  check_point_init (some lvp) vp =
      if not (vp.stage == stage_init)
      then go_on
      else if eqb_ℤ vp.height lvp.height && ltb lvp.round vp.round
      then go_on
      else if ltb_ℤ (pos 0) (wrap_int64 (vp.height -ℤ wrap_int64 (lvp.height +ℤ pos 1)))
      then refuse sync_by_voteproof
      else if ltb_ℤ (wrap_int64 (vp.height -ℤ wrap_int64 (lvp.height +ℤ pos 1))) (pos 0)
      then refuse ignored
      else go_on

  -- `checkPointACCEPTVoteproof`.
  unfoldable pub check_point_accept :
      Option (Voteproof Ratio) → Voteproof Ratio → Bool × Option Error
  check_point_accept none vp = go_on
  check_point_accept (some lvp) vp =
      if not (vp.stage == stage_accept)
      then go_on
      else if ltb_ℤ (pos 0) (wrap_int64 (vp.height -ℤ lvp.height))
      then refuse sync_by_voteproof
      else if ltb_ℤ (wrap_int64 (vp.height -ℤ lvp.height)) (pos 0)
      then refuse ignored
      else if lvp.stage == stage_init
      then (if ltb vp.round lvp.round then refuse ignored else go_on)
      else if lvp.stage == stage_accept
      then (if leb vp.round lvp.round then refuse ignored else go_on)
      else go_on

  -- `CheckPoint`.
  unfoldable pub check_point : Option (Voteproof Ratio) → Voteproof Ratio → Bool × Option Error
  unfolding check_point_init check_point_accept
  check_point lvp vp =
      if vp.stage == stage_init
      then check_point_init lvp vp
      else if vp.stage == stage_accept
      then check_point_accept lvp vp
      else refuse failed

  -- `CheckBlockWithINITVoteproof`: `manifest_hash` is what the database has for a height.
  unfoldable pub check_block_with_init_voteproof :
      (Height → Result (Option Hash)) → Voteproof Ratio → Option Error
  check_block_with_init_voteproof manifest_hash vp = elim vp.majority [
    | none ↦ some failed
    | some fact ↦ elim fact.body [
      | proposal _ _ _ ↦ some failed
      | accept _ _ ↦ some failed
      | init previous_block ↦ elim (manifest_hash (wrap_int64 (vp.height -ℤ pos 1))) [
        | err e ↦ some e
        | ok none ↦ some not_found
        | ok (some m) ↦ elim previous_block [
          | none ↦ some panicked
          | some h ↦ ite (string_discrete h m) none (some failed)
        ]
      ]
    ]
  ]

  -- `CheckINITVoteproofWithLocalBlock`.
  unfoldable pub check_init_voteproof_with_local_block :
      (Height → Result (Option Hash)) → Voteproof Ratio → Bool × Option Error
  unfolding check_block_with_init_voteproof
  check_init_voteproof_with_local_block manifest_hash vp =
      if not (vp.stage == stage_init)
      then go_on
      else elim (check_block_with_init_voteproof manifest_hash vp) [
        | none ↦ go_on
        | some ignored ↦ go_on
        | some not_found ↦ go_on
        | some panicked ↦ refuse panicked
        | some e ↦ refuse sync_by_voteproof
      ]

-- The hash that a call is given for one that may be nil.
unfoldable pub hash_or_nil : Option Hash → Hash
hash_or_nil none = ""
hash_or_nil (some h) = h

module _ {Ratio : Type 0} (store : ProposalStore Ratio) (view : LocalView Ratio)
    (request_proposal : Address → Hash → Result (Option (Ballot Ratio))) where
  -- The loop of `CheckACCEPTVoteproofProposal` over the votes: the first node that has voted for the
  -- fact and can be reached is asked.
  unfoldable pub ask_voters : Hash → Hash → List SignedBallotFact → Result (Option (Ballot Ratio))
  ask_voters fact_hash proposal_hash [] = ok none
  ask_voters fact_hash proposal_hash (f ∷ votes) =
      let rest = ask_voters fact_hash proposal_hash votes in
      let asked : Result (Option (Ballot Ratio)) = elim (view.public_key f.sign.node) [
        | none ↦ rest
        | some _ ↦
            if view.has_channel f.sign.node
            then request_proposal f.sign.node proposal_hash
            else rest
      ] in
      ite (string_discrete f.fact.hash fact_hash)
        (ite (string_discrete f.sign.node view.local_address) rest asked) rest

  -- The checks of a proposal that has been asked for.
  unfoldable pub check_asked : Ballot Ratio → CheckerFunc store.Db
  unfolding check is_known check_signing save_proposal
  check_asked pr db =
      let done =
        check
          ((λ s. pure_check (is_known store view pr s) s)
            ∷ pure_check (check_signing store view pr)
            ∷ save_proposal store view pr
            ∷ [])
          db in
      elim done.error [
        | none ↦ record { state = done.state; keep = true; error = none }
        | some ignored ↦ record { state = done.state; keep = true; error = none }
        | some known_seal ↦ record { state = done.state; keep = true; error = none }
        | some e ↦ record { state = done.state; keep = false; error = some e }
      ]

  -- `CheckACCEPTVoteproofProposal`; a majority that is no ACCEPT fact makes it panic.
  unfoldable pub check_accept_voteproof_proposal : Voteproof Ratio → CheckerFunc store.Db
  unfolding ask_voters check_asked hash_or_nil
  check_accept_voteproof_proposal vp db =
      if not (vp.stage == stage_accept)
      then pure_check go_on db
      else if not (vp.result == majority)
      then pure_check go_on db
      else elim vp.majority [
        | none ↦ pure_check (refuse panicked) db
        | some fact ↦ elim fact.body [
          | init _ ↦ pure_check (refuse panicked) db
          | proposal _ _ _ ↦ pure_check (refuse panicked) db
          | accept h _ ↦ elim (store.has_proposal db (hash_or_nil h)) [
            | err e ↦ pure_check (refuse e) db
            | ok found ↦
                let asked : Checked store.Db =
                  elim (ask_voters fact.hash (hash_or_nil h) vp.votes) [
                    | err e ↦ pure_check (refuse e) db
                    | ok none ↦ pure_check (refuse failed) db
                    | ok (some pr) ↦ check_asked pr db
                  ] in
                if found then pure_check go_on db else asked
          ]
        ]
      ]

  -- The checks of `processVoteproofInternal`.
  unfoldable pub check_voteproof :
      (store.Db → Height → Result (Option Hash))
      → Option (Voteproof Ratio)
      → Voteproof Ratio
      → store.Db
      → store.Db × Option Error
  unfolding check check_point check_init_voteproof_with_local_block check_accept_voteproof_proposal
  check_voteproof manifest_hash lvp vp db =
      let done =
        check
          (pure_check (check_point lvp vp)
            ∷ pure_check (check_init_voteproof_with_local_block (manifest_hash db) vp)
            ∷ check_accept_voteproof_proposal vp
            ∷ [])
          db in
      (done.state, done.error)
