-- ===== src/States/Node.antt =====
-- states/basic/states.go: the states of a node, with its last voteproofs. Requests, voteproofs and
-- proposals come one after the other, as `watch` takes them from its channels. The states themselves
-- are the records `StateHandlers`, as the interface `State` of states/basic/state.go.
pub mod Switch
pub mod Last
pub mod Processed
pub mod Keeps
pub mod Under
pub mod Ends
pub mod Rounds
pub mod Sync
use mitum.Common.{
  ℕ, zero, suc, Bool, true, false, ◌||◌, Option, none, some, List, [], ◌∷◌, ltb, leb, ◌==◌, not,
  if◌then◌else◌,
}
use mitum.Common.Int.{ltb_ℤ, pos}
use mitum.Common.Errors.{Error, Result, ok, err, failed, ignored, sync_by_voteproof, panicked}
use mitum.Base.Stage.{Stage, stage_init, stage_accept}
use mitum.Base.State
use mitum.Base.State.{
  State, state_empty, state_stopped, state_booting, state_joining, state_consensus, state_syncing,
  state_handover,
}
use mitum.Base.Voteproof.{Voteproof, compare_voteproof, compare_point}
use mitum.Base.Ballot.{Ballot}
use mitum.Isaac.Ballotbox.{Ballotbox, new_ballotbox}
use mitum.States.SwitchContext
use mitum.States.SwitchContext.{SwitchContext, StepError, fault, switch_to, new_switch_context}

-- `States`: what it keeps, and the `World` that the states work on (database, timers, handover).
pub record Node (World Ratio : Type 0) : Type 0 where
  pub state : State
  pub lvp : Option (Voteproof Ratio)
  pub livp : Option (Voteproof Ratio)
  pub ballotbox : Ballotbox Ratio
  pub world : World

module _ (World Ratio : Type 0) where
  -- A call on the node: the node after it, and what it gives back.
  abbrev pub Call : Type 0
  Call = Node World Ratio → Node World Ratio × Option (StepError Ratio)

  -- What `Enter` and `Exit` give: an error, or a function to be called later (`none` for nil).
  pub data Switching : Type 0 where
    refused : StepError Ratio → Switching
    later : Option (Node World Ratio → Node World Ratio × Option (StepError Ratio)) → Switching

  -- The interface `State`.
  pub record StateHandlers : Type 0 where
    pub enter : SwitchContext Ratio → Node World Ratio → Node World Ratio × Switching
    pub exit : SwitchContext Ratio → Node World Ratio → Node World Ratio × Switching
    pub process_proposal :
        Ballot Ratio → Node World Ratio → Node World Ratio × Option (StepError Ratio)
    pub process_voteproof :
        Voteproof Ratio → Node World Ratio → Node World Ratio × Option (StepError Ratio)

  -- What the node reads of its world, its states, and the checks of a voteproof and of a proposal
  -- (`processVoteproofInternal`, `processProposal`), which may change the world.
  pub record NodeView : Type 0 where
    pub states : State → Option StateHandlers
    pub last_voteproof : World → Stage → Option (Voteproof Ratio)
    pub under_handover : World → Bool
    pub handover_is_ready : World → Bool
    pub check_voteproof : Option (Voteproof Ratio) → Voteproof Ratio → World → World × Option Error
    pub check_proposal : Option (Voteproof Ratio) → Ballot Ratio → World → Option Error

module _ {World Ratio : Type 0} where
  -- `LastVoteproof` is the field `lvp`, `LastINITVoteproof` the field `livp`. What
  -- `SetLastVoteproof` writes:
  unfoldable pub update_last : Voteproof Ratio → Node World Ratio → Node World Ratio
  update_last vp n =
      if vp.stage == stage_init
      then record n { lvp = some vp; livp = some vp }
      else record n { lvp = some vp }

  -- `SetLastVoteproof`.
  unfoldable pub set_last_voteproof : Voteproof Ratio → Node World Ratio → Bool × Node World Ratio
  unfolding update_last compare_voteproof compare_point
  set_last_voteproof vp n = elim n.lvp [
    | none ↦ (true, update_last vp n)
    | some l ↦
        if ltb_ℤ (compare_voteproof (some vp) (some l)) (pos 1)
        then (false, n)
        else (true, update_last vp n)
  ]

  -- `setState`.
  unfoldable pub set_state : State → Node World Ratio → Node World Ratio
  set_state st n = record n { state = st }

  module _ (view : NodeView World Ratio) where
    open view use {states, last_voteproof, under_handover, handover_is_ready}

    -- `resetBallotbox`.
    unfoldable pub reset_ballotbox : Node World Ratio → Node World Ratio
    unfolding new_ballotbox
    reset_ballotbox n = record n {
      lvp = elim (last_voteproof n.world stage_accept) [ none ↦ n.lvp | some vp ↦ some vp ];
      livp = elim (last_voteproof n.world stage_init) [ none ↦ n.livp | some vp ↦ some vp ];
      ballotbox = new_ballotbox;
    }

    -- `switchStateHandover`: a new request, or an error.
    unfoldable pub switch_state_handover :
        SwitchContext Ratio → Node World Ratio → Result (SwitchContext Ratio)
    switch_state_handover sctx n =
        if sctx.origin == state_handover
        then ok sctx
        else if sctx.origin == sctx.to
        then ok sctx
        else if sctx.to == state_booting
        then ok sctx
        else if not (under_handover n.world)
        then (if sctx.to == state_handover then err ignored else ok sctx)
        else if not (handover_is_ready n.world)
        then ok (record sctx { to = state_syncing })
        else if sctx.to == state_consensus
        then ok (record sctx { to = state_handover })
        else ok sctx

    -- The function that `Enter` or `Exit` gave.
    unfoldable pub run_callback : Option (Call World Ratio) → Call World Ratio
    run_callback none n = (n, none)
    run_callback (some f) n = f n

    unfoldable pub after_exit : Switching World Ratio → Call World Ratio
    unfolding run_callback
    after_exit (refused e) n = (n, some e)
    after_exit (later f) n = run_callback f n

    -- The state is set between the two functions.
    unfoldable pub after_enter : State → Switching World Ratio → Call World Ratio
    unfolding run_callback set_state
    after_enter to (refused e) n = (n, some e)
    after_enter to (later f) n = run_callback f (set_state to n)

    -- `exitState`; a state that is not in the map makes it panic.
    unfoldable pub exit_state : SwitchContext Ratio → Call World Ratio
    unfolding after_exit
    exit_state sctx n = elim (states sctx.origin) [
      | none ↦ (n, some (fault panicked))
      | some h ↦ let (n', exiting) = h.exit sctx n in after_exit exiting n'
    ]

    -- `enterState`.
    unfoldable pub enter_state : SwitchContext Ratio → Call World Ratio
    unfolding after_enter
    enter_state sctx n = elim (states sctx.to) [
      | none ↦ (n, some (fault panicked))
      | some h ↦ let (n', entering) = h.enter sctx n in after_enter sctx.to entering n'
    ]

    -- `ProcessVoteproof` and `ProcessProposal` of the state that the node is in.
    unfoldable pub state_voteproof : Voteproof Ratio → Call World Ratio
    state_voteproof vp n = elim (states n.state) [
      | none ↦ (n, some (fault panicked))
      | some h ↦ h.process_voteproof vp n
    ]

    unfoldable pub state_proposal : Ballot Ratio → Call World Ratio
    state_proposal pr n = elim (states n.state) [
      | none ↦ (n, some (fault panicked))
      | some h ↦ h.process_proposal pr n
    ]

    -- What `processVoteproofInternal` makes of the error of the checks: what it returns at once, or
    -- the error that it goes on with.
    unfoldable pub voteproof_verdict :
        State → Voteproof Ratio → Option Error → Option Error × Option (StepError Ratio)
    unfolding new_switch_context
    voteproof_verdict st vp none = (none, none)
    voteproof_verdict st vp (some sync_by_voteproof) =
        if st == state_syncing then (none, none) else (
          none,
          some (
              switch_to (record (new_switch_context st state_syncing) {
                voteproof = some vp;
                error = some sync_by_voteproof;
              })),
        )
    voteproof_verdict st vp (some ignored) = (none, none)
    voteproof_verdict st vp (some e) = (some e, none)

    -- The states that take a voteproof as the last one before they process it.
    unfoldable pub sets_last : State → Bool
    sets_last st = (st == state_joining) || ((st == state_consensus) || (st == state_handover))

    -- The end of `processVoteproofInternal`; there `sctx` has been set by no check, and is empty.
    unfoldable pub hand_over_voteproof :
        Voteproof Ratio → Option (StepError Ratio) → Call World Ratio
    unfolding state_voteproof
    hand_over_voteproof vp none n = state_voteproof vp n
    hand_over_voteproof vp (some e) n =
        let processed = state_voteproof vp n in
        if n.state == state_empty then processed else (n, some e)

    -- The step in which a joining, consensus or handover node takes the voteproof as its last one.
    unfoldable pub take_voteproof :
        Voteproof Ratio → Option (StepError Ratio) → Bool × Node World Ratio → Call World Ratio
    unfolding hand_over_voteproof
    take_voteproof vp e (true, after) n = hand_over_voteproof vp e after
    take_voteproof vp e (false, after) n = (n, some (fault ignored))

    unfoldable pub judge_voteproof :
        Voteproof Ratio → Option Error × Option (StepError Ratio) → Call World Ratio
    unfolding sets_last set_last_voteproof hand_over_voteproof take_voteproof
    judge_voteproof vp (some x, e) n = (n, some (fault x))
    judge_voteproof vp (none, e) n =
        if sets_last n.state
        then take_voteproof vp e (set_last_voteproof vp n) n
        else hand_over_voteproof vp e n

    -- `processVoteproofInternal`.
    unfoldable pub process_voteproof_internal : Voteproof Ratio → Call World Ratio
    unfolding voteproof_verdict judge_voteproof
    process_voteproof_internal vp n =
        let (world', error) = view.check_voteproof n.lvp vp n.world in
        judge_voteproof vp (voteproof_verdict n.state vp error) (record n { world = world' })

    -- `processVoteproof`.
    unfoldable pub process_voteproof : Voteproof Ratio → Call World Ratio
    unfolding process_voteproof_internal compare_voteproof compare_point
    process_voteproof vp n = elim n.lvp [
      | none ↦ process_voteproof_internal vp n
      | some l ↦
          if ltb_ℤ (compare_voteproof (some vp) (some l)) (pos 1)
          then (n, none)
          else process_voteproof_internal vp n
    ]

    -- `processProposal`.
    unfoldable pub process_proposal : Ballot Ratio → Call World Ratio
    unfolding state_proposal
    process_proposal pr n = elim (view.check_proposal n.livp pr n.world) [
      | some e ↦ (n, some (fault e))
      | none ↦ state_proposal pr n
    ]
