-- ===== src/States/Node/Switch.antt =====
-- states/basic/states.go: how a node switches between its states, and one turn of `watch`.
use mitum.Common.{ℕ, zero, suc, Option, none, some, ◌==◌, not, if◌then◌else◌}
use mitum.Common.Errors.{Error, Result, ok, err, ignored, panicked}
use mitum.Base.State.{State, state_empty, state_stopped, state_booting}
use mitum.Base.Voteproof.{Voteproof}
use mitum.Base.Ballot.{Ballot}
use mitum.States.SwitchContext
use mitum.States.SwitchContext.{SwitchContext, StepError, fault, switch_to, new_switch_context}
use mitum.States.Node.{
  Node, NodeView, Call, switch_state_handover, exit_state, enter_state, process_voteproof_internal,
  process_voteproof, process_proposal, reset_ballotbox,
}

-- How `processSwitchStates` ends: without an error, or with one; or the rounds run out.
pub data SwitchEnd : Type 0 where
  settled : SwitchEnd
  stopped : Error → SwitchEnd
  out_of_fuel : SwitchEnd

pub data Event (Ratio : Type 0) : Type 0 where
  switch_event : SwitchContext Ratio → Event Ratio
  voteproof_event : Voteproof Ratio → Event Ratio
  proposal_event : Ballot Ratio → Event Ratio

-- After a turn of `watch`: the next one, or the end, with or without an error.
pub data Turn : Type 0 where
  go_on_watching : Turn
  ended : Option Error → Turn
  rounds_ran_out : Turn

module _ {World Ratio : Type 0} (view : NodeView World Ratio) where
  -- The end of `switchState`, when the new state is entered: a request for the state that has been
  -- entered is ignored.
  unfoldable pub entered : State → Option (StepError Ratio) → Call World Ratio
  entered to none n = (n, none)
  entered to (some (fault x)) n = (n, some (fault x))
  entered to (some (switch_to nsctx)) n =
      if to == nsctx.to then (n, none) else (n, some (switch_to nsctx))

  unfoldable pub enter_after : SwitchContext Ratio → Call World Ratio
  unfolding enter_state entered
  enter_after sctx n = let (n', e) = enter_state view sctx n in entered sctx.to e n'

  -- What comes of the error with which a state is left: an error is ignored, and so is a request for
  -- the state that is left.
  unfoldable pub left : SwitchContext Ratio → Option (StepError Ratio) → Call World Ratio
  unfolding enter_after
  left sctx none n = enter_after sctx n
  left sctx (some (fault panicked)) n = (n, some (fault panicked))
  left sctx (some (fault x)) n = enter_after sctx n
  left sctx (some (switch_to nsctx)) n =
      let next = enter_after sctx n in
      if not (sctx.origin == nsctx.to) then (n, some (switch_to nsctx)) else next

  -- `switchState`, from where the node leaves its state.
  unfoldable pub leave_and_enter : SwitchContext Ratio → Call World Ratio
  unfolding exit_state left
  leave_and_enter sctx n = let (n', e) = exit_state view sctx n in left sctx e n'

  unfoldable pub ignore_error : Option (StepError Ratio) → Call World Ratio
  ignore_error none n = (n, none)
  ignore_error (some (fault panicked)) n = (n, some (fault panicked))
  ignore_error (some e) n = (n, none)

  -- A request for the state that the node is in: its voteproof is processed, the error ignored.
  unfoldable pub stay_with : Option (Voteproof Ratio) → Call World Ratio
  unfolding process_voteproof_internal ignore_error
  stay_with none n = (n, none)
  stay_with (some vp) n = let (n', e) = process_voteproof_internal view vp n in ignore_error e n'

  -- A request without an origin comes from the state that the node is in.
  unfoldable pub from_current : SwitchContext Ratio → Node World Ratio → SwitchContext Ratio
  from_current sctx n =
      if sctx.origin == state_empty then record sctx { origin = n.state } else sctx

  -- `switchState` behind `switchStateHandover`.
  unfoldable pub switch_turned : Result (SwitchContext Ratio) → Call World Ratio
  unfolding stay_with leave_and_enter
  switch_turned (err e) n = (n, some (fault e))
  switch_turned (ok s) n = if n.state == s.to then stay_with s.voteproof n else leave_and_enter s n

  -- `switchState` behind the check of the request.
  unfoldable pub switch_checked : SwitchContext Ratio → Option Error → Call World Ratio
  unfolding switch_turned switch_state_handover
  switch_checked sctx (some e) n = (n, some (fault e))
  switch_checked sctx none n =
      if not (n.state == sctx.origin)
      then (n, none)
      else switch_turned (switch_state_handover view sctx n) n

  -- `switchState`.
  unfoldable pub switch_state : SwitchContext Ratio → Call World Ratio
  unfolding from_current switch_checked SwitchContext.is_valid
  switch_state orig n =
      let sctx = from_current orig n in switch_checked sctx (SwitchContext.is_valid sctx) n

  -- An error boots the node again, unless it was to boot already.
  unfoldable pub reboot :
      (SwitchContext Ratio → Node World Ratio → Node World Ratio × SwitchEnd)
      → SwitchContext Ratio
      → Error
      → Node World Ratio
      → Node World Ratio × SwitchEnd
  unfolding new_switch_context
  reboot again sctx x n =
      let booted = again (record (new_switch_context n.state state_booting) { error = some x }) n in
      if sctx.to == state_booting then (n, stopped x) else booted

  -- What `processSwitchStates` does with the error of a round; `again` is the next round.
  unfoldable pub next_round :
      (SwitchContext Ratio → Node World Ratio → Node World Ratio × SwitchEnd)
      → SwitchContext Ratio
      → Option (StepError Ratio)
      → Node World Ratio
      → Node World Ratio × SwitchEnd
  unfolding reboot
  next_round again sctx none n = (n, settled)
  next_round again sctx (some (switch_to nsctx)) n = again nsctx n
  next_round again sctx (some (fault ignored)) n = (n, settled)
  next_round again sctx (some (fault panicked)) n = (n, stopped panicked)
  next_round again sctx (some (fault x)) n = reboot again sctx x n

  -- `processSwitchStates`, for a number of rounds.
  unfoldable pub process_switch_states :
      ℕ → SwitchContext Ratio → Node World Ratio → Node World Ratio × SwitchEnd
  unfolding switch_state next_round
  process_switch_states zero sctx n = (n, out_of_fuel)
  process_switch_states (suc k) sctx n =
      let (n', e) = switch_state sctx n in next_round (process_switch_states k) sctx e n'

  -- The case of `watch` for what comes from a channel.
  unfoldable pub receive : Event Ratio → Call World Ratio
  unfolding process_voteproof process_proposal
  receive (switch_event sctx) n = (n, some (switch_to sctx))
  receive (voteproof_event vp) n = process_voteproof view vp n
  receive (proposal_event pr) n = process_proposal view pr n

  -- The part of `watch` that switches.
  unfoldable pub switch_watched :
      ℕ → SwitchContext Ratio → Node World Ratio → Node World Ratio × Turn
  unfolding process_switch_states
  switch_watched k sctx n =
      let (n', done) = process_switch_states k sctx n in
      elim done [
        | out_of_fuel ↦ (n', rounds_ran_out)
        | stopped e ↦ (n', ended (some e))
        | settled ↦
            if n'.state == state_stopped then (n', ended sctx.error) else (n', go_on_watching)
      ]

  -- What `watch` does with the error. An unexpected error resets the ballot box and boots the node
  -- again.
  unfoldable pub next_turn :
      ℕ → Option (StepError Ratio) → Node World Ratio → Node World Ratio × Turn
  unfolding switch_watched reset_ballotbox new_switch_context
  next_turn k none n = (n, go_on_watching)
  next_turn k (some (fault ignored)) n = (n, go_on_watching)
  next_turn k (some (fault panicked)) n = (n, ended (some panicked))
  next_turn k (some (fault x)) n =
      switch_watched k (new_switch_context state_empty state_booting) (reset_ballotbox view n)
  next_turn k (some (switch_to sctx)) n = switch_watched k sctx n

  -- One turn of `watch`.
  unfoldable pub watch : ℕ → Event Ratio → Node World Ratio → Node World Ratio × Turn
  unfolding receive next_turn
  watch k ev n = let (n', e) = receive ev n in next_turn k e n'
