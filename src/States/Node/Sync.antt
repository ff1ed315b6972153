-- ===== src/States/Node/Sync.antt =====
-- A node in consensus that falls behind goes to sync.
use mitum.Common.{ℕ, suc, ◌≡◌, refl, sym, ◌∙◌, ap, false, none, some, arith}
use mitum.Common.Errors.{ok, sync_by_voteproof}
use mitum.Util.Checks.{check_valid}
use mitum.Base.State
use mitum.Base.State.{
  State, state_empty, state_consensus, state_syncing, state_booting, state_handover, state_stopped,
}
use mitum.Base.Voteproof.{Voteproof}
use mitum.Base.Voteproof.Order.{Later}
use mitum.States.SwitchContext
use mitum.States.SwitchContext.{SwitchContext, StepError, fault, switch_to, new_switch_context}
use mitum.States.Node.{
  Node, NodeView, StateHandlers, Switching, refused, later, run_callback, after_enter, set_state,
  exit_state, enter_state, switch_state_handover, update_last, hand_over_voteproof, take_voteproof,
  judge_voteproof, voteproof_verdict, process_voteproof_internal, sets_last,
}
use mitum.States.Node.Switch.{
  settled, voteproof_event, go_on_watching, entered, enter_after, left, leave_and_enter,
  from_current, switch_turned, switch_checked, switch_state, next_round, process_switch_states,
  switch_watched, next_turn, receive, watch,
}
use mitum.States.Node.Keeps.{CallbackKeeps}
use mitum.States.Node.Last.{set_last_voteproof-sets, process_voteproof-internal}

module _ {Ratio : Type 0} where
  -- The request to sync by a voteproof, from consensus.
  abbrev pub sync_request : Voteproof Ratio → SwitchContext Ratio
  sync_request vp = record (new_switch_context state_consensus state_syncing) {
    voteproof = some vp;
    error = some sync_by_voteproof;
  }

module _ {World Ratio : Type 0} where
  update_last-state :
      (vp : Voteproof Ratio) (n : Node World Ratio) → (update_last vp n).state ≡ n.state
  unfolding update_last
  update_last-state vp n = ground arith

  update_last-world :
      (vp : Voteproof Ratio) (n : Node World Ratio) → (update_last vp n).world ≡ n.world
  unfolding update_last
  update_last-world vp n = ground arith

  module _ (view : NodeView World Ratio) where
    -- A state that is entered without an error is the state of the node, unless what it gives sets
    -- another.
    after_enter-state :
        (to : State) (x : Switching World Ratio) (n : Node World Ratio)
        → (after_enter view to x n).1 ≡ none
        → CallbackKeeps x
        → (after_enter view to x n).0.state ≡ to
    unfolding after_enter run_callback set_state
    after_enter-state to (refused e) n quiet k = absurd (ground arith)
    after_enter-state to (later none) n quiet k = refl
    after_enter-state to (later (some f)) n quiet k = k (set_state to n)

    sync_valid : (vp : Voteproof Ratio) → SwitchContext.is_valid (sync_request vp) ≡ none
    unfolding SwitchContext.is_valid new_switch_context State.is_valid check_valid
    sync_valid vp = refl

    verdict_syncs :
        (n : Node World Ratio) (vp : Voteproof Ratio)
        → n.state ≡ state_consensus
        → voteproof_verdict view n.state vp (some sync_by_voteproof)
          ≡ (none, some (switch_to (sync_request vp)))
    unfolding voteproof_verdict new_switch_context
    verdict_syncs n vp here = rw (here, voteproof_verdict) refl

    enter_state-at :
        (h : StateHandlers World Ratio) (r : SwitchContext Ratio) (n : Node World Ratio)
        → view.states r.to ≡ some h
        → enter_state view r n ≡ after_enter view r.to (h.enter r n).1 (h.enter r n).0
    unfolding enter_state
    enter_state-at h r n e = rw (e, enter_state) refl

    enter_after-quiet :
        (h : StateHandlers World Ratio) (r : SwitchContext Ratio) (n : Node World Ratio)
        → view.states r.to ≡ some h
        → (enter_state view r n).1 ≡ none
        → CallbackKeeps (h.enter r n).1
        → ((enter_after view r n).1 ≡ none) × ((enter_after view r n).0.state ≡ r.to)
    unfolding enter_after entered
    enter_after-quiet h r n e quiet keeps =
        let at = enter_state-at h r n e in
        let here =
          after_enter-state r.to (h.enter r n).1 (h.enter r n).0 (ap (λ p. p.1) (sym at) ∙ quiet)
            keeps in
        rw (quiet) (refl, ap (λ p. p.0.state) at ∙ here)

    module _ (n : Node World Ratio) (in_consensus : n.state ≡ state_consensus)
        (vp : Voteproof Ratio) where
      judged :
          ((l : Voteproof Ratio) → n.lvp ≡ some l → Later vp l)
          → judge_voteproof view vp (none, some (switch_to (sync_request vp))) n
            ≡ (update_last vp n, some (switch_to (sync_request vp)))
      unfolding judge_voteproof sets_last take_voteproof hand_over_voteproof
      judged after = let e = set_last_voteproof-sets vp n after in ground arith

      own_origin : from_current view (sync_request vp) n ≡ sync_request vp
      unfolding from_current new_switch_context
      own_origin = refl

      turned :
          view.under_handover n.world ≡ false
          → switch_state_handover view (sync_request vp) n ≡ ok (sync_request vp)
      unfolding switch_state_handover new_switch_context
      turned alone = rw (alone, switch_state_handover) refl

      switched :
          view.under_handover n.world ≡ false
          → switch_state view (sync_request vp) n ≡ leave_and_enter view (sync_request vp) n
      unfolding switch_state switch_checked switch_turned new_switch_context
      switched alone = ground (arith, turned alone)

      -- Leaving consensus and entering syncing, both without an error.
      left_and_entered :
          (s : StateHandlers World Ratio)
          → view.states state_syncing ≡ some s
          → (exit_state view (sync_request vp) n).1 ≡ none
          → (enter_state view (sync_request vp) (exit_state view (sync_request vp) n).0).1 ≡ none
          → CallbackKeeps (s.enter (sync_request vp) (exit_state view (sync_request vp) n).0).1
          → ((leave_and_enter view (sync_request vp) n).1 ≡ none)
            × ((leave_and_enter view (sync_request vp) n).0.state ≡ state_syncing)
      unfolding leave_and_enter left new_switch_context
      left_and_entered s at_s gone quiet keeps = rw (gone) (
          enter_after-quiet s (sync_request vp) (exit_state view (sync_request vp) n).0 at_s quiet
            keeps)

      -- The first round of the switch, and the turn of `watch`.
      one_round :
          (k : ℕ)
          → view.under_handover n.world ≡ false
          → (leave_and_enter view (sync_request vp) n).1 ≡ none
          → process_switch_states view (suc k) (sync_request vp) n
            ≡ ((leave_and_enter view (sync_request vp) n).0, settled)
      unfolding process_switch_states next_round
      one_round k alone quiet = rw (switched alone, quiet) refl

  -- The request that comes of the voteproof.
  received :
      (view : NodeView World Ratio) (n : Node World Ratio) (vp : Voteproof Ratio) (world' : World)
      → n.state ≡ state_consensus
      → ((l : Voteproof Ratio) → n.lvp ≡ some l → Later vp l)
      → view.check_voteproof n.lvp vp n.world ≡ (world', some sync_by_voteproof)
      → receive view (voteproof_event vp) n
        ≡ (update_last vp (record n { world = world' }), some (switch_to (sync_request vp)))
  unfolding receive process_voteproof_internal
  received view n vp world' in_consensus after checked =
      process_voteproof-internal view vp n after
      ∙ (ap
            (λ r.
              judge_voteproof view vp (voteproof_verdict view n.state vp r.1)
                (record n { world = r.0 }))
            checked
          ∙ (ap (λ v. judge_voteproof view vp v (record n { world = world' }))
                (verdict_syncs view n vp in_consensus)
              ∙ judged view (record n { world = world' }) in_consensus vp after))

  watched_switch :
      (view : NodeView World Ratio) (r : SwitchContext Ratio) (u : Node World Ratio) (k : ℕ)
      {v : Node World Ratio}
      → process_switch_states view (suc k) r u ≡ (v, settled)
      → v.state ≡ state_syncing
      → ((switch_watched view (suc k) r u).1 ≡ go_on_watching)
        × ((switch_watched view (suc k) r u).0.state ≡ state_syncing)
  unfolding switch_watched
  watched_switch view r u k round here =
      let done = ap (λ p. p.1) round in
      let at = ap (λ p. p.0.state) round ∙ here in
      (ground (arith, done, at), ground (arith, done, at))

  turned_to_sync :
      (view : NodeView World Ratio) (n : Node World Ratio) (vp : Voteproof Ratio)
      (u : Node World Ratio) (k : ℕ) {v : Node World Ratio}
      → receive view (voteproof_event vp) n ≡ (u, some (switch_to (sync_request vp)))
      → process_switch_states view (suc k) (sync_request vp) u ≡ (v, settled)
      → v.state ≡ state_syncing
      → ((watch view (suc k) (voteproof_event vp) n).1 ≡ go_on_watching)
        × ((watch view (suc k) (voteproof_event vp) n).0.state ≡ state_syncing)
  unfolding watch next_turn
  turned_to_sync view n vp u k got round here =
      rw (got, watch) (watched_switch view (sync_request vp) u k round here)

  -- The node that has taken the voteproof, and the one that has left consensus then.
  abbrev pub taken : Voteproof Ratio → World → Node World Ratio → Node World Ratio
  taken vp world' n = update_last vp (record n { world = world' })

  abbrev pub left_consensus :
      NodeView World Ratio → Voteproof Ratio → World → Node World Ratio → Node World Ratio
  left_consensus view vp world' n = (exit_state view (sync_request vp) (taken vp world' n)).0

  -- A node in consensus that is not under handover and gets a voteproof behind the last one, of which
  -- the checks find that the node has to sync, is in syncing after this turn of `watch`, which goes
  -- on, provided that this node leaves consensus and then enters syncing without an error, by this
  -- request, and that the function which syncing gives sets no state.
  pub watch-syncs :
      (view : NodeView World Ratio) (n : Node World Ratio) (vp : Voteproof Ratio) (world' : World)
      (s : StateHandlers World Ratio) (k : ℕ)
      → n.state ≡ state_consensus
      → ((l : Voteproof Ratio) → n.lvp ≡ some l → Later vp l)
      → view.check_voteproof n.lvp vp n.world ≡ (world', some sync_by_voteproof)
      → view.under_handover world' ≡ false
      → view.states state_syncing ≡ some s
      → (exit_state view (sync_request vp) (taken vp world' n)).1 ≡ none
      → (enter_state view (sync_request vp) (left_consensus view vp world' n)).1 ≡ none
      → CallbackKeeps (s.enter (sync_request vp) (left_consensus view vp world' n)).1
      → ((watch view (suc k) (voteproof_event vp) n).1 ≡ go_on_watching)
        × ((watch view (suc k) (voteproof_event vp) n).0.state ≡ state_syncing)
  watch-syncs view n vp world' s k in_consensus after checked alone at_s gone quiet keeps =
      let m : Node World Ratio = record n { world = world' } in
      let u = update_last vp m in
      let still = update_last-state vp m ∙ in_consensus in
      let (settles, here) = left_and_entered view u still vp s at_s gone quiet keeps in
      turned_to_sync view n vp u k (received view n vp world' in_consensus after checked)
        (one_round view u still vp k (ap view.under_handover (update_last-world vp m) ∙ alone)
          settles)
        here
