-- ===== src/States/Node/Under.antt =====
-- A node under handover does not enter consensus.
use mitum.Common.{
  ◌≡◌, refl, sym, ◌∙◌, ◌≢◌, ◌⊎◌, inl, inr, true, Bool-cases, Option, none, some, arith, ◌==◌,
}
use mitum.Common.Errors.{Error, Result, ok, err, panicked}
use mitum.Base.State.{State, state_consensus, state_handover}
use mitum.Base.Voteproof.{Voteproof}
use mitum.States.SwitchContext
use mitum.States.SwitchContext.{SwitchContext, StepError, fault, switch_to}
use mitum.States.Node.{
  Node, NodeView, StateHandlers, switch_state_handover, exit_state, enter_state,
  process_voteproof_internal,
}
use mitum.States.Node.Switch.{
  entered, enter_after, left, ignore_error, leave_and_enter, stay_with, from_current, switch_turned,
  switch_checked, switch_state,
}
use mitum.States.Node.Keeps.{
  KeepsState, exit_state-keeps, enter_state-sets, process_voteproof_internal-keeps,
}

module _ {World Ratio : Type 0} where
  module _ (view : NodeView World Ratio)
      (keep : (st : State) (h : StateHandlers World Ratio)
        → view.states st ≡ some h
        → KeepsState h) where
    entered-keeps :
        (to : State) (e : Option (StepError Ratio)) (n : Node World Ratio)
        → (entered view to e n).0 ≡ n
    unfolding entered
    entered-keeps to none n = refl
    entered-keeps to (some (fault x)) n = refl
    entered-keeps to (some (switch_to s)) n = ground arith

    -- What a switch does to the state: it stays, or it is the target.
    abbrev EndsAt : SwitchContext Ratio → Node World Ratio → Node World Ratio → Type 0
    EndsAt s n n' = (n'.state ≡ n.state) ⊎ (n'.state ≡ s.to)

    enter_after-EndsAt :
        (s : SwitchContext Ratio) (n : Node World Ratio) → EndsAt s n (enter_after view s n).0
    unfolding enter_after
    enter_after-EndsAt s n =
        let (n', e) = enter_state view s n in
        rw (entered-keeps s.to e n') (enter_state-sets view keep s n)

    left-EndsAt :
        (s : SwitchContext Ratio) (e : Option (StepError Ratio)) (n : Node World Ratio)
        → EndsAt s n (left view s e n).0
    unfolding left
    left-EndsAt s none n = enter_after-EndsAt s n
    left-EndsAt s (some (fault panicked)) n = inl refl
    left-EndsAt s (some (fault _)) n = enter_after-EndsAt s n
    left-EndsAt s (some (switch_to r)) n = elim (Bool-cases (s.origin == r.to)) [
      | inl same ↦ rw (same, left) (enter_after-EndsAt s n)
      | inr other ↦ rw (other, left) (inl refl)
    ]

    leave_and_enter-EndsAt :
        (s : SwitchContext Ratio) (n : Node World Ratio) → EndsAt s n (leave_and_enter view s n).0
    unfolding leave_and_enter
    leave_and_enter-EndsAt s n =
        let (n', e) = exit_state view s n in
        elim (left-EndsAt s e n') [
          | inl same ↦ inl (same ∙ exit_state-keeps view keep s n)
          | inr set ↦ inr set
        ]

    ignore_error-keeps :
        (e : Option (StepError Ratio)) (n : Node World Ratio) → (ignore_error view e n).0 ≡ n
    unfolding ignore_error
    ignore_error-keeps none n = refl
    ignore_error-keeps (some (fault panicked)) n = refl
    ignore_error-keeps (some (fault _)) n = refl
    ignore_error-keeps (some (switch_to s)) n = refl

    stay_with-keeps :
        (vp : Option (Voteproof Ratio)) (n : Node World Ratio)
        → (stay_with view vp n).0.state ≡ n.state
    unfolding stay_with
    stay_with-keeps none n = refl
    stay_with-keeps (some vp) n =
        let (n', e) = process_voteproof_internal view vp n in
        rw (ignore_error-keeps e n') (process_voteproof_internal-keeps view keep vp n)

    -- Where a request that has been turned ends.
    abbrev Turned : Result (SwitchContext Ratio) → Node World Ratio → Node World Ratio → Type 0
    Turned r n n' =
        (n'.state ≡ n.state) ⊎ ((s : SwitchContext Ratio) × (r ≡ ok s) × (n'.state ≡ s.to))

    switch_turned-ends :
        (r : Result (SwitchContext Ratio)) (n : Node World Ratio)
        → Turned r n (switch_turned view r n).0
    unfolding switch_turned
    switch_turned-ends (err e) n = inl refl
    switch_turned-ends (ok s) n = elim (Bool-cases (n.state == s.to)) [
      | inl same ↦ rw (same, switch_turned) (inl (stay_with-keeps s.voteproof n))
      | inr other ↦
          rw (other, switch_turned)
            (elim (leave_and_enter-EndsAt s n) [
              | inl kept ↦ inl kept
              | inr set ↦ inr (s, refl, set)
            ])
    ]

    switch_checked-ends :
        (sctx : SwitchContext Ratio) (e : Option Error) (n : Node World Ratio)
        → ((switch_checked view sctx e n).0.state ≡ n.state)
          ⊎ ((sctx.origin ≡ n.state)
              × Turned (switch_state_handover view sctx n) n (switch_checked view sctx e n).0)
    unfolding switch_checked
    switch_checked-ends sctx (some e) n = inl refl
    switch_checked-ends sctx none n = elim (Bool-cases (n.state == sctx.origin)) [
      | inl same ↦ inr (
        ground arith,
        rw (same, switch_checked) (switch_turned-ends (switch_state_handover view sctx n) n),
      )
      | inr other ↦ rw (other, switch_checked) (inl refl)
    ]

  -- Under handover no request of another state ends in consensus.
  turned_from :
      (view : NodeView World Ratio) (sctx s : SwitchContext Ratio) (n : Node World Ratio)
      → view.under_handover n.world ≡ true
      → sctx.origin ≢ state_handover
      → sctx.origin ≢ state_consensus
      → switch_state_handover view sctx n ≡ ok s
      → s.to ≢ state_consensus
  unfolding switch_state_handover
  turned_from view sctx s n under not_handover not_consensus e q = ground arith

  -- Whatever a request asks for: a node under handover that is neither in handover nor in consensus
  -- is not in consensus after a switch, provided that its states set no state of the node.
  pub switch_state-under_handover :
      (view : NodeView World Ratio)
      → ((st : State) (h : StateHandlers World Ratio) → view.states st ≡ some h → KeepsState h)
      → (sctx : SwitchContext Ratio) (n : Node World Ratio) → view.under_handover n.world ≡ true
      → n.state ≢ state_handover
      → n.state ≢ state_consensus
      → (switch_state view sctx n).0.state ≢ state_consensus
  unfolding switch_state
  switch_state-under_handover view keep orig n under not_handover not_consensus =
      let sctx = from_current view orig n in
      elim (switch_checked-ends view keep sctx (SwitchContext.is_valid sctx) n) [
        | inl same ↦ λ e. not_consensus (sym same ∙ e)
        | inr (here, inl same) ↦ λ e. not_consensus (sym same ∙ e)
        | inr (here, inr (s, turned, set)) ↦ λ e.
            turned_from view sctx s n under (λ p. not_handover (sym here ∙ p))
              (λ p. not_consensus (sym here ∙ p)) turned (sym set ∙ e)
      ]
