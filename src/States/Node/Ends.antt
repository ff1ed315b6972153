-- ===== src/States/Node/Ends.antt =====
-- The rounds in which a node switches its state come to an end.
use mitum.Common.{
  ℕ, suc, ◌≡◌, refl, ◌≢◌, Bool, true, false, Bool-cases, Option-cases, inl, inr, Option, none, some,
  arith, ◌==◌,
}
use mitum.Common.Errors.{Error, Result, ok, err, ignored, panicked}
use mitum.Base.State.{State, state_booting}
use mitum.Base.Voteproof.{Voteproof}
use mitum.States.SwitchContext
use mitum.States.SwitchContext.{SwitchContext, StepError, fault, switch_to, new_switch_context}
use mitum.States.Node.{
  Node, NodeView, StateHandlers, Switching, refused, later, run_callback, after_exit, after_enter,
  set_state, exit_state, enter_state, switch_state_handover, process_voteproof_internal,
}
use mitum.States.Node.Switch.{
  SwitchEnd, out_of_fuel, entered, enter_after, left, ignore_error, leave_and_enter, stay_with,
  from_current, switch_turned, switch_checked, switch_state, reboot, next_round,
  process_switch_states,
}

module _ {Ratio : Type 0} where
  abbrev is_request : Option (StepError Ratio) → Bool
  is_request (some (switch_to _)) = true
  is_request _ = false

module _ {World Ratio : Type 0} where
  -- No request is given, at once or by the function that is given.
  abbrev AsksNothing : Switching World Ratio → Type 0
  AsksNothing (refused e) = is_request (some e) ≡ false
  AsksNothing (later none) = Unit {0}
  AsksNothing (later (some f)) = (n : Node World Ratio) → is_request (f n).1 ≡ false

  record IsQuiet (h : StateHandlers World Ratio) : Type 0 where
    enter_quiet : (s : SwitchContext Ratio) (n : Node World Ratio) → AsksNothing (h.enter s n).1
    exit_quiet : (s : SwitchContext Ratio) (n : Node World Ratio) → AsksNothing (h.exit s n).1

  module _ (view : NodeView World Ratio)
      (quiet : (st : State) (h : StateHandlers World Ratio)
        → view.states st ≡ some h
        → IsQuiet h) where
    after_exit-quiet :
        (x : Switching World Ratio) (n : Node World Ratio)
        → AsksNothing x
        → is_request (after_exit view x n).1 ≡ false
    unfolding after_exit run_callback
    after_exit-quiet (refused e) n q = q
    after_exit-quiet (later none) n q = refl
    after_exit-quiet (later (some f)) n q = q n

    after_enter-quiet :
        (to : State) (x : Switching World Ratio) (n : Node World Ratio)
        → AsksNothing x
        → is_request (after_enter view to x n).1 ≡ false
    unfolding after_enter run_callback
    after_enter-quiet to (refused e) n q = q
    after_enter-quiet to (later none) n q = refl
    after_enter-quiet to (later (some f)) n q = q (set_state to n)

    exit_state-quiet :
        (s : SwitchContext Ratio) (n : Node World Ratio)
        → is_request (exit_state view s n).1 ≡ false
    unfolding exit_state
    exit_state-quiet s n = elim (Option-cases (view.states s.origin)) [
      | inl e ↦ rw (e, exit_state) refl
      | inr (h, e) ↦
          rw (e, exit_state)
            (after_exit-quiet (h.exit s n).1 (h.exit s n).0 ((quiet s.origin h e).exit_quiet s n))
    ]

    enter_state-quiet :
        (s : SwitchContext Ratio) (n : Node World Ratio)
        → is_request (enter_state view s n).1 ≡ false
    unfolding enter_state
    enter_state-quiet s n = elim (Option-cases (view.states s.to)) [
      | inl e ↦ rw (e, enter_state) refl
      | inr (h, e) ↦
          rw (e, enter_state)
            (after_enter-quiet s.to (h.enter s n).1 (h.enter s n).0
              ((quiet s.to h e).enter_quiet s n))
    ]

    entered-quiet :
        (to : State) (e : Option (StepError Ratio)) (n : Node World Ratio)
        → is_request e ≡ false
        → is_request (entered view to e n).1 ≡ false
    unfolding entered
    entered-quiet to none n q = refl
    entered-quiet to (some (fault x)) n q = refl
    entered-quiet to (some (switch_to s)) n q = absurd (ground arith)

    enter_after-quiet :
        (s : SwitchContext Ratio) (n : Node World Ratio)
        → is_request (enter_after view s n).1 ≡ false
    unfolding enter_after
    enter_after-quiet s n =
        let (n', e) = enter_state view s n in entered-quiet s.to e n' (enter_state-quiet s n)

    left-quiet :
        (s : SwitchContext Ratio) (e : Option (StepError Ratio)) (n : Node World Ratio)
        → is_request e ≡ false
        → is_request (left view s e n).1 ≡ false
    unfolding left
    left-quiet s none n q = enter_after-quiet s n
    left-quiet s (some (fault panicked)) n q = refl
    left-quiet s (some (fault _)) n q = enter_after-quiet s n
    left-quiet s (some (switch_to r)) n q = absurd (ground arith)

    ignore_error-quiet :
        (e : Option (StepError Ratio)) (n : Node World Ratio)
        → is_request (ignore_error view e n).1 ≡ false
    unfolding ignore_error
    ignore_error-quiet none n = refl
    ignore_error-quiet (some (fault panicked)) n = refl
    ignore_error-quiet (some (fault _)) n = refl
    ignore_error-quiet (some (switch_to s)) n = refl

    stay_with-quiet :
        (vp : Option (Voteproof Ratio)) (n : Node World Ratio)
        → is_request (stay_with view vp n).1 ≡ false
    unfolding stay_with
    stay_with-quiet none n = refl
    stay_with-quiet (some vp) n =
        let (n', e) = process_voteproof_internal view vp n in ignore_error-quiet e n'

    switch_turned-quiet :
        (r : Result (SwitchContext Ratio)) (n : Node World Ratio)
        → is_request (switch_turned view r n).1 ≡ false
    unfolding switch_turned leave_and_enter
    switch_turned-quiet (err e) n = refl
    switch_turned-quiet (ok s) n = elim (Bool-cases (n.state == s.to)) [
      | inl same ↦ rw (same, switch_turned) (stay_with-quiet s.voteproof n)
      | inr other ↦
          let (n', e) = exit_state view s n in
          rw (other, switch_turned) (left-quiet s e n' (exit_state-quiet s n))
    ]

    switch_checked-quiet :
        (s : SwitchContext Ratio) (e : Option Error) (n : Node World Ratio)
        → is_request (switch_checked view s e n).1 ≡ false
    unfolding switch_checked
    switch_checked-quiet s (some e) n = refl
    switch_checked-quiet s none n = elim (Bool-cases (n.state == s.origin)) [
      | inl same ↦
          rw (same, switch_checked) (switch_turned-quiet (switch_state_handover view s n) n)
      | inr other ↦ rw (other, switch_checked) refl
    ]

    -- A way to go on that ends, when it boots the node.
    abbrev Boots : (SwitchContext Ratio → Node World Ratio → Node World Ratio × SwitchEnd) → Type 0
    Boots again =
        (t : SwitchContext Ratio) (m : Node World Ratio)
        → t.to ≡ state_booting
        → (again t m).1 ≢ out_of_fuel

    reboot-ends :
        (again : SwitchContext Ratio → Node World Ratio → Node World Ratio × SwitchEnd)
        (s : SwitchContext Ratio) (x : Error) (n : Node World Ratio)
        → (s.to ≢ state_booting → Boots again)
        → (reboot view again s x n).1 ≢ out_of_fuel
    unfolding reboot new_switch_context
    reboot-ends again s x n ends = elim (Bool-cases (s.to == state_booting)) [
      | inl boots ↦ rw (boots, reboot) (λ h. cc)
      | inr other ↦
          rw (other, reboot)
            (ends (ground arith)
              (record (new_switch_context n.state state_booting) { error = some x }) n refl)
    ]

    -- A round without a request ends, or it boots the node again; a round that boots it ends.
    next_round-ends :
        (again : SwitchContext Ratio → Node World Ratio → Node World Ratio × SwitchEnd)
        (s : SwitchContext Ratio) (e : Option (StepError Ratio)) (n : Node World Ratio)
        → is_request e ≡ false
        → (s.to ≢ state_booting → Boots again)
        → (next_round view again s e n).1 ≢ out_of_fuel
    unfolding next_round
    next_round-ends again s none n q ends = λ h. cc
    next_round-ends again s (some (switch_to t)) n q ends = absurd (ground arith)
    next_round-ends again s (some (fault ignored)) n q ends = λ h. cc
    next_round-ends again s (some (fault panicked)) n q ends = λ h. cc
    next_round-ends again s (some (fault x)) n q ends = reboot-ends again s x n ends

    booting_round-ends : (k : ℕ) → Boots (process_switch_states view (suc k))
    unfolding process_switch_states switch_state
    booting_round-ends k t m boots =
        let s = from_current view t m in
        let (n, e) = switch_state view t m in
        next_round-ends (process_switch_states view k) t e n
          (switch_checked-quiet s (SwitchContext.is_valid s) m)
          (λ not_boots. absurd (not_boots boots))

    -- If no state asks for another one when it is entered or left, a switch ends within two rounds,
    -- whatever errors come up: `processSwitchStates` does not run on.
    process_switch_states-ends :
        (k : ℕ) (s : SwitchContext Ratio) (n : Node World Ratio)
        → (process_switch_states view (suc (suc k)) s n).1 ≢ out_of_fuel
    unfolding process_switch_states switch_state
    process_switch_states-ends k s n =
        let c = from_current view s n in
        let (n', e) = switch_state view s n in
        next_round-ends (process_switch_states view (suc k)) s e n'
          (switch_checked-quiet c (SwitchContext.is_valid c) n) (λ _. booting_round-ends k)
