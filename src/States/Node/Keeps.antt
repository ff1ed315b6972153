-- ===== src/States/Node/Keeps.antt =====
-- The states set no state of the node.
use mitum.Common.{
  ◌≡◌, refl, ◌∙◌, ◌⊎◌, inl, inr, Bool, true, false, Bool-cases, Option-cases, Option, none, some,
  arith,
}
use mitum.Common.Errors.{Error}
use mitum.Base.State.{State}
use mitum.Base.Voteproof.{Voteproof}
use mitum.States.SwitchContext.{SwitchContext, StepError}
use mitum.States.Node.{
  Node, NodeView, StateHandlers, Switching, refused, later, run_callback, after_exit, after_enter,
  set_state, exit_state, enter_state, process_voteproof_internal, state_voteproof,
  voteproof_verdict, sets_last, update_last, set_last_voteproof, hand_over_voteproof,
  take_voteproof, judge_voteproof,
}

module _ {World Ratio : Type 0} where
  -- A function that `Enter` or `Exit` gives leaves the state of the node.
  abbrev pub CallbackKeeps : Switching World Ratio → Type 0
  CallbackKeeps (refused _) = Unit {0}
  CallbackKeeps (later none) = Unit {0}
  CallbackKeeps (later (some f)) = (n : Node World Ratio) → (f n).0.state ≡ n.state

  -- The states set the state of the node nowhere: `setState` is called by `enterState` and `Stop`.
  pub record KeepsState (h : StateHandlers World Ratio) : Type 0 where
    pub enter_keeps :
        (s : SwitchContext Ratio) (n : Node World Ratio)
        → ((h.enter s n).0.state ≡ n.state) × CallbackKeeps (h.enter s n).1
    pub exit_keeps :
        (s : SwitchContext Ratio) (n : Node World Ratio)
        → ((h.exit s n).0.state ≡ n.state) × CallbackKeeps (h.exit s n).1
    pub voteproof_keeps :
        (vp : Voteproof Ratio) (n : Node World Ratio) → (h.process_voteproof vp n).0.state ≡ n.state

  module _ (view : NodeView World Ratio)
      (keep : (st : State) (h : StateHandlers World Ratio)
        → view.states st ≡ some h
        → KeepsState h) where
    after_exit-keeps :
        (x : Switching World Ratio) (n : Node World Ratio)
        → CallbackKeeps x
        → (after_exit view x n).0.state ≡ n.state
    unfolding after_exit run_callback
    after_exit-keeps (refused e) n k = refl
    after_exit-keeps (later none) n k = refl
    after_exit-keeps (later (some f)) n k = k n

    after_enter-sets :
        (to : State) (x : Switching World Ratio) (n : Node World Ratio)
        → CallbackKeeps x
        → ((after_enter view to x n).0.state ≡ n.state) ⊎ ((after_enter view to x n).0.state ≡ to)
    unfolding after_enter run_callback set_state
    after_enter-sets to (refused e) n k = inl refl
    after_enter-sets to (later none) n k = inr refl
    after_enter-sets to (later (some f)) n k = inr (k (set_state to n))

    pub exit_state-keeps :
        (s : SwitchContext Ratio) (n : Node World Ratio) → (exit_state view s n).0.state ≡ n.state
    unfolding exit_state
    exit_state-keeps s n = elim (Option-cases (view.states s.origin)) [
      | inl e ↦ rw (e, exit_state) refl
      | inr (h, e) ↦
          let (first, second) = (keep s.origin h e).exit_keeps s n in
          rw (e, exit_state) (after_exit-keeps (h.exit s n).1 (h.exit s n).0 second ∙ first)
    ]

    pub enter_state-sets :
        (s : SwitchContext Ratio) (n : Node World Ratio)
        → ((enter_state view s n).0.state ≡ n.state) ⊎ ((enter_state view s n).0.state ≡ s.to)
    unfolding enter_state
    enter_state-sets s n = elim (Option-cases (view.states s.to)) [
      | inl e ↦ rw (e, enter_state) (inl refl)
      | inr (h, e) ↦
          let (first, second) = (keep s.to h e).enter_keeps s n in
          rw (e, enter_state)
            (elim (after_enter-sets s.to (h.enter s n).1 (h.enter s n).0 second) [
              | inl same ↦ inl (same ∙ first)
              | inr set ↦ inr set
            ])
    ]

    set_last_voteproof-keeps :
        (vp : Voteproof Ratio) (n : Node World Ratio) → (set_last_voteproof vp n).1.state ≡ n.state
    unfolding set_last_voteproof update_last
    set_last_voteproof-keeps vp n = elim (Option-cases n.lvp) [
      | inl e ↦ ground arith
      | inr (l, e) ↦ ground arith
    ]

    state_voteproof-keeps :
        (vp : Voteproof Ratio) (n : Node World Ratio)
        → (state_voteproof view vp n).0.state ≡ n.state
    unfolding state_voteproof
    state_voteproof-keeps vp n = elim (Option-cases (view.states n.state)) [
      | inl e ↦ rw (e, state_voteproof) refl
      | inr (h, e) ↦ rw (e, state_voteproof) ((keep n.state h e).voteproof_keeps vp n)
    ]

    hand_over_voteproof-keeps :
        (vp : Voteproof Ratio) (e : Option (StepError Ratio)) (n : Node World Ratio)
        → (hand_over_voteproof view vp e n).0.state ≡ n.state
    unfolding hand_over_voteproof
    hand_over_voteproof-keeps vp none n = state_voteproof-keeps vp n
    hand_over_voteproof-keeps vp (some e) n = ground (arith, state_voteproof-keeps vp n)

    take_voteproof-keeps :
        (vp : Voteproof Ratio) (e : Option (StepError Ratio)) (t : Bool × Node World Ratio)
        (n : Node World Ratio)
        → t.1.state ≡ n.state
        → (take_voteproof view vp e t n).0.state ≡ n.state
    unfolding take_voteproof
    take_voteproof-keeps vp e (true, after) n h = hand_over_voteproof-keeps vp e after ∙ h
    take_voteproof-keeps vp e (false, after) n h = refl

    judge_voteproof-keeps :
        (vp : Voteproof Ratio) (v : Option Error × Option (StepError Ratio)) (n : Node World Ratio)
        → (judge_voteproof view vp v n).0.state ≡ n.state
    unfolding judge_voteproof
    judge_voteproof-keeps vp (some x, e) n = refl
    judge_voteproof-keeps vp (none, e) n = elim (Bool-cases (sets_last view n.state)) [
      | inl sets ↦
          rw (sets, judge_voteproof)
            (take_voteproof-keeps vp e (set_last_voteproof vp n) n (set_last_voteproof-keeps vp n))
      | inr not_set ↦ rw (not_set, judge_voteproof) (hand_over_voteproof-keeps vp e n)
    ]

    pub process_voteproof_internal-keeps :
        (vp : Voteproof Ratio) (n : Node World Ratio)
        → (process_voteproof_internal view vp n).0.state ≡ n.state
    unfolding process_voteproof_internal
    process_voteproof_internal-keeps vp n =
        let (world', error) = view.check_voteproof n.lvp vp n.world in
        judge_voteproof-keeps vp (voteproof_verdict view n.state vp error)
          (record n { world = world' })
