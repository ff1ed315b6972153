-- ===== src/States/Node/Processed.antt =====
-- The last voteproofs of a node that processes voteproofs.
use mitum.Common.{
  ◌≡◌, ◌⊎◌, inl, inr, Bool, true, false, Bool-cases, Option-cases, Option, none, some, List, [],
  ◌∷◌, arith, ◌==◌,
}
use mitum.Common.Errors.{Error}
use mitum.Base.State.{State, state_empty}
use mitum.Base.Voteproof.{Voteproof}
use mitum.States.SwitchContext.{StepError}
use mitum.States.Node.{
  Node, NodeView, StateHandlers, set_last_voteproof, state_voteproof, hand_over_voteproof,
  take_voteproof, judge_voteproof, voteproof_verdict, process_voteproof_internal, process_voteproof,
  sets_last,
}
use mitum.States.Node.Last.{
  NotBack, InOrder, Keeps, Keeps-refl, Keeps-trans, Keeps-same, not-Later, set_last_voteproof-Keeps,
  set_lasts, set_lasts-Keeps, SetsLast,
}

module _ {World Ratio : Type 0} where
  module _ (view : NodeView World Ratio)
      (sets : (st : State) (h : StateHandlers World Ratio)
        → view.states st ≡ some h
        → SetsLast h) where
    state_voteproof-Keeps :
        (vp : Voteproof Ratio) (n : Node World Ratio) → Keeps n (state_voteproof view vp n).0
    unfolding state_voteproof
    state_voteproof-Keeps vp n = elim (Option-cases (view.states n.state)) [
      | inl e ↦ rw (e, state_voteproof) (Keeps-refl n)
      | inr (h, e) ↦
          let law = sets n.state h e in
          rw (e, state_voteproof)
            (Keeps-same n (set_lasts (law.voteproofs_set vp n) n) (h.process_voteproof vp n).0
              (law.sets_lvp vp n) (law.sets_livp vp n)
              (set_lasts-Keeps (law.voteproofs_set vp n) n))
    ]

    hand_over_voteproof-Keeps :
        (vp : Voteproof Ratio) (e : Option (StepError Ratio)) (n : Node World Ratio)
        → Keeps n (hand_over_voteproof view vp e n).0
    unfolding hand_over_voteproof
    hand_over_voteproof-Keeps vp none n = state_voteproof-Keeps vp n
    hand_over_voteproof-Keeps vp (some e) n = elim (Bool-cases (n.state == state_empty)) [
      | inl empty ↦ rw (empty, hand_over_voteproof) (state_voteproof-Keeps vp n)
      | inr in_state ↦ rw (in_state, hand_over_voteproof) (Keeps-refl n)
    ]

    take_voteproof-Keeps :
        (vp : Voteproof Ratio) (e : Option (StepError Ratio)) (t : Bool × Node World Ratio)
        (n : Node World Ratio)
        → Keeps n t.1
        → Keeps n (take_voteproof view vp e t n).0
    unfolding take_voteproof
    take_voteproof-Keeps vp e (true, after) n keeps =
        Keeps-trans n after (hand_over_voteproof view vp e after).0 keeps
          (hand_over_voteproof-Keeps vp e after)
    take_voteproof-Keeps vp e (false, after) n keeps = Keeps-refl n

    judge_voteproof-Keeps :
        (vp : Voteproof Ratio) (v : Option Error × Option (StepError Ratio)) (n : Node World Ratio)
        → Keeps n (judge_voteproof view vp v n).0
    unfolding judge_voteproof
    judge_voteproof-Keeps vp (some x, e) n = Keeps-refl n
    judge_voteproof-Keeps vp (none, e) n = elim (Bool-cases (sets_last view n.state)) [
      | inl taken ↦
          rw (taken, judge_voteproof)
            (take_voteproof-Keeps vp e (set_last_voteproof vp n) n (set_last_voteproof-Keeps vp n))
      | inr not_taken ↦ rw (not_taken, judge_voteproof) (hand_over_voteproof-Keeps vp e n)
    ]

    process_voteproof_internal-Keeps :
        (vp : Voteproof Ratio) (n : Node World Ratio)
        → Keeps n (process_voteproof_internal view vp n).0
    unfolding process_voteproof_internal
    process_voteproof_internal-Keeps vp n =
        let (world', error) = view.check_voteproof n.lvp vp n.world in
        judge_voteproof-Keeps vp (voteproof_verdict view n.state vp error)
          (record n { world = world' })

    process_voteproof-cases :
        (vp : Voteproof Ratio) (n : Node World Ratio)
        → (process_voteproof view vp n ≡ (n, none))
          ⊎ (process_voteproof view vp n ≡ process_voteproof_internal view vp n)
    unfolding process_voteproof
    process_voteproof-cases vp n = elim (Option-cases n.lvp) [
      | inl e ↦ inr (ground arith)
      | inr (l, e) ↦ elim (not-Later vp l) [
        | inl old ↦ inl (ground arith)
        | inr (after, new) ↦ inr (ground arith)
      ]
    ]

    process_voteproof-Keeps :
        (vp : Voteproof Ratio) (n : Node World Ratio) → Keeps n (process_voteproof view vp n).0
    process_voteproof-Keeps vp n = elim (process_voteproof-cases vp n) [
      | inl e ↦ rw (e) (Keeps-refl n)
      | inr e ↦ rw (e) (process_voteproof_internal-Keeps vp n)
    ]

    -- Voteproofs that come one after the other.
    abbrev pub process_voteproofs : List (Voteproof Ratio) → Node World Ratio → Node World Ratio
    process_voteproofs [] n = n
    process_voteproofs (vp ∷ vps) n = process_voteproofs vps (process_voteproof view vp n).0

    -- Whatever voteproofs `processVoteproof` gets one after the other, in any order and whatever
    -- errors it gives: the last voteproof of a node does not go back, and if the last INIT voteproof
    -- was of the stage INIT and reached by the last voteproof, it still is, provided that the states
    -- change the last voteproofs by SetLastVoteproof alone. What `watch` does with an error, to switch
    -- or to reset the ballot box with the voteproofs of the database, is not part of this.
    pub process_voteproofs-InOrder :
        (vps : List (Voteproof Ratio)) (n : Node World Ratio)
        → InOrder n
        → InOrder (process_voteproofs vps n) × NotBack n.lvp (process_voteproofs vps n).lvp
    process_voteproofs-InOrder [] n h = (h, (Keeps-refl n).1)
    process_voteproofs-InOrder (vp ∷ vps) n h =
        let first = process_voteproof-Keeps vp n in
        let (ordered, ahead) =
          process_voteproofs-InOrder vps (process_voteproof view vp n).0 (first.0 h) in
        (
          ordered,
          (Keeps-trans n (process_voteproof view vp n).0
              (process_voteproofs vps (process_voteproof view vp n).0) first
              (λ _. ordered, ahead)).1,
        )
