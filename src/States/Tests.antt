-- ===== src/States/Tests.antt =====
-- The theorems of the package at concrete inputs.
use mitum.Common.{
  ℕ, ◌≡◌, refl, ◌≢◌, ◌⊎◌, inl, inr, Bool, true, false, [], ◌∷◌, none, some, arith, ◌==◌,
  if◌then◌else◌,
}
use mitum.Common.Int.{pos, ◌+ℤ◌, ◌<ℤ◌}
use mitum.Common.Errors.{sync_by_voteproof, failed}
use mitum.Base.Stage.{stage_init, stage_accept}
use mitum.Base.State.{State, state_consensus, state_syncing, state_joining}
use mitum.Base.Voteproof.{Voteproof}
use mitum.Base.Voteproof.Order.{Later}
use mitum.Samples.{agreed_voteproof}
use mitum.States.VoteproofChecker.{check_point}
use mitum.States.VoteproofChecker.Point.{
  Verdict, InitFollows, InitBehind, AcceptFollows, AcceptBehind, check_point-Verdict,
}
use mitum.States.SwitchContext.{SwitchContext, fault, new_switch_context}
use mitum.States.Node.{
  Node, NodeView, StateHandlers, Switching, refused, later, exit_state, enter_state,
}
use mitum.States.Node.Switch.{go_on_watching, voteproof_event, watch, switch_state}
use mitum.States.Node.Keeps.{CallbackKeeps, KeepsState}
use mitum.States.Node.Under.{switch_state-under_handover}
use mitum.States.Node.Last.{SetsLast, InOrder, NotBack}
use mitum.States.Node.Processed.{process_voteproofs, process_voteproofs-InOrder}
use mitum.States.Node.Sync.{watch-syncs}

-- Later voteproofs, of other heights, rounds and stages.
abbrev next_accept : Voteproof ℕ
next_accept = record agreed_voteproof { stage = stage_accept }

abbrev far_accept : Voteproof ℕ
far_accept = record agreed_voteproof { height = pos 9; stage = stage_accept }

check_point-Verdict_example :
    ((far_accept.stage ≡ stage_init)
      × Verdict
          (check_point (some agreed_voteproof) far_accept)
          (InitFollows agreed_voteproof far_accept)
          (agreed_voteproof.height +ℤ pos 1 <ℤ far_accept.height)
          (InitBehind agreed_voteproof far_accept))
    ⊎ ((far_accept.stage ≡ stage_accept)
        × Verdict
            (check_point (some agreed_voteproof) far_accept)
            (AcceptFollows agreed_voteproof far_accept)
            (agreed_voteproof.height <ℤ far_accept.height)
            (AcceptBehind agreed_voteproof far_accept))
check_point-Verdict_example =
    check_point-Verdict agreed_voteproof far_accept (omega arith, omega arith)
      (omega arith, omega arith) (inr refl)

-- A state that does nothing, and that, like `BaseState`, refuses to be entered and left by the requests
-- of others. In the world of the sample stands whether the node is under handover.
abbrev answer : Bool → Switching Bool ℕ
answer true = later none
answer false = refused (fault failed)

abbrev idle : State → StateHandlers Bool ℕ
idle st = record {
  enter = λ s n. (n, answer (s.to == st));
  exit = λ s n. (n, answer (s.origin == st));
  process_proposal = λ pr n. (n, none);
  process_voteproof = λ vp n. (n, none);
}

abbrev sample_view : NodeView Bool ℕ
sample_view = record {
  states = λ st. some (idle st);
  last_voteproof = λ w st. none;
  under_handover = λ w. w;
  handover_is_ready = λ w. true;
  check_voteproof =
      λ lvp vp w. (w, if vp.stage == stage_accept then some sync_by_voteproof else none);
  check_proposal = λ livp pr w. none;
}

abbrev sample_node : State → Bool → Node Bool ℕ
sample_node st w = record {
  state = st;
  lvp = some agreed_voteproof;
  livp = some agreed_voteproof;
  ballotbox = record { vrs = []; latest_ballot = none };
  world = w;
}

answer-keeps : (b : Bool) → CallbackKeeps (answer b)
answer-keeps true = tt
answer-keeps false = tt

idle-KeepsState : (st : State) → KeepsState (idle st)
idle-KeepsState st = record {
  enter_keeps = λ s n. (refl, answer-keeps (s.to == st));
  exit_keeps = λ s n. (refl, answer-keeps (s.origin == st));
  voteproof_keeps = λ vp n. refl;
}

idle-SetsLast : (st : State) → SetsLast (idle st)
idle-SetsLast st = record {
  voteproofs_set = λ vp n. [];
  sets_lvp = λ vp n. refl;
  sets_livp = λ vp n. refl;
}

is_idle : (st : State) (h : StateHandlers Bool ℕ) → some (idle st) ≡ some h → idle st ≡ h
is_idle st h e = cc

sample_node-InOrder : InOrder (sample_node state_consensus false)
sample_node-InOrder i e =
    let same : agreed_voteproof ≡ i = cc in rw (← same) (refl, (agreed_voteproof, refl, inl refl))

process_voteproofs-InOrder_example :
    InOrder (
      process_voteproofs sample_view
        (λ st h e. rw (← is_idle st h e) (idle-SetsLast st))
        (far_accept ∷ next_accept ∷ [])
        (sample_node state_consensus false))
    × NotBack
        (some agreed_voteproof)
        (process_voteproofs sample_view
          (λ st h e. rw (← is_idle st h e) (idle-SetsLast st))
          (far_accept ∷ next_accept ∷ [])
          (sample_node state_consensus false)).lvp
process_voteproofs-InOrder_example =
    process_voteproofs-InOrder sample_view (λ st h e. rw (← is_idle st h e) (idle-SetsLast st))
      (far_accept ∷ next_accept ∷ []) (sample_node state_consensus false) sample_node-InOrder

abbrev to_consensus : SwitchContext ℕ
to_consensus = new_switch_context state_joining state_consensus

switch_state-under_handover_example :
    (switch_state sample_view to_consensus (sample_node state_joining true)).0.state
    ≢ state_consensus
switch_state-under_handover_example =
    switch_state-under_handover sample_view (λ st h e. rw (← is_idle st h e) (idle-KeepsState st))
      to_consensus (sample_node state_joining true) refl (λ e. ground arith) (λ e. ground arith)

far-Later : (l : Voteproof ℕ) → some agreed_voteproof ≡ some l → Later far_accept l
far-Later l e = let same : agreed_voteproof ≡ l = cc in rw (← same) (inl (omega arith))

watch-syncs_example :
    ((watch sample_view 1 (voteproof_event far_accept) (sample_node state_consensus false)).1
      ≡ go_on_watching)
    × ((watch sample_view 1
          (voteproof_event far_accept)
          (sample_node state_consensus false)).0.state
        ≡ state_syncing)
unfolding exit_state enter_state new_switch_context
watch-syncs_example =
    watch-syncs sample_view (sample_node state_consensus false) far_accept false
      (idle state_syncing) 0 refl far-Later refl refl refl refl refl tt
