-- ===== src/States/Node/Rounds.antt =====
-- The number of rounds that `process_switch_states` is given.
use mitum.Common.{
  ℕ, zero, suc, ◌≤◌, if◌then◌else◌, ◌≡◌, refl, ◌≢◌, Bool, true, false, Option, none, some, arith,
  ◌==◌,
}
use mitum.Common.Errors.{Error, ignored, panicked}
use mitum.Base.State.{state_booting}
use mitum.States.SwitchContext.{SwitchContext, StepError, fault, switch_to, new_switch_context}
use mitum.States.Node.{Node, NodeView}
use mitum.States.Node.Switch.{
  SwitchEnd, stopped, out_of_fuel, switch_state, reboot, next_round, process_switch_states,
}

module _ {World Ratio : Type 0} (view : NodeView World Ratio) where
  abbrev Rounds : Type 0
  Rounds = SwitchContext Ratio → Node World Ratio → Node World Ratio × SwitchEnd

  -- Where the one way to go on ends, the other gives the same.
  abbrev Extends : Rounds → Rounds → Type 0
  Extends again more =
      (t : SwitchContext Ratio) (m : Node World Ratio)
      → (again t m).1 ≢ out_of_fuel
      → more t m ≡ again t m

  either_extends :
      (b : Bool) (done left right : Node World Ratio × SwitchEnd)
      → (left.1 ≢ out_of_fuel → right ≡ left)
      → (if b then done else left).1 ≢ out_of_fuel
      → (if b then done else right) ≡ (if b then done else left)
  either_extends true done left right h ends = refl
  either_extends false done left right h ends = h ends

  reboot-Extends :
      (again more : Rounds) (s : SwitchContext Ratio) (x : Error) (n : Node World Ratio)
      → Extends again more
      → (reboot view again s x n).1 ≢ out_of_fuel
      → reboot view more s x n ≡ reboot view again s x n
  unfolding reboot new_switch_context
  reboot-Extends again more s x n extends ends =
      let boot : SwitchContext Ratio = record (new_switch_context n.state state_booting) {
        error = some x;
      } in
      either_extends (s.to == state_booting) (n, stopped x) (again boot n) (more boot n)
        (extends boot n) ends

  next_round-Extends :
      (again more : Rounds) (s : SwitchContext Ratio) (e : Option (StepError Ratio))
      (n : Node World Ratio)
      → Extends again more
      → (next_round view again s e n).1 ≢ out_of_fuel
      → next_round view more s e n ≡ next_round view again s e n
  unfolding next_round
  next_round-Extends again more s none n extends ends = refl
  next_round-Extends again more s (some (switch_to t)) n extends ends = extends t n ends
  next_round-Extends again more s (some (fault ignored)) n extends ends = refl
  next_round-Extends again more s (some (fault panicked)) n extends ends = refl
  next_round-Extends again more s (some (fault x)) n extends ends =
      reboot-Extends again more s x n extends ends

  -- When a switch ends within some rounds, with or without an error, it ends in the same way and with
  -- the same node for every greater number of rounds: the number only bounds how long the model
  -- follows the loop of `processSwitchStates`.
  process_switch_states-more :
      (k j : ℕ) (s : SwitchContext Ratio) (n : Node World Ratio)
      → k ≤ j
      → (process_switch_states view k s n).1 ≢ out_of_fuel
      → process_switch_states view j s n ≡ process_switch_states view k s n
  unfolding process_switch_states
  process_switch_states-more zero j s n le ends = absurd (ends refl)
  process_switch_states-more (suc k) zero s n le ends = absurd (omega (arith, le))
  process_switch_states-more (suc k) (suc j) s n le ends =
      let (n', e) = switch_state view s n in
      next_round-Extends (process_switch_states view k) (process_switch_states view j) s e n'
        (λ t m h. process_switch_states-more k j t m (omega (arith, le)) h) ends
