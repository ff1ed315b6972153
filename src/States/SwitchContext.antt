-- ===== src/States/SwitchContext.antt =====
-- states/basic/context.go: a request to switch the state of a node. The value `ctx` of a request is
-- left out.
use mitum.Common.{Bool, false, Option, none, some, if◌then◌else◌, [], ◌∷◌}
use mitum.Common.Errors.{Error}
use mitum.Util.Checks.{check_valid, value}
use mitum.Base.State
use mitum.Base.State.{State}
use mitum.Base.Voteproof.{Voteproof}

pub record SwitchContext (Ratio : Type 0) : Type 0 where
  pub to : State
  pub origin : State
  pub voteproof : Option (Voteproof Ratio)
  pub error : Option Error
  pub ae : Bool

-- What a state or a step gives back: an error, or a request to switch the state, which is given as
-- an error. `fault panicked` is a panic, which ends the process.
pub data StepError (Ratio : Type 0) : Type 0 where
  fault : Error → StepError Ratio
  switch_to : SwitchContext Ratio → StepError Ratio

module _ {Ratio : Type 0} where
  unfoldable pub new_switch_context : State → State → SwitchContext Ratio
  new_switch_context origin to = record {
    to = to;
    origin = origin;
    voteproof = none;
    error = none;
    ae = false;
  }

  unfoldable pub is_valid : SwitchContext Ratio → Option Error
  unfolding State.is_valid check_valid
  is_valid sctx =
      let target = check_valid false (value (State.is_valid sctx.to) ∷ []) in
      if sctx.ae
      then target
      else elim (State.is_valid sctx.origin) [ some e ↦ some e | none ↦ target ]

  -- `Return`.
  unfoldable pub return : SwitchContext Ratio → SwitchContext Ratio
  return sctx = record sctx { to = sctx.origin; origin = sctx.to }
