-- ===== src/Isaac/SealChecker/Once.antt =====
-- A seal that comes again.
use mitum.Common.{
  ◌≡◌, refl, sym, ap, ◌∙◌, Bool, true, false, if◌then◌else◌, Option, none, some, arith, List, [],
  ◌∷◌,
}
use mathlib.Core.Path.{subst}
use mitum.Common.Dict.{MapRange}
use mitum.Common.Errors.{Error, ignored}
use mitum.Util.Checks.{CheckerFunc, Checked, Outcome, check, pure_check}
use mitum.Base.Env.{Env, Hash, Time}
use mitum.Base.Threshold.{RatioOps}
use mitum.Base.Voteproof.{Voteproof}
use mitum.Isaac.SealChecker.{
  Seal, SealCache, SealView, is_known, is_valid_seal, is_valid_operation_seal, seal_checks,
  check_sealed_ballot, after_checks, new_seal,
}
use mitum.Isaac.SealChecker.Handled.{SealCacheLaws, IsNew, new_seal_iff}

module _ (env : Env) (ops : RatioOps) (rng : MapRange) (sc : SealCache)
    (view : SealView ops.Ratio) where
  after_checks_state :
      (failure : Option Error) (r : Outcome (Option sc.Cache))
      → (after_checks env ops rng sc view failure r).cache ≡ r.state
  unfolding after_checks
  after_checks_state failure r = ground arith

  -- Two checks that leave the state.
  check-pure_state :
      (S : Type 0) (fn : CheckerFunc S) (a b : Bool × Option Error) (s : S)
      → (check (fn ∷ pure_check a ∷ pure_check b ∷ []) s).state ≡ (fn s).state
  unfolding check
  check-pure_state S fn a b s = ground arith

  check-stops :
      (S : Type 0) (fn : CheckerFunc S) (fns : List (CheckerFunc S)) (s s' : S) (e : Error)
      → fn s ≡ record { state = s'; keep = false; error = some e }
      → check (fn ∷ fns) s ≡ record { state = s'; error = some e }
  unfolding check
  check-stops S fn fns s s' e h =
      ap
        (λ (c : Checked S). elim c.error as (λ _. Outcome S) [
          | some x ↦ record { state = c.state; error = some x }
          | none ↦ if c.keep then check fns c.state else record { state = c.state; error = none }
        ])
        h

  is_known_state :
      (h : Hash) (c : sc.Cache)
      → sc.has c h ≡ false
      → (is_known sc h (some c)).state ≡ some (sc.set c h).0
  unfolding is_known
  is_known_state h c new = ground arith

  is_known_known :
      (h : Hash) (c : sc.Cache)
      → sc.has c h ≡ true
      → is_known sc h (some c) ≡ record { state = some c; keep = false; error = some ignored }
  unfolding is_known
  is_known_known h c known = rw (known, is_known) refl

  new_seal_cache :
      (now : Time) (lvp : Option (Voteproof ops.Ratio)) (sl : Seal ops.Ratio) (c : sc.Cache)
      → IsNew sc (some c) sl.hash
      → (new_seal env ops rng sc view now lvp sl (some c)).cache ≡ some (sc.set c sl.hash).0
  unfolding new_seal seal_checks is_known
  new_seal_cache now lvp sl c (new, put_in) =
      after_checks_state (check_sealed_ballot env ops rng sc view now lvp sl)
        (check (seal_checks env ops rng sc view sl) (some c))
      ∙ check-pure_state (Option sc.Cache) (is_known sc sl.hash) (is_valid_seal view sl)
          (is_valid_operation_seal view sl) (some c)
      ∙ is_known_state sl.hash c new

  new_seal_known :
      (now : Time) (lvp : Option (Voteproof ops.Ratio)) (sl : Seal ops.Ratio) (c : sc.Cache)
      → sc.has c sl.hash ≡ true
      → new_seal env ops rng sc view now lvp sl (some c)
        ≡ record { cache = some c; handed_on = false; error = none }
  unfolding new_seal seal_checks is_known check after_checks
  new_seal_known now lvp sl c h =
      ap (after_checks env ops rng sc view (check_sealed_ballot env ops rng sc view now lvp sl)) (
        check-stops (Option sc.Cache) (is_known sc sl.hash)
          (pure_check (is_valid_seal view sl) ∷ pure_check (is_valid_operation_seal view sl) ∷ [])
          (some c) (some c) ignored (is_known_known sl.hash c h))

  -- A seal that `handlerNewSeal` has handed on, with a cache that holds what was set, is not handed
  -- on when it comes again right then, whatever the time and the last voteproof, and without an
  -- error; the cache stays as it is.
  pub new_seal-once :
      SealCacheLaws sc
      → (sl : Seal ops.Ratio) (c : sc.Cache) (now : Time) (lvp : Option (Voteproof ops.Ratio))
      → (new_seal env ops rng sc view now lvp sl (some c)).handed_on ≡ true
      → (later : Time) (lvp' : Option (Voteproof ops.Ratio))
      → new_seal env ops rng sc view later lvp' sl
          (new_seal env ops rng sc view now lvp sl (some c)).cache
        ≡ record {
          cache = (new_seal env ops rng sc view now lvp sl (some c)).cache;
          handed_on = false;
          error = none;
        }
  new_seal-once laws sl c now lvp h later lvp' =
      let new : IsNew sc (some c) sl.hash =
        ((new_seal_iff env ops rng sc view now lvp sl (some c)).0 h).0 in
      subst
        (λ x.
          new_seal env ops rng sc view later lvp' sl x
          ≡ record { cache = x; handed_on = false; error = none })
        (sym (new_seal_cache now lvp sl c new))
        (new_seal_known later lvp' sl (sc.set c sl.hash).0 (laws.has-set c sl.hash new.1))
