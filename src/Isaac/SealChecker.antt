-- ===== src/Isaac/SealChecker.antt =====
-- isaac/seal_checker.go: the checks of a seal from the network, with the list in which
-- launch/process/hook_network_handlers.go runs them.
pub mod Handled
pub mod Once
use mitum.Common.{
  ℕ, Bool, true, false, List, [], ◌∷◌, Option, none, some, ltb, if◌then◌else◌, length,
}
use mitum.Common.Dict.{MapRange}
use mitum.Common.Errors.{Error, Result, ok, err, invalid, ignored}
use mitum.Util.Bytes.{Bytes}
use mitum.Util.Checks.{CheckerFunc, Checked, Outcome, check, pure_check}
use mitum.Base.Env.{Env, Hash, Time}
use mitum.Base.Threshold.{RatioOps}
use mitum.Base.Voteproof.{Voteproof}
use mitum.Base.Ballot.{Ballot}
use mitum.Isaac.BallotChecker.{LocalView, check_new_ballot, go_on, refuse}

-- What is used of the interface `Seal`, and what its type assertions find: the hashes of the facts of
-- an operation seal, and a ballot.
pub record Seal (Ratio : Type 0) : Type 0 where
  pub hash : Hash
  pub is_valid : Bytes → Option Error
  pub operation_facts : Option (List Hash)
  pub ballot : Option (Ballot Ratio)

-- `Has` and `Set` of a cache of seals.
pub record SealCache : Type 1 where
  pub Cache : Type 0
  pub has : Cache → Hash → Bool
  pub set : Cache → Hash → Cache × Option Error

-- What the checks read of the policy and of the database.
pub record SealView (Ratio : Type 0) : Type 0 where
  pub local_view : LocalView Ratio
  pub max_operations : ℕ
  pub has_operation_fact : Hash → Result Bool

-- What `handlerNewSeal` did: the cache it leaves, whether it handed the seal on to the states, and
-- its error.
pub record HandledSeal (Cache : Type 0) : Type 0 where
  pub cache : Option Cache
  pub handed_on : Bool
  pub error : Option Error

module _ (sc : SealCache) where
  open sc use {Cache, has, set}

  -- `IsKnown`; without a cache, no seal is known.
  unfoldable pub is_known : Hash → CheckerFunc (Option Cache)
  is_known h none = record { state = none; keep = true; error = none }
  is_known h (some c) =
      let (c', e) = set c h in
      let written : Checked (Option Cache) = elim e [
        | none ↦ record { state = some c'; keep = true; error = none }
        | some _ ↦ record { state = some c'; keep = false; error = some ignored }
      ] in
      if has c h then record { state = some c; keep = false; error = some ignored } else written

module _ {Ratio : Type 0} (view : SealView Ratio) where
  -- `IsValid`.
  unfoldable pub is_valid_seal : Seal Ratio → Bool × Option Error
  is_valid_seal sl = elim (sl.is_valid view.local_view.network_id) [
    | some e ↦ refuse e
    | none ↦ go_on
  ]

  -- The loop of `IsValidOperationSeal`: whether one of the facts is not found.
  unfoldable pub has_new_operation : List Hash → Result Bool
  has_new_operation [] = ok false
  has_new_operation (h ∷ hs) = elim (view.has_operation_fact h) [
    | err e ↦ err e
    | ok found ↦ if found then has_new_operation hs else ok true
  ]

  -- `IsValidOperationSeal`.
  unfoldable pub is_valid_operation_seal : Seal Ratio → Bool × Option Error
  unfolding has_new_operation
  is_valid_operation_seal sl = elim sl.operation_facts [
    | none ↦ go_on
    | some hs ↦
        let searched : Bool × Option Error = elim (has_new_operation hs) [
          | err e ↦ refuse e
          | ok fresh ↦ if fresh then go_on else refuse ignored
        ] in
        if ltb (length hs) 1
        then refuse invalid
        else if ltb view.max_operations (length hs)
        then refuse invalid
        else searched
  ]

module _ (env : Env) (ops : RatioOps) (rng : MapRange) (sc : SealCache)
    (view : SealView ops.Ratio) where
  -- The checks that `handlerNewSeal` runs.
  unfoldable pub seal_checks : Seal ops.Ratio → List (CheckerFunc (Option sc.Cache))
  unfolding is_known is_valid_seal is_valid_operation_seal
  seal_checks sl =
      is_known sc sl.hash
      ∷ pure_check (is_valid_seal view sl)
      ∷ pure_check (is_valid_operation_seal view sl)
      ∷ []

  -- The checks of a ballot, for a seal that is one.
  unfoldable pub check_sealed_ballot :
      Time → Option (Voteproof ops.Ratio) → Seal ops.Ratio → Option Error
  check_sealed_ballot now lvp sl = elim sl.ballot [
    | none ↦ none
    | some blt ↦ check_new_ballot env ops rng view.local_view now lvp blt
  ]

  -- What `handlerNewSeal` makes of the checks of the seal.
  unfoldable pub after_checks : Option Error → Outcome (Option sc.Cache) → HandledSeal sc.Cache
  after_checks failure r = elim r.error [
    | some ignored ↦ record { cache = r.state; handed_on = false; error = none }
    | some e ↦ record { cache = r.state; handed_on = false; error = some e }
    | none ↦ elim failure [
      | some e ↦ record { cache = r.state; handed_on = false; error = some e }
      | none ↦ record { cache = r.state; handed_on = true; error = none }
    ]
  ]

  -- `handlerNewSeal`, at a time and behind a last voteproof.
  unfoldable pub new_seal :
      Time → Option (Voteproof ops.Ratio) → Seal ops.Ratio → Option sc.Cache → HandledSeal sc.Cache
  unfolding seal_checks check_sealed_ballot after_checks
  new_seal now lvp sl c = after_checks (check_sealed_ballot now lvp sl) (check (seal_checks sl) c)
