-- ===== src/Isaac/BlockChecker.antt =====
-- isaac/block_checker.go: the checks of a row of manifests that were fetched from other nodes.
pub mod Serialized
use mitum.Common.{
  Bool, true, false, List, [], ◌∷◌, Option, none, some, not, if◌then◌else◌, string_discrete, ite,
}
use mitum.Common.Int.{ℤ, pos, ◌+ℤ◌, eqb_ℤ}
use mitum.Common.Errors.{Error, failed, panicked}
use mitum.Util.Bytes.{Bytes}
use mitum.Base.Env.{Hash}
use mitum.Base.Fact.{Height}

-- What is used of the interface `Manifest`.
pub record Manifest : Type 0 where
  pub hash : Hash
  pub height : Height
  pub previous_block : Hash
  pub is_valid : Bytes → Option Error

module _ (network_id : Bytes) where
  -- `checkIsValid`; the manifest may be nil.
  unfoldable pub check_is_valid : Option Manifest → Option Error
  check_is_valid none = some failed
  check_is_valid (some m) = m.is_valid network_id

  -- `checkPreviousBlock`, of a manifest that is not nil; the height of a nil next one panics. Every
  -- other error is made a BlockIntegrityError by the caller.
  unfoldable pub check_previous_block : Manifest → Option Manifest → Option Error
  check_previous_block current none = some panicked
  check_previous_block current (some next) =
      if not (eqb_ℤ next.height (current.height +ℤ pos 1))
      then some failed
      else ite (string_discrete next.previous_block current.hash) none (some failed)

  -- A turn of the loop in `CheckSerialized`, where `rest` is what the turns behind it give.
  unfoldable pub check_current :
      Option Manifest → List (Option Manifest) → Option Error → Option Error
  unfolding check_is_valid check_previous_block
  check_current none next rest = some failed
  check_current (some m) [] rest = check_is_valid (some m)
  check_current (some m) (next ∷ _) rest = elim (check_is_valid (some m)) [
    | some e ↦ some e
    | none ↦ elim (check_previous_block m next) [ some e ↦ some e | none ↦ rest ]
  ]

  unfoldable pub check_from : List (Option Manifest) → Option Error
  unfolding check_current
  check_from [] = none
  check_from (x ∷ xs) = let rest = check_from xs in check_current x xs rest

  -- `NewManifestsValidationChecker` and `CheckSerialized`: without a manifest, `manifests[0]`
  -- panics.
  unfoldable pub check_serialized : List (Option Manifest) → Option Error
  unfolding check_from
  check_serialized [] = some panicked
  check_serialized (x ∷ xs) = check_from (x ∷ xs)
