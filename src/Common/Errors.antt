-- ===== src/Common/Errors.antt =====
-- Errors as values: the kinds that the program tells apart by `errors.Is`, without their texts
-- (util/errors.go, util/error.go).
use mathlib.Core.Path.{◌≡◌, refl}
use mathlib.Core.Logic.{◌⊎◌, inl, inr}

-- `failed` is an error made by `errors.Errorf`, `panicked` a run-time panic.
pub data Error : Type 0 where
  invalid ignored duplicated known_seal not_found sync_by_voteproof no_parent no_children : Error
  failed panicked : Error

pub data Result {ℓ} (A : Type ℓ) : Type ℓ where
  ok : A → Result A
  err : Error → Result A

pub Result-cases {ℓ} :
    {A : Type ℓ} (r : Result A) → ((e : Error) × (r ≡ err e)) ⊎ ((a : A) × (r ≡ ok a))
Result-cases (ok a) = inr (a, refl)
Result-cases (err e) = inl (e, refl)
