-- ===== src/Util/Checks.antt =====
-- util/checker.go and util/isvalid/check.go: lists of checks that run until one of them stops.
use mitum.Common.{
  Bool, true, false, ◌≡◌, ◌⊎◌, inl, inr, List, [], ◌∷◌, Option, none, some, if◌then◌else◌, ◌↔◌,
  refl,
}
use mitum.Common.Errors.{Error, invalid}

-- `CheckerFunc`: whether to go on, and an error. A check may change the state that it works on.
pub record Checked (S : Type 0) : Type 0 where
  pub state : S
  pub keep : Bool
  pub error : Option Error

abbrev pub CheckerFunc : Type 0 → Type 0
CheckerFunc S = S → Checked S

-- The state that a list of checks leaves, and its error.
pub record Outcome (S : Type 0) : Type 0 where
  pub state : S
  pub error : Option Error

module _ {S : Type 0} where
  -- A check that answers no without an error ends the list without an error.
  unfoldable pub check : List (CheckerFunc S) → S → Outcome S
  check [] s = record { state = s; error = none }
  check (fn ∷ fns) s =
      let c = fn s in
      let rest = check fns c.state in
      elim c.error [
        | some e ↦ record { state = c.state; error = some e }
        | none ↦ if c.keep then rest else record { state = c.state; error = none }
      ]

  -- Checks that look at the state alone, and leave it.
  abbrev pub pure_check : Bool × Option Error → CheckerFunc S
  pure_check (k, e) s = record { state = s; keep = k; error = e }

-- When a list of such checks ends without an error: every check up to the first one that stops has
-- none.
abbrev pub LetsPass : List (Bool × Option Error) → Type 0
LetsPass [] = Unit {0}
LetsPass (r ∷ rs) = (r.1 ≡ none) × ((r.0 ≡ false) ⊎ LetsPass rs)

abbrev pub pure_checks : List (Bool × Option Error) → List (CheckerFunc (Unit {0}))
pure_checks [] = []
pure_checks (r ∷ rs) = pure_check r ∷ pure_checks rs

-- `Checker.Check` on checks that leave the state has no error exactly if each check has none up to
-- the first that stops: a check that answers no, without an error, passes for the whole list.
pub check_iff :
    (rs : List (Bool × Option Error)) → ((check (pure_checks rs) tt).error ≡ none) ↔ LetsPass rs
unfolding check
check_iff [] = (λ h. tt, λ h. refl)
check_iff ((k, some e) ∷ rs) = (λ h. cc, λ h. cc h.0)
check_iff ((true, none) ∷ rs) =
    let (to, from) = check_iff rs in
    (λ h. (refl, inr (to h)), λ h. elim h.1 [ inl e ↦ cc | inr r ↦ from r ])
check_iff ((false, none) ∷ rs) = (λ h. (refl, inl refl), λ h. refl)

-- The values that `isvalid.Check` is given: nil, or the result of `IsValid`.
abbrev pub Validity : Type 0
Validity = Option (Option Error)

abbrev pub value : Option Error → Validity
value e = some e

-- `InvalidError.Wrap(err)` is the kind `invalid`.
unfoldable pub check_valid : Bool → List Validity → Option Error
check_valid allow_nil [] = none
check_valid allow_nil (none ∷ vs) = if allow_nil then none else some invalid
check_valid allow_nil (some (some e) ∷ vs) = some invalid
check_valid allow_nil (some none ∷ vs) = check_valid allow_nil vs

-- `isvalid.CheckFunc`, on the results of the functions (`none` for a nil function).
unfoldable pub check_func : List Validity → Option Error
check_func [] = none
check_func (none ∷ fs) = some invalid
check_func (some (some e) ∷ fs) = some invalid
check_func (some none ∷ fs) = check_func fs

-- Every value is there and valid.
abbrev pub AllValid : List Validity → Type 0
AllValid [] = Unit {0}
AllValid (v ∷ vs) = (v ≡ some none) × AllValid vs

-- The values in front of the first nil are valid.
abbrev pub ValidToNil : List Validity → Type 0
ValidToNil [] = Unit {0}
ValidToNil (none ∷ vs) = Unit {0}
ValidToNil (some e ∷ vs) = (e ≡ none) × ValidToNil vs

-- Without leave for nil, `isvalid.Check` and `isvalid.CheckFunc` pass exactly the lists of which
-- every value is there and valid; with it, `isvalid.Check` looks no further than the first nil.
pub check_valid_iff :
    (vs : List Validity)
    → ((check_valid false vs ≡ none) ↔ AllValid vs)
      × ((check_func vs ≡ none) ↔ AllValid vs)
      × ((check_valid true vs ≡ none) ↔ ValidToNil vs)
unfolding check_valid check_func
check_valid_iff [] = ((λ h. tt, λ h. refl), (λ h. tt, λ h. refl), (λ h. tt, λ h. refl))
check_valid_iff (none ∷ vs) = ((λ h. cc, λ h. cc h.0), (λ h. cc, λ h. cc h.0), (λ h. tt, λ h. refl))
check_valid_iff (some (some e) ∷ vs) =
    ((λ h. cc, λ h. cc h.0), (λ h. cc, λ h. cc h.0), (λ h. cc, λ h. cc h.0))
check_valid_iff (some none ∷ vs) =
    let (a, b, c) = check_valid_iff vs in
    (
      (λ h. (refl, a.0 h), λ h. a.1 h.1),
      (λ h. (refl, b.0 h), λ h. b.1 h.1),
      (λ h. (refl, c.0 h), λ h. c.1 h.1),
    )
