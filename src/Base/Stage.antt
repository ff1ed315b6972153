-- ===== src/Base/Stage.antt =====
-- base/votestage.go: the stage of a ballot, a `uint8` (any byte may come in from outside), and its
-- text.
use mitum.Common.{
  ℕ, ◌<◌, zero, suc, String, Bool, true, false, ◌≡◌, refl, Option, none, some, arith, ◌==◌,
  if◌then◌else◌, string_discrete, ite, ◌≢◌,
}
use mitum.Common.Errors.{Error, Result, ok, err, invalid, failed}

abbrev pub Stage : Type 0
Stage = ℕ

abbrev pub stage_init : Stage
stage_init = 1

abbrev pub stage_proposal : Stage
stage_proposal = 2

abbrev pub stage_accept : Stage
stage_accept = 3

unfoldable pub string : Stage → String
string st =
    if st == stage_init
    then "INIT"
    else if st == stage_proposal
    then "PROPOSAL"
    else if st == stage_accept
    then "ACCEPT"
    else "<unknown stage>"

unfoldable pub is_valid : Stage → Option Error
is_valid st =
    if st == stage_init
    then none
    else if st == stage_accept
    then none
    else if st == stage_proposal
    then none
    else some invalid

unfoldable pub unmarshal_text : String → Result Stage
unmarshal_text b = ite (string_discrete b "INIT") (ok stage_init) (
    ite (string_discrete b "PROPOSAL") (ok stage_proposal)
      (ite (string_discrete b "ACCEPT") (ok stage_accept) (err failed)))

unfoldable pub can_vote : Stage → Bool
can_vote st = if st == stage_init then true else if st == stage_accept then true else false

string_unknown : (n : ℕ) → 3 < n → string n ≡ "<unknown stage>"
unfolding string
string_unknown n h = ground arith

is_valid_unknown : (n : ℕ) → 3 < n → is_valid n ≡ some invalid
unfolding is_valid
is_valid_unknown n h = ground arith

-- Reading back the text of a stage gives the stage if it is valid, and fails if it is not.
pub unmarshal_text-string :
    (st : Stage)
    → unmarshal_text (string st) ≡ (elim (is_valid st) [ none ↦ ok st | some _ ↦ err failed ])
unfolding string is_valid unmarshal_text string_discrete
unmarshal_text-string zero = refl
unmarshal_text-string (suc zero) = refl
unmarshal_text-string (suc (suc zero)) = refl
unmarshal_text-string (suc (suc (suc zero))) = refl
unmarshal_text-string (suc (suc (suc (suc n)))) =
    rw
      (
        string_unknown (suc (suc (suc (suc n)))) (omega arith),
        is_valid_unknown (suc (suc (suc (suc n)))) (omega arith),
      )
      refl

-- A stage that can be voted on is valid, and is not the proposal's.
pub can_vote-is_valid :
    (st : Stage) → can_vote st ≡ true → (is_valid st ≡ none) × (st ≢ stage_proposal)
unfolding can_vote is_valid
can_vote-is_valid st h = ground arith
