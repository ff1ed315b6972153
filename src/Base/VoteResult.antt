-- ===== src/Base/VoteResult.antt =====
-- base/vote.go: the result of a vote, a `uint8`, and its text.
use mitum.Common.{
  arith, ℕ, ◌<◌, zero, suc, String, ◌≡◌, refl, Option, none, some, ◌==◌, if◌then◌else◌,
  string_discrete, ite,
}
use mitum.Common.Errors.{Error, Result, ok, err, invalid, failed}

abbrev pub VoteResult : Type 0
VoteResult = ℕ

abbrev pub not_yet : VoteResult
not_yet = 0

abbrev pub draw : VoteResult
draw = 1

abbrev pub majority : VoteResult
majority = 2

unfoldable pub string : VoteResult → String
string vrt =
    if vrt == not_yet
    then "NOT-YET"
    else if vrt == draw
    then "DRAW"
    else if vrt == majority
    then "MAJORITY"
    else "<unknown VoteResultType>"

unfoldable pub is_valid : VoteResult → Option Error
is_valid vrt =
    if vrt == not_yet
    then none
    else if vrt == draw
    then none
    else if vrt == majority
    then none
    else some invalid

unfoldable pub unmarshal_text : String → Result VoteResult
unmarshal_text b = ite (string_discrete b "NOT-YET") (ok not_yet) (
    ite (string_discrete b "DRAW") (ok draw)
      (ite (string_discrete b "MAJORITY") (ok majority) (err failed)))

string_unknown : (n : ℕ) → 2 < n → string n ≡ "<unknown VoteResultType>"
unfolding string
string_unknown n h = ground arith

is_valid_unknown : (n : ℕ) → 2 < n → is_valid n ≡ some invalid
unfolding is_valid
is_valid_unknown n h = ground arith

-- Reading back the text of a result gives the result if it is valid, and fails if it is not.
pub unmarshal_text-string :
    (vrt : VoteResult)
    → unmarshal_text (string vrt) ≡ (elim (is_valid vrt) [ none ↦ ok vrt | some _ ↦ err failed ])
unfolding string is_valid unmarshal_text string_discrete
unmarshal_text-string zero = refl
unmarshal_text-string (suc zero) = refl
unmarshal_text-string (suc (suc zero)) = refl
unmarshal_text-string (suc (suc (suc n))) =
    rw
      (
        string_unknown (suc (suc (suc n))) (omega arith),
        is_valid_unknown (suc (suc (suc n))) (omega arith),
      )
      refl
