-- ===== src/Base/State.antt =====
-- base/state.go: the state of a node, a `uint8`, and its text.
use mitum.Common.{ℕ, zero, suc, String, ◌≡◌, refl, Option, none, some, ite, string_discrete}
use mitum.Common.Errors.{Error, Result, ok, err, invalid, failed}

abbrev pub State : Type 0
State = ℕ

abbrev pub state_empty : State
state_empty = 0

abbrev pub state_stopped : State
state_stopped = 1

abbrev pub state_booting : State
state_booting = 2

abbrev pub state_joining : State
state_joining = 3

abbrev pub state_consensus : State
state_consensus = 4

abbrev pub state_syncing : State
state_syncing = 5

abbrev pub state_broken : State
state_broken = 6

abbrev pub state_handover : State
state_handover = 7

-- The texts in the order of the numbers; `String` of any other number is "<unknown State>".
unfoldable pub string : State → String
string zero = "EMPTY"
string (suc zero) = "STOPPED"
string (suc (suc zero)) = "BOOTING"
string (suc (suc (suc zero))) = "JOINING"
string (suc (suc (suc (suc zero)))) = "CONSENSUS"
string (suc (suc (suc (suc (suc zero))))) = "SYNCING"
string (suc (suc (suc (suc (suc (suc zero)))))) = "BROKEN"
string (suc (suc (suc (suc (suc (suc (suc zero))))))) = "HANDOVER"
string (suc (suc (suc (suc (suc (suc (suc (suc n)))))))) = "<unknown State>"

unfoldable pub state_from_string : String → Result State
state_from_string s = ite (string_discrete s "STOPPED") (ok state_stopped) (
    ite (string_discrete s "BOOTING") (ok state_booting) (
      ite (string_discrete s "JOINING") (ok state_joining) (
        ite (string_discrete s "CONSENSUS") (ok state_consensus) (
          ite (string_discrete s "SYNCING") (ok state_syncing) (
            ite (string_discrete s "BROKEN") (ok state_broken)
              (ite (string_discrete s "HANDOVER") (ok state_handover) (err failed)))))))

unfoldable pub is_valid : State → Option Error
is_valid zero = some invalid
is_valid (suc zero) = none
is_valid (suc (suc zero)) = none
is_valid (suc (suc (suc zero))) = none
is_valid (suc (suc (suc (suc zero)))) = none
is_valid (suc (suc (suc (suc (suc zero))))) = none
is_valid (suc (suc (suc (suc (suc (suc zero)))))) = none
is_valid (suc (suc (suc (suc (suc (suc (suc zero))))))) = none
is_valid (suc (suc (suc (suc (suc (suc (suc (suc n)))))))) = some invalid

-- `UnmarshalText` of what `MarshalText` gives is the state if it is valid, and fails if it is not.
pub state_from_string-string :
    (st : State)
    → state_from_string (string st) ≡ (elim (is_valid st) [ none ↦ ok st | some _ ↦ err failed ])
unfolding string is_valid state_from_string string_discrete
state_from_string-string zero = refl
state_from_string-string (suc zero) = refl
state_from_string-string (suc (suc zero)) = refl
state_from_string-string (suc (suc (suc zero))) = refl
state_from_string-string (suc (suc (suc (suc zero)))) = refl
state_from_string-string (suc (suc (suc (suc (suc zero))))) = refl
state_from_string-string (suc (suc (suc (suc (suc (suc zero)))))) = refl
state_from_string-string (suc (suc (suc (suc (suc (suc (suc zero))))))) = refl
state_from_string-string (suc (suc (suc (suc (suc (suc (suc (suc n)))))))) = refl
