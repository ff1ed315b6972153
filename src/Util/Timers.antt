-- ===== src/Util/Timers.antt =====
-- util/localtime/timers.go: timers by their ids, some of which run. The timers that a call handles at
-- once in goroutines are handled one after the other.
pub mod Callbacks
pub mod Others
pub mod Started
use mitum.Common.{
  ℕ, String, Bool, true, false, List, [], ◌∷◌, ◌++◌, Option, none, some, not, ◌||◌, if◌then◌else◌,
  string_discrete, ite,
}
use mitum.Common.Dict.{Dict, find, put}
use mitum.Common.Errors.{Error, failed}

abbrev pub TimerId : Type 0
TimerId = String

-- The interface `Timer`, without the setting of its interval.
pub record TimerOps : Type 1 where
  pub Timer : Type 0
  pub id : Timer → TimerId
  pub is_started : Timer → Bool
  pub start : Timer → Timer × Option Error
  pub stop : Timer → Timer × Option Error
  pub reset : Timer → Timer × Option Error

-- `Timers`; an id may stand for no timer (nil). In `released` the model keeps the timers that calls
-- have taken out of the map, as they left them: the source hands them to nobody.
pub record Timers (Timer : Type 0) : Type 0 where
  pub timers : Dict TimerId (Option Timer)
  pub allow_new : Bool
  pub released : List Timer

unfoldable pub has_id : TimerId → List TimerId → Bool
has_id i [] = false
has_id i (j ∷ ids) = let rest = has_id i ids in ite (string_discrete j i) true rest

module _ {Timer : Type 0} where
  -- `nil` for each of the ids.
  unfoldable pub clear : List TimerId → Dict TimerId (Option Timer) → Dict TimerId (Option Timer)
  clear [] m = m
  clear (i ∷ ids) m = clear ids (put string_discrete i none m)

  -- `NewTimers`.
  unfoldable pub new_timers : List TimerId → Bool → Timers Timer
  unfolding clear
  new_timers ids allow_new = record { timers = clear ids []; allow_new = allow_new; released = [] }

  -- `checkExists`.
  unfoldable pub check_exists : List TimerId → Dict TimerId (Option Timer) → Option Error
  check_exists [] m = none
  check_exists (i ∷ ids) m = elim (find string_discrete i m) [
    | none ↦ some failed
    | some _ ↦ check_exists ids m
  ]

  -- A callback of `traverse` on one id.
  unfoldable pub apply_to :
      (Timer → Timer) → TimerId → Dict TimerId (Option Timer) → Dict TimerId (Option Timer)
  apply_to f i m = elim (find string_discrete i m) [
    | none ↦ m
    | some none ↦ m
    | some (some t) ↦ put string_discrete i (some (f t)) m
  ]

  unfoldable pub apply_all :
      (Timer → Timer) → List TimerId → Dict TimerId (Option Timer) → Dict TimerId (Option Timer)
  unfolding apply_to
  apply_all f [] m = m
  apply_all f (i ∷ ids) m = apply_all f ids (apply_to f i m)

  -- `traverse`.
  unfoldable pub traverse :
      (Timer → Timer)
      → List TimerId
      → Dict TimerId (Option Timer)
      → Option Error × Dict TimerId (Option Timer)
  unfolding check_exists apply_all
  traverse f ids m = elim (check_exists ids m) [
    | some e ↦ (some e, m)
    | none ↦ (none, apply_all f ids m)
  ]

  -- The timers that stand behind some ids.
  unfoldable pub timers_of : List TimerId → Dict TimerId (Option Timer) → List Timer
  timers_of [] m = []
  timers_of (i ∷ ids) m =
      let rest = timers_of ids m in
      elim (find string_discrete i m) [ none ↦ rest | some none ↦ rest | some (some t) ↦ t ∷ rest ]

  -- The ids that are not to be started.
  unfoldable pub other_ids : List TimerId → Dict TimerId (Option Timer) → List TimerId
  unfolding has_id
  other_ids ids [] = []
  other_ids ids ((i, t) ∷ m) = let rest = other_ids ids m in if has_id i ids then rest else i ∷ rest

module _ (ops : TimerOps) where
  open ops use {Timer, id, is_started, start, stop, reset}

  -- The callbacks of `StartTimers` and `stopTimers`: an error of a timer is only logged.
  unfoldable pub start_one : Timer → Timer
  start_one t = if is_started t then t else (start t).0

  unfoldable pub stop_one : Timer → Timer
  stop_one t = if is_started t then (stop t).0 else t

  -- `stopTimers`, and `StopTimers`.
  unfoldable pub stop_timers : List TimerId → Timers Timer → Option Error × Timers Timer
  unfolding traverse stop_one clear timers_of
  stop_timers ids ts =
      let (e, m) = traverse stop_one ids ts.timers in
      elim e [
        | some x ↦ (some x, record ts { timers = m })
        | none ↦
            (none, record ts { timers = clear ids m; released = timers_of ids m ++ ts.released })
      ]

  -- The part of `StartTimers` that starts.
  unfoldable pub start_given : List TimerId → Timers Timer → Option Error × Timers Timer
  unfolding traverse start_one
  start_given ids ts =
      let (e, m) = traverse start_one ids ts.timers in (e, record ts { timers = m })

  unfoldable pub start_behind :
      List TimerId → Option Error × Timers Timer → Option Error × Timers Timer
  unfolding start_given
  start_behind ids (some e, ts) = (some e, ts)
  start_behind ids (none, ts) = start_given ids ts

  -- `StartTimers`; without an id to stop, nothing is stopped.
  unfoldable pub start_timers : List TimerId → Bool → Timers Timer → Option Error × Timers Timer
  unfolding start_given start_behind stop_timers other_ids
  start_timers ids false ts = start_given ids ts
  start_timers ids true ts = start_behind ids (stop_timers (other_ids ids ts.timers) ts)

  -- `StopTimersAll`.
  unfoldable pub stop_timers_all : Timers Timer → Option Error × Timers Timer
  unfolding stop_timers other_ids
  stop_timers_all ts = stop_timers (other_ids [] ts.timers) ts

  -- `Stop`: all timers are stopped, and dropped with their ids; an error of a timer is only logged.
  unfoldable pub stop_each : Dict TimerId (Option Timer) → List Timer
  stop_each [] = []
  stop_each ((i, none) ∷ m) = stop_each m
  stop_each ((i, some t) ∷ m) = (stop t).0 ∷ stop_each m

  unfoldable pub stop_all : Timers Timer → Timers Timer
  unfolding stop_each
  stop_all ts = record ts { timers = []; released = stop_each ts.timers ++ ts.released }

  -- `ResetTimer`.
  unfoldable pub reset_timer : TimerId → Timers Timer → Option Error × Timers Timer
  reset_timer i ts = elim (find string_discrete i ts.timers) [
    | none ↦ (some failed, ts)
    | some none ↦ (some failed, ts)
    | some (some t) ↦
        let (t', e) = reset t in
        (e, record ts { timers = put string_discrete i (some t') ts.timers })
  ]

  -- The end of `SetTimer`, which puts the timer in the place of others.
  unfoldable pub write_timer : Timer → List Timer → Timers Timer → Timers Timer
  write_timer t olds ts = record ts {
    timers = put string_discrete (id t) (some t) ts.timers;
    released = olds ++ ts.released;
  }

  -- `SetTimer`, for a timer that is not nil: one with its id that runs is stopped first. Where that
  -- fails, the old timer stays, as `Stop` left it.
  unfoldable pub set_timer : Timer → Timers Timer → Option Error × Timers Timer
  unfolding write_timer
  set_timer t ts = elim (find string_discrete (id t) ts.timers) [
    | none ↦ if ts.allow_new then (none, write_timer t [] ts) else (some failed, ts)
    | some none ↦ (none, write_timer t [] ts)
    | some (some old) ↦
        let stopped : Option Error × Timers Timer = elim (stop old).1 [
          | some e ↦ (
            some e,
            record ts { timers = put string_discrete (id t) (some (stop old).0) ts.timers },
          )
          | none ↦ (none, write_timer t ((stop old).0 ∷ []) ts)
        ] in
        if is_started old then stopped else (none, write_timer t (old ∷ []) ts)
  ]

  -- `IsTimerStarted`.
  unfoldable pub is_timer_started : TimerId → Timers Timer → Bool
  is_timer_started i ts = elim (find string_discrete i ts.timers) [
    | none ↦ false
    | some none ↦ false
    | some (some t) ↦ is_started t
  ]

  -- `Started`.
  unfoldable pub started_in : Dict TimerId (Option Timer) → List TimerId
  started_in [] = []
  started_in ((i, none) ∷ m) = started_in m
  started_in ((i, some t) ∷ m) = let rest = started_in m in if is_started t then i ∷ rest else rest
