-- ===== src/Util/TimersTests.antt =====
-- The theorem on timers at a concrete input.
use mitum.Common.{
  ◌≡◌, refl, Bool, true, false, List, [], ◌∷◌, ◌++◌, length, All, not, none, some, ◌&&◌,
  string_discrete,
}
use mitum.Common.Dict.{find, put}
use mitum.Util.Timers.{
  TimerId, TimerOps, Timers, has_id, clear, timers_of, other_ids, write_timer, check_exists,
  new_timers, set_timer, start_timers, is_timer_started,
}
use mitum.Util.Timers.Callbacks.{has_timer}
use mitum.Util.Timers.Started.{start_timers_lem}

abbrev switches : TimerOps
switches = record {
  Timer = TimerId × Bool;
  id = λ t. t.0;
  is_started = λ t. t.1;
  start = λ t. ((t.0, true), none);
  stop = λ t. ((t.0, false), none);
  reset = λ t. (t, none);
}

-- One timer that runs, one that does not, and an id without a timer.
abbrev three_timers : Timers (TimerId × Bool)
three_timers = record {
  timers = ("a", some ("a", true)) ∷ ("b", some ("b", false)) ∷ ("c", none) ∷ [];
  allow_new = false;
  released = [];
}

set_timer_runs :
    (set_timer switches
      ("a", true)
      (set_timer switches ("a", false) (new_timers ("a" ∷ []) false)).1).1
    ≡ record {
      timers = ("a", some ("a", true)) ∷ [];
      allow_new = false;
      released = ("a", false) ∷ [];
    }
unfolding string_discrete set_timer write_timer new_timers find put clear
set_timer_runs = refl

start_timers_lem_example :
    ((start_timers switches ("b" ∷ "c" ∷ []) true three_timers).0 ≡ none)
    × ((k : TimerId)
        → is_timer_started switches k (start_timers switches ("b" ∷ "c" ∷ []) true three_timers).1
          ≡ has_id k ("b" ∷ "c" ∷ []) && has_timer (λ t. true) k three_timers.timers)
    × ((gone : List (TimerId × Bool)) × ((start_timers switches
            ("b" ∷ "c" ∷ [])
            true
            three_timers).1.released
          ≡ gone ++ [])
        × (length gone
            ≡ length
                (timers_of (other_ids ("b" ∷ "c" ∷ []) three_timers.timers) three_timers.timers))
        × All (λ t. not t.1 ≡ true) gone)
unfolding string_discrete check_exists find
start_timers_lem_example =
    start_timers_lem switches (λ t. refl) (λ t. refl) ("b" ∷ "c" ∷ []) three_timers refl
