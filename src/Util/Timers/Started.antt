-- ===== src/Util/Timers/Started.antt =====
-- util/localtime/timers.go: which timers run after `StartTimers`.
use native.Mathlib.Omega.{arith}
use mathlib.Core.Path.{sym}
use mitum.Common.{
  ◌≡◌, refl, ap, ◌∙◌, true, false, List, ◌++◌, Option, none, some, not, ◌&&◌, string_discrete, All,
  length, Bool-cases, inl, inr,
}
use mitum.Common.Dict.{Dict, find}
use mitum.Common.Errors.{Error}
use mitum.Util.Timers.{
  TimerId, TimerOps, Timers, has_id, clear, timers_of, check_exists, apply_all, other_ids,
  start_one, stop_one, stop_timers, start_given, start_behind, start_timers, is_timer_started,
}
use mitum.Util.Timers.Callbacks.{holds, has_timer, find-apply_all, has_timer-apply_all}
use mitum.Util.Timers.Others.{
  check_exists-other_ids, All-timers_of, length-timers_of, others_stopped, find-others_stopped,
  holds-others_stopped, check_exists-others_stopped, traverse_ok,
}

module _ (ops : TimerOps) where
  open ops use {Timer, is_started, start, stop}

  start_one-is_started :
      ((t : Timer) → is_started (start t).0 ≡ true)
      → (t : Timer) → is_started (start_one ops t) ≡ true
  unfolding start_one
  start_one-is_started law t = ground (arith, law t)

  -- The timers of the others as they are let go, and what is left then.
  abbrev pub let_go : List TimerId → Timers Timer → List Timer
  let_go ids ts =
      timers_of (other_ids ids ts.timers)
        (apply_all (stop_one ops) (other_ids ids ts.timers) ts.timers)

  abbrev after_stop : List TimerId → Timers Timer → Timers Timer
  after_stop ids ts = record ts {
    timers = others_stopped (stop_one ops) ids ts.timers;
    released = let_go ids ts ++ ts.released;
  }

  -- The others all are known, so that they are stopped and dropped without an error.
  stop_timers-others_stopped :
      (ids : List TimerId) (ts : Timers Timer)
      → stop_timers ops (other_ids ids ts.timers) ts ≡ (none, after_stop ids ts)
  unfolding stop_timers others_stopped
  stop_timers-others_stopped ids ts =
      ap
        (λ r. elim r.0 as (λ _. Option Error × Timers Timer) [
          | some x ↦ (some x, record ts { timers = r.1 })
          | none ↦ (
            none,
            record ts {
              timers = clear (other_ids ids ts.timers) r.1;
              released = timers_of (other_ids ids ts.timers) r.1 ++ ts.released;
            },
          )
        ])
        (traverse_ok (stop_one ops) (other_ids ids ts.timers) ts.timers
          (check_exists-other_ids ids ts.timers))

  start_given_ok :
      (ids : List TimerId) (ts : Timers Timer)
      → check_exists ids ts.timers ≡ none
      → start_given ops ids ts
        ≡ (none, record ts { timers = apply_all (start_one ops) ids ts.timers })
  unfolding start_given
  start_given_ok ids ts h = rw (traverse_ok (start_one ops) ids ts.timers h, start_given) refl

  start_timers_ok :
      (ids : List TimerId) (ts : Timers Timer)
      → check_exists ids ts.timers ≡ none
      → start_timers ops ids true ts ≡ (
        none,
        record (after_stop ids ts) {
          timers = apply_all (start_one ops) ids (others_stopped (stop_one ops) ids ts.timers);
        },
      )
  unfolding start_timers start_behind
  start_timers_ok ids ts h =
      ap (start_behind ops ids) (stop_timers-others_stopped ids ts)
      ∙ start_given_ok ids (after_stop ids ts)
          (check_exists-others_stopped (stop_one ops) ids ts.timers h)

  is_timer_started-holds :
      (k : TimerId) (ts : Timers Timer)
      → is_timer_started ops k ts ≡ has_timer is_started k ts.timers
  unfolding is_timer_started has_timer holds
  is_timer_started-holds k ts =
      elim (find string_discrete k ts.timers)
        as (λ x.
          elim x [ none ↦ false | some none ↦ false | some (some t) ↦ is_started t ]
          ≡ holds is_started x) [ none ↦ refl | some none ↦ refl | some (some t) ↦ refl ]

  runs_of_ids :
      ((t : Timer) → is_started (start t).0 ≡ true)
      → (ids : List TimerId) (m : Dict TimerId (Option Timer)) (k : TimerId)
      → has_timer is_started k (apply_all (start_one ops) ids (others_stopped (stop_one ops) ids m))
        ≡ has_id k ids && has_timer (λ t. true) k m
  unfolding has_timer
  runs_of_ids law ids m k = elim (Bool-cases (has_id k ids)) [
    | inl listed ↦ ground (
      arith,
      listed,
      has_timer-apply_all is_started (start_one ops) (start_one-is_started law) ids k
          (others_stopped (stop_one ops) ids m) listed,
      find-others_stopped (stop_one ops) ids m k listed,
    )
    | inr out ↦ ground (
      arith,
      out,
      find-apply_all (start_one ops) ids k (others_stopped (stop_one ops) ids m) out,
      holds-others_stopped (stop_one ops) ids m is_started k out,
    )
  ]

  stop_one-is_started :
      ((t : Timer) → is_started (stop t).0 ≡ false)
      → (t : Timer) → not (is_started (stop_one ops t)) ≡ true
  unfolding stop_one
  stop_one-is_started law t = ground (arith, law t)

  -- The timers of the others are all there, and none of them runs.
  let_go-stopped :
      ((t : Timer) → is_started (stop t).0 ≡ false)
      → (ids : List TimerId) (ts : Timers Timer)
      → All (λ t. not (is_started t) ≡ true) (let_go ids ts)
  unfolding has_timer holds
  let_go-stopped law ids ts =
      let others = other_ids ids ts.timers in
      All-timers_of (λ t. not (is_started t)) others (apply_all (stop_one ops) others ts.timers)
        (λ k t listed there.
          let idle =
            has_timer-apply_all (λ t. not (is_started t)) (stop_one ops) (stop_one-is_started law)
              others k ts.timers listed in
          let set =
            has_timer-apply_all (λ t. true) (stop_one ops) (λ t. refl) others k ts.timers listed in
          ap (holds (λ t. not (is_started t))) (sym there)
          ∙ idle
          ∙ sym set
          ∙ ap (holds (λ t. true)) there)

  length-let_go :
      (ids : List TimerId) (ts : Timers Timer)
      → length (let_go ids ts) ≡ length (timers_of (other_ids ids ts.timers) ts.timers)
  length-let_go ids ts =
      let others = other_ids ids ts.timers in
      length-timers_of others (apply_all (stop_one ops) others ts.timers) ts.timers (λ k listed.
        has_timer-apply_all (λ t. true) (stop_one ops) (λ t. refl) others k ts.timers listed)

  -- With timers that run once they were started and do not once they were stopped, `StartTimers` that
  -- stops the others succeeds for known ids. Then the timers that run in the map are those of the
  -- ids, and no other; and the timers that were taken out of it are as many as the other ids had, and
  -- none of them runs.
  pub start_timers_lem :
      ((t : Timer) → is_started (start t).0 ≡ true)
      → ((t : Timer) → is_started (stop t).0 ≡ false)
      → (ids : List TimerId) (ts : Timers Timer) → check_exists ids ts.timers ≡ none
      → ((start_timers ops ids true ts).0 ≡ none)
        × ((k : TimerId)
            → is_timer_started ops k (start_timers ops ids true ts).1
              ≡ has_id k ids && has_timer (λ t. true) k ts.timers)
        × ((gone : List Timer) × ((start_timers ops ids true ts).1.released ≡ gone ++ ts.released)
            × (length gone ≡ length (timers_of (other_ids ids ts.timers) ts.timers))
            × All (λ t. not (is_started t) ≡ true) gone)
  start_timers_lem starts stops ids ts h =
      let done = start_timers_ok ids ts h in
      (
        ap (λ r. r.0) done,
        (λ k.
            ap (λ r. is_timer_started ops k r.1) done
            ∙ is_timer_started-holds k (record (after_stop ids ts) {
              timers = apply_all (start_one ops) ids (others_stopped (stop_one ops) ids ts.timers);
            })
            ∙ runs_of_ids starts ids ts.timers k),
        (
          let_go ids ts,
          ap (λ r. r.1.released) done,
          length-let_go ids ts,
          let_go-stopped stops ids ts,
        ),
      )
