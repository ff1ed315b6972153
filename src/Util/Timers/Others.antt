-- ===== src/Util/Timers/Others.antt =====
-- The timers of other ids than those that are started: they are stopped and let go.
use native.Mathlib.Omega.{arith}
use mitum.Common.{
  ◌≡◌, refl, ap, ◌∙◌, Bool, true, false, List, [], ◌∷◌, Option, none, some, not, ◌&&◌,
  if◌then◌else◌, string_discrete, All, length, Bool-cases, inl, inr,
}
use mitum.Common.Dict.{Dict, find}
use mitum.Util.Timers.{
  TimerId, has_id, clear, timers_of, check_exists, apply_all, traverse, other_ids,
}
use mitum.Util.Timers.Callbacks.{known, holds, knows_id, has_timer, find-clear, find-apply_all}

has_id_self : (i : TimerId) (ids : List TimerId) → has_id i (i ∷ ids) ≡ true
unfolding has_id
has_id_self i ids = ground arith

module _ {Timer : Type 0} where
  has_id-other_ids :
      (k : TimerId) (ids : List TimerId) (m : Dict TimerId (Option Timer))
      → has_id k (other_ids ids m) ≡ not (has_id k ids) && knows_id k m
  unfolding other_ids has_id knows_id known find
  has_id-other_ids k ids [] = ground arith
  has_id-other_ids k ids ((i, t) ∷ m) = ground (arith, has_id-other_ids k ids m)

  check_exists_of_known :
      (ids : List TimerId) (m : Dict TimerId (Option Timer))
      → ((k : TimerId) → has_id k ids ≡ true → knows_id k m ≡ true)
      → check_exists ids m ≡ none
  unfolding check_exists has_id knows_id known
  check_exists_of_known [] m h = refl
  check_exists_of_known (i ∷ ids) m h =
      grind (arith, h i, check_exists_of_known ids m (λ k e. h k (ground (arith, e))))

  known_of_check_exists :
      (ids : List TimerId) (m : Dict TimerId (Option Timer))
      → check_exists ids m ≡ none
      → (k : TimerId) → has_id k ids ≡ true
      → knows_id k m ≡ true
  unfolding check_exists has_id knows_id known
  known_of_check_exists [] m h k e = cc
  known_of_check_exists (i ∷ ids) m h k e = grind (arith, h, e, known_of_check_exists ids m)

  holds_of_unknown :
      (p : Timer → Bool) (x : Option (Option Timer)) → known x ≡ false → holds p x ≡ false
  unfolding known holds
  holds_of_unknown p none h = refl
  holds_of_unknown p (some none) h = refl
  holds_of_unknown p (some (some t)) h = cc

  -- The others all are known.
  pub check_exists-other_ids :
      (ids : List TimerId) (m : Dict TimerId (Option Timer))
      → check_exists (other_ids ids m) m ≡ none
  check_exists-other_ids ids m =
      check_exists_of_known (other_ids ids m) m (λ k e. grind (arith, has_id-other_ids k ids m, e))

  -- What holds of the timers behind the ids holds of all that are listed.
  pub All-timers_of :
      (p : Timer → Bool) (ids : List TimerId) (m : Dict TimerId (Option Timer))
      → ((k : TimerId) (t : Timer)
          → has_id k ids ≡ true
          → find string_discrete k m ≡ some (some t)
          → p t ≡ true)
      → All (λ t. p t ≡ true) (timers_of ids m)
  unfolding timers_of has_id
  All-timers_of p [] m h = tt
  All-timers_of p (i ∷ ids) m h =
      let rest = All-timers_of p ids m (λ k t e f. h k t (ground (arith, e)) f) in
      elim (find string_discrete i m)
          as (λ x.
            find string_discrete i m ≡ x
            → All (λ t. p t ≡ true)
                (elim x as (λ _. List Timer) [
                  | none ↦ timers_of ids m
                  | some none ↦ timers_of ids m
                  | some (some t) ↦ t ∷ timers_of ids m
                ])) [
                  | none ↦ λ e. rest
                  | some none ↦ λ e. rest
                  | some (some t) ↦ λ e. (h i t (has_id_self i ids) e, rest)
                ]
        refl

  -- The list with the timer that stands behind an id in front, if there is one.
  abbrev in_front : Option (Option Timer) → List Timer → List Timer
  in_front x l = elim x as (λ _. List Timer) [ none ↦ l | some none ↦ l | some (some t) ↦ t ∷ l ]

  same_length :
      (x y : Option (Option Timer)) (l l' : List Timer)
      → holds (λ t. true) x ≡ holds (λ t. true) y
      → length l ≡ length l'
      → length (in_front x l) ≡ length (in_front y l')
  unfolding holds
  same_length none none l l' h e = e
  same_length none (some none) l l' h e = e
  same_length none (some (some t)) l l' h e = cc
  same_length (some none) none l l' h e = e
  same_length (some none) (some none) l l' h e = e
  same_length (some none) (some (some t)) l l' h e = cc
  same_length (some (some t)) none l l' h e = cc
  same_length (some (some t)) (some none) l l' h e = cc
  same_length (some (some t)) (some (some u)) l l' h e = omega (arith, e)

  -- As many timers are listed as there are ids with one.
  pub length-timers_of :
      (ids : List TimerId) (m m' : Dict TimerId (Option Timer))
      → ((k : TimerId)
          → has_id k ids ≡ true
          → has_timer (λ t. true) k m ≡ has_timer (λ t. true) k m')
      → length (timers_of ids m) ≡ length (timers_of ids m')
  unfolding timers_of has_id has_timer holds
  length-timers_of [] m m' h = refl
  length-timers_of (i ∷ ids) m m' h =
      let rest = length-timers_of ids m m' (λ k e. h k (ground (arith, e))) in
      same_length (find string_discrete i m) (find string_discrete i m') (timers_of ids m)
        (timers_of ids m') (h i (has_id_self i ids)) rest

  -- The map between the stop of the others and the start.
  module _ (f : Timer → Timer) (ids : List TimerId) (m : Dict TimerId (Option Timer)) where
    unfoldable pub others_stopped : Dict TimerId (Option Timer)
    others_stopped = clear (other_ids ids m) (apply_all f (other_ids ids m) m)

    pub find-others_stopped :
        (k : TimerId)
        → has_id k ids ≡ true
        → find string_discrete k others_stopped ≡ find string_discrete k m
    unfolding others_stopped
    find-others_stopped k h =
        let unlisted : has_id k (other_ids ids m) ≡ false =
          ground (arith, has_id-other_ids k ids m, h) in
        find-clear k (other_ids ids m) (apply_all f (other_ids ids m) m)
        ∙ ap
            (λ b. if b then some none else find string_discrete k (apply_all f (other_ids ids m) m))
            unlisted
        ∙ find-apply_all f (other_ids ids m) k m unlisted

    pub holds-others_stopped :
        (p : Timer → Bool) (k : TimerId)
        → has_id k ids ≡ false
        → has_timer p k others_stopped ≡ false
    unfolding others_stopped has_timer holds knows_id
    holds-others_stopped p k h = elim (Bool-cases (has_id k (other_ids ids m))) [
      | inl listed ↦ ap (holds p) (
          find-clear k (other_ids ids m) (apply_all f (other_ids ids m) m)
          ∙ ap
              (λ b.
                if b then some none else find string_discrete k (apply_all f (other_ids ids m) m))
              listed)
      | inr unlisted ↦
          let unknown : knows_id k m ≡ false =
            ground (arith, has_id-other_ids k ids m, h, unlisted) in
          ap (holds p) (
            find-clear k (other_ids ids m) (apply_all f (other_ids ids m) m)
            ∙ ap
                (λ b.
                  if b then some none else find string_discrete k (apply_all f (other_ids ids m) m))
                unlisted
            ∙ find-apply_all f (other_ids ids m) k m unlisted)
          ∙ holds_of_unknown p (find string_discrete k m) unknown
    ]

    pub check_exists-others_stopped :
        check_exists ids m ≡ none → check_exists ids others_stopped ≡ none
    unfolding knows_id
    check_exists-others_stopped h =
        check_exists_of_known ids others_stopped
          (λ k e. ap known (find-others_stopped k e) ∙ known_of_check_exists ids m h k e)

  pub traverse_ok :
      (f : Timer → Timer) (ids : List TimerId) (m : Dict TimerId (Option Timer))
      → check_exists ids m ≡ none
      → traverse f ids m ≡ (none, apply_all f ids m)
  unfolding traverse
  traverse_ok f ids m h = rw (h, traverse) refl
