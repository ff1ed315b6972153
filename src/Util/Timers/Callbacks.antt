-- ===== src/Util/Timers/Callbacks.antt =====
-- What a callback of `traverse` does to the timers of a map.
use native.Mathlib.Omega.{arith}
use mathlib.Core.Path.{subst}
use mitum.Common.{
  ◌≡◌, refl, ap, ◌∙◌, Bool, true, false, List, [], ◌∷◌, Option, none, some, if◌then◌else◌,
  string_discrete, ite, ◌≢◌, Bool-cases, inl, inr,
}
use mitum.Common.Dict.{Dict, find, put, find-put, find-put_ne, find-put_self}
use mitum.Util.Timers.{TimerId, has_id, clear, apply_to, apply_all}

module _ {Timer : Type 0} where
  -- What a map holds for an id: nothing, nil or a timer.
  unfoldable pub known : Option (Option Timer) → Bool
  known none = false
  known (some _) = true

  unfoldable pub holds : (Timer → Bool) → Option (Option Timer) → Bool
  holds p none = false
  holds p (some none) = false
  holds p (some (some t)) = p t

  unfoldable over : (Timer → Timer) → Option (Option Timer) → Option (Option Timer)
  over f none = none
  over f (some none) = some none
  over f (some (some t)) = some (some (f t))

  known-over : (f : Timer → Timer) (x : Option (Option Timer)) → known (over f x) ≡ known x
  unfolding known over
  known-over f none = refl
  known-over f (some none) = refl
  known-over f (some (some t)) = refl

  holds-over :
      (p q : Timer → Bool) (f : Timer → Timer)
      → ((t : Timer) → p (f t) ≡ q t)
      → (x : Option (Option Timer)) → holds p (over f x) ≡ holds q x
  unfolding holds over
  holds-over p q f h none = refl
  holds-over p q f h (some none) = refl
  holds-over p q f h (some (some t)) = h t

  -- The id is known, with a timer or with nil.
  unfoldable pub knows_id : TimerId → Dict TimerId (Option Timer) → Bool
  knows_id k m = known (find string_discrete k m)

  -- The id has a timer of which `p` holds.
  unfoldable pub has_timer : (Timer → Bool) → TimerId → Dict TimerId (Option Timer) → Bool
  has_timer p k m = holds p (find string_discrete k m)

  pub find-clear :
      (k : TimerId) (ids : List TimerId) (m : Dict TimerId (Option Timer))
      → find string_discrete k (clear ids m)
        ≡ (if has_id k ids then some none else find string_discrete k m)
  unfolding clear has_id
  find-clear k [] m = refl
  find-clear k (i ∷ ids) m =
      ground (
        arith,
        find-clear k ids (put string_discrete i none m),
        find-put string_discrete i k none m,
      )

  -- A callback on one id keeps which ids are known, and the timers of the others.
  find-apply_to_ne :
      (f : Timer → Timer) (i k : TimerId) (m : Dict TimerId (Option Timer))
      → i ≢ k
      → find string_discrete k (apply_to f i m) ≡ find string_discrete k m
  unfolding apply_to
  find-apply_to_ne f i k m h =
      elim (find string_discrete i m)
        as (λ x.
          find string_discrete k (elim x [
            | none ↦ m
            | some none ↦ m
            | some (some t) ↦ put string_discrete i (some (f t)) m
          ])
          ≡ find string_discrete k m) [
            | none ↦ refl
            | some none ↦ refl
            | some (some t) ↦ find-put_ne string_discrete (some (f t)) m h
          ]

  find-apply_to_self :
      (f : Timer → Timer) (i : TimerId) (m : Dict TimerId (Option Timer))
      (x : Option (Option Timer))
      → find string_discrete i m ≡ x
      → find string_discrete i (elim x [
        | none ↦ m
        | some none ↦ m
        | some (some t) ↦ put string_discrete i (some (f t)) m
      ])
        ≡ over f x
  unfolding over
  find-apply_to_self f i m none e = e
  find-apply_to_self f i m (some none) e = e
  find-apply_to_self f i m (some (some t)) e = find-put_self string_discrete i (some (f t)) m

  find-apply_to :
      (f : Timer → Timer) {i k : TimerId} (m : Dict TimerId (Option Timer))
      → i ≡ k
      → find string_discrete k (apply_to f i m) ≡ over f (find string_discrete k m)
  unfolding apply_to
  find-apply_to f {i} {k} m e =
      subst (λ j. find string_discrete j (apply_to f i m) ≡ over f (find string_discrete j m)) e
        (find-apply_to_self f i m (find string_discrete i m) refl)

  pub find-apply_all :
      (f : Timer → Timer) (ids : List TimerId) (k : TimerId) (m : Dict TimerId (Option Timer))
      → has_id k ids ≡ false
      → find string_discrete k (apply_all f ids m) ≡ find string_discrete k m
  unfolding apply_all has_id
  find-apply_all f [] k m h = refl
  find-apply_all f (i ∷ ids) k m h =
      elim (string_discrete i k)
          as (λ b.
            ite b true (has_id k ids) ≡ false
            → find string_discrete k (apply_all f ids (apply_to f i m))
              ≡ find string_discrete k m) [
                | yes p ↦ λ e. cc
                | no n ↦ λ e. find-apply_all f ids k (apply_to f i m) e ∙ find-apply_to_ne f i k m n
              ]
        h

  -- A callback on some ids keeps which ids are known.
  knows_id-apply_to :
      (f : Timer → Timer) (i k : TimerId) (m : Dict TimerId (Option Timer))
      → knows_id k (apply_to f i m) ≡ knows_id k m
  unfolding knows_id
  knows_id-apply_to f i k m = elim (string_discrete i k) [
    | yes p ↦ ap known (find-apply_to f m p) ∙ known-over f (find string_discrete k m)
    | no n ↦ rw (find-apply_to_ne f i k m n) refl
  ]

  knows_id-apply_all :
      (f : Timer → Timer) (ids : List TimerId) (k : TimerId) (m : Dict TimerId (Option Timer))
      → knows_id k (apply_all f ids m) ≡ knows_id k m
  unfolding apply_all
  knows_id-apply_all f [] k m = refl
  knows_id-apply_all f (i ∷ ids) k m =
      knows_id-apply_all f ids k (apply_to f i m) ∙ knows_id-apply_to f i k m

  -- What holds of a timer whenever the callback is done holds of the timers of the ids.
  pub has_timer-apply_all :
      (p : Timer → Bool) (f : Timer → Timer)
      → ((t : Timer) → p (f t) ≡ true)
      → (ids : List TimerId) (k : TimerId) (m : Dict TimerId (Option Timer)) → has_id k ids ≡ true
      → has_timer p k (apply_all f ids m) ≡ has_timer (λ t. true) k m
  unfolding apply_all has_id has_timer
  has_timer-apply_all p f h [] k m e = cc
  has_timer-apply_all p f h (i ∷ ids) k m e = elim (Bool-cases (has_id k ids)) [
    | inl rest ↦
        has_timer-apply_all p f h ids k (apply_to f i m) rest ∙ elim (string_discrete i k) [
          | yes q ↦
              ap (holds (λ t. true)) (find-apply_to f m q)
              ∙ holds-over (λ t. true) (λ t. true) f (λ t. refl) (find string_discrete k m)
          | no n ↦ ap (holds (λ t. true)) (find-apply_to_ne f i k m n)
        ]
    | inr out ↦
        ap (holds p) (find-apply_all f ids k (apply_to f i m) out)
        ∙ elim (string_discrete i k)
              as (λ b.
                ite b true (has_id k ids) ≡ true
                → holds p (find string_discrete k (apply_to f i m))
                  ≡ holds (λ t. true) (find string_discrete k m)) [
                    | yes q ↦ λ _.
                        ap (holds p) (find-apply_to f m q)
                        ∙ holds-over p (λ t. true) f h (find string_discrete k m)
                    | no n ↦ λ x. cc
                  ]
            e
  ]
