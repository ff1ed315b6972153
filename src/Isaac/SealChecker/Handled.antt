-- ===== src/Isaac/SealChecker/Handled.antt =====
-- Which seals from the network go on to the states.
use mitum.Common.{
  ◌≡◌, refl, sym, ◌↔◌, ◌⊎◌, inl, inr, ◌≤◌, true, false, Option-cases, List, [], ◌∷◌, Option, none,
  some, arith, length,
}
use mathlib.Core.Path.{subst}
use mitum.Common.Dict.{MapRange}
use mitum.Common.Errors.{Error, ok, Result-cases}
use mitum.Util.Checks.{CheckerFunc, check, pure_check, Outcome}
use mitum.Base.Env.{Env, Hash, Time}
use mitum.Base.Threshold.{RatioOps}
use mitum.Base.Voteproof.{Voteproof}
use mitum.Isaac.SealChecker.{
  Seal, SealCache, SealView, is_known, is_valid_seal, has_new_operation, is_valid_operation_seal,
  seal_checks, check_sealed_ballot, after_checks, new_seal,
}

-- A seal that has been set without an error is there.
pub record SealCacheLaws (sc : SealCache) : Type 0 where
  pub has-set : (c : sc.Cache) (h : Hash) → (sc.set c h).1 ≡ none → sc.has (sc.set c h).0 h ≡ true

-- The cache does not know the seal, and takes it.
abbrev pub IsNew : (sc : SealCache) → Option sc.Cache → Hash → Type 0
IsNew sc none h = Unit {0}
IsNew sc (some c) h = (sc.has c h ≡ false) × ((sc.set c h).1 ≡ none)

module _ {S : Type 0} where
  -- A check that goes on unless it has an error, in front of others.
  check_first :
      (fn : CheckerFunc S) (fns : List (CheckerFunc S)) (s : S)
      → ((fn s).error ≡ none → (fn s).keep ≡ true)
      → ((check (fn ∷ fns) s).error ≡ none)
        ↔ (((fn s).error ≡ none) × ((check fns (fn s).state).error ≡ none))
  unfolding check
  check_first fn fns s h = elim (Option-cases (fn s).error) [
    | inl passes ↦ let keeps = h passes in (λ q. (passes, ground arith), λ (_, rest). ground arith)
    | inr (e, fails) ↦ (λ q. absurd (ground arith), λ (passes, _). absurd (ground arith))
  ]

  check_last :
      (fn : CheckerFunc S) (s : S) → ((check (fn ∷ []) s).error ≡ none) ↔ ((fn s).error ≡ none)
  unfolding check
  check_last fn s = elim (Option-cases (fn s).error) [
    | inl passes ↦ (λ q. passes, λ _. ground arith)
    | inr (e, fails) ↦ (λ q. absurd (ground arith), λ passes. absurd (ground arith))
  ]

module _ {Ratio : Type 0} (view : SealView Ratio) where
  is_valid_seal_keeps :
      (sl : Seal Ratio) → (is_valid_seal view sl).1 ≡ none → (is_valid_seal view sl).0 ≡ true
  unfolding is_valid_seal
  is_valid_seal_keeps sl q = elim (Option-cases (sl.is_valid view.local_view.network_id)) [
    | inl valid ↦ ground arith
    | inr (e, fails) ↦ absurd (ground arith)
  ]

  is_valid_seal_iff :
      (sl : Seal Ratio)
      → ((is_valid_seal view sl).1 ≡ none) ↔ (sl.is_valid view.local_view.network_id ≡ none)
  unfolding is_valid_seal
  is_valid_seal_iff sl = elim (Option-cases (sl.is_valid view.local_view.network_id)) [
    | inl valid ↦ (λ q. valid, λ _. ground arith)
    | inr (e, fails) ↦ (λ q. absurd (ground arith), λ valid. absurd (ground arith))
  ]

  -- One of the facts is not found, and those in front of it are.
  abbrev pub HasNew : List Hash → Type 0
  HasNew [] = ⊥
  HasNew (h ∷ hs) =
      (view.has_operation_fact h ≡ ok false) ⊎ ((view.has_operation_fact h ≡ ok true) × HasNew hs)

  -- A seal of operations has some, not too many, and a new one.
  abbrev pub HasNewOperations : Option (List Hash) → Type 0
  HasNewOperations none = Unit {0}
  HasNewOperations (some hs) = (1 ≤ length hs) × (length hs ≤ view.max_operations) × HasNew hs

  has_new_operation_iff : (hs : List Hash) → (has_new_operation view hs ≡ ok true) ↔ HasNew hs
  unfolding has_new_operation
  has_new_operation_iff [] = (λ h. cc, λ h. absurd h)
  has_new_operation_iff (h ∷ hs) = elim (Result-cases (view.has_operation_fact h)) [
    | inl (e, failed) ↦ (
      λ q. absurd (ground arith),
      λ n. elim n [ inl new ↦ absurd (ground arith) | inr (old, _) ↦ absurd (ground arith) ],
    )
    | inr (true, found) ↦ (
      λ q. inr (found, (has_new_operation_iff hs).0 (ground arith)),
      λ n. elim n [
        | inl new ↦ absurd (ground arith)
        | inr (_, rest) ↦ ground (arith, (has_new_operation_iff hs).1 rest)
      ],
    )
    | inr (false, found) ↦ (λ q. inl found, λ n. ground arith)
  ]

  -- The checks on the facts of a seal of operations.
  listed_iff :
      (sl : Seal Ratio) (hs : List Hash)
      → sl.operation_facts ≡ some hs
      → ((is_valid_operation_seal view sl).1 ≡ none) ↔ HasNewOperations (some hs)
  unfolding is_valid_operation_seal
  listed_iff sl hs e = elim (Result-cases (has_new_operation view hs)) [
    | inl (x, failed) ↦ (
      λ q. absurd (ground arith),
      λ (_, _, n). absurd (ground (arith, (has_new_operation_iff hs).1 n)),
    )
    | inr (true, found) ↦ (
      λ q. (ground arith, ground arith, (has_new_operation_iff hs).0 found),
      λ (some_, few, n). ground arith,
    )
    | inr (false, found) ↦ (
      λ q. absurd (ground arith),
      λ (_, _, n). absurd (ground (arith, (has_new_operation_iff hs).1 n)),
    )
  ]

  is_valid_operation_seal_iff :
      (sl : Seal Ratio)
      → ((is_valid_operation_seal view sl).1 ≡ none) ↔ HasNewOperations sl.operation_facts
  unfolding is_valid_operation_seal
  is_valid_operation_seal_iff sl = elim (Option-cases sl.operation_facts) [
    | inl e ↦ (λ q. rw e tt, λ q. ground arith)
    | inr (hs, e) ↦
        subst (λ o. ((is_valid_operation_seal view sl).1 ≡ none) ↔ HasNewOperations o) (sym e)
          (listed_iff sl hs e)
  ]

module _ (env : Env) (ops : RatioOps) (rng : MapRange) (sc : SealCache)
    (view : SealView ops.Ratio) where
  -- What a seal is to be, to be handed on.
  abbrev pub IsAccepted :
      Time → Option (Voteproof ops.Ratio) → Seal ops.Ratio → Option sc.Cache → Type 0
  IsAccepted now lvp sl c =
      IsNew sc c sl.hash
      × (sl.is_valid view.local_view.network_id ≡ none)
      × HasNewOperations view sl.operation_facts
      × (check_sealed_ballot env ops rng sc view now lvp sl ≡ none)

  is_known_keeps :
      (h : Hash) (c : Option sc.Cache)
      → (is_known sc h c).error ≡ none
      → (is_known sc h c).keep ≡ true
  unfolding is_known
  is_known_keeps h none q = refl
  is_known_keeps h (some c) q = elim (Option-cases (sc.set c h).1) [
    | inl put_in ↦ ground arith
    | inr (e, not_put) ↦ absurd (ground arith)
  ]

  is_known_iff : (h : Hash) (c : Option sc.Cache) → ((is_known sc h c).error ≡ none) ↔ IsNew sc c h
  unfolding is_known
  is_known_iff h none = (λ q. tt, λ q. refl)
  is_known_iff h (some c) = elim (Option-cases (sc.set c h).1) [
    | inl put_in ↦ (λ a. ground arith, λ (new, _). ground arith)
    | inr (e, not_put) ↦ (λ a. absurd (ground arith), λ (new, put_in). absurd (ground arith))
  ]

  after_checks_iff :
      (failure : Option Error) (r : Outcome (Option sc.Cache))
      → ((after_checks env ops rng sc view failure r).handed_on ≡ true)
        ↔ ((r.error ≡ none) × (failure ≡ none))
  unfolding after_checks
  after_checks_iff failure r = elim (Option-cases r.error) [
    | inl passes ↦ (λ q. ground arith, λ (p, f). ground arith)
    | inr (e, fails) ↦ (λ q. absurd (ground arith), λ (p, f). absurd (ground arith))
  ]

  -- The three checks of the seal.
  checks_iff :
      (sl : Seal ops.Ratio) (c : Option sc.Cache)
      → ((check (seal_checks env ops rng sc view sl) c).error ≡ none) ↔ (
          IsNew sc c sl.hash
          × (sl.is_valid view.local_view.network_id ≡ none)
          × HasNewOperations view sl.operation_facts)
  unfolding seal_checks check
  checks_iff sl c =
      let (known_to, known_from) = is_known_iff sl.hash c in
      let (valid_to, valid_from) = is_valid_seal_iff view sl in
      let (listed_to, listed_from) = is_valid_operation_seal_iff view sl in
      let (first_to, first_from) =
        check_first (is_known sc sl.hash)
          (pure_check (is_valid_seal view sl) ∷ pure_check (is_valid_operation_seal view sl) ∷ []) c
          (is_known_keeps sl.hash c) in
      let (then_to, then_from) =
        check_first (pure_check (is_valid_seal view sl))
          (pure_check (is_valid_operation_seal view sl) ∷ []) (is_known sc sl.hash c).state
          (is_valid_seal_keeps view sl) in
      let (last_to, last_from) =
        check_last (pure_check (is_valid_operation_seal view sl)) (is_known sc sl.hash c).state in
      (
        λ q.
            let (new, rest) = first_to q in
            let (valid, ops_) = then_to rest in
            (known_to new, valid_to valid, listed_to (last_to ops_)),
        λ (new, valid, ops_).
            first_from (known_from new, then_from (valid_from valid, last_from (listed_from ops_))),
      )

  -- `handlerNewSeal` hands a seal on to the states exactly if the cache does not know it and takes it,
  -- the seal is valid, a seal of operations has at least one and at most as many as the policy allows
  -- with one that is new, and a ballot passes its checks.
  pub new_seal_iff :
      (now : Time) (lvp : Option (Voteproof ops.Ratio)) (sl : Seal ops.Ratio) (c : Option sc.Cache)
      → ((new_seal env ops rng sc view now lvp sl c).handed_on ≡ true) ↔ IsAccepted now lvp sl c
  unfolding new_seal
  new_seal_iff now lvp sl c =
      let (to, from) =
        after_checks_iff (check_sealed_ballot env ops rng sc view now lvp sl)
          (check (seal_checks env ops rng sc view sl) c) in
      let (to', from') = checks_iff sl c in
      (
        λ q. let (passes, ballot) = to q in let (a, b, d) = to' passes in (a, b, d, ballot),
        λ (a, b, d, ballot). from (from' (a, b, d), ballot),
      )
