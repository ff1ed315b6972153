-- ===== src/Isaac/ProposalChecker/Passing.antt =====
-- Which proposals are processed.
use mitum.Common.{
  ◌≡◌, refl, sym, ap, ◌∙◌, inl, inr, ◌↔◌, ◌≢◌, Bool, Option-cases, List, [], ◌∷◌, Option, none,
  some, arith,
}
use mitum.Common.Int.{eqb_ℤ_iff, ◌<ℤ◌}
use mitum.Common.Errors.{Error, Result, ok, err, Result-cases}
use mitum.Util.Checks.{check, check_iff, pure_checks}
use mitum.Base.Env.{Address}
use mitum.Base.Fact.{Height}
use mitum.Base.Voteproof.{Voteproof}
use mitum.Base.Ballot.{Ballot, raw_fact}
use mitum.Isaac.BallotChecker.{LocalView, go_on}
use mitum.Isaac.BallotChecker.Passing.{goes_on}
use mitum.Isaac.ProposalChecker.{
  ProposalStore, proposer_of, not_in_manifest, is_older, is_waiting, is_proposer,
  check_node_is_proposer, process_proposal_checks,
}

below_manifest :
    (ph : Height) (r : Result (Option Height))
    → (not_in_manifest ph r ≡ go_on) ↔ ((m : Height) → r ≡ ok (some m) → m <ℤ ph)
unfolding not_in_manifest
below_manifest ph (err e) = (λ h m q. cc, λ h. refl)
below_manifest ph (ok none) = (λ h m q. cc, λ h. refl)
below_manifest ph (ok (some n)) =
    (λ h m q. let same : n ≡ m = cc in rw (← same) (ground arith), λ h. ground (arith, h n refl))

module _ {Ratio : Type 0} (store : ProposalStore Ratio) (view : LocalView Ratio) where
  -- The last voteproof is of the proposal's height and round, and no last manifest is in the way.
  abbrev pub IsNext : Option (Voteproof Ratio) → Ballot Ratio → store.Db → Type 0
  IsNext livp pr db =
      (l : Voteproof Ratio) × (livp ≡ some l)
      × ((raw_fact pr).height ≡ l.height)
      × ((raw_fact pr).round ≡ l.round)
      × ((m : Height) → store.last_manifest db ≡ ok (some m) → m <ℤ (raw_fact pr).height)

  -- The proposal names the proposer that the suffrage elects.
  abbrev pub IsElected : Ballot Ratio → Type 0
  IsElected pr =
      (p : Address) × (store.acting_proposer (raw_fact pr).height (raw_fact pr).round ≡ ok p)
      × (proposer_of (raw_fact pr).body ≡ some p)

  IsElected-iff : (pr : Ballot Ratio) → ((is_proposer store view pr).1 ≡ none) ↔ IsElected pr
  unfolding is_proposer check_node_is_proposer
  IsElected-iff pr = (
    λ h. elim (Result-cases (store.acting_proposer (raw_fact pr).height (raw_fact pr).round)) [
      | inl (e, failed) ↦ absurd (ground arith)
      | inr (p, acting) ↦ elim (Option-cases (proposer_of (raw_fact pr).body)) [
        | inl nobody ↦ absurd (ground arith)
        | inr (a, named) ↦ let same : a ≡ p = ground arith in (p, acting, ground arith)
      ]
    ],
    λ (p, acting, named). ground arith,
  )

  is_waiting_iff :
      (l : Voteproof Ratio) (pr : Ballot Ratio)
      → ((is_waiting store view (some l) pr).1 ≡ none)
        ↔ (((raw_fact pr).height ≡ l.height) × ((raw_fact pr).round ≡ l.round))
  unfolding is_waiting
  is_waiting_iff l pr = (
    λ h. ground (arith, eqb_ℤ_iff (raw_fact pr).height l.height),
    λ h. ground (arith, eqb_ℤ_iff (raw_fact pr).height l.height),
  )

  is_older_iff :
      (l : Voteproof Ratio) (pr : Ballot Ratio) (db : store.Db)
      → (raw_fact pr).height ≡ l.height
      → (raw_fact pr).round ≡ l.round
      → is_older store view (some l) pr db
        ≡ not_in_manifest (raw_fact pr).height (store.last_manifest db)
  unfolding is_older
  is_older_iff l pr db same_height same_round = ground arith

  is_older_stops :
      (livp : Option (Voteproof Ratio)) (pr : Ballot Ratio) (db : store.Db)
      → (is_older store view livp pr db).1 ≡ none
      → is_older store view livp pr db ≡ go_on
  unfolding is_older not_in_manifest
  is_older_stops none pr db h = absurd (ground arith)
  is_older_stops (some l) pr db h = elim (Result-cases (store.last_manifest db)) [
    | inl (e, m) ↦ ground arith
    | inr (o, m) ↦ elim (Option-cases o) [ inl e ↦ ground arith | inr (n, e) ↦ ground arith ]
  ]

  is_older-none : (pr : Ballot Ratio) (db : store.Db) → (is_older store view none pr db).1 ≢ none
  unfolding is_older
  is_older-none pr db h = ground arith

  is_waiting_stops :
      (livp : Option (Voteproof Ratio)) (pr : Ballot Ratio)
      → (is_waiting store view livp pr).1 ≡ none
      → is_waiting store view livp pr ≡ go_on
  unfolding is_waiting
  is_waiting_stops livp pr h = ground arith

  is_proposer_stops :
      (pr : Ballot Ratio) → (is_proposer store view pr).1 ≡ none → is_proposer store view pr ≡ go_on
  unfolding is_proposer
  is_proposer_stops pr h = ground arith

  abbrev process_results :
      Option (Voteproof Ratio) → Ballot Ratio → store.Db → List (Bool × Option Error)
  process_results livp pr db =
      is_older store view livp pr db
      ∷ is_waiting store view livp pr
      ∷ is_proposer store view pr
      ∷ []

  process_proposal_error :
      (livp : Option (Voteproof Ratio)) (pr : Ballot Ratio) (db : store.Db)
      → (process_proposal_checks store view livp pr db ≡ none)
        ↔ ((check (pure_checks (process_results livp pr db)) tt).error ≡ none)
  unfolding process_proposal_checks
  process_proposal_error livp pr db =
      elim (Option-cases (check (pure_checks (process_results livp pr db)) tt).error) [
        | inl e ↦ (λ h. e, λ h. rw (e, process_proposal_checks) refl)
        | inr (x, e) ↦ (
          λ h. absurd (ground (arith, rw (e, process_proposal_checks) at h)),
          λ h. absurd (ground arith),
        )
      ]

  -- A proposal goes on to be processed exactly if there is a last INIT voteproof, of the height and
  -- the round of the proposal, if no last manifest is read that is as high as the proposal or higher,
  -- and if the proposal names the proposer that the suffrage elects for this height and round.
  pub process_proposal_iff :
      (livp : Option (Voteproof Ratio)) (pr : Ballot Ratio) (db : store.Db)
      → (process_proposal_checks store view livp pr db ≡ none) ↔ (IsNext livp pr db × IsElected pr)
  process_proposal_iff none pr db = (
    λ h.
        let passed =
          (check_iff (process_results none pr db)).0 ((process_proposal_error none pr db).0 h) in
        absurd (ground (arith, passed.0, is_older-none pr db)),
    λ (next, elected). absurd (ground (arith, next.1)),
  )
  process_proposal_iff (some l) pr db = (
    λ h.
        let passed =
          (check_iff (process_results (some l) pr db)).0
            ((process_proposal_error (some l) pr db).0 h) in
        let (older, p₁) =
          goes_on (is_older store view (some l) pr db) (is_older_stops (some l) pr db) passed in
        let (waits, p₂) =
          goes_on (is_waiting store view (some l) pr) (is_waiting_stops (some l) pr) p₁ in
        let (same_height, same_round) = (is_waiting_iff l pr).0 (ground arith) in
        let manifest = sym (is_older_iff l pr db same_height same_round) ∙ older in
        (
          (
            l,
            refl,
            same_height,
            same_round,
            (below_manifest (raw_fact pr).height (store.last_manifest db)).0 manifest,
          ),
          (IsElected-iff pr).0 p₂.0,
        ),
    λ ((l', e, same_height, same_round, below), elected).
        let is_l : l' ≡ l = ground arith in
        let at_height : (raw_fact pr).height ≡ l.height =
          same_height ∙ ap (λ (v : Voteproof Ratio). v.height) is_l in
        let at_round : (raw_fact pr).round ≡ l.round =
          same_round ∙ ap (λ (v : Voteproof Ratio). v.round) is_l in
        let older =
          is_older_iff l pr db at_height at_round
          ∙ (below_manifest (raw_fact pr).height (store.last_manifest db)).1 below in
        (process_proposal_error (some l) pr db).1 (
          (check_iff (process_results (some l) pr db)).1 (
            ground arith,
            inr (
              (is_waiting_iff l pr).1 (at_height, at_round),
              inr ((IsElected-iff pr).1 elected, inr tt),
            ),
          )),
  )
