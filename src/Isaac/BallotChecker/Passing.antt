-- ===== src/Isaac/BallotChecker/Passing.antt =====
-- Which ballots the checks let pass: `util.Checker` takes a check that stops without an error for a
-- success of the whole list.
use mitum.Common.{
  ◌≡◌, refl, ◌⊎◌, inl, inr, ◌↔◌, ◌≢◌, Bool, true, false, Option-cases, List, [], ◌∷◌, Option, none,
  some, arith,
}
use mitum.Common.Dict.{MapRange}
use mitum.Common.Errors.{Error}
use mitum.Util.Checks.{check, LetsPass, check_iff, pure_checks}
use mitum.Base.Env.{Env, Time}
use mitum.Base.Threshold.{RatioOps}
use mitum.Base.Fact.{FactBody, init, proposal, accept, BallotFact, SignedBallotFact}
use mitum.Base.Voteproof
use mitum.Base.Voteproof.{Voteproof}
use mitum.Base.Ballot.{Ballot, raw_fact, node_of}
use mitum.Isaac.BallotChecker.Checked.{
  IsNewer, IsTimely, IsReached, FitsProposal, check_with_last_voteproof-IsNewer,
  in_timespan-IsTimely, is_from_alive_node-IsReached, check_proposal-FitsBody,
}
use mitum.Isaac.BallotChecker.{
  LocalView, go_on, is_from_local, in_timespan, in_suffrage, check_signing, is_from_alive_node,
  check_signing_node, check_proposal_of, check_with_last_voteproof, check_proposal_in_accept_ballot,
  nodes_are_inside, voteproof_is_valid, check_threshold, check_voteproof, check_new_ballot,
}

-- Behind a check that stops only with an error, the rest has passed.
pub goes_on :
    (r : Bool × Option Error) {Rest : Type 0}
    → (r.1 ≡ none → r ≡ go_on)
    → (r.1 ≡ none) × ((r.0 ≡ false) ⊎ Rest)
    → (r ≡ go_on) × Rest
goes_on r stops (quiet, rest) =
    (stops quiet, elim rest [ inl e ↦ absurd (ground (arith, stops quiet)) | inr passed ↦ passed ])

module _ {Ratio : Type 0} (view : LocalView Ratio) where
  in_timespan_stops :
      (now : Time) (blt : Ballot Ratio)
      → (in_timespan view now blt).1 ≡ none
      → in_timespan view now blt ≡ go_on
  unfolding in_timespan
  in_timespan_stops now blt h = ground arith

  check_signing_stops :
      (blt : Ballot Ratio) → (check_signing view blt).1 ≡ none → check_signing view blt ≡ go_on
  unfolding check_signing
  check_signing_stops blt h = ground arith

  is_from_alive_node_stops :
      (blt : Ballot Ratio)
      → (is_from_alive_node view blt).1 ≡ none
      → is_from_alive_node view blt ≡ go_on
  unfolding is_from_alive_node
  is_from_alive_node_stops blt h = ground arith

  check_proposal_stops :
      (bf : BallotFact) (body : FactBody)
      → (check_proposal_of view bf body).1 ≡ none
      → check_proposal_of view bf body ≡ go_on
  unfolding check_proposal_of
  check_proposal_stops bf (init _) h = refl
  check_proposal_stops bf (proposal _ _ _) h = refl
  check_proposal_stops bf (accept h₁ _) h = ground arith

  signing_key :
      (blt : Ballot Ratio)
      → check_signing view blt ≡ go_on
      → view.public_key (node_of blt) ≡ some blt.signed_fact.sign.signer
  unfolding check_signing check_signing_node
  signing_key blt h = ground arith

  nodes_are_inside_no_error :
      (votes : List SignedBallotFact) → (nodes_are_inside view votes).1 ≡ none
  unfolding nodes_are_inside
  nodes_are_inside_no_error [] = refl
  nodes_are_inside_no_error (nf ∷ votes) = ground (arith, nodes_are_inside_no_error votes)

module _ (env : Env) (ops : RatioOps) (rng : MapRange) (view : LocalView ops.Ratio) where
  -- What the checks of a base voteproof are, one after the other.
  abbrev voteproof_results : Voteproof ops.Ratio → List (Bool × Option Error)
  voteproof_results vp =
      voteproof_is_valid env ops rng view vp
      ∷ nodes_are_inside view vp.votes
      ∷ check_threshold env ops rng view vp
      ∷ []

  voteproof_results_iff :
      (vp : Voteproof ops.Ratio)
      → LetsPass (voteproof_results vp) ↔ (Voteproof.is_valid ops env rng view.network_id vp ≡ none)
  unfolding voteproof_is_valid check_threshold
  voteproof_results_iff vp = (
    λ h. ground (arith, h.0),
    λ h. (ground arith, inr (nodes_are_inside_no_error view vp.votes, inr (ground arith, inr tt))),
  )

  check_voteproof_of :
      (blt : Ballot ops.Ratio) (vp : Voteproof ops.Ratio)
      → blt.base_voteproof ≡ some vp
      → (check_voteproof env ops rng view blt).1
        ≡ (check (pure_checks (voteproof_results vp)) tt).error
  unfolding check_voteproof
  check_voteproof_of blt vp e =
      rw (e, check_voteproof)
        (elim (Option-cases (check (pure_checks (voteproof_results vp)) tt).error) [
          | inl o ↦ rw o refl
          | inr (x, o) ↦ rw o refl
        ])

  -- The base voteproof of a ballot passes exactly if it is there and `IsValid` passes it: votes of
  -- nodes that are not in the suffrage, and another threshold ratio than that of the policy, pass.
  pub check_voteproof_iff :
      (blt : Ballot ops.Ratio)
      → ((check_voteproof env ops rng view blt).1 ≡ none) ↔ (
          (vp : Voteproof ops.Ratio) × (blt.base_voteproof ≡ some vp)
          × (Voteproof.is_valid ops env rng view.network_id vp ≡ none))
  unfolding check_voteproof
  check_voteproof_iff blt = elim (Option-cases blt.base_voteproof) [
    | inl e ↦ (λ h. absurd (ground arith), λ h. absurd (ground arith))
    | inr (vp, e) ↦
        let same = check_voteproof_of blt vp e in
        let (to, from) = voteproof_results_iff vp in
        let (checks, checked) = check_iff (voteproof_results vp) in
        (
          λ h. (vp, e, to (checks (rw same at h))),
          λ (vp', e', h).
              let is_vp : vp' ≡ vp = ground arith in rw same (checked (from (rw is_vp at h))),
        )
  ]

  -- What the checks of a ballot from the network are, one after the other.
  abbrev new_ballot_results :
      Time → Option (Voteproof ops.Ratio) → Ballot ops.Ratio → List (Bool × Option Error)
  new_ballot_results now lvp blt =
      is_from_local view blt
      ∷ in_timespan view now blt
      ∷ in_suffrage view blt
      ∷ check_signing view blt
      ∷ is_from_alive_node view blt
      ∷ check_with_last_voteproof view lvp blt
      ∷ check_proposal_in_accept_ballot view blt
      ∷ check_voteproof env ops rng view blt
      ∷ []

  -- A ballot from the network that names the local node passes, whoever made it and signed it, and so
  -- does one within the timespan that names a node outside of the suffrage.
  pub check_new_ballot_unchecked :
      (now : Time) (lvp : Option (Voteproof ops.Ratio)) (blt : Ballot ops.Ratio)
      → (view.local_address ≡ node_of blt)
        ⊎ ((in_timespan view now blt ≡ go_on) × (view.is_inside (node_of blt) ≡ false))
      → check_new_ballot env ops rng view now lvp blt ≡ none
  unfolding check_new_ballot is_from_local in_suffrage
  check_new_ballot_unchecked now lvp blt h =
      (check_iff (new_ballot_results now lvp blt)).1 (elim h [
        | inl local ↦ (ground arith, inl (ground arith))
        | inr (timely, outside) ↦
            (ground arith, inr (ground arith, inr (ground arith, inl (ground arith))))
      ])

  -- A ballot from the network that passes, that names another node than the local one, and a node of
  -- the suffrage, and that is newer than the last voteproof, if there is one, was signed within the
  -- timespan around now (the ballot itself for a proposal, else its fact), with the key of its node;
  -- unless it is a proposal, the node has a channel; the proposal that an ACCEPT ballot names is found
  -- and has its height and round; and its base voteproof is there and `IsValid` passes it.
  pub check_new_ballot_checked :
      (now : Time) (lvp : Option (Voteproof ops.Ratio)) (blt : Ballot ops.Ratio)
      → check_new_ballot env ops rng view now lvp blt ≡ none
      → view.local_address ≢ node_of blt
      → view.is_inside (node_of blt) ≡ true
      → IsNewer view lvp blt
      → IsTimely view now blt
        × (view.public_key (node_of blt) ≡ some blt.signed_fact.sign.signer)
        × IsReached view blt
        × FitsProposal view blt
        × ((vp : Voteproof ops.Ratio) × (blt.base_voteproof ≡ some vp)
            × (Voteproof.is_valid ops env rng view.network_id vp ≡ none))
  unfolding check_new_ballot is_from_local in_suffrage check_proposal_in_accept_ballot
  check_new_ballot_checked now lvp blt passed other inside newer =
      let results = new_ballot_results now lvp blt in
      let (local, p₁) =
        goes_on (is_from_local view blt) (λ h. ground arith) ((check_iff results).0 passed) in
      let (timely, p₂) = goes_on (in_timespan view now blt) (in_timespan_stops view now blt) p₁ in
      let (here, p₃) = goes_on (in_suffrage view blt) (λ h. ground arith) p₂ in
      let (signed, p₄) = goes_on (check_signing view blt) (check_signing_stops view blt) p₃ in
      let (alive, p₅) =
        goes_on (is_from_alive_node view blt) (is_from_alive_node_stops view blt) p₄ in
      let (new, p₆) =
        goes_on (check_with_last_voteproof view lvp blt)
          (λ h. check_with_last_voteproof-IsNewer view lvp blt newer) p₅ in
      let (known, p₇) =
        goes_on (check_proposal_in_accept_ballot view blt)
          (check_proposal_stops view (raw_fact blt) (raw_fact blt).body) p₆ in
      (
        in_timespan-IsTimely view now blt timely,
        signing_key view blt signed,
        is_from_alive_node-IsReached view blt alive,
        check_proposal-FitsBody view (raw_fact blt) (raw_fact blt).body known,
        (check_voteproof_iff blt).0 p₇.0,
      )
