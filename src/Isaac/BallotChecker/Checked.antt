-- ===== src/Isaac/BallotChecker/Checked.antt =====
-- What the checks of a ballot from the network find out about it.
use mitum.Common.{
  ◌+◌, ◌≤◌, ◌<◌, ◌≡◌, refl, ◌⊎◌, inl, inr, ◌≢◌, true, Bool-cases, Option-cases, Option, none, some,
  arith, ◌==◌,
}
use mitum.Common.Int.{◌<ℤ◌, eqb_ℤ_iff}
use mitum.Common.Errors.{ok, Result-cases}
use mitum.Base.Env.{Hash, Time}
use mitum.Base.Stage.{stage_proposal}
use mitum.Base.Fact.{FactBody, init, proposal, accept, BallotFact}
use mitum.Base.Voteproof.{Voteproof}
use mitum.Base.Ballot.{Ballot, raw_fact, node_of, fact_stage}
use mitum.Isaac.BallotChecker.{
  LocalView, go_on, within, in_timespan, is_from_alive_node, find_proposal, check_proposal_of,
  check_with_last_voteproof,
}

module _ {Ratio : Type 0} (view : LocalView Ratio) where
  -- The ballot is of a greater height than the last voteproof, or of its height and a greater round.
  abbrev pub IsNewer : Option (Voteproof Ratio) → Ballot Ratio → Type 0
  IsNewer none blt = Unit {0}
  IsNewer (some lvp) blt =
      (lvp.height <ℤ (raw_fact blt).height)
      ⊎ ((lvp.height ≡ (raw_fact blt).height) × (lvp.round < (raw_fact blt).round))

  -- A time within the timespan around now.
  abbrev WithinSpan : Time → Time → Type 0
  WithinSpan now t = (t ≤ now + view.timespan) × (now ≤ t + view.timespan)

  abbrev pub IsTimely : Time → Ballot Ratio → Type 0
  IsTimely now blt =
      ((fact_stage (raw_fact blt) ≡ stage_proposal) × WithinSpan now blt.signed_at)
      ⊎ ((fact_stage (raw_fact blt) ≢ stage_proposal)
          × WithinSpan now blt.signed_fact.sign.signed_at)

  abbrev pub IsReached : Ballot Ratio → Type 0
  IsReached blt =
      (fact_stage (raw_fact blt) ≡ stage_proposal) ⊎ (view.has_channel (node_of blt) ≡ true)

  -- The proposal that is found for a hash: in the database, or else with the other nodes.
  abbrev pub IsFound : Option Hash → BallotFact → Type 0
  IsFound h fact =
      (view.proposal_fact h ≡ ok (some fact))
      ⊎ ((view.proposal_fact h ≡ ok none) × (view.request_proposal h ≡ ok fact))

  abbrev FitsBody : BallotFact → FactBody → Type 0
  FitsBody bf (init _) = Unit {0}
  FitsBody bf (proposal _ _ _) = Unit {0}
  FitsBody bf (accept h _) =
      (fact : BallotFact) × IsFound h fact × (fact.height ≡ bf.height) × (fact.round ≡ bf.round)

  abbrev pub FitsProposal : Ballot Ratio → Type 0
  FitsProposal blt = FitsBody (raw_fact blt) (raw_fact blt).body

  pub check_with_last_voteproof-IsNewer :
      (lvp : Option (Voteproof Ratio)) (blt : Ballot Ratio)
      → IsNewer lvp blt
      → check_with_last_voteproof view lvp blt ≡ go_on
  unfolding check_with_last_voteproof
  check_with_last_voteproof-IsNewer none blt newer = refl
  check_with_last_voteproof-IsNewer (some lvp) blt newer = ground arith

  within-Span : (now t : Time) → within now t view.timespan ≡ true → WithinSpan now t
  unfolding within
  within-Span now t h = ground arith

  pub in_timespan-IsTimely :
      (now : Time) (blt : Ballot Ratio) → in_timespan view now blt ≡ go_on → IsTimely now blt
  unfolding in_timespan
  in_timespan-IsTimely now blt h = elim (Bool-cases (fact_stage (raw_fact blt) == stage_proposal)) [
    | inl proposes ↦ inl (ground arith, within-Span now blt.signed_at (ground arith))
    | inr votes ↦ inr (ground arith, within-Span now blt.signed_fact.sign.signed_at (ground arith))
  ]

  pub is_from_alive_node-IsReached :
      (blt : Ballot Ratio) → is_from_alive_node view blt ≡ go_on → IsReached blt
  unfolding is_from_alive_node
  is_from_alive_node-IsReached blt h = elim (Option-cases (view.public_key (node_of blt))) [
    | inl unknown ↦ ground arith
    | inr (key, known) ↦ ground arith
  ]

  find_proposal-IsFound :
      (h : Option Hash) (fact : BallotFact) → find_proposal view h ≡ ok fact → IsFound h fact
  unfolding find_proposal
  find_proposal-IsFound h fact found = elim (Result-cases (view.proposal_fact h)) [
    | inl (e, fails) ↦ absurd (ground arith)
    | inr (none, missing) ↦ inr (missing, ground arith)
    | inr (some f, there) ↦ let same : f ≡ fact = ground arith in inl (cc)
  ]

  pub check_proposal-FitsBody :
      (bf : BallotFact) (body : FactBody)
      → check_proposal_of view bf body ≡ go_on
      → FitsBody bf body
  unfolding check_proposal_of
  check_proposal-FitsBody bf (init _) h = tt
  check_proposal-FitsBody bf (proposal _ _ _) h = tt
  check_proposal-FitsBody bf (accept hash _) h = elim (Result-cases (find_proposal view hash)) [
    | inl (e, fails) ↦ absurd (ground arith)
    | inr (fact, found) ↦ (
      fact,
      find_proposal-IsFound hash fact found,
      ground (arith, eqb_ℤ_iff bf.height fact.height),
      ground arith,
    )
  ]
