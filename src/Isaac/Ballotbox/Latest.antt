-- ===== src/Isaac/Ballotbox/Latest.antt =====
-- Which ballot a box keeps as its latest.
use mitum.Common.{
  ◌≤◌, ◌<◌, ◌≡◌, refl, ◌∙◌, ◌⊎◌, inl, inr, true, false, List, Option, none, some, arith,
  Option-cases,
}
use mitum.Common.Dict.{find, MapRange}
use mitum.Common.Int.{◌<ℤ◌, eqb_ℤ_iff}
use mitum.Common.Errors.{Error, ok, err}
use mitum.Base.Env.{Address, Time}
use mitum.Base.Stage.{can_vote}
use mitum.Base.Threshold.{Threshold}
use mitum.Base.Voteproof.{Voteproof}
use mitum.Base.Fact.{BallotFact}
use mitum.Base.Ballot.{Ballot, raw_fact, fact_stage, node_of}
use mitum.Isaac.VoteRecords
use mitum.Isaac.Ballotbox.{
  Ballotbox, Key_discrete, is_inside, vrs_key, can_vote_ballot, next_latest, load_vote_records,
  store_records, vote,
}

-- The order of the points of two facts: by the height, the round and the stage.
abbrev pub NotAfter : BallotFact → BallotFact → Type 0
NotAfter f g =
    (f.height <ℤ g.height)
    ⊎ ((f.height ≡ g.height)
        × ((f.round < g.round) ⊎ ((f.round ≡ g.round) × (fact_stage f ≤ fact_stage g))))

not_before_self : (f : BallotFact) → NotAfter f f
not_before_self f = inr (refl, inr (refl, omega arith))

module _ {Ratio : Type 0} where
  abbrev pub NotBehind : Option (Ballot Ratio) → Ballot Ratio → Type 0
  NotBehind none l = Unit {0}
  NotBehind (some o) l = NotAfter (raw_fact o) (raw_fact l)

  -- What a latest ballot is after a ballot, and before it.
  abbrev pub IsLatest : Ballot Ratio → Option (Ballot Ratio) → Ballot Ratio → Type 0
  IsLatest blt before l =
      NotAfter (raw_fact blt) (raw_fact l) × NotBehind before l × ((l ≡ blt) ⊎ (before ≡ some l))

  later_of_two :
      (blt l : Ballot Ratio)
      → can_vote (fact_stage (raw_fact blt)) ≡ true
      → ((next_latest blt (some l) ≡ some blt) × NotAfter (raw_fact l) (raw_fact blt))
        ⊎ ((next_latest blt (some l) ≡ some l) × NotAfter (raw_fact blt) (raw_fact l))
  unfolding next_latest
  later_of_two blt l votes = ground (arith, eqb_ℤ_iff (raw_fact blt).height (raw_fact l).height)

  next_latest_lem :
      (blt : Ballot Ratio) (before : Option (Ballot Ratio))
      → can_vote (fact_stage (raw_fact blt)) ≡ true
      → (l : Ballot Ratio) × (next_latest blt before ≡ some l) × IsLatest blt before l
  unfolding next_latest
  next_latest_lem blt none votes = (blt, refl, (not_before_self (raw_fact blt), tt, inl refl))
  next_latest_lem blt (some l) votes = elim (later_of_two blt l votes) [
    | inl (e, after) ↦ (blt, e, (not_before_self (raw_fact blt), after, inl refl))
    | inr (e, after) ↦ (l, e, (after, not_before_self (raw_fact l), inr refl))
  ]

  can_vote-of :
      (suffrages : List Address) (blt : Ballot Ratio)
      → can_vote_ballot suffrages blt ≡ none
      → can_vote (fact_stage (raw_fact blt)) ≡ true
  unfolding can_vote_ballot
  can_vote-of suffrages blt may = ground arith

  latest-load :
      (suffrages : List Address) (threshold : Threshold Ratio) (blt : Ballot Ratio)
      (bb : Ballotbox Ratio)
      → (load_vote_records suffrages threshold blt bb).0.latest_ballot
        ≡ next_latest blt bb.latest_ballot
  unfolding load_vote_records
  latest-load suffrages threshold blt bb =
      elim (Option-cases (find Key_discrete (vrs_key (raw_fact blt)) bb.vrs)) [
        | inl e ↦ rw (e, load_vote_records) refl
        | inr (v, e) ↦ rw (e, load_vote_records) refl
      ]

  can_vote_ballot-refuses :
      (suffrages : List Address) (blt : Ballot Ratio) {e : Error}
      → can_vote_ballot suffrages blt ≡ some e
      → (can_vote (fact_stage (raw_fact blt)) ≡ false) ⊎ (is_inside (node_of blt) suffrages ≡ false)
  unfolding can_vote_ballot
  can_vote_ballot-refuses suffrages blt refused = ground arith

  inside-of :
      (suffrages : List Address) (blt : Ballot Ratio)
      → can_vote_ballot suffrages blt ≡ none
      → is_inside (node_of blt) suffrages ≡ true
  unfolding can_vote_ballot
  inside-of suffrages blt may = ground arith

  -- A ballot of a stage that is voted on, by a node of the suffrage, leaves a latest ballot that is
  -- not before it, nor before the latest ballot that was there, and that is one of the two, and Vote
  -- has no error. Every other ballot leaves the box as it is, with an error.
  pub vote-IsLatest :
      (rng : MapRange) (now : Time) (suffrages : List Address) (threshold : Threshold Ratio)
      (blt : Ballot Ratio) (bb : Ballotbox Ratio)
      → ((can_vote (fact_stage (raw_fact blt)) ≡ true)
          × (is_inside (node_of blt) suffrages ≡ true)
          × ((vp : Voteproof Ratio) × ((vote rng now suffrages threshold blt bb).1 ≡ ok vp))
          × ((l : Ballot Ratio) × ((vote rng now suffrages threshold blt bb).0.latest_ballot
                ≡ some l)
              × IsLatest blt bb.latest_ballot l))
        ⊎ (((can_vote (fact_stage (raw_fact blt)) ≡ false)
              ⊎ (is_inside (node_of blt) suffrages ≡ false))
            × ((e : Error) × (vote rng now suffrages threshold blt bb ≡ (bb, err e))))
  unfolding vote store_records
  vote-IsLatest rng now suffrages threshold blt bb =
      elim (Option-cases (can_vote_ballot suffrages blt)) [
        | inr (e, refused) ↦
            inr (can_vote_ballot-refuses suffrages blt refused, (e, rw (refused, vote) refl))
        | inl may ↦
            let (l, found, latest) =
              next_latest_lem blt bb.latest_ballot (can_vote-of suffrages blt may) in
            inl (
              can_vote-of suffrages blt may,
              inside-of suffrages blt may,
              (
                (VoteRecords.vote rng now blt
                    (load_vote_records suffrages threshold blt bb).1).voteproof,
                rw (may, vote) refl,
              ),
              (l, (rw (may, vote) (latest-load suffrages threshold blt bb) ∙ found), latest),
            )
      ]
