-- ===== src/Isaac/VoteRecords/Decided.antt =====
-- A majority of the records has a quorum of the recorded votes.
use mitum.Common.{
  ℕ_discrete, suc, ◌+◌, ◌≤◌, ◌<◌, ◌≡◌, ap, inl, inr, [], ◌∷◌, ◌++◌, some, arith, string_discrete,
  Bool-cases, Option-cases, length, length-append, count-append, ltb,
}
use mitum.Common.Dict.{find, MapRange}
use mitum.Base.Env.{Hash, Time}
use mitum.Base.VoteResult.{VoteResult, not_yet, majority}
use mitum.Base.Majority.{uint_mod}
use mitum.Base.Majority.Slice.{find_majority_from_slice}
use mitum.Base.Majority.Slice.Counts.{votes_for}
use mitum.Base.Majority.Slice.Sound.{find_majority_from_slice_sound}
use mitum.Base.Fact.{BallotFact}
use mitum.Base.Ballot.{Ballot, raw_fact, node_of}
use mitum.Isaac.VoteRecords.{
  VoteRecords, add_ballot, to_be_closed, close_record, finish_voteproof, set_result, count_set,
  vote_new, vote,
}
use mitum.Isaac.VoteRecords.Steps.{vote_first, vote_new_same, vote_again}
use mitum.Isaac.VoteRecords.Invariant.{
  quorum, tally, IsCounted, IsDecided, add_ballot-IsCounted, add_ballot-room,
}

module _ {Ratio : Type 0} (rng : MapRange) (now : Time) where
  -- The fact of a key that the count names, and its votes.
  abbrev Named : VoteRecords Ratio → Hash → Type 0
  Named vrs key =
      (f : BallotFact) × (find string_discrete key vrs.facts ≡ some f)
      × (quorum vrs ≤ votes_for f.hash vrs.set)

  Named-of_count :
      (vrs : VoteRecords Ratio) (key : Hash)
      → length vrs.set < uint_mod
      → 0 < quorum vrs
      → ((h : Hash) → votes_for h vrs.set ≤ tally h vrs)
      → IsCounted vrs
      → find_majority_from_slice rng vrs.threshold.total vrs.threshold.threshold vrs.set
        ≡ (majority, key)
      → Named vrs key
  Named-of_count vrs key small some_votes le c e =
      let over =
        find_majority_from_slice_sound rng vrs.threshold.total vrs.threshold.threshold vrs.set key
          small e in
      let (f, found) = c.facts_known key (omega (arith, le key)) in
      (f, found, rw (c.facts_hash key f found) over)

  set_result-IsDecided :
      (vrs : VoteRecords Ratio) (result : VoteResult) (key : Hash)
      → (result ≡ majority → Named vrs key)
      → IsDecided vrs
      → IsDecided (set_result rng now vrs (result, key))
  unfolding set_result finish_voteproof
  set_result-IsDecided vrs result key named before = elim (ℕ_discrete result majority) [
    | yes e ↦ rw (e, set_result) (λ won. let (f, found, over) = named e in (f, found, over))
    | no ne ↦ elim (ℕ_discrete result not_yet) [
      | yes e ↦ rw (e, set_result) before
      | no q ↦ λ won. absurd (ground arith)
    ]
  ]

  count_set-IsDecided :
      (vrs : VoteRecords Ratio)
      → length vrs.set < uint_mod
      → 0 < quorum vrs
      → ((h : Hash) → votes_for h vrs.set ≤ tally h vrs)
      → IsCounted vrs
      → IsDecided vrs
      → IsDecided (count_set rng now vrs)
  unfolding count_set
  count_set-IsDecided vrs small some_votes le c before =
      elim (Bool-cases (ltb (length vrs.set) vrs.threshold.threshold)) [
        | inl few ↦ rw few before
        | inr enough ↦ rw enough (
            set_result-IsDecided vrs
              (find_majority_from_slice rng vrs.threshold.total vrs.threshold.threshold vrs.set).0
              (find_majority_from_slice rng vrs.threshold.total vrs.threshold.threshold vrs.set).1
              (λ e. Named-of_count vrs _ small some_votes le c (
                ap
                  (λ r. (
                    r,
                    (find_majority_from_slice rng vrs.threshold.total vrs.threshold.threshold
                        vrs.set).1,
                  ))
                  e))
              before)
      ]

  -- A longer count has no fewer votes for any hash.
  longer-IsDecided :
      (h : Hash) (vrs : VoteRecords Ratio)
      → IsDecided vrs
      → IsDecided (record vrs { set = vrs.set ++ h ∷ [] })
  longer-IsDecided h vrs before = λ won.
      let (m, named, over) = before won in
      (m, named, omega (arith, over, count-append string_discrete m.hash vrs.set (h ∷ [])))

  longer-IsCounted :
      (h : Hash) (vrs : VoteRecords Ratio)
      → ((j : Hash) → votes_for j vrs.set + votes_for j (h ∷ []) ≤ tally j vrs)
      → IsCounted vrs
      → IsCounted (record vrs { set = vrs.set ++ h ∷ [] })
  longer-IsCounted h vrs le c = record {
    votes_map = c.votes_map;
    counted = λ j. omega (arith, le j, count-append string_discrete j vrs.set (h ∷ []));
    facts_hash = c.facts_hash;
    facts_known = c.facts_known;
  }

  vote_new-IsDecided :
      (h : Hash) (vrs : VoteRecords Ratio)
      → suc (length vrs.set) < uint_mod
      → 0 < quorum vrs
      → ((j : Hash) → votes_for j vrs.set + votes_for j (h ∷ []) ≤ tally j vrs)
      → IsCounted vrs
      → IsDecided vrs
      → IsDecided (vote_new rng now h vrs)
  unfolding vote_new close_record
  vote_new-IsDecided h vrs small some_votes le c before =
      elim (Bool-cases (to_be_closed vrs.voteproof)) [
        | inl e ↦ rw (e, vote_new) before
        | inr e ↦
            let room = longer-IsCounted h vrs le c in
            rw (e, vote_new)
              (count_set-IsDecided (record vrs { set = vrs.set ++ h ∷ [] })
                (omega (arith, length-append vrs.set (h ∷ []))) some_votes room.counted room
                (longer-IsDecided h vrs before))
      ]

  add_ballot-IsDecided :
      (blt : Ballot Ratio) (vrs : VoteRecords Ratio)
      → IsDecided vrs
      → IsDecided (add_ballot blt vrs).0
  unfolding add_ballot
  add_ballot-IsDecided blt vrs before =
      elim (Option-cases (find string_discrete (node_of blt) vrs.votes)) [
        | inl e ↦ rw (e, add_ballot) before
        | inr (g, e) ↦ rw (e, add_ballot) before
      ]

  add_ballot_same :
      (blt : Ballot Ratio) (vrs : VoteRecords Ratio)
      → ((add_ballot blt vrs).0.set ≡ vrs.set) × ((add_ballot blt vrs).0.threshold ≡ vrs.threshold)
  unfolding add_ballot
  add_ballot_same blt vrs = ground arith

  vote_again-IsDecided :
      (blt : Ballot Ratio) (vrs : VoteRecords Ratio) {g : Hash}
      → find string_discrete (node_of blt) vrs.votes ≡ some g
      → IsDecided vrs
      → IsDecided (vote rng now blt vrs)
  unfolding vote add_ballot close_record
  vote_again-IsDecided blt vrs old before = elim (Bool-cases (to_be_closed vrs.voteproof)) [
    | inl e ↦ rw (old, add_ballot) (rw e before)
    | inr e ↦ rw (old, add_ballot) (rw e before)
  ]

  -- A ballot leaves a majority with a quorum of the counted votes.
  pub vote-IsDecided :
      (blt : Ballot Ratio) (vrs : VoteRecords Ratio)
      → suc (length vrs.set) < uint_mod
      → 0 < quorum vrs
      → IsCounted vrs
      → IsDecided vrs
      → IsDecided (vote rng now blt vrs)
  vote-IsDecided blt vrs small some_votes c before =
      elim (Option-cases (find string_discrete (node_of blt) vrs.votes)) [
        | inl fresh ↦
            let (set, threshold) = add_ballot_same blt vrs in
            rw (vote_first rng now blt vrs fresh) (
              vote_new-IsDecided (raw_fact blt).hash (add_ballot blt vrs).0 (rw set small)
                (rw threshold some_votes) (λ j. add_ballot-room blt vrs j fresh c)
                (add_ballot-IsCounted blt vrs fresh c) (add_ballot-IsDecided blt vrs before))
        | inr (g, old) ↦ vote_again-IsDecided blt vrs old before
      ]

  -- The count grows by one vote at most.
  pub length-vote :
      (blt : Ballot Ratio) (vrs : VoteRecords Ratio)
      → length (vote rng now blt vrs).set ≤ suc (length vrs.set)
  length-vote blt vrs = elim (Option-cases (find string_discrete (node_of blt) vrs.votes)) [
    | inl fresh ↦ ground (
      arith,
      vote_first rng now blt vrs fresh,
      vote_new_same rng now (raw_fact blt).hash (add_ballot blt vrs).0,
      add_ballot_same blt vrs,
      length-append vrs.set ((raw_fact blt).hash ∷ []),
    )
    | inr (g, old) ↦ ground (arith, vote_again rng now blt vrs old)
  ]

  pub vote-keeps_threshold :
      (blt : Ballot Ratio) (vrs : VoteRecords Ratio)
      → (vote rng now blt vrs).threshold ≡ vrs.threshold
  vote-keeps_threshold blt vrs =
      elim (Option-cases (find string_discrete (node_of blt) vrs.votes)) [
        | inl fresh ↦ ground (
          arith,
          vote_first rng now blt vrs fresh,
          vote_new_same rng now (raw_fact blt).hash (add_ballot blt vrs).0,
          add_ballot_same blt vrs,
        )
        | inr (g, old) ↦ ground (arith, vote_again rng now blt vrs old)
      ]
