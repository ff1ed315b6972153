-- ===== src/Isaac/VoteRecords/Invariant.antt =====
-- What holds of the records of a vote after any ballots.
use mitum.Common.{
  ℕ, ◌+◌, ◌≤◌, ◌<◌, min, ◌≡◌, ap, ◌∙◌, ◌⊎◌, inl, inr, [], ◌∷◌, Option, none, some, arith,
  string_discrete, ite, Option-cases, count-append,
}
use mitum.Common.Dict.{
  Dict, find, put, values, IsMap, put-IsMap, find-put, MapRange, put_fresh, values-append,
}
use mitum.Base.Env.{Hash, Address, Time}
use mitum.Base.VoteResult.{majority}
use mitum.Base.Majority.Slice.Counts.{votes_for}
use mitum.Base.Fact.{BallotFact}
use mitum.Base.Ballot.{Ballot, raw_fact, node_of}
use mitum.Isaac.VoteRecords.{VoteRecords, keep_fact, add_ballot, vote_new, vote}
use mitum.Isaac.VoteRecords.Steps.{SameVotes, vote_new_same, vote_again, vote_first}

-- The first fact that there is.
abbrev or_fact : Option BallotFact → Option BallotFact → Option BallotFact
or_fact (some f) o = some f
or_fact none o = o

-- The fact that is kept first for a hash stays.
find-keep_fact :
    (h j : Hash) (fact : BallotFact) (facts : Dict Hash BallotFact)
    → find string_discrete j (keep_fact h fact facts)
      ≡ or_fact (find string_discrete j facts) (ite (string_discrete h j) (some fact) none)
unfolding keep_fact
find-keep_fact h j fact facts = ground (arith, find-put string_discrete h j fact facts)

kept_known :
    (h j : Hash) (fact : BallotFact) (facts : Dict Hash BallotFact)
    → (h ≡ j) ⊎ ((f : BallotFact) × (find string_discrete j facts ≡ some f))
    → (f : BallotFact) × (find string_discrete j (keep_fact h fact facts) ≡ some f)
kept_known h j fact facts known = elim (Option-cases (find string_discrete j facts)) [
  | inl new ↦ (fact, ground (arith, find-keep_fact h j fact facts))
  | inr (f, old) ↦ (f, ground (arith, find-keep_fact h j fact facts))
]

module _ {Ratio : Type 0} where
  -- The votes that a majority needs.
  abbrev pub quorum : VoteRecords Ratio → ℕ
  quorum vrs = min vrs.threshold.total vrs.threshold.threshold

  -- How many nodes are recorded with a vote for a hash.
  abbrev pub tally : Hash → VoteRecords Ratio → ℕ
  tally h vrs = votes_for h (values vrs.votes)

  -- The votes part: one vote for a node, a fact for every vote, and no more in the count than are
  -- recorded.
  pub record IsCounted (vrs : VoteRecords Ratio) : Type 0 where
    pub votes_map : IsMap string_discrete vrs.votes
    pub counted : (h : Hash) → votes_for h vrs.set ≤ tally h vrs
    pub facts_hash :
        (h : Hash) (f : BallotFact) → find string_discrete h vrs.facts ≡ some f → f.hash ≡ h
    pub facts_known :
        (h : Hash)
        → 0 < tally h vrs
        → (f : BallotFact) × (find string_discrete h vrs.facts ≡ some f)

  -- A majority names a fact that has a quorum of the counted votes.
  abbrev pub IsDecided : VoteRecords Ratio → Type 0
  IsDecided vrs =
      vrs.voteproof.result ≡ majority
      → (m : BallotFact) × (vrs.voteproof.majority ≡ some m)
        × (quorum vrs ≤ votes_for m.hash vrs.set)

  SameVotes-IsCounted :
      (a b : VoteRecords Ratio)
      → SameVotes a b
      → ((h : Hash) → votes_for h a.set ≤ votes_for h (values b.votes))
      → IsCounted b
      → IsCounted a
  SameVotes-IsCounted a b same le c = record {
    votes_map = rw same.votes c.votes_map;
    counted = λ h. rw same.votes (le h);
    facts_hash = λ h f e. c.facts_hash h f (cc (same.facts));
    facts_known = λ h p.
        let (f, e) = c.facts_known h (rw same.votes at p) in
        (f, ap (find string_discrete h) same.facts ∙ e);
  }

  tally-put :
      (h g : Hash) (n : Address) (vrs : VoteRecords Ratio)
      → find string_discrete n vrs.votes ≡ none
      → votes_for h (values (put string_discrete n g vrs.votes))
        ≡ tally h vrs + votes_for h (g ∷ [])
  tally-put h g n vrs fresh =
      ap (λ l. votes_for h (values l)) (put_fresh string_discrete n g vrs.votes fresh)
      ∙ ap (votes_for h) (values-append vrs.votes n g)
      ∙ count-append string_discrete h (values vrs.votes) (g ∷ [])

  pub add_ballot-IsCounted :
      (blt : Ballot Ratio) (vrs : VoteRecords Ratio)
      → find string_discrete (node_of blt) vrs.votes ≡ none
      → IsCounted vrs
      → IsCounted (add_ballot blt vrs).0
  unfolding add_ballot
  add_ballot-IsCounted blt vrs fresh c =
      let h₀ = (raw_fact blt).hash in
      rw (fresh, add_ballot)
        (record {
          votes_map = put-IsMap string_discrete (node_of blt) h₀ vrs.votes c.votes_map;
          counted = λ h. omega (arith, c.counted h, tally-put h h₀ (node_of blt) vrs fresh);
          facts_hash = λ h f e.
              ground (arith, find-keep_fact h₀ h (raw_fact blt) vrs.facts, c.facts_hash h f);
          facts_known = λ h p.
              kept_known h₀ h (raw_fact blt) vrs.facts (elim (string_discrete h₀ h) [
                | yes e ↦ inl e
                | no ne ↦
                    inr (c.facts_known h (ground (arith, tally-put h h₀ (node_of blt) vrs fresh)))
              ]);
        })

  pub add_ballot-room :
      (blt : Ballot Ratio) (vrs : VoteRecords Ratio) (j : Hash)
      → find string_discrete (node_of blt) vrs.votes ≡ none
      → IsCounted vrs
      → votes_for j (add_ballot blt vrs).0.set + votes_for j ((raw_fact blt).hash ∷ [])
        ≤ tally j (add_ballot blt vrs).0
  unfolding add_ballot
  add_ballot-room blt vrs j fresh c =
      rw (fresh, add_ballot)
        (omega (arith, c.counted j, tally-put j (raw_fact blt).hash (node_of blt) vrs fresh))

  -- Closing a record, or counting, keeps what is counted.
  vote_new-IsCounted :
      (rng : MapRange) (now : Time) (h : Hash) (vrs : VoteRecords Ratio)
      → ((j : Hash) → votes_for j vrs.set + votes_for j (h ∷ []) ≤ tally j vrs)
      → IsCounted vrs
      → IsCounted (vote_new rng now h vrs)
  vote_new-IsCounted rng now h vrs le c =
      let (same, grown) = vote_new_same rng now h vrs in
      SameVotes-IsCounted (vote_new rng now h vrs) vrs same
        (λ j. elim grown [
          | inl e ↦ rw e (c.counted j)
          | inr e ↦ rw e (omega (arith, le j, count-append string_discrete j vrs.set (h ∷ [])))
        ])
        c

  -- A ballot keeps the records counted.
  pub vote-IsCounted :
      (rng : MapRange) (now : Time) (blt : Ballot Ratio) (vrs : VoteRecords Ratio)
      → IsCounted vrs
      → IsCounted (vote rng now blt vrs)
  vote-IsCounted rng now blt vrs c =
      elim (Option-cases (find string_discrete (node_of blt) vrs.votes)) [
        | inl fresh ↦ rw (vote_first rng now blt vrs fresh) (
            vote_new-IsCounted rng now (raw_fact blt).hash (add_ballot blt vrs).0
              (λ j. add_ballot-room blt vrs j fresh c) (add_ballot-IsCounted blt vrs fresh c))
        | inr (g, old) ↦
            let (same, set) = vote_again rng now blt vrs old in
            SameVotes-IsCounted (vote rng now blt vrs) vrs same (λ h. rw set (c.counted h)) c
      ]
