-- ===== src/Isaac/VoteRecords/Steps.antt =====
-- What one ballot changes in the records of a vote, and what it leaves.
use mitum.Common.{
  ◌≡◌, ◌⊎◌, inl, inr, [], ◌∷◌, ◌++◌, none, some, arith, string_discrete, Option-cases,
}
use mitum.Common.Dict.{find, put, find-put, MapRange}
use mitum.Base.Env.{Hash, Address, Time}
use mitum.Base.Majority.Slice.{find_majority_from_slice}
use mitum.Base.VoteResult.{VoteResult}
use mitum.Base.Ballot.{Ballot, raw_fact, node_of}
use mitum.Isaac.VoteRecords.{
  VoteRecords, add_ballot, close_record, finish_voteproof, set_result, count_set, vote_new, vote,
}

-- The fields that only `addBallot` changes.
pub record SameVotes {Ratio : Type 0} (a b : VoteRecords Ratio) : Type 0 where
  pub facts : a.facts ≡ b.facts
  pub votes : a.votes ≡ b.votes
  pub ballots : a.ballots ≡ b.ballots
  pub threshold : a.threshold ≡ b.threshold

module _ {Ratio : Type 0} (rng : MapRange) (now : Time) where
  pub set_result_same :
      (vrs : VoteRecords Ratio) (v : VoteResult × Hash)
      → SameVotes (set_result rng now vrs v) vrs × ((set_result rng now vrs v).set ≡ vrs.set)
  unfolding set_result finish_voteproof
  set_result_same vrs v = ground arith

  pub count_set_same :
      (vrs : VoteRecords Ratio)
      → SameVotes (count_set rng now vrs) vrs × ((count_set rng now vrs).set ≡ vrs.set)
  unfolding count_set
  count_set_same vrs = ground (
    arith,
    set_result_same vrs
        (find_majority_from_slice rng vrs.threshold.total vrs.threshold.threshold vrs.set),
  )

  pub vote_new_same :
      (h : Hash) (vrs : VoteRecords Ratio)
      → SameVotes (vote_new rng now h vrs) vrs
        × (((vote_new rng now h vrs).set ≡ vrs.set)
            ⊎ ((vote_new rng now h vrs).set ≡ vrs.set ++ h ∷ []))
  unfolding vote_new close_record
  vote_new_same h vrs = ground (arith, count_set_same (record vrs { set = vrs.set ++ h ∷ [] }))

  -- A ballot of a node that has voted changes nothing of the votes.
  pub vote_again :
      (blt : Ballot Ratio) (vrs : VoteRecords Ratio) {h : Hash}
      → find string_discrete (node_of blt) vrs.votes ≡ some h
      → SameVotes (vote rng now blt vrs) vrs × ((vote rng now blt vrs).set ≡ vrs.set)
  unfolding vote add_ballot close_record
  vote_again blt vrs old = ground arith

  -- A ballot of a node that has not voted: `addBallot`, and what comes behind it.
  pub vote_first :
      (blt : Ballot Ratio) (vrs : VoteRecords Ratio)
      → find string_discrete (node_of blt) vrs.votes ≡ none
      → vote rng now blt vrs ≡ vote_new rng now (raw_fact blt).hash (add_ballot blt vrs).0
  unfolding vote add_ballot
  vote_first blt vrs fresh = ground arith

  pub votes-vote_first :
      (blt : Ballot Ratio) (vrs : VoteRecords Ratio)
      → find string_discrete (node_of blt) vrs.votes ≡ none
      → (vote rng now blt vrs).votes
        ≡ put string_discrete (node_of blt) (raw_fact blt).hash vrs.votes
  unfolding add_ballot
  votes-vote_first blt vrs fresh =
      ground
        (arith, vote_first blt vrs fresh, vote_new_same (raw_fact blt).hash (add_ballot blt vrs).0)

  -- The vote that a node has cast is not changed by any ballot.
  pub vote-keeps_votes :
      (blt : Ballot Ratio) (vrs : VoteRecords Ratio) (n : Address) {h : Hash}
      → find string_discrete n vrs.votes ≡ some h
      → find string_discrete n (vote rng now blt vrs).votes ≡ some h
  vote-keeps_votes blt vrs n {h} cast =
      elim (Option-cases (find string_discrete (node_of blt) vrs.votes)) [
        | inl fresh ↦ ground (
          arith,
          votes-vote_first blt vrs fresh,
          find-put string_discrete (node_of blt) n (raw_fact blt).hash vrs.votes,
        )
        | inr (g, old) ↦ ground (arith, vote_again blt vrs old)
      ]

  -- Every recorded vote was there before, or is that of the ballot.
  pub vote-source :
      (blt : Ballot Ratio) (vrs : VoteRecords Ratio) (n : Address) {h : Hash}
      → find string_discrete n (vote rng now blt vrs).votes ≡ some h
      → (find string_discrete n vrs.votes ≡ some h)
        ⊎ ((node_of blt ≡ n) × ((raw_fact blt).hash ≡ h))
  vote-source blt vrs n {h} cast =
      elim (Option-cases (find string_discrete (node_of blt) vrs.votes)) [
        | inl fresh ↦ ground (
          arith,
          votes-vote_first blt vrs fresh,
          find-put string_discrete (node_of blt) n (raw_fact blt).hash vrs.votes,
        )
        | inr (g, old) ↦ inl (ground (arith, vote_again blt vrs old))
      ]
