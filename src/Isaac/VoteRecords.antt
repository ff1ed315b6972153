-- ===== src/Isaac/VoteRecords.antt =====
-- isaac/voterecords.go: the votes of one height, round and stage. Hashes are kept by their texts,
-- so `sanitizeHash`, which keeps the bytes, leaves them as they are. A call holds the lock from its
-- start to its end, so calls are steps that follow one another.
pub mod Steps
pub mod Invariant
pub mod Decided
pub mod Run
pub mod Agreement
use mitum.Common.{
  ℕ, String, Bool, true, false, ◌&&◌, List, [], ◌∷◌, ◌++◌, Option, none, some, ltb, ◌==◌, not,
  if◌then◌else◌, string_discrete, length, map,
}
use mitum.Common.Dict.{Dict, find, put, values, MapRange}
use mitum.Base.Env.{Hash, Address, Time}
use mitum.Base.Stage.{Stage}
use mitum.Base.VoteResult.{VoteResult, not_yet, draw, majority}
use mitum.Base.Threshold.{RatioOps, Threshold}
use mitum.Base.Majority.Slice.{find_majority_from_slice}
use mitum.Base.Fact.{Height, BallotFact, SignedBallotFact}
use mitum.Base.Voteproof.{Voteproof, new_voteproof, is_finished, finish, close}
use mitum.Base.Ballot.{Ballot, raw_fact, node_of}

pub record VoteRecords (Ratio : Type 0) : Type 0 where
  pub facts : Dict Hash BallotFact
  pub votes : Dict Address Hash
  pub ballots : Dict Address (Ballot Ratio)
  pub voteproof : Voteproof Ratio
  pub threshold : Threshold Ratio
  pub set : List Hash

-- `if _, found := vrs.facts[h]; !found { vrs.facts[h] = fact }`.
unfoldable pub keep_fact : Hash → BallotFact → Dict Hash BallotFact → Dict Hash BallotFact
keep_fact h fact facts = elim (find string_discrete h facts) [
  | some _ ↦ facts
  | none ↦ put string_discrete h fact facts
]

module _ {Ratio : Type 0} where
  -- `NewVoteRecords`: what the pool hands out is overwritten in every field.
  unfoldable pub new_vote_records :
      Height → ℕ → Stage → List Address → Threshold Ratio → VoteRecords Ratio
  unfolding new_voteproof
  new_vote_records height round stage suffrages threshold = record {
    facts = [];
    votes = [];
    ballots = [];
    voteproof = new_voteproof height round suffrages threshold.ratio stage;
    threshold = threshold;
    set = [];
  }

  -- `addBallot`: true if the node has voted before, and then nothing changes.
  unfoldable pub add_ballot : Ballot Ratio → VoteRecords Ratio → VoteRecords Ratio × Bool
  add_ballot blt vrs =
      let n = node_of blt in
      let h = (raw_fact blt).hash in
      elim (find string_discrete n vrs.votes) [
        | some _ ↦ (vrs, true)
        | none ↦ (
          record vrs {
            ballots = put string_discrete n blt vrs.ballots;
            votes = put string_discrete n h vrs.votes;
            facts = keep_fact h (raw_fact blt) vrs.facts;
          },
          false,
        )
      ]

  -- `voteproof.IsFinished() && !voteproof.IsClosed()`.
  unfoldable pub to_be_closed : Voteproof Ratio → Bool
  unfolding is_finished
  to_be_closed vp = is_finished vp && not vp.closed

  unfoldable pub close_record : VoteRecords Ratio → VoteRecords Ratio
  unfolding close
  close_record vrs = record vrs { voteproof = close vrs.voteproof }

  unfoldable pub signed_facts : List (Ballot Ratio) → List SignedBallotFact
  signed_facts [] = []
  signed_facts (blt ∷ blts) = blt.signed_fact ∷ signed_facts blts

  module _ (rng : MapRange) (now : Time) where
    -- `finishVoteproof`, which ranges over two maps.
    unfoldable pub finish_voteproof : VoteRecords Ratio → VoteRecords Ratio
    unfolding finish signed_facts
    finish_voteproof vrs = record vrs {
      voteproof = finish now (record vrs.voteproof {
        facts = values (rng.order (Hash × BallotFact) vrs.facts);
        votes = signed_facts (values (rng.order (Address × Ballot Ratio) vrs.ballots));
      });
    }

    -- `SetMajority` and `SetResult`, by the result of the count.
    unfoldable pub set_result : VoteRecords Ratio → VoteResult × Hash → VoteRecords Ratio
    set_result vrs (result, key) =
        let won =
          if result == majority
          then record vrs.voteproof { majority = find string_discrete key vrs.facts }
          else vrs.voteproof in
        if result == not_yet
        then record vrs { voteproof = won }
        else finish_voteproof (record vrs { voteproof = record won { result = result } })

    -- The count behind the append to `set`.
    unfoldable pub count_set : VoteRecords Ratio → VoteRecords Ratio
    count_set vrs =
        if ltb (length vrs.set) vrs.threshold.threshold
        then vrs
        else set_result vrs
            (find_majority_from_slice rng vrs.threshold.total vrs.threshold.threshold vrs.set)

    -- A ballot of a node that has not voted, behind `addBallot`.
    unfoldable pub vote_new : Hash → VoteRecords Ratio → VoteRecords Ratio
    vote_new h vrs =
        if to_be_closed vrs.voteproof
        then close_record vrs
        else count_set (record vrs { set = vrs.set ++ h ∷ [] })

    -- `Vote` leaves the records with their voteproof, which it returns.
    unfoldable pub vote : Ballot Ratio → VoteRecords Ratio → VoteRecords Ratio
    vote blt vrs =
        let (added, voted) = add_ballot blt vrs in
        if voted
        then (if to_be_closed added.voteproof then close_record added else added)
        else vote_new (raw_fact blt).hash added
