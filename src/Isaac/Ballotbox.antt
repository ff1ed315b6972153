-- ===== src/Isaac/Ballotbox.antt =====
-- isaac/ballotbox.go: the records of the votes, one for each height, round and stage. A call is one
-- step: the calls of a box are modelled one after another. `suffragesFunc` and `thresholdFunc` are
-- arguments, and return the same within a call.
pub mod Latest
pub mod Clean
pub mod History
pub mod Agreement
use mitum.Common.{
  ℕ, ℕ_discrete, String, Bool, true, false, ◌&&◌, ◌||◌, List, [], ◌∷◌, Option, none, some, ltb,
  ◌==◌, not, if◌then◌else◌, string_discrete, ite,
}
use mitum.Common.Dict.{Dict, find, put, delete, MapRange}
use mitum.Common.Int.{ℤ, ltb_ℤ, eqb_ℤ}
use mitum.Common.Errors.{Error, Result, ok, err, failed}
use mitum.Base.Env.{Address, Time}
use mitum.Base.Stage.{Stage, can_vote}
use mitum.Base.Threshold.{Threshold}
use mitum.Base.Fact.{Height, BallotFact}
use mitum.Base.Voteproof.{Voteproof}
use mitum.Base.Ballot.{Ballot, raw_fact, node_of, fact_stage}
use mitum.Isaac.VoteRecords
use mitum.Isaac.VoteRecords.{VoteRecords, new_vote_records}

-- The key `"%d-%d-%d"` of a record, which `Clean` scans back into its three numbers.
pub record Key : Type 0 where
  pub height : Height
  pub round : ℕ
  pub stage : Stage

unfoldable pub ℤ_discrete : Discrete ℤ
ℤ_discrete = hlevel ℕ_discrete

unfoldable pub Key_discrete : Discrete Key
Key_discrete = hlevel (ℕ_discrete, ℤ_discrete)

pub record Ballotbox (Ratio : Type 0) : Type 0 where
  pub vrs : Dict Key (VoteRecords Ratio)
  pub latest_ballot : Option (Ballot Ratio)

-- Whether an address is one of a list (`Equal` of addresses).
unfoldable pub is_inside : Address → List Address → Bool
is_inside a [] = false
is_inside a (b ∷ bs) = ite (string_discrete b a) true (is_inside a bs)

-- `vrsKey`.
unfoldable pub vrs_key : BallotFact → Key
vrs_key fact = record { height = fact.height; round = fact.round; stage = fact_stage fact }

module _ {Ratio : Type 0} where
  -- `NewBallotbox`, and what `Empty` leaves.
  unfoldable pub new_ballotbox : Ballotbox Ratio
  new_ballotbox = record { vrs = []; latest_ballot = none }

  unfoldable pub can_vote_ballot : List Address → Ballot Ratio → Option Error
  unfolding can_vote is_inside
  can_vote_ballot suffrages blt =
      if not (can_vote (fact_stage (raw_fact blt)))
      then some failed
      else if not (is_inside (node_of blt) suffrages)
      then some failed
      else none

  -- The switch of `loadVoteRecords`.
  unfoldable pub next_latest : Ballot Ratio → Option (Ballot Ratio) → Option (Ballot Ratio)
  unfolding can_vote
  next_latest blt none = some blt
  next_latest blt (some l) =
      let fact = raw_fact blt in
      let lfact = raw_fact l in
      if ltb_ℤ lfact.height fact.height
      then some blt
      else if eqb_ℤ fact.height lfact.height && ltb lfact.round fact.round
      then some blt
      else if eqb_ℤ fact.height lfact.height
          && (fact.round == lfact.round)
          && can_vote (fact_stage fact)
      then (if ltb (fact_stage lfact) (fact_stage fact) then some blt else some l)
      else some l

  -- `loadVoteRecords(blt, true)`: the records of the key, made if they are not there.
  unfoldable pub load_vote_records :
      List Address
      → Threshold Ratio
      → Ballot Ratio
      → Ballotbox Ratio
      → Ballotbox Ratio × VoteRecords Ratio
  unfolding next_latest vrs_key
  load_vote_records suffrages threshold blt bb =
      let fact = raw_fact blt in
      let latest = next_latest blt bb.latest_ballot in
      elim (find Key_discrete (vrs_key fact) bb.vrs) [
        | some vrs ↦ (record bb { latest_ballot = latest }, vrs)
        | none ↦
            let vrs =
              new_vote_records fact.height fact.round (fact_stage fact) suffrages threshold in
            (
              record bb {
                latest_ballot = latest;
                vrs = put Key_discrete (vrs_key fact) vrs bb.vrs;
              },
              vrs,
            )
      ]

  -- The store of the records that a vote has changed, which the box holds by a pointer.
  unfoldable pub store_records : Key → VoteRecords Ratio → Ballotbox Ratio → Ballotbox Ratio
  store_records k vrs bb = record bb { vrs = put Key_discrete k vrs bb.vrs }

  -- `Ballotbox.Vote`.
  unfoldable pub vote :
      MapRange
      → Time
      → List Address
      → Threshold Ratio
      → Ballot Ratio
      → Ballotbox Ratio
      → Ballotbox Ratio × Result (Voteproof Ratio)
  unfolding can_vote_ballot load_vote_records store_records
  vote rng now suffrages threshold blt bb = elim (can_vote_ballot suffrages blt) [
    | some e ↦ (bb, err e)
    | none ↦
        let (loaded, vrs) = load_vote_records suffrages threshold blt bb in
        let voted = VoteRecords.vote rng now blt vrs in
        (store_records (vrs_key (raw_fact blt)) voted loaded, ok voted.voteproof)
  ]

  -- The keys that `Clean` collects while it ranges over the records.
  unfoldable pub remove_keys : Height → Dict Key (VoteRecords Ratio) → List Key
  remove_keys gh [] = []
  remove_keys gh ((k, v) ∷ m) =
      let rest = remove_keys gh m in if ltb_ℤ gh k.height then rest else k ∷ rest

  unfoldable pub delete_keys :
      List Key → Dict Key (VoteRecords Ratio) → Dict Key (VoteRecords Ratio)
  delete_keys [] m = m
  delete_keys (k ∷ ks) m = delete_keys ks (delete Key_discrete k m)

  -- `Clean`; the records that are removed go back to the pool.
  unfoldable pub clean : MapRange → Height → Ballotbox Ratio → Ballotbox Ratio
  unfolding remove_keys delete_keys
  clean rng height bb = record bb {
    vrs = delete_keys (remove_keys height (rng.order (Key × VoteRecords Ratio) bb.vrs)) bb.vrs;
  }

  -- `Empty`.
  unfoldable pub empty : Ballotbox Ratio → Ballotbox Ratio
  empty bb = new_ballotbox
