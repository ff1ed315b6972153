-- ===== src/Isaac/Tests.antt =====
-- The theorems of the package at concrete inputs.
use mitum.Common.{
  ℕ, ◌≤◌, ◌<◌, ◌≡◌, refl, ◌⊎◌, inl, inr, ◌↔◌, Bool, true, false, List, [], ◌∷◌, Option, none, some,
  arith, string_discrete, ite, length, ◌≢◌,
}
use mitum.Common.Dict.{find, put}
use mitum.Common.Int.{pos}
use mitum.Common.Errors.{Error, ok, err}
use mitum.Base.Env.{Address, Time}
use mitum.Base.Stage.{stage_init, can_vote}
use mitum.Base.Voteproof.{Voteproof}
use mitum.Base.VoteResult.{majority}
use mitum.Base.Majority.{find_majority}
use mitum.Base.Majority.Slice
use mitum.Base.Fact.{BallotFact, stage_of}
use mitum.Base.Ballot.{Ballot, raw_fact, node_of, fact_stage}
use mitum.Isaac.VoteRecords
use mitum.Isaac.VoteRecords.{VoteRecords, new_vote_records}
use mitum.Isaac.VoteRecords.Steps.{vote-keeps_votes, vote-source}
use mitum.Isaac.VoteRecords.Run.{counted, BallotOf, Backed, majority_of_run}
use mitum.Isaac.VoteRecords.Agreement.{FromSuffrage, agreement}
use mitum.Isaac.Ballotbox
use mitum.Isaac.Ballotbox.{Key, Key_discrete, ℤ_discrete, Ballotbox, new_ballotbox}
use mitum.Isaac.Ballotbox.Latest.{IsLatest, vote-IsLatest}
use mitum.Isaac.Ballotbox.Clean.{clean_lem}
use mitum.Isaac.Ballotbox.History.{Call, cast, after, RunOf, after-RunOf}
use mitum.Isaac.Ballotbox.Agreement.{WasCast, box_agreement}
use mitum.Samples.{in_order, nodes, two_of_three, ballot_of}

abbrev votes_cast : List (Time × Ballot ℕ)
votes_cast = (7, ballot_of "annsas" "odd") ∷ (8, ballot_of "bobsas" "odd") ∷ []

abbrev votes_elsewhere : List (Time × Ballot ℕ)
votes_elsewhere = (7, ballot_of "cyrsas" "odd") ∷ (9, ballot_of "bobsas" "odd") ∷ []

abbrev calls : List (Call ℕ)
calls = cast 8 (ballot_of "bobsas" "odd") ∷ cast 7 (ballot_of "annsas" "odd") ∷ []

abbrev calls_elsewhere : List (Call ℕ)
calls_elsewhere = cast 9 (ballot_of "bobsas" "odd") ∷ cast 7 (ballot_of "cyrsas" "odd") ∷ []

abbrev point : Key
point = record { height = pos 3; round = 0; stage = stage_init }

abbrev records : VoteRecords ℕ
records = counted in_order votes_cast (pos 3) 0 stage_init nodes two_of_three

abbrev records_elsewhere : VoteRecords ℕ
records_elsewhere = counted in_order votes_elsewhere (pos 3) 0 stage_init nodes two_of_three

records_majority : records.voteproof.result ≡ majority
unfolding string_discrete VoteRecords.vote VoteRecords.add_ballot find new_vote_records
    VoteRecords.vote_new VoteRecords.to_be_closed VoteRecords.count_set put VoteRecords.set_result
    Slice.find_majority_from_slice find_majority VoteRecords.finish_voteproof
records_majority = refl

elsewhere_majority : records_elsewhere.voteproof.result ≡ majority
unfolding string_discrete VoteRecords.vote VoteRecords.add_ballot find new_vote_records
    VoteRecords.vote_new VoteRecords.to_be_closed VoteRecords.count_set put VoteRecords.set_result
    Slice.find_majority_from_slice find_majority VoteRecords.finish_voteproof
elsewhere_majority = refl

records_found : find Key_discrete point (after in_order nodes two_of_three calls).vrs ≡ some records
unfolding string_discrete find Ballotbox.vote stage_of put new_ballotbox Key_discrete ℤ_discrete
    mitum.Common.ℕ_discrete
records_found = refl

elsewhere_found :
    find Key_discrete point (after in_order nodes two_of_three calls_elsewhere).vrs
    ≡ some records_elsewhere
unfolding string_discrete find Ballotbox.vote stage_of put new_ballotbox Key_discrete ℤ_discrete
    mitum.Common.ℕ_discrete
elsewhere_found = refl

majority_of_run_example :
    (m : BallotFact) × (records.voteproof.majority ≡ some m) × Backed votes_cast 2 m.hash
majority_of_run_example =
    majority_of_run in_order votes_cast (pos 3) 0 stage_init nodes two_of_three (omega arith)
      (omega arith) records_majority

after-RunOf_example : RunOf in_order nodes two_of_three calls point records
after-RunOf_example = after-RunOf in_order nodes two_of_three calls point records records_found

box_agreement_example :
    (f : BallotFact) × (g : BallotFact) × (records.voteproof.majority ≡ some f)
    × (records_elsewhere.voteproof.majority ≡ some g)
    × (n : Address) × WasCast calls point n f.hash
    × WasCast calls_elsewhere point n g.hash
box_agreement_example =
    box_agreement in_order in_order nodes two_of_three calls calls_elsewhere point records
      records_elsewhere (omega arith) (omega arith) (omega arith) records_found elsewhere_found
      records_majority elsewhere_majority

votes_from : FromSuffrage votes_cast nodes
votes_from = (ground arith, (ground arith, tt))

elsewhere_from : FromSuffrage votes_elsewhere nodes
elsewhere_from = (ground arith, (ground arith, tt))

agreement_example :
    (f : BallotFact) × (g : BallotFact) × (records.voteproof.majority ≡ some f)
    × (records_elsewhere.voteproof.majority ≡ some g)
    × (n : Address) × BallotOf votes_cast n f.hash
    × BallotOf votes_elsewhere n g.hash
agreement_example =
    agreement in_order in_order votes_cast votes_elsewhere (pos 3) 0 stage_init nodes two_of_three
      (omega arith) (omega arith) votes_from elsewhere_from (omega arith) records_majority
      elsewhere_majority

vote-keeps_votes_example :
    find string_discrete "annsas"
      (VoteRecords.vote in_order 9 (ballot_of "annsas" "even") records).votes
    ≡ some "odd"
unfolding string_discrete find VoteRecords.vote VoteRecords.add_ballot new_vote_records
    VoteRecords.vote_new VoteRecords.to_be_closed VoteRecords.count_set put VoteRecords.set_result
    Slice.find_majority_from_slice find_majority VoteRecords.finish_voteproof
vote-keeps_votes_example =
    vote-keeps_votes in_order 9 (ballot_of "annsas" "even") records "annsas" {h = "odd"} refl

vote-source_example :
    (find string_discrete "cyrsas" records.votes ≡ some "even")
    ⊎ ((node_of (ballot_of "cyrsas" "even") ≡ "cyrsas")
        × ((raw_fact (ballot_of "cyrsas" "even")).hash ≡ "even"))
unfolding string_discrete find VoteRecords.vote VoteRecords.add_ballot new_vote_records
    VoteRecords.vote_new VoteRecords.to_be_closed VoteRecords.count_set put VoteRecords.set_result
    Slice.find_majority_from_slice find_majority VoteRecords.finish_voteproof
    VoteRecords.close_record
vote-source_example =
    vote-source in_order 9 (ballot_of "cyrsas" "even") records "cyrsas" {h = "even"} refl

vote-IsLatest_example :
    ((can_vote (fact_stage (raw_fact (ballot_of "cyrsas" "odd"))) ≡ true)
      × (Ballotbox.is_inside (node_of (ballot_of "cyrsas" "odd")) nodes ≡ true)
      × ((vp : Voteproof ℕ) × ((Ballotbox.vote in_order 9 nodes two_of_three
              (ballot_of "cyrsas" "odd")
              (after in_order nodes two_of_three calls)).1
            ≡ ok vp))
      × ((l : Ballot ℕ) × ((Ballotbox.vote in_order 9 nodes two_of_three
              (ballot_of "cyrsas" "odd")
              (after in_order nodes two_of_three calls)).0.latest_ballot
            ≡ some l)
          × IsLatest
              (ballot_of "cyrsas" "odd")
              (after in_order nodes two_of_three calls).latest_ballot
              l))
    ⊎ (((can_vote (fact_stage (raw_fact (ballot_of "cyrsas" "odd"))) ≡ false)
          ⊎ (Ballotbox.is_inside (node_of (ballot_of "cyrsas" "odd")) nodes ≡ false))
        × ((e : Error) × (Ballotbox.vote in_order 9 nodes two_of_three
                (ballot_of "cyrsas" "odd")
                (after in_order nodes two_of_three calls)
              ≡ (after in_order nodes two_of_three calls, err e))))
vote-IsLatest_example =
    vote-IsLatest in_order 9 nodes two_of_three (ballot_of "cyrsas" "odd")
      (after in_order nodes two_of_three calls)

clean_lem_example :
    (find Key_discrete point
        (Ballotbox.clean in_order (pos 3) (after in_order nodes two_of_three calls)).vrs
      ≡ none)
    × ((Ballotbox.clean in_order (pos 3) (after in_order nodes two_of_three calls)).latest_ballot
        ≡ (after in_order nodes two_of_three calls).latest_ballot)
clean_lem_example = clean_lem in_order (pos 3) (after in_order nodes two_of_three calls) point
