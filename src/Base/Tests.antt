-- ===== src/Base/Tests.antt =====
-- The theorems of the package at concrete inputs.
use mitum.Common.{
  ℕ, ◌+◌, ◌≤◌, ◌<◌, min, ◌≡◌, ◌≢◌, refl, ◌⊎◌, inl, inr, ◌↔◌, Bool, true, false, String, List, [],
  ◌∷◌, ◌++◌, Option, none, some, arith, string_discrete, ℕ_discrete, length,
}
use mitum.Common.Int.{pos, negsuc, ◌+ℤ◌, wrap_int64}
use mitum.Util.Bytes
use mitum.Util.Bytes.{Bytes}
use mitum.Util.Checks
use mitum.Base.Env
use mitum.Base.Env.{Hash, text_bytes}
use mitum.Base.Address
use mitum.Base.Stage
use mitum.Base.Stage.{
  stage_init, stage_accept, stage_proposal, unmarshal_text-string, can_vote-is_valid,
}
use mitum.Base.VoteResult.{majority, draw}
use mitum.Base.Threshold
use mitum.Base.Threshold.{must_new_threshold-new_threshold}
use mitum.Base.Majority
use mitum.Base.Majority.Slice
use mitum.Base.Majority.Slice.Counts.{votes_for}
use mitum.Base.Majority.Slice.Verdict.{
  Verdict, find_majority_from_slice-Verdict, find_majority_from_slice_complete,
}
use mitum.Base.Fact
use mitum.Base.Fact.{BallotFact, FactBody, init, accept}
use mitum.Base.Fact.Commit.{with_proposal, accept_swap_proposal, init_hash_commits}
use mitum.Base.Voteproof
use mitum.Base.Voteproof.{Voteproof}
use mitum.Base.Voteproof.Order.{Later, SamePoint, compare_voteproof_iff}
use mitum.Base.Voteproof.Evidence.{required, is_valid_finished, is_valid_majority}
use mitum.Base.Voteproof.Duplicates.{duplicated, duplicated-is_valid}
use mitum.Base.Ballot
use mitum.Base.Ballot.{Ballot, raw_fact, accept_ballot, init_ballot, init_accept_voteproof}
use mitum.Base.Ballot.Point.{init_follows_base}
use mitum.Samples.{
  in_order, percents, small_env, nodes, init_fact, signed_by, ballot_of, agreed_voteproof,
  agreed_valid,
}

abbrev votes : List String
votes = "even" ∷ "odd" ∷ "even" ∷ []

abbrev later_voteproof : Voteproof ℕ
later_voteproof = record agreed_voteproof { round = 1 }

find_majority_from_slice_complete_run :
    Slice.find_majority_from_slice in_order 3 2 votes ≡ (majority, "even")
unfolding string_discrete Slice.find_majority_from_slice Majority.find_majority
    mitum.Common.Dict.put mitum.Common.Dict.find ℕ_discrete
find_majority_from_slice_complete_run = refl

signed_valid : Fact.signed_fact_is_valid small_env [] (signed_by "annsas" (init_fact "even")) ≡ none
unfolding string_discrete ℕ_discrete Checks.check_valid Fact.height_is_valid Fact.fact_is_valid
    Fact.body_is_valid Fact.is_valid_fact Fact.base_is_valid Env.hash_is_valid Fact.body_bytes
    Bytes.int64_to_bytes Bytes.le_bytes Bytes.int64_bits Address.equal_bytes Address.has_blank
    Address.is_alnum Address.is_blank Address.is_inner Address.is_valid Address.matches_address
    Address.matches_rest Env.concat_bytes Fact.address_is_valid Fact.base_bytes
    Fact.fact_sign_is_valid Fact.hash_value Fact.init_bytes Fact.is_valid_ballot_fact_sign
    Fact.opt_bytes Fact.proposer_signed Fact.signed_fact_is_valid Fact.text_value
    Bytes.uint64_to_bytes
signed_valid = refl

find_majority_from_slice-Verdict_example :
    Verdict 4 3 votes (Slice.find_majority_from_slice in_order 4 3 votes)
find_majority_from_slice-Verdict_example =
    find_majority_from_slice-Verdict in_order 4 3 votes (omega arith) (omega arith)

find_majority_from_slice_complete_example :
    Slice.find_majority_from_slice in_order 3 2 votes ≡ (majority, "even")
find_majority_from_slice_complete_example =
    find_majority_from_slice_complete in_order 3 2 votes "even" (omega arith) (omega arith)
      (omega arith) (omega arith) (ground arith)

compare_voteproof_iff_example :
    ((Voteproof.compare_voteproof (some agreed_voteproof) (some later_voteproof) ≡ pos 1)
      ↔ Later agreed_voteproof later_voteproof)
    × ((Voteproof.compare_voteproof (some agreed_voteproof) (some later_voteproof) ≡ negsuc 0)
        ↔ Later later_voteproof agreed_voteproof)
    × ((Voteproof.compare_voteproof (some agreed_voteproof) (some later_voteproof) ≡ pos 0) ↔ (
        SamePoint agreed_voteproof later_voteproof
        × (agreed_voteproof.stage ≡ later_voteproof.stage)))
compare_voteproof_iff_example = compare_voteproof_iff agreed_voteproof later_voteproof

is_valid_finished_example :
    ((agreed_voteproof.result ≡ majority) ⊎ (agreed_voteproof.result ≡ draw))
    × (required percents small_env agreed_voteproof ≤ 2)
    × (required percents small_env agreed_voteproof ≤ 3)
is_valid_finished_example =
    is_valid_finished percents small_env in_order [] agreed_voteproof agreed_valid

is_valid_majority_example :
    (m : BallotFact) × (some (init_fact "even") ≡ some m)
    × (required percents small_env agreed_voteproof
        ≤ votes_for m.hash (Voteproof.vote_hashes agreed_voteproof.votes))
is_valid_majority_example =
    is_valid_majority percents small_env in_order [] agreed_voteproof agreed_valid refl
      (omega arith)

duplicated-is_valid_example :
    Voteproof.is_valid percents small_env in_order [] (
      duplicated percents small_env in_order
        (pos 8)
        5
        nodes
        66
        stage_accept
        9
        (signed_by "annsas" (init_fact "even"))
        1)
    ≡ none
unfolding string_discrete Fact.height_is_valid Stage.is_valid Threshold.new_threshold
duplicated-is_valid_example =
    duplicated-is_valid percents small_env in_order [] (pos 8) 5 nodes 66 stage_accept 9
      (signed_by "annsas" (init_fact "even")) 1 signed_valid refl refl (omega arith) refl
      (omega arith) (omega arith)

abbrev accept_majority : Voteproof ℕ
accept_majority = record agreed_voteproof { height = pos 2; stage = stage_accept }

abbrev next_init : Ballot ℕ
next_init = record (ballot_of "annsas" "even") { base_voteproof = some accept_majority }

next_init_valid : Ballot.init_is_valid_voteproofs next_init ≡ none
unfolding Ballot.init_is_valid_voteproofs wrap_int64
next_init_valid = refl

init_follows_base_example :
    (((raw_fact next_init).height ≡ pos 2 +ℤ pos 1) × ((raw_fact next_init).round ≡ 0))
    ⊎ (((raw_fact next_init).height ≡ pos 2) × ((raw_fact next_init).round ≡ 0 + 1))
init_follows_base_example =
    init_follows_base next_init accept_majority next_init_valid refl (inr refl) (omega arith)
      (omega arith)

abbrev accept_fact : BallotFact
accept_fact = record {
  hash = "odd";
  height = pos 3;
  round = 0;
  body = accept (some "proposal") (some "a");
}

abbrev accepting : Ballot ℕ
accepting = record {
  type = accept_ballot;
  signed_fact = signed_by "annsas" accept_fact;
  signed_at = 5;
  base_voteproof = some agreed_voteproof;
  accept_voteproof = none;
}

accept_valid : Fact.fact_is_valid small_env (with_proposal small_env accept_fact "one" "b") ≡ none
unfolding string_discrete ℕ_discrete Checks.check_valid Fact.height_is_valid Fact.fact_is_valid
    Fact.body_is_valid Fact.is_valid_fact Fact.base_is_valid Env.hash_is_valid Fact.body_bytes
    Bytes.int64_to_bytes Bytes.le_bytes Bytes.int64_bits Env.concat_bytes Fact.base_bytes
    Fact.hash_value Fact.accept_bytes Fact.opt_bytes Bytes.uint64_to_bytes
accept_valid = refl

accept_swap_proposal_example :
    Fact.fact_is_valid small_env (with_proposal small_env accept_fact "other" "b") ≡ none
unfolding Env.hash_is_valid
accept_swap_proposal_example =
    accept_swap_proposal small_env accept_fact "one" "other" "b" accept_valid refl

fact_valid : Fact.fact_is_valid small_env (init_fact "even") ≡ none
unfolding string_discrete ℕ_discrete Checks.check_valid Fact.height_is_valid Fact.fact_is_valid
    Fact.body_is_valid Fact.is_valid_fact Fact.base_is_valid Env.hash_is_valid Fact.body_bytes
    Bytes.int64_to_bytes Bytes.le_bytes Bytes.int64_bits Env.concat_bytes Fact.base_bytes
    Fact.hash_value Fact.init_bytes Fact.opt_bytes Bytes.uint64_to_bytes
fact_valid = refl

init_hash_commits_example :
    (pos 3 ≡ pos 3)
      × ((init_fact "even").round ≡ 0)
      × (Fact.opt_bytes small_env (some "block") ≡ Fact.opt_bytes small_env (some "block"))
    ⊎ ((x : Bytes) × (y : Bytes) × (x ≢ y) × (small_env.sha256 x ≡ small_env.sha256 y))
init_hash_commits_example =
    init_hash_commits small_env (init_fact "even") (init_fact "even") (some "block") (some "block")
      refl refl ((omega arith, omega arith), omega arith) ((omega arith, omega arith), omega arith)
      fact_valid fact_valid refl
