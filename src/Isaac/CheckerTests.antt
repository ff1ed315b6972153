-- ===== src/Isaac/CheckerTests.antt =====
-- The theorems on the checks at concrete inputs.
use mitum.Common.{
  ℕ, ◌≤◌, ◌<◌, ◌≡◌, refl, ◌⊎◌, inl, inr, ◌↔◌, ◌≢◌, Bool, true, false, List, [], ◌∷◌, Option, none,
  some, arith, string_discrete, length, ap,
}
use mitum.Common.Int.{pos}
use mitum.Common.Errors.{ok, err, failed}
use mitum.Util.Bytes
use mitum.Util.Checks
use mitum.Base.Env
use mitum.Base.Env.{Address, text_bytes}
use mitum.Base.Address
use mitum.Base.Stage
use mitum.Base.VoteResult
use mitum.Base.Threshold
use mitum.Base.Majority
use mitum.Base.Majority.Slice
use mitum.Base.Fact
use mitum.Base.Fact.{Height, proposal}
use mitum.Base.Voteproof
use mitum.Base.Voteproof.{Voteproof}
use mitum.Base.Ballot.{Ballot, node_of, proposal_ballot}
use mitum.Isaac.BallotChecker
use mitum.Isaac.BallotChecker.{LocalView, go_on}
use mitum.Isaac.BallotChecker.Checked.{IsTimely, IsReached, FitsProposal}
use mitum.Isaac.BallotChecker.Passing.{
  check_voteproof_iff, check_new_ballot_unchecked, check_new_ballot_checked,
}
use mitum.Isaac.ProposalChecker
use mitum.Isaac.ProposalChecker.{ProposalStore}
use mitum.Isaac.ProposalChecker.Passing.{IsNext, IsElected, process_proposal_iff}
use mitum.Samples.{in_order, percents, small_env, ballot_of, signed_by, agreed_voteproof}

abbrev view : LocalView ℕ
view = record {
  network_id = [];
  threshold_ratio = 66;
  timespan = 10;
  is_inside = λ a. true;
  local_address = "localsas";
  public_key = λ a. some "key";
  has_channel = λ a. true;
  proposal_fact = λ h. ok none;
  request_proposal = λ h. err failed;
}

abbrev with_voteproof : Ballot ℕ
with_voteproof = record (ballot_of "annsas" "even") { base_voteproof = some agreed_voteproof }

with_voteproof_passes :
    BallotChecker.check_new_ballot small_env percents in_order view 6 none with_voteproof ≡ none
unfolding BallotChecker.check_new_ballot Checks.check BallotChecker.is_from_local
    BallotChecker.in_timespan BallotChecker.in_suffrage BallotChecker.check_signing
    BallotChecker.is_from_alive_node BallotChecker.check_with_last_voteproof
    BallotChecker.check_proposal_in_accept_ballot BallotChecker.check_voteproof
    BallotChecker.voteproof_is_valid BallotChecker.check_threshold BallotChecker.nodes_are_inside
    BallotChecker.check_signing_node BallotChecker.check_proposal_of BallotChecker.within
    Fact.stage_of string_discrete mitum.Common.ℕ_discrete Voteproof.is_valid
    Voteproof.is_valid_fields Checks.check_valid Fact.height_is_valid Stage.is_valid
    Threshold.ratio_is_valid VoteResult.is_valid Voteproof.majority_is_valid Fact.fact_is_valid
    Fact.body_is_valid Fact.is_valid_fact Fact.base_is_valid Env.hash_is_valid Fact.body_bytes
    Bytes.int64_to_bytes Bytes.le_bytes Bytes.int64_bits Address.equal_bytes Address.has_blank
    Address.is_alnum Address.is_blank Address.is_inner Address.is_valid Address.matches_address
    Address.matches_rest Env.concat_bytes Fact.address_is_valid Fact.address_value Fact.base_bytes
    Fact.fact_sign_is_valid Fact.has_hash Fact.hash_value Fact.init_bytes
    Fact.is_valid_ballot_fact_sign Fact.opt_bytes Fact.proposer_signed Fact.signed_fact_is_valid
    Fact.text_value Slice.collect_keys Slice.count_votes Slice.key_at Majority.decide_majority
    Majority.find_majority Majority.first_over Majority.sum_from Threshold.is_valid
    Threshold.new_threshold Voteproof.count_distinct Voteproof.facts_are_valid Voteproof.find_fact
    Voteproof.is_valid_check_majority Voteproof.is_valid_counts Voteproof.is_valid_facts
    Voteproof.match_recount Voteproof.recount Voteproof.tail_is_valid Voteproof.vote_hashes
    Voteproof.votes_are_valid mitum.Common.Dict.find mitum.Common.Dict.put Bytes.uint64_to_bytes
with_voteproof_passes = refl

not_local : view.local_address ≢ node_of with_voteproof
not_local e = omega (arith, ap (λ s. length (text_bytes s)) e)

check_new_ballot_checked_example :
    IsTimely view 6 with_voteproof
    × (view.public_key "annsas" ≡ some "key")
    × IsReached view with_voteproof
    × FitsProposal view with_voteproof
    × ((vp : Voteproof ℕ) × (some agreed_voteproof ≡ some vp)
        × (Voteproof.is_valid percents small_env in_order [] vp ≡ none))
check_new_ballot_checked_example =
    check_new_ballot_checked small_env percents in_order view 6 none with_voteproof
      with_voteproof_passes not_local refl tt

check_new_ballot_unchecked_example :
    BallotChecker.check_new_ballot small_env percents in_order view 900 none
      (ballot_of "localsas" "forged")
    ≡ none
check_new_ballot_unchecked_example =
    check_new_ballot_unchecked small_env percents in_order view 900 none
      (ballot_of "localsas" "forged") (inl refl)

check_voteproof_iff_example :
    ((BallotChecker.check_voteproof small_env percents in_order view with_voteproof).1 ≡ none) ↔ (
      (vp : Voteproof ℕ) × (some agreed_voteproof ≡ some vp)
      × (Voteproof.is_valid percents small_env in_order [] vp ≡ none))
check_voteproof_iff_example = check_voteproof_iff small_env percents in_order view with_voteproof

abbrev store : ProposalStore ℕ
store = record {
  Db = ℕ;
  has_proposal = λ db h. ok false;
  new_proposal = λ db pr. (db, none);
  last_manifest = λ db. ok (some (pos 2));
  acting_proposer = λ height round. ok "bobsas";
}

abbrev bobs_proposal : Ballot ℕ
bobs_proposal = record {
  type = proposal_ballot;
  signed_fact =
      signed_by "bobsas"
        (record { hash = "even"; height = pos 3; round = 0; body = proposal (some "bobsas") [] 4 });
  signed_at = 5;
  base_voteproof = some agreed_voteproof;
  accept_voteproof = none;
}

process_proposal_iff_example :
    (ProposalChecker.process_proposal_checks store view (some agreed_voteproof) bobs_proposal 0
      ≡ none)
    ↔ (IsNext store view (some agreed_voteproof) bobs_proposal 0
        × IsElected store view bobs_proposal)
process_proposal_iff_example =
    process_proposal_iff store view (some agreed_voteproof) bobs_proposal 0
