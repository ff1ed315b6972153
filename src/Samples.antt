-- ===== src/Samples.antt =====
-- A small network for the examples: a stand-in for the functions from outside, nodes and ballots.
use mathlib.Core.List.Permᴰ
use mitum.Common.{
  ℕ, ◌+◌, ◌*◌, ◌/◌, ◌%◌, ◌≡◌, refl, string_discrete, ℕ_discrete, true, List, [], ◌∷◌, none, some,
  ltb, ◌==◌, if◌then◌else◌,
}
use mitum.Common.Dict.{MapRange}
use mitum.Common.Int.{pos}
use mitum.Util.Bytes.{Bytes}
use mitum.Base.Env.{Env, Hash, Address, Time, text_bytes}
use mitum.Base.Stage.{Stage, stage_init}
use mitum.Base.Threshold.{RatioOps, Threshold}
use mitum.Base.Fact.{BallotFact, FactBody, init, SignedBallotFact}
use mitum.Base.VoteResult.{majority}
use mitum.Base.VoteResult
use mitum.Base.Threshold
use mitum.Base.Majority
use mitum.Base.Majority.Slice
use mitum.Base.Fact
use mitum.Base.Address
use mitum.Base.Env
use mitum.Base.Stage
use mitum.Base.Voteproof
use mitum.Util.Bytes
use mitum.Util.Checks
use mitum.Common.Dict
use mitum.Base.Voteproof.{Voteproof}
use mitum.Base.Ballot.{Ballot, init_ballot}

-- The runtime ranges over a map in the order of its list.
abbrev pub in_order : MapRange
in_order = record { order = λ A l. l; order-perm = λ A l. Permᴰ.refl l }

-- Ratios in whole percents.
abbrev pub percents : RatioOps
percents = record {
  Ratio = ℕ;
  lt_one = λ r. ltb r 1;
  gt_hundred = λ r. ltb 100 r;
  equal = λ r s. r == s;
  ceil_share = λ n r. (n * r + 99) / 100;
}

abbrev sum : Bytes → ℕ
sum [] = 0
sum (b ∷ bs) = b + sum bs

-- A sum of two values in place of SHA-256, and signatures that all verify.
abbrev pub small_env : Env
small_env = record {
  sha256 = λ bs. if (sum bs % 2) == 0 then "even" else "odd";
  hash_bytes = text_bytes;
  time_bytes = λ t. t ∷ [];
  verify = λ key msg sig. true;
}

abbrev pub nodes : List Address
nodes = "annsas" ∷ "bobsas" ∷ "cyrsas" ∷ []

abbrev pub two_of_three : Threshold ℕ
two_of_three = record { total = 3; threshold = 2; ratio = 66 }

abbrev pub init_fact : Hash → BallotFact
init_fact h = record { hash = h; height = pos 3; round = 0; body = init (some "block") }

abbrev pub signed_by : Address → BallotFact → SignedBallotFact
signed_by n f = record {
  fact = f;
  sign = record { node = n; signer = "key"; signature = "sig"; signed_at = 5 };
}

abbrev pub ballot_of : Address → Hash → Ballot ℕ
ballot_of n h = record {
  type = init_ballot;
  signed_fact = signed_by n (init_fact h);
  signed_at = 5;
  base_voteproof = none;
  accept_voteproof = none;
}

-- A voteproof of two votes for one fact.
abbrev pub agreed_voteproof : Voteproof ℕ
agreed_voteproof = record {
  height = pos 3;
  round = 0;
  suffrages = nodes;
  threshold_ratio = 66;
  result = majority;
  closed = true;
  stage = stage_init;
  majority = some (init_fact "even");
  facts = init_fact "even" ∷ [];
  votes = signed_by "annsas" (init_fact "even") ∷ signed_by "bobsas" (init_fact "even") ∷ [];
  finished_at = 9;
}

pub agreed_valid : Voteproof.is_valid percents small_env in_order [] agreed_voteproof ≡ none
unfolding string_discrete ℕ_discrete Voteproof.is_valid Voteproof.is_valid_fields Checks.check_valid
    Fact.height_is_valid Stage.is_valid Threshold.ratio_is_valid VoteResult.is_valid
    Voteproof.majority_is_valid Fact.fact_is_valid Fact.body_is_valid Fact.is_valid_fact
    Fact.base_is_valid Env.hash_is_valid Fact.body_bytes Bytes.int64_to_bytes Bytes.le_bytes
    Bytes.int64_bits Address.equal_bytes Address.has_blank Address.is_alnum Address.is_blank
    Address.is_inner Address.is_valid Address.matches_address Address.matches_rest Env.concat_bytes
    Fact.address_is_valid Fact.address_value Fact.base_bytes Fact.fact_sign_is_valid Fact.has_hash
    Fact.hash_value Fact.init_bytes Fact.is_valid_ballot_fact_sign Fact.opt_bytes
    Fact.proposer_signed Fact.signed_fact_is_valid Fact.text_value Slice.collect_keys
    Slice.count_votes Slice.key_at Majority.decide_majority Majority.find_majority
    Majority.first_over Majority.sum_from Threshold.is_valid Threshold.new_threshold
    Voteproof.count_distinct Voteproof.facts_are_valid Voteproof.find_fact
    Voteproof.is_valid_check_majority Voteproof.is_valid_counts Voteproof.is_valid_facts
    Voteproof.match_recount Voteproof.recount Voteproof.tail_is_valid Voteproof.vote_hashes
    Voteproof.votes_are_valid Dict.find Dict.put Bytes.uint64_to_bytes
agreed_valid = refl
