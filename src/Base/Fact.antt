-- ===== src/Base/Fact.antt =====
-- base/ballot/fact.go, init.go, accept.go, proposal.go and base/ballot_fact_sign.go: the facts that
-- are voted on, and their signatures. The hint of a fact is the constructor of its body.
pub mod Commit
use mitum.Common.{
  ℕ, String, Bool, true, false, List, [], ◌∷◌, ◌++◌, Option, none, some, ltb, leb, ◌==◌,
  if◌then◌else◌, string_discrete, ite, not,
}
use mitum.Common.Int.{ℤ, pos, negsuc, ltb_ℤ, leb_ℤ}
use mitum.Common.Errors.{Error, invalid, panicked}
use mitum.Util.Bytes.{Bytes, int64_to_bytes, uint64_to_bytes}
use mitum.Util.Checks.{check_valid, value, Validity}
use mitum.Base.Address
use mitum.Base.Env.{Env, Hash, Address, Time, text_bytes, concat_bytes, hash_is_valid}
use mitum.Base.Stage.{Stage, stage_init, stage_proposal, stage_accept}

abbrev pub Height : Type 0
Height = ℤ

abbrev pub pre_genesis_height : Height
pre_genesis_height = negsuc 0

-- base/height.go.
unfoldable pub height_is_valid : Height → Option Error
height_is_valid ht = if ltb_ℤ ht pre_genesis_height then some invalid else none

pub data FactBody : Type 0 where
  init : (previous_block : Option Hash) → FactBody
  proposal :
      (proposer : Option Address) → (ops : List (Option Hash)) → (proposed_at : Time) → FactBody
  accept : (proposal_hash new_block : Option Hash) → FactBody

pub record BallotFact : Type 0 where
  pub hash : Hash
  pub height : Height
  pub round : ℕ
  pub body : FactBody

unfoldable pub stage_of : FactBody → Stage
stage_of (init _) = stage_init
stage_of (proposal _ _ _) = stage_proposal
stage_of (accept _ _) = stage_accept

pub record FactSign : Type 0 where
  pub node : Address
  pub signer : String
  pub signature : String
  pub signed_at : Time

pub record SignedBallotFact : Type 0 where
  pub fact : BallotFact
  pub sign : FactSign

unfoldable pub has_hash : Hash → List Hash → Bool
has_hash h [] = false
has_hash h (g ∷ founds) = ite (string_discrete g h) true (has_hash h founds)

-- The addresses of the repository are string addresses, of the type "sas".
unfoldable pub address_is_valid : Address → Option Error
address_is_valid a = Address.is_valid (text_bytes "sas") (text_bytes a)

unfoldable pub address_value : Option Address → Validity
address_value none = none
address_value (some a) = value (address_is_valid a)

-- A public key or a signature: nil and empty ones are "".
unfoldable pub text_value : String → Validity
text_value t = ite (string_discrete t "") none (value none)

module _ (env : Env) where
  open env use {sha256, hash_bytes, time_bytes}

  -- The bytes of a hash that may be nil.
  unfoldable pub opt_bytes : Option Hash → Bytes
  opt_bytes none = []
  opt_bytes (some h) = hash_bytes h

  unfoldable pub opt_text : Option Address → Bytes
  opt_text none = []
  opt_text (some a) = text_bytes a

  unfoldable pub base_bytes : Height → ℕ → Bytes
  unfolding concat_bytes
  base_bytes height round = concat_bytes (int64_to_bytes height ∷ uint64_to_bytes round ∷ [])

  unfoldable pub ops_bytes : List (Option Hash) → Bytes
  unfolding opt_bytes
  ops_bytes [] = []
  ops_bytes (h ∷ ops) = opt_bytes h ++ ops_bytes ops

  unfoldable pub init_bytes : Height → ℕ → Option Hash → Bytes
  unfolding base_bytes opt_bytes
  init_bytes height round previous_block =
      concat_bytes (base_bytes height round ∷ opt_bytes previous_block ∷ [])

  unfoldable pub proposal_bytes : Height → ℕ → Option Address → List (Option Hash) → Time → Bytes
  unfolding base_bytes opt_text ops_bytes
  proposal_bytes height round proposer ops proposed_at =
      concat_bytes
        (base_bytes height round ∷ opt_text proposer ∷ ops_bytes ops ∷ time_bytes proposed_at ∷ [])

  -- Both assignments of the source go to `bp`, and `bb` stays nil.
  unfoldable pub accept_bytes : Height → ℕ → Option Hash → Option Hash → Bytes
  unfolding base_bytes opt_bytes
  accept_bytes height round proposal_hash new_block =
      let bp : Bytes = opt_bytes proposal_hash in
      let bp' : Bytes = elim new_block [ none ↦ bp | some h ↦ hash_bytes h ] in
      concat_bytes (base_bytes height round ∷ bp' ∷ [] ∷ [])

  unfoldable pub body_bytes : Height → ℕ → FactBody → Bytes
  unfolding init_bytes proposal_bytes accept_bytes
  body_bytes height round (init previous_block) = init_bytes height round previous_block
  body_bytes height round (proposal proposer ops at) = proposal_bytes height round proposer ops at
  body_bytes height round (accept proposal_hash new_block) =
      accept_bytes height round proposal_hash new_block

  -- `NewINITFact`, `NewProposalFact` and `NewACCEPTFact`.
  unfoldable pub new_fact : Height → ℕ → FactBody → BallotFact
  new_fact height round body = record {
    hash = sha256 (body_bytes height round body);
    height = height;
    round = round;
    body = body;
  }

  -- A hash as a value for `isvalid.Check`.
  unfoldable pub hash_value : Option Hash → Validity
  hash_value none = none
  hash_value (some h) = value (hash_is_valid env h)

  -- `BaseFact.IsValid`.
  unfoldable pub base_is_valid : BallotFact → Option Error
  base_is_valid fact =
      elim (check_valid false
        (value (hash_is_valid env fact.hash) ∷ value (height_is_valid fact.height) ∷ [])) [
          | some _ ↦ some invalid
          | none ↦ if leb_ℤ fact.height pre_genesis_height then some invalid else none
        ]

  -- `isValidFact`.
  unfoldable pub is_valid_fact : BallotFact → Option Error
  is_valid_fact fact = elim (base_is_valid fact) [
    | some _ ↦ some invalid
    | none ↦
        ite (string_discrete fact.hash (sha256 (body_bytes fact.height fact.round fact.body))) none
          (some invalid)
  ]

  -- The loop over the operations of a proposal.
  unfoldable pub ops_are_valid : List Hash → List (Option Hash) → Option Error
  ops_are_valid founds [] = none
  ops_are_valid founds (none ∷ ops) = some invalid
  ops_are_valid founds (some h ∷ ops) =
      let rest = ops_are_valid (h ∷ founds) ops in
      elim (hash_is_valid env h) [
        | some _ ↦ some invalid
        | none ↦ if has_hash h founds then some invalid else rest
      ]

  -- `IsValid` of the three facts.
  unfoldable pub body_is_valid : BallotFact → FactBody → Option Error
  body_is_valid fact (init previous_block) = elim (is_valid_fact fact) [
    | some e ↦ some e
    | none ↦ check_valid false (hash_value previous_block ∷ [])
  ]
  body_is_valid fact (accept proposal_hash new_block) = elim (is_valid_fact fact) [
    | some e ↦ some e
    | none ↦ check_valid false (hash_value proposal_hash ∷ hash_value new_block ∷ [])
  ]
  body_is_valid fact (proposal proposer ops proposed_at) =
      if proposed_at == 0 then some invalid else elim (is_valid_fact fact) [
        | some e ↦ some e
        | none ↦ elim (check_valid false (address_value proposer ∷ [])) [
          | some e ↦ some e
          | none ↦ ops_are_valid [] ops
        ]
      ]

  unfoldable pub fact_is_valid : BallotFact → Option Error
  fact_is_valid fact = body_is_valid fact fact.body

  -- `BaseBallotFactSign.IsValid`.
  unfoldable pub fact_sign_is_valid : FactSign → Option Error
  fact_sign_is_valid fs =
      let base : Option Error =
        if fs.signed_at == 0
        then some invalid
        else check_valid false (text_value fs.signer ∷ text_value fs.signature ∷ []) in
      elim (check_valid false (value (address_is_valid fs.node) ∷ value base ∷ [])) [
        | some _ ↦ some invalid
        | none ↦ none
      ]

  -- The proposer of a proposal has to sign it.
  unfoldable pub proposer_signed : FactBody → Address → Option Error
  proposer_signed (proposal (some proposer) _ _) node =
      ite (string_discrete proposer node) none (some invalid)
  proposer_signed (proposal none _ _) node = some panicked
  proposer_signed _ _ = none

  -- `IsValidBallotFactSign`: `Verify` reads the hash of the fact, the time and the network id.
  unfoldable pub is_valid_ballot_fact_sign : BallotFact → FactSign → Bytes → Option Error
  is_valid_ballot_fact_sign fact fs network_id = ite (string_discrete fact.hash "") (some invalid) (
      ite (string_discrete fs.signer "") (some invalid) (
        ite (string_discrete fs.signature "") (some invalid) (
          if fs.signed_at == 0 then some invalid else elim (proposer_signed fact.body fs.node) [
            | some e ↦ some e
            | none ↦
                if env.verify fs.signer
                  (concat_bytes (hash_bytes fact.hash ∷ time_bytes fs.signed_at ∷ network_id ∷ []))
                  fs.signature
                then none
                else some invalid
          ])))

  -- `BaseSignedBallotFact.IsValid`.
  unfoldable pub signed_fact_is_valid : Bytes → SignedBallotFact → Option Error
  signed_fact_is_valid network_id sfs =
      elim (check_valid false
        (value (fact_is_valid sfs.fact) ∷ value (fact_sign_is_valid sfs.sign) ∷ [])) [
          | some e ↦ some e
          | none ↦ is_valid_ballot_fact_sign sfs.fact sfs.sign network_id
        ]
