-- ===== src/Base/Fact/Commit.antt =====
-- What the hash of a ballot fact commits to, and what it does not.
use mitum.Common.{
  ℕ, ◌<◌, ◌≡◌, refl, sym, ap, ◌∙◌, ◌≢◌, ◌⊎◌, inl, inr, ◌++◌, Option, none, some, arith, ℕ_discrete,
  drop,
}
use mathlib.Core.List.{append-nil, append_assoc}
use mitum.Common.Int.{ℤ, pos, negsuc, ◌≤ℤ◌}
use mitum.Util.Bytes.{
  Bytes, uint64_to_bytes, bytes_to_int64, bytes_to_int64-int64_to_bytes, uint64_to_bytes-injective,
  drop-int64_to_bytes, drop-uint64_to_bytes,
}
use mitum.Util.Checks.{check_valid}
use mitum.Base.Env.{Env, Hash, concat_bytes, hash_is_valid}
use mitum.Base.Fact.{
  Height, BallotFact, FactBody, init, accept, proposal, opt_bytes, base_bytes, init_bytes,
  accept_bytes, body_bytes, base_is_valid, is_valid_fact, hash_value, body_is_valid, fact_is_valid,
}

-- The heights of an `int64`.
abbrev pub IsInt64 : ℤ → Type 0
IsInt64 i = (negsuc 9223372036854775807 ≤ℤ i) × (i ≤ℤ pos 9223372036854775807)

abbrev pub IsUint64 : ℕ → Type 0
IsUint64 n = n < 18446744073709551616

bytes_discrete : Discrete Bytes
bytes_discrete = hlevel ℕ_discrete

module _ (env : Env) where
  -- The bytes of an ACCEPT fact with a new block are the same for every proposal.
  accept_bytes_any_proposal :
      (height : Height) (round : ℕ) (p p' : Option Hash) (b : Hash)
      → accept_bytes env height round p (some b) ≡ accept_bytes env height round p' (some b)
  unfolding accept_bytes
  accept_bytes_any_proposal height round p p' b = refl

  -- The same fact on another proposal.
  abbrev pub with_proposal : BallotFact → Hash → Hash → BallotFact
  with_proposal fact p b = record fact { body = accept (some p) (some b) }

  is_valid_fact_any_proposal :
      (fact : BallotFact) (p p' b : Hash)
      → is_valid_fact env (with_proposal fact p b) ≡ is_valid_fact env (with_proposal fact p' b)
  unfolding is_valid_fact base_is_valid body_bytes accept_bytes
  is_valid_fact_any_proposal fact p p' b = refl

  -- The hash of an ACCEPT fact does not commit to its proposal: put any other valid hash in its
  -- place, and the fact with the old hash stays valid.
  pub accept_swap_proposal :
      (fact : BallotFact) (p p' b : Hash)
      → fact_is_valid env (with_proposal fact p b) ≡ none
      → hash_is_valid env p' ≡ none
      → fact_is_valid env (with_proposal fact p' b) ≡ none
  unfolding fact_is_valid body_is_valid hash_value check_valid
  accept_swap_proposal fact p p' b valid ok_p' =
      ground (arith, is_valid_fact_any_proposal fact p p' b)

  is_valid_fact_parts :
      (fact : BallotFact)
      → is_valid_fact env fact ≡ none
      → (fact.hash ≡ env.sha256 (body_bytes env fact.height fact.round fact.body))
        × (pos 0 ≤ℤ fact.height)
  unfolding is_valid_fact base_is_valid
  is_valid_fact_parts fact valid = ground arith

  body_is_valid-is_valid_fact :
      (fact : BallotFact) (body : FactBody)
      → body_is_valid env fact body ≡ none
      → is_valid_fact env fact ≡ none
  unfolding body_is_valid
  body_is_valid-is_valid_fact fact (init h) valid = ground arith
  body_is_valid-is_valid_fact fact (accept p b) valid = ground arith
  body_is_valid-is_valid_fact fact (proposal p ops at) valid = ground arith

  -- A fact without error has the hash of its bytes, and a height of at least 0.
  pub fact_is_valid-hash :
      (fact : BallotFact)
      → fact_is_valid env fact ≡ none
      → (fact.hash ≡ env.sha256 (body_bytes env fact.height fact.round fact.body))
        × (pos 0 ≤ℤ fact.height)
  unfolding fact_is_valid
  fact_is_valid-hash fact valid =
      is_valid_fact_parts fact (body_is_valid-is_valid_fact fact fact.body valid)

  -- The bytes of an INIT fact determine its height, its round and the bytes of the block.
  init_bytes-injective :
      (h h' : Height) (r r' : ℕ) (b b' : Option Hash)
      → IsInt64 h
      → IsInt64 h'
      → IsUint64 r
      → IsUint64 r'
      → init_bytes env h r b ≡ init_bytes env h' r' b'
      → (h ≡ h') × (r ≡ r') × (opt_bytes env b ≡ opt_bytes env b')
  unfolding init_bytes base_bytes concat_bytes
  init_bytes-injective h h' r r' b b' hh hh' hr hr' e =
      let e₁ = simp (append_assoc, append-nil) at e in
      let x = uint64_to_bytes r ++ opt_bytes env b in
      let y = uint64_to_bytes r' ++ opt_bytes env b' in
      let same_height : h ≡ h' = cc (
        bytes_to_int64-int64_to_bytes h x hh.0 hh.1,
        bytes_to_int64-int64_to_bytes h' y hh'.0 hh'.1,
        ap bytes_to_int64 e₁,
      ) in
      let e₂ : x ≡ y = sym (drop-int64_to_bytes h x) ∙ ap (drop 8) e₁ ∙ drop-int64_to_bytes h' y in
      (
        same_height,
        uint64_to_bytes-injective r r' (opt_bytes env b) (opt_bytes env b') hr hr' e₂,
        sym (drop-uint64_to_bytes r (opt_bytes env b))
            ∙ ap (drop 8) e₂
            ∙ drop-uint64_to_bytes r' (opt_bytes env b'),
      )

  -- Two INIT facts without error and with one hash have the same height, round and bytes of the
  -- previous block, or else two different inputs of SHA-256 with one sum are at hand.
  pub init_hash_commits :
      (f g : BallotFact) (b b' : Option Hash)
      → f.body ≡ init b
      → g.body ≡ init b'
      → IsInt64 f.height × IsUint64 f.round
      → IsInt64 g.height × IsUint64 g.round
      → fact_is_valid env f ≡ none
      → fact_is_valid env g ≡ none
      → f.hash ≡ g.hash
      → (f.height ≡ g.height) × (f.round ≡ g.round) × (opt_bytes env b ≡ opt_bytes env b')
        ⊎ ((x : Bytes) × (y : Bytes) × (x ≢ y) × (env.sha256 x ≡ env.sha256 y))
  unfolding body_bytes
  init_hash_commits f g b b' fb gb hf hg vf vg same =
      let x = init_bytes env f.height f.round b in
      let y = init_bytes env g.height g.round b' in
      let hx : f.hash ≡ env.sha256 x =
        (fact_is_valid-hash f vf).0 ∙ ap (λ t. env.sha256 (body_bytes env f.height f.round t)) fb in
      let hy : g.hash ≡ env.sha256 y =
        (fact_is_valid-hash g vg).0 ∙ ap (λ t. env.sha256 (body_bytes env g.height g.round t)) gb in
      elim (bytes_discrete x y) [
        | yes e ↦
            inl (init_bytes-injective f.height g.height f.round g.round b b' hf.0 hg.0 hf.1 hg.1 e)
        | no ne ↦ inr (x, y, ne, sym hx ∙ same ∙ hy)
      ]
