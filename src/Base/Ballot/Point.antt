-- ===== src/Base/Ballot/Point.antt =====
-- The height and round of a ballot against those of the voteproofs that it carries.
use mitum.Common.{◌+◌, ◌<◌, ◌≡◌, ◌⊎◌, inl, inr, none, some, arith, Option-cases}
use mitum.Common.Int.{pos, ◌+ℤ◌, ◌-ℤ◌, eqb_ℤ_iff, wrap_int64, IsInt64, wrap_int64-IsInt64}
use mitum.Base.Stage.{stage_init, stage_accept}
use mitum.Base.VoteResult.{majority}
use mitum.Base.Voteproof.{Voteproof}
use mitum.Base.Ballot.{
  Ballot, raw_fact, init_is_valid_voteproofs, init_accept_voteproof,
  is_valid_base_voteproof_after_init,
}

module _ {Ratio : Type 0} where
  abbrev pub VotedStage : Voteproof Ratio → Type 0
  VotedStage vp = (vp.stage ≡ stage_init) ⊎ (vp.stage ≡ stage_accept)

  -- The point of an INIT ballot without error, whose base voteproof is of the stage INIT or ACCEPT, is
  -- behind that of the base voteproof, if the height and the round of that voteproof are not the
  -- greatest that an int64 and a uint64 hold: the height is greater by one and the round is 0, or the
  -- height is the same and the round is greater by one.
  pub init_follows_base :
      (sl : Ballot Ratio) (vp : Voteproof Ratio)
      → init_is_valid_voteproofs sl ≡ none
      → sl.base_voteproof ≡ some vp
      → VotedStage vp
      → IsInt64 (vp.height +ℤ pos 1)
      → vp.round + 1 < 18446744073709551616
      → (((raw_fact sl).height ≡ vp.height +ℤ pos 1) × ((raw_fact sl).round ≡ 0))
        ⊎ (((raw_fact sl).height ≡ vp.height) × ((raw_fact sl).round ≡ vp.round + 1))
  unfolding init_is_valid_voteproofs
  init_follows_base sl vp valid based stage high small =
      let next = wrap_int64-IsInt64 (vp.height +ℤ pos 1) high in
      ground (
        arith,
        next,
        eqb_ℤ_iff (raw_fact sl).height vp.height,
        eqb_ℤ_iff (raw_fact sl).height (wrap_int64 (vp.height +ℤ pos 1)),
      )

  -- An INIT ballot without error carries an ACCEPT voteproof, on its own or as its base, which is a
  -- majority at the height below the ballot's, where those heights do not wrap around.
  init_has_accept :
      (sl : Ballot Ratio) (vp : Voteproof Ratio)
      → init_is_valid_voteproofs sl ≡ none
      → sl.base_voteproof ≡ some vp
      → VotedStage vp
      → (avp : Voteproof Ratio) × (init_accept_voteproof sl ≡ some avp)
        × (avp.stage ≡ stage_accept)
        × (avp.result ≡ majority)
        × (((raw_fact sl).height ≡ wrap_int64 (avp.height +ℤ pos 1))
            ⊎ (avp.height ≡ wrap_int64 ((raw_fact sl).height -ℤ pos 1)))
  unfolding init_is_valid_voteproofs init_accept_voteproof
  init_has_accept sl vp valid based stage = elim (Option-cases sl.accept_voteproof) [
    | inl lacks ↦ (
      vp,
      ground arith,
      ground arith,
      ground arith,
      inl (ground (arith, eqb_ℤ_iff (raw_fact sl).height (wrap_int64 (vp.height +ℤ pos 1)))),
    )
    | inr (avp, has) ↦ (
      avp,
      ground arith,
      ground arith,
      ground arith,
      inr (ground (arith, eqb_ℤ_iff avp.height (wrap_int64 ((raw_fact sl).height -ℤ pos 1)))),
    )
  ]

  -- A proposal or an ACCEPT ballot that passes has the majority of an INIT voteproof as its base,
  -- with its own height and round, and no ACCEPT voteproof.
  after_init_base :
      (sl : Ballot Ratio)
      → is_valid_base_voteproof_after_init sl ≡ none
      → (vp : Voteproof Ratio) × (sl.base_voteproof ≡ some vp)
        × (sl.accept_voteproof ≡ none)
        × (vp.stage ≡ stage_init)
        × (vp.result ≡ majority)
        × (vp.height ≡ (raw_fact sl).height)
        × (vp.round ≡ (raw_fact sl).round)
  unfolding is_valid_base_voteproof_after_init
  after_init_base sl valid = elim (Option-cases sl.base_voteproof) [
    | inl lacks ↦ absurd (ground arith)
    | inr (vp, has) ↦
        (vp, has, ground arith, ground arith, ground arith, ground arith, ground arith)
  ]
