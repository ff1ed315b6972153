-- ===== src/Base/Voteproof/Order.antt =====
-- The order of voteproofs by height, round and stage.
use mitum.Common.{◌<◌, ◌≡◌, ◌⊎◌, ◌↔◌, some, arith}
use mitum.Common.Int.{pos, negsuc, ◌<ℤ◌}
use mitum.Base.Voteproof.{Voteproof, compare_voteproof}

module _ {Ratio : Type 0} where
  -- One voteproof stands behind another by height, then by round, then by stage.
  abbrev pub Later : Voteproof Ratio → Voteproof Ratio → Type 0
  Later a b =
      (b.height <ℤ a.height)
      ⊎ ((a.height ≡ b.height) × (b.round < a.round))
      ⊎ ((a.height ≡ b.height) × (a.round ≡ b.round) × (b.stage < a.stage))

  abbrev pub SamePoint : Voteproof Ratio → Voteproof Ratio → Type 0
  SamePoint a b = (a.height ≡ b.height) × (a.round ≡ b.round)

  -- CompareVoteproof is the order by height, round and stage: 1 if the first is later, -1 if the
  -- second is, 0 if both have the same height, round and stage.
  pub compare_voteproof_iff :
      (a b : Voteproof Ratio)
      → ((compare_voteproof (some a) (some b) ≡ pos 1) ↔ Later a b)
        × ((compare_voteproof (some a) (some b) ≡ negsuc 0) ↔ Later b a)
        × ((compare_voteproof (some a) (some b) ≡ pos 0) ↔ (SamePoint a b × (a.stage ≡ b.stage)))
  unfolding compare_voteproof
  compare_voteproof_iff a b = (
    (λ h. ground arith, λ h. ground arith),
    (λ h. ground arith, λ h. ground arith),
    (λ h. ground arith, λ h. ground arith),
  )
