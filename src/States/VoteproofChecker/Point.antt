-- ===== src/States/VoteproofChecker/Point.antt =====
-- The points at which a voteproof follows the last one.
use mitum.Common.{
  ◌≤◌, ◌<◌, ◌≡◌, ap, ◌∙◌, ◌⊎◌, inl, inr, ◌≢◌, Bool, Option, some, arith, ltb, ◌==◌, not, ◌&&◌,
  if◌then◌else◌,
}
use mitum.Common.Int.{
  ℤ, pos, negsuc, ◌+ℤ◌, ◌-ℤ◌, ltb_ℤ, eqb_ℤ, ◌<ℤ◌, ◌≤ℤ◌, wrap_int64, wrap_int64-IsInt64, sub-IsInt64,
}
use mitum.Common.Errors.{Error, ignored, sync_by_voteproof}
use mitum.Base.Stage.{stage_init, stage_accept}
use mitum.Base.Voteproof.{Voteproof}
use mitum.Isaac.BallotChecker.{go_on, refuse}
use mitum.States.VoteproofChecker.{check_point_init, check_point_accept, check_point}

-- A difference is compared with 0 as its sides are with each other.
positive_diff : (a b : ℤ) → ltb_ℤ (pos 0) (a -ℤ b) ≡ ltb_ℤ b a
positive_diff (pos a) (pos b) = ground arith
positive_diff (pos a) (negsuc b) = ground arith
positive_diff (negsuc a) (pos b) = ground arith
positive_diff (negsuc a) (negsuc b) = ground arith

negative_diff : (a b : ℤ) → ltb_ℤ (a -ℤ b) (pos 0) ≡ ltb_ℤ a b
negative_diff (pos a) (pos b) = ground arith
negative_diff (pos a) (negsuc b) = ground arith
negative_diff (negsuc a) (pos b) = ground arith
negative_diff (negsuc a) (negsuc b) = ground arith

next_higher : (h k : ℤ) → (h +ℤ pos 1 ≤ℤ k → h <ℤ k) × (h <ℤ k → h +ℤ pos 1 ≤ℤ k)
next_higher (pos h) k = (λ p. ground arith, λ p. ground arith)
next_higher (negsuc h) k = (λ p. ground arith, λ p. ground arith)

-- A result of the check, where it is given: to pass, to make the node sync, or to be ignored.
abbrev pub Verdict : Bool × Option Error → Type 0 → Type 0 → Type 0 → Type 0
Verdict r Follows Ahead Behind =
    (Follows × (r ≡ go_on))
    ⊎ (Ahead × (r ≡ refuse sync_by_voteproof))
    ⊎ (Behind × (r ≡ refuse ignored))

module _ {Ratio : Type 0} where
  abbrev SameHeight : Voteproof Ratio → Voteproof Ratio → Type 0
  SameHeight v w = (v.height ≤ℤ w.height) × (w.height ≤ℤ v.height)

  -- An INIT voteproof follows with the height of the last one and a greater round, or with the next
  -- height.
  abbrev pub InitFollows : Voteproof Ratio → Voteproof Ratio → Type 0
  InitFollows lvp vp =
      (SameHeight lvp vp × (lvp.round < vp.round))
      ⊎ ((lvp.height +ℤ pos 1 ≤ℤ vp.height) × (vp.height ≤ℤ lvp.height +ℤ pos 1))

  abbrev pub InitBehind : Voteproof Ratio → Voteproof Ratio → Type 0
  InitBehind lvp vp = (vp.height <ℤ lvp.height) ⊎ (SameHeight lvp vp × (vp.round ≤ lvp.round))

  -- An ACCEPT voteproof follows with the height of the last one, if its round is no smaller than that
  -- of an INIT voteproof, or greater than that of an ACCEPT voteproof.
  abbrev pub AcceptFollows : Voteproof Ratio → Voteproof Ratio → Type 0
  AcceptFollows lvp vp =
      SameHeight lvp vp
      × (((lvp.stage ≡ stage_init) × (lvp.round ≤ vp.round))
          ⊎ ((lvp.stage ≡ stage_accept) × (lvp.round < vp.round))
          ⊎ ((lvp.stage ≢ stage_init) × (lvp.stage ≢ stage_accept)))

  abbrev pub AcceptBehind : Voteproof Ratio → Voteproof Ratio → Type 0
  AcceptBehind lvp vp =
      (vp.height <ℤ lvp.height)
      ⊎ (SameHeight lvp vp
          × (((lvp.stage ≡ stage_init) × (vp.round < lvp.round))
              ⊎ ((lvp.stage ≡ stage_accept) × (vp.round ≤ lvp.round))))

  -- The height of a block, or the -1 below the first one, that still has a next height.
  abbrev pub HasNext : Voteproof Ratio → Type 0
  HasNext v = (negsuc 0 ≤ℤ v.height) × (v.height <ℤ pos 9223372036854775807)

  module _ (lvp vp : Voteproof Ratio) (next_of_last : HasNext lvp) (next_of_new : HasNext vp) where
    no_wrap :
        (wrap_int64 (vp.height -ℤ lvp.height) ≡ vp.height -ℤ lvp.height)
        × (wrap_int64 (vp.height -ℤ wrap_int64 (lvp.height +ℤ pos 1))
            ≡ vp.height -ℤ (lvp.height +ℤ pos 1))
    no_wrap =
        let (difference, next, from_next) =
          sub-IsInt64 vp.height lvp.height next_of_new.0 next_of_last.0 next_of_new.1
            next_of_last.1 in
        (
          wrap_int64-IsInt64 (vp.height -ℤ lvp.height) difference,
          ap (λ h. wrap_int64 (vp.height -ℤ h)) (wrap_int64-IsInt64 (lvp.height +ℤ pos 1) next)
              ∙ wrap_int64-IsInt64 (vp.height -ℤ (lvp.height +ℤ pos 1)) from_next,
        )

    init_verdict :
        (next : ℤ)
        → (next ≤ℤ vp.height → lvp.height <ℤ vp.height)
        → (lvp.height <ℤ vp.height → next ≤ℤ vp.height)
        → vp.stage ≡ stage_init
        → Verdict
            (if not (vp.stage == stage_init)
              then go_on
              else if eqb_ℤ vp.height lvp.height && ltb lvp.round vp.round
              then go_on
              else if ltb_ℤ next vp.height
              then refuse sync_by_voteproof
              else if ltb_ℤ vp.height next
              then refuse ignored
              else go_on)
            ((SameHeight lvp vp × (lvp.round < vp.round))
              ⊎ ((next ≤ℤ vp.height) × (vp.height ≤ℤ next)))
            (next <ℤ vp.height)
            (InitBehind lvp vp)
    init_verdict next above below s = ground arith

    check_point_init_lem :
        vp.stage ≡ stage_init
        → Verdict
            (check_point_init (some lvp) vp)
            (InitFollows lvp vp)
            (lvp.height +ℤ pos 1 <ℤ vp.height)
            (InitBehind lvp vp)
    unfolding check_point_init
    check_point_init_lem s =
        let (above, below) = next_higher lvp.height vp.height in
        rw
          (
            no_wrap.1,
            positive_diff vp.height (lvp.height +ℤ pos 1),
            negative_diff vp.height (lvp.height +ℤ pos 1),
          )
          (init_verdict (lvp.height +ℤ pos 1) above below s)

    check_point_accept_lem :
        vp.stage ≡ stage_accept
        → Verdict
            (check_point_accept (some lvp) vp)
            (AcceptFollows lvp vp)
            (lvp.height <ℤ vp.height)
            (AcceptBehind lvp vp)
    unfolding check_point_accept
    check_point_accept_lem s =
        rw (no_wrap.0, positive_diff vp.height lvp.height, negative_diff vp.height lvp.height)
          (ground arith)

    at_init : vp.stage ≡ stage_init → check_point (some lvp) vp ≡ check_point_init (some lvp) vp
    unfolding check_point
    at_init s = ground arith

    at_accept :
        vp.stage ≡ stage_accept → check_point (some lvp) vp ≡ check_point_accept (some lvp) vp
    unfolding check_point
    at_accept s = ground arith

    -- Behind a last voteproof, with both heights from -1 to below the greatest int64, an INIT or ACCEPT
    -- voteproof has one of three verdicts. It passes, if it follows; it makes the node sync, if it is
    -- higher than the next height, or for an ACCEPT voteproof, higher than the last one; and it is
    -- ignored, if it is lower, or of the same height with a round that does not follow.
    pub check_point-Verdict :
        (vp.stage ≡ stage_init) ⊎ (vp.stage ≡ stage_accept)
        → ((vp.stage ≡ stage_init)
            × Verdict
                (check_point (some lvp) vp)
                (InitFollows lvp vp)
                (lvp.height +ℤ pos 1 <ℤ vp.height)
                (InitBehind lvp vp))
          ⊎ ((vp.stage ≡ stage_accept)
              × Verdict
                  (check_point (some lvp) vp)
                  (AcceptFollows lvp vp)
                  (lvp.height <ℤ vp.height)
                  (AcceptBehind lvp vp))
    check_point-Verdict (inl s) = inl (s, rw (at_init s) (check_point_init_lem s))
    check_point-Verdict (inr s) = inr (s, rw (at_accept s) (check_point_accept_lem s))
