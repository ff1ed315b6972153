-- ===== src/Isaac/Ballotbox/Agreement.antt =====
-- Two boxes of one suffrage: what their majorities for one height, round and stage have in common.
use mathlib.Core.List.{Memᴰ}
use mitum.Common.{◌+◌, ◌<◌, min, ◌≡◌, ap, ◌∙◌, List, [], ◌∷◌, some, arith, length, All}
use mitum.Common.Dict.{find, MapRange}
use mitum.Base.Env.{Hash, Address, Time}
use mitum.Base.VoteResult.{majority}
use mitum.Base.Threshold.{Threshold}
use mitum.Base.Majority.{uint_mod}
use mitum.Base.Fact.{BallotFact}
use mitum.Base.Ballot.{Ballot, raw_fact, node_of}
use mitum.Isaac.VoteRecords.{VoteRecords}
use mitum.Isaac.VoteRecords.Run.{BallotOf}
use mitum.Isaac.VoteRecords.Agreement.{FromSuffrage, agreement, All-mem}
use mitum.Isaac.Ballotbox.{Key, Key_discrete, vrs_key}
use mitum.Isaac.Ballotbox.History.{Call, cast, after, Admitted, after-RunOf}

module _ {Ratio : Type 0} where
  Admitted-FromSuffrage :
      (suffrages : List Address) (rng : MapRange) (threshold : Threshold Ratio)
      (cs : List (Call Ratio)) (k : Key) (blts : List (Time × Ballot Ratio))
      → All (Admitted rng suffrages threshold cs k) blts
      → FromSuffrage blts suffrages
  Admitted-FromSuffrage suffrages rng threshold cs k [] all = tt
  Admitted-FromSuffrage suffrages rng threshold cs k (b ∷ blts) ((i, at, inside), all) =
      (inside, Admitted-FromSuffrage suffrages rng threshold cs k blts all)

  -- A ballot of a node for a hash that was cast, with the height, the round and the stage of a key.
  abbrev pub WasCast : List (Call Ratio) → Key → Address → Hash → Type 0
  WasCast cs k n h =
      (b : Time × Ballot Ratio) × Memᴰ (cast b.0 b.1) cs
      × (vrs_key (raw_fact b.1) ≡ k)
      × (node_of b.1 ≡ n)
      × ((raw_fact b.1).hash ≡ h)

  was_cast :
      (suffrages : List Address) (rng : MapRange) (threshold : Threshold Ratio)
      (cs : List (Call Ratio)) (k : Key) (blts : List (Time × Ballot Ratio)) {n : Address}
      {h : Hash}
      → All (Admitted rng suffrages threshold cs k) blts
      → BallotOf blts n h
      → WasCast cs k n h
  was_cast suffrages rng threshold cs k blts all (b, i, by, named) =
      let (cast_in, at, inside) = All-mem (Admitted rng suffrages threshold cs k) blts all i in
      (b, cast_in, at, by, named)

  -- Two boxes start new, with one suffrage and one threshold, of which twice the votes that a majority
  -- needs are more than the suffrage has nodes, and take any calls, fewer than a machine word counts.
  -- When both have records with the result majority for one height, round and stage, each of these
  -- names a fact, and some one node signed both a ballot for the one fact's hash that was cast in the
  -- one box and a ballot for the other fact's hash that was cast in the other, both of that height,
  -- round and stage.
  pub box_agreement :
      (rng rng' : MapRange) (suffrages : List Address) (threshold : Threshold Ratio)
      (one two : List (Call Ratio)) (k : Key) (v w : VoteRecords Ratio)
      → length one < uint_mod
      → length two < uint_mod
      → length suffrages
        < min threshold.total threshold.threshold + min threshold.total threshold.threshold
      → find Key_discrete k (after rng suffrages threshold one).vrs ≡ some v
      → find Key_discrete k (after rng' suffrages threshold two).vrs ≡ some w
      → v.voteproof.result ≡ majority
      → w.voteproof.result ≡ majority
      → (f : BallotFact) × (g : BallotFact) × (v.voteproof.majority ≡ some f)
        × (w.voteproof.majority ≡ some g)
        × (n : Address) × WasCast one k n f.hash
        × WasCast two k n g.hash
  box_agreement rng rng' suffrages threshold one two k v w small_one small_two most found_v found_w
        won_v won_w =
      let (xs, each_x, le_x, is_v) = after-RunOf rng suffrages threshold one k v found_v in
      let (ys, each_y, le_y, is_w) = after-RunOf rng' suffrages threshold two k w found_w in
      let (f, g, named_f, named_g, n, by_f, by_g) =
        agreement rng rng' xs ys k.height k.round k.stage suffrages threshold (omega arith)
          (omega arith) (Admitted-FromSuffrage suffrages rng threshold one k xs each_x)
          (Admitted-FromSuffrage suffrages rng' threshold two k ys each_y) most (rw is_v at won_v)
          (rw is_w at won_w) in
      (
        f,
        g,
        ap (λ (r : VoteRecords Ratio). r.voteproof.majority) is_v ∙ named_f,
        ap (λ (r : VoteRecords Ratio). r.voteproof.majority) is_w ∙ named_g,
        n,
        was_cast suffrages rng threshold one k xs each_x by_f,
        was_cast suffrages rng' threshold two k ys each_y by_g,
      )
