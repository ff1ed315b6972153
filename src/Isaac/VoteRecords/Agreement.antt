-- ===== src/Isaac/VoteRecords/Agreement.antt =====
-- Two records of the votes of one height, round and stage: what two majorities have in common.
use mathlib.Core.List.{Memᴰ}
use mitum.Common.{
  [], ◌∷◌, ℕ, ◌+◌, ◌≤◌, ◌<◌, min, ◌≡◌, List, some, arith, string_discrete, length, count, dec_lt,
  All, counts-All,
}
use mitum.Common.Dict.{MapRange}
use mitum.Common.Overlap.{overlap}
use mitum.Base.Env.{Hash, Address, Time}
use mitum.Base.Stage.{Stage}
use mitum.Base.VoteResult.{majority}
use mitum.Base.Threshold.{Threshold}
use mitum.Base.Majority.{uint_mod}
use mitum.Base.Fact.{Height, BallotFact}
use mitum.Base.Ballot.{Ballot, node_of}
use mitum.Isaac.VoteRecords.Run.{BallotOf, Backed, counted, majority_of_run}

pub All-mem : {A : Type 0} (P : A → Type 0) (xs : List A) {x : A} → All P xs → Memᴰ x xs → P x
All-mem P [] all i = elim i [ ]
All-mem P (y ∷ xs) all (Memᴰ.head e) = rw e all.0
All-mem P (y ∷ xs) all (Memᴰ.tail t) = All-mem P xs all.1 t

once_in :
    (suffrages xs : List Address) (a : Address)
    → count string_discrete a xs ≤ 1
    → (0 < count string_discrete a xs → 0 < count string_discrete a suffrages)
    → count string_discrete a xs ≤ count string_discrete a suffrages
once_in suffrages xs a once inside = elim (dec_lt 0 (count string_discrete a xs)) [
  | yes p ↦ omega (arith, inside p)
  | no q ↦ omega arith
]

module _ {Ratio : Type 0} where
  -- A run in which every ballot is of a node of the suffrage.
  abbrev pub FromSuffrage : List (Time × Ballot Ratio) → List Address → Type 0
  FromSuffrage blts suffrages = All (λ b. 0 < count string_discrete (node_of b.1) suffrages) blts

  inside_of :
      (suffrages : List Address) (blts : List (Time × Ballot Ratio)) {n : Address} {h : Hash}
      → FromSuffrage blts suffrages
      → BallotOf blts n h
      → 0 < count string_discrete n suffrages
  inside_of suffrages blts from (b, i, by, named) =
      rw (← by) (All-mem (λ b. 0 < count string_discrete (node_of b.1) suffrages) blts from i)

  -- Two hashes that are both backed in the suffrage have a node that signed for both.
  Backed-overlap :
      (suffrages : List Address) (needed : ℕ) (one two : List (Time × Ballot Ratio)) (g h : Hash)
      → FromSuffrage one suffrages
      → FromSuffrage two suffrages
      → length suffrages < needed + needed
      → Backed one needed g
      → Backed two needed h
      → (n : Address) × BallotOf one n g × BallotOf two n h
  Backed-overlap suffrages needed one two g h of_one of_two most (xs, xs_once, xs_of, xs_enough)
        (ys, ys_once, ys_of, ys_enough) =
      let xs_in = λ (a : Address) (p : 0 < count string_discrete a xs).
        counts-All (λ n. BallotOf one n g) string_discrete xs a xs_of p in
      let ys_in = λ (a : Address) (p : 0 < count string_discrete a ys).
        counts-All (λ n. BallotOf two n h) string_discrete ys a ys_of p in
      let (n, in_xs, in_ys) =
        overlap string_discrete xs ys suffrages
          (λ a.
            once_in suffrages xs a (xs_once a) (λ p. inside_of suffrages one of_one (xs_in a p)))
          (λ a.
            once_in suffrages ys a (ys_once a) (λ p. inside_of suffrages two of_two (ys_in a p)))
          (omega arith) in
      (n, xs_in n in_xs, ys_in n in_ys)

  -- Two runs count fewer than 2^64 ballots each, of one height, round and stage, from the nodes of one
  -- suffrage, in which twice the votes that a majority needs are more than there are nodes. When both have the
  -- result majority, each names a fact, and some node of the suffrage signed a ballot of the one run
  -- for the one fact's hash and a ballot of the other run for the other's.
  pub agreement :
      (rng rng' : MapRange) (one two : List (Time × Ballot Ratio)) (height : Height) (round : ℕ)
      (stage : Stage) (suffrages : List Address) (threshold : Threshold Ratio)
      → length one < uint_mod
      → length two < uint_mod
      → FromSuffrage one suffrages
      → FromSuffrage two suffrages
      → length suffrages
        < min threshold.total threshold.threshold + min threshold.total threshold.threshold
      → (counted rng one height round stage suffrages threshold).voteproof.result ≡ majority
      → (counted rng' two height round stage suffrages threshold).voteproof.result ≡ majority
      → (f : BallotFact) × (g : BallotFact) × ((counted rng one height round stage suffrages
            threshold).voteproof.majority
          ≡ some f)
        × ((counted rng' two height round stage suffrages threshold).voteproof.majority ≡ some g)
        × (n : Address) × BallotOf one n f.hash
        × BallotOf two n g.hash
  agreement rng rng' one two height round stage suffrages threshold small_one small_two of_one
        of_two most won_one won_two =
      let (f, named_f, backed_f) =
        majority_of_run rng one height round stage suffrages threshold small_one (omega arith)
          won_one in
      let (g, named_g, backed_g) =
        majority_of_run rng' two height round stage suffrages threshold small_two (omega arith)
          won_two in
      let (n, by_f, by_g) =
        Backed-overlap suffrages (min threshold.total threshold.threshold) one two f.hash g.hash
          of_one of_two most backed_f backed_g in
      (f, g, named_f, named_g, n, by_f, by_g)
