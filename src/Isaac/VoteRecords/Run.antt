-- ===== src/Isaac/VoteRecords/Run.antt =====
-- The records of a vote after a run of ballots: who voted, and what a majority stands on.
use mathlib.Core.List.{Memᴰ}
use mitum.Common.{
  ℕ, ◌+◌, ◌≤◌, ◌<◌, min, ◌≡◌, refl, ap, ◌∙◌, ◌⊎◌, inl, inr, List, [], ◌∷◌, none, some, arith,
  string_discrete, ite, length, count, All, All-of_counts,
}
use mitum.Common.Dict.{Dict, find, values, IsMap, MapRange}
use mitum.Base.Env.{Hash, Address, Time}
use mitum.Base.Stage.{Stage}
use mitum.Base.VoteResult.{majority}
use mitum.Base.Threshold.{Threshold}
use mitum.Base.Majority.{uint_mod}
use mitum.Base.Majority.Slice.Counts.{votes_for}
use mitum.Base.Fact.{Height, BallotFact}
use mitum.Base.Voteproof.{new_voteproof}
use mitum.Base.Ballot.{Ballot, raw_fact, node_of}
use mitum.Isaac.VoteRecords.{VoteRecords, new_vote_records, vote}
use mitum.Isaac.VoteRecords.Steps.{vote-source}
use mitum.Isaac.VoteRecords.Invariant.{quorum, IsCounted, IsDecided, vote-IsCounted}
use mitum.Isaac.VoteRecords.Decided.{vote-IsDecided, length-vote, vote-keeps_threshold}

-- The nodes that a map of votes has for a hash.
abbrev pub voters : Hash → Dict Address Hash → List Address
voters h [] = []
voters h ((n, g) ∷ m) = let rest = voters h m in ite (string_discrete g h) (n ∷ rest) rest

pub length-voters :
    (h : Hash) (m : Dict Address Hash) → length (voters h m) ≡ votes_for h (values m)
length-voters h [] = refl
length-voters h ((n, g) ∷ m) = ground (arith, length-voters h m)

-- A node without an entry is no voter.
voters-none :
    (h : Hash) (n : Address) (m : Dict Address Hash)
    → find string_discrete n m ≡ none
    → count string_discrete n (voters h m) ≡ 0
unfolding find
voters-none h n [] e = refl
voters-none h n ((j, g) ∷ m) e = ground (arith, voters-none h n m)

-- A node is a voter once, with the hash that is recorded for it.
pub voters_once :
    (h : Hash) (n : Address) (m : Dict Address Hash)
    → IsMap string_discrete m
    → count string_discrete n (voters h m) ≤ 1
unfolding find
voters_once h n [] u = omega arith
voters_once h n ((j, g) ∷ m) u = ground (arith, voters_once h n m, voters-none h n m)

pub voters_found :
    (h : Hash) (n : Address) (m : Dict Address Hash)
    → IsMap string_discrete m
    → 0 < count string_discrete n (voters h m)
    → find string_discrete n m ≡ some h
unfolding find
voters_found h n [] u p = absurd (omega (arith, p))
voters_found h n ((j, g) ∷ m) u p = ground (arith, voters_found h n m, voters-none h n m)

module _ {Ratio : Type 0} where
  -- The calls of `Vote`, each with the time that it takes from the clock.
  abbrev pub run : MapRange → List (Time × Ballot Ratio) → VoteRecords Ratio → VoteRecords Ratio
  run rng [] vrs = vrs
  run rng ((now, blt) ∷ blts) vrs = run rng blts (vote rng now blt vrs)

  run-IsCounted :
      (rng : MapRange) (blts : List (Time × Ballot Ratio)) (vrs : VoteRecords Ratio)
      → IsCounted vrs
      → IsCounted (run rng blts vrs)
  run-IsCounted rng [] vrs c = c
  run-IsCounted rng ((now, blt) ∷ blts) vrs c =
      run-IsCounted rng blts (vote rng now blt vrs) (vote-IsCounted rng now blt vrs c)

  run-keeps_threshold :
      (rng : MapRange) (blts : List (Time × Ballot Ratio)) (vrs : VoteRecords Ratio)
      → (run rng blts vrs).threshold ≡ vrs.threshold
  run-keeps_threshold rng [] vrs = refl
  run-keeps_threshold rng ((now, blt) ∷ blts) vrs =
      run-keeps_threshold rng blts (vote rng now blt vrs) ∙ vote-keeps_threshold rng now blt vrs

  run-IsDecided :
      (rng : MapRange) (blts : List (Time × Ballot Ratio)) (vrs : VoteRecords Ratio)
      → length vrs.set + length blts < uint_mod
      → 0 < quorum vrs
      → IsCounted vrs
      → IsDecided vrs
      → IsDecided (run rng blts vrs)
  run-IsDecided rng [] vrs small some_votes c before = before
  run-IsDecided rng ((now, blt) ∷ blts) vrs small some_votes c before =
      run-IsDecided rng blts (vote rng now blt vrs)
        (omega (arith, small, length-vote rng now blt vrs))
        (rw (vote-keeps_threshold rng now blt vrs) some_votes) (vote-IsCounted rng now blt vrs c)
        (vote-IsDecided rng now blt vrs (omega arith) some_votes c before)

  -- A ballot of the run that a node signed for a hash.
  abbrev pub BallotOf : List (Time × Ballot Ratio) → Address → Hash → Type 0
  BallotOf blts n h =
      (b : Time × Ballot Ratio) × Memᴰ b blts × (node_of b.1 ≡ n) × ((raw_fact b.1).hash ≡ h)

  -- Many different nodes each signed a ballot of the run for a hash.
  abbrev pub Backed : List (Time × Ballot Ratio) → ℕ → Hash → Type 0
  Backed blts needed h =
      (nodes : List Address) × ((n : Address) → count string_discrete n nodes ≤ 1)
      × All (λ n. BallotOf blts n h) nodes
      × (needed ≤ length nodes)

  run-source :
      (rng : MapRange) (blts : List (Time × Ballot Ratio)) (vrs : VoteRecords Ratio) (n : Address)
      (h : Hash)
      → find string_discrete n (run rng blts vrs).votes ≡ some h
      → (find string_discrete n vrs.votes ≡ some h) ⊎ BallotOf blts n h
  run-source rng [] vrs n h e = inl e
  run-source rng ((now, blt) ∷ blts) vrs n h e =
      elim (run-source rng blts (vote rng now blt vrs) n h e) [
        | inr (b, m, signed, named) ↦ inr (b, Memᴰ.tail m, signed, named)
        | inl old ↦ elim (vote-source rng now blt vrs n old) [
          | inl older ↦ inl older
          | inr (signed, named) ↦ inr ((now, blt), Memᴰ.head refl, signed, named)
        ]
      ]

  module _ (rng : MapRange) (blts : List (Time × Ballot Ratio)) (height : Height) (round : ℕ)
      (stage : Stage) (suffrages : List Address) (threshold : Threshold Ratio) where
    -- The records after a run that starts from new ones.
    abbrev pub counted : VoteRecords Ratio
    counted = run rng blts (new_vote_records height round stage suffrages threshold)

    new-IsCounted : IsCounted (new_vote_records height round stage suffrages threshold)
    unfolding new_vote_records find
    new-IsCounted = record {
      votes_map = tt;
      counted = λ h. omega arith;
      facts_hash = λ h f e. absurd (ground arith);
      facts_known = λ h p. absurd (omega (arith, p));
    }

    -- What is recorded for a node is the hash of a ballot that it signed.
    pub votes_of_run :
        (n : Address) (h : Hash) → find string_discrete n counted.votes ≡ some h → BallotOf blts n h
    unfolding new_vote_records find
    votes_of_run n h e = elim (run-source rng blts _ n h e) [
      | inl old ↦ absurd (ground arith)
      | inr b ↦ b
    ]

    -- After a run with the result majority, the voteproof names a fact, and as many different nodes
    -- as the threshold asks for, or all the total, have each signed a ballot of the run for the fact's
    -- hash, if some vote is needed and the run has fewer ballots than a machine word counts.
    pub majority_of_run :
        length blts < uint_mod
        → 0 < min threshold.total threshold.threshold
        → counted.voteproof.result ≡ majority
        → (m : BallotFact) × (counted.voteproof.majority ≡ some m)
          × Backed blts (min threshold.total threshold.threshold) m.hash
    unfolding new_vote_records new_voteproof
    majority_of_run small some_votes won =
        let c = run-IsCounted rng blts _ new-IsCounted in
        let (m, named, over) =
          run-IsDecided rng blts (new_vote_records height round stage suffrages threshold)
            (omega (arith, small)) some_votes new-IsCounted (λ e. absurd (omega (arith, e))) won in
        let enough : min threshold.total threshold.threshold
            ≤ length (voters m.hash counted.votes) =
          omega (
            arith,
            over,
            c.counted m.hash,
            length-voters m.hash counted.votes,
            ap (λ (t : Threshold Ratio). min t.total t.threshold)
                (run-keeps_threshold rng blts
                  (new_vote_records height round stage suffrages threshold)),
          ) in
        (
          m,
          named,
          (
            voters m.hash counted.votes,
            λ n. voters_once m.hash n counted.votes c.votes_map,
            All-of_counts (λ n. BallotOf blts n m.hash) string_discrete
                (voters m.hash counted.votes)
                (λ n p. votes_of_run n m.hash (voters_found m.hash n counted.votes c.votes_map p)),
            enough,
          ),
        )
