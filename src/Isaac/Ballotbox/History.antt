-- ===== src/Isaac/Ballotbox/History.antt =====
-- A box after any calls: each of its records is that of a run of the ballots with its key.
use mathlib.Core.List.{Memᴰ}
use mitum.Common.{
  ◌≤◌, ◌<◌, ◌≡◌, refl, sym, ap, ◌∙◌, inl, inr, true, List, [], ◌∷◌, ◌++◌, none, some, arith,
  string_discrete, length, length-append, count, Option-cases, All,
}
use mitum.Common.Dict.{find, find-put, MapRange}
use mitum.Common.Errors.{Error}
use mitum.Base.Env.{Address, Time}
use mitum.Base.Threshold.{Threshold}
use mitum.Base.Fact.{Height}
use mitum.Base.Ballot.{Ballot, raw_fact, node_of}
use mitum.Isaac.VoteRecords
use mitum.Isaac.VoteRecords.{VoteRecords, new_vote_records}
use mitum.Isaac.VoteRecords.Run.{run, counted}
use mitum.Isaac.Ballotbox.{
  Key, Key_discrete, Ballotbox, new_ballotbox, vrs_key, is_inside, can_vote_ballot,
  load_vote_records, store_records, vote, clean, empty,
}
use mitum.Isaac.Ballotbox.Clean.{clean_lem}

-- The calls of a box.
pub data Call (Ratio : Type 0) : Type 0 where
  cast : Time → Ballot Ratio → Call Ratio
  clean_to : Height → Call Ratio
  empty_all : Call Ratio

is_inside-count :
    (a : Address) (bs : List Address) → is_inside a bs ≡ true → 0 < count string_discrete a bs
unfolding is_inside
is_inside-count a [] h = ground arith
is_inside-count a (b ∷ bs) h = ground (arith, is_inside-count a bs)

All-snoc :
    {A : Type 0} (P : A → Type 0) (xs : List A) {x : A} → All P xs → P x → All P (xs ++ x ∷ [])
All-snoc P [] all p = (p, tt)
All-snoc P (y ∷ xs) all p = (all.0, All-snoc P xs all.1 p)

module _ {Ratio : Type 0} where
  run-append :
      (rng : MapRange) (one two : List (Time × Ballot Ratio)) (vrs : VoteRecords Ratio)
      → run rng (one ++ two) vrs ≡ run rng two (run rng one vrs)
  run-append rng [] two vrs = refl
  run-append rng (b ∷ one) two vrs = run-append rng one two (VoteRecords.vote rng b.0 b.1 vrs)

  module _ (rng : MapRange) (suffrages : List Address) (threshold : Threshold Ratio) where
    abbrev pub step : Call Ratio → Ballotbox Ratio → Ballotbox Ratio
    step (cast now blt) bb = (vote rng now suffrages threshold blt bb).0
    step (clean_to height) bb = clean rng height bb
    step empty_all bb = empty bb

    -- A new box after calls, of which the last one stands first.
    abbrev pub after : List (Call Ratio) → Ballotbox Ratio
    after [] = new_ballotbox
    after (c ∷ cs) = step c (after cs)

    -- A ballot that was cast, with a key, of a node of the suffrage.
    abbrev pub Admitted : List (Call Ratio) → Key → Time × Ballot Ratio → Type 0
    Admitted cs k b =
        Memᴰ (cast b.0 b.1) cs
        × (vrs_key (raw_fact b.1) ≡ k)
        × (0 < count string_discrete (node_of b.1) suffrages)

    -- The records are those of a run of admitted ballots, no more than there are calls.
    abbrev pub RunOf : List (Call Ratio) → Key → VoteRecords Ratio → Type 0
    RunOf cs k vrs =
        (blts : List (Time × Ballot Ratio)) × All (Admitted cs k) blts
        × (length blts ≤ length cs)
        × (vrs ≡ counted rng blts k.height k.round k.stage suffrages threshold)

    abbrev pub IsHistory : List (Call Ratio) → Ballotbox Ratio → Type 0
    IsHistory cs bb =
        (k : Key) (vrs : VoteRecords Ratio) → find Key_discrete k bb.vrs ≡ some vrs → RunOf cs k vrs

    All-weaken :
        (c : Call Ratio) (cs : List (Call Ratio)) (k : Key) (blts : List (Time × Ballot Ratio))
        → All (Admitted cs k) blts
        → All (Admitted (c ∷ cs) k) blts
    All-weaken c cs k [] all = tt
    All-weaken c cs k (b ∷ blts) ((i, p, q), all) =
        ((Memᴰ.tail i, p, q), All-weaken c cs k blts all)

    RunOf-weaken :
        (c : Call Ratio) (cs : List (Call Ratio)) (k : Key) (vrs : VoteRecords Ratio)
        → RunOf cs k vrs
        → RunOf (c ∷ cs) k vrs
    RunOf-weaken c cs k vrs (blts, each, le, e) =
        (blts, All-weaken c cs k blts each, omega (arith, le), e)

    new-RunOf :
        (cs : List (Call Ratio)) (k : Key)
        → RunOf cs k (new_vote_records k.height k.round k.stage suffrages threshold)
    new-RunOf cs k = ([], tt, omega arith, refl)

    load-IsHistory :
        (blt : Ballot Ratio) (cs : List (Call Ratio)) (bb : Ballotbox Ratio)
        → IsHistory cs bb
        → IsHistory cs (load_vote_records suffrages threshold blt bb).0
          × RunOf cs (vrs_key (raw_fact blt)) (load_vote_records suffrages threshold blt bb).1
    unfolding load_vote_records vrs_key
    load-IsHistory blt cs bb h =
        let key = vrs_key (raw_fact blt) in
        let new = new_vote_records key.height key.round key.stage suffrages threshold in
        elim (Option-cases (find Key_discrete key bb.vrs)) [
          | inr (v, e) ↦ rw (e, load_vote_records) (h, h key v e)
          | inl e ↦
              rw (e, load_vote_records)
                (
                  λ k vrs found. elim (Key_discrete key k) [
                    | yes same ↦
                        let is_new : new ≡ vrs =
                          ground (arith, find-put Key_discrete key k new bb.vrs) in
                        rw (← is_new) (rw (← same) (new-RunOf cs key))
                    | no ne ↦ h k vrs (ground (arith, find-put Key_discrete key k new bb.vrs))
                  ],
                  new-RunOf cs key,
                )
        ]

    vote-RunOf :
        (now : Time) (blt : Ballot Ratio) (cs : List (Call Ratio)) (k : Key)
        (vrs : VoteRecords Ratio)
        → Admitted (cast now blt ∷ cs) k (now, blt)
        → RunOf cs k vrs
        → RunOf (cast now blt ∷ cs) k (VoteRecords.vote rng now blt vrs)
    vote-RunOf now blt cs k vrs may (blts, each, le, e) =
        let c : Call Ratio = cast now blt in
        (
          blts ++ (now, blt) ∷ [],
          All-snoc (Admitted (c ∷ cs) k) blts (All-weaken c cs k blts each) may,
          omega (arith, le, length-append blts ((now, blt) ∷ [])),
          ap (VoteRecords.vote rng now blt) e ∙ sym (run-append rng blts ((now, blt) ∷ []) _),
        )

    cast-IsHistory :
        (now : Time) (blt : Ballot Ratio) (cs : List (Call Ratio)) (bb : Ballotbox Ratio)
        → 0 < count string_discrete (node_of blt) suffrages
        → IsHistory cs bb
        → IsHistory (cast now blt ∷ cs) (
            store_records
              (vrs_key (raw_fact blt))
              (VoteRecords.vote rng now blt (load_vote_records suffrages threshold blt bb).1)
              (load_vote_records suffrages threshold blt bb).0)
    unfolding store_records
    cast-IsHistory now blt cs bb inside h k vrs found =
        let key = vrs_key (raw_fact blt) in
        let (before, loaded) = load-IsHistory blt cs bb h in
        let bb₁ = (load_vote_records suffrages threshold blt bb).0 in
        let voted = VoteRecords.vote rng now blt (load_vote_records suffrages threshold blt bb).1 in
        elim (Key_discrete key k) [
          | yes same ↦
              let is_voted : voted ≡ vrs =
                ground (arith, find-put Key_discrete key k voted bb₁.vrs) in
              rw (← is_voted)
                (rw (← same) (vote-RunOf now blt cs key _ (Memᴰ.head refl, refl, inside) loaded))
          | no ne ↦
              RunOf-weaken (cast now blt) cs k vrs
                (before k vrs (ground (arith, find-put Key_discrete key k voted bb₁.vrs)))
        ]

    inside-of :
        (blt : Ballot Ratio)
        → can_vote_ballot suffrages blt ≡ none
        → 0 < count string_discrete (node_of blt) suffrages
    unfolding can_vote_ballot
    inside-of blt may = is_inside-count (node_of blt) suffrages (ground arith)

    vote_refused :
        (now : Time) (blt : Ballot Ratio) (bb : Ballotbox Ratio) {e : Error}
        → can_vote_ballot suffrages blt ≡ some e
        → (vote rng now suffrages threshold blt bb).0 ≡ bb
    unfolding vote
    vote_refused now blt bb refused = rw (refused, vote) refl

    vote_accepted :
        (now : Time) (blt : Ballot Ratio) (bb : Ballotbox Ratio)
        → can_vote_ballot suffrages blt ≡ none
        → (vote rng now suffrages threshold blt bb).0
          ≡ store_records
              (vrs_key (raw_fact blt))
              (VoteRecords.vote rng now blt (load_vote_records suffrages threshold blt bb).1)
              (load_vote_records suffrages threshold blt bb).0
    unfolding vote
    vote_accepted now blt bb may = rw (may, vote) refl

    find-clean :
        (height : Height) (bb : Ballotbox Ratio) (k : Key) {vrs : VoteRecords Ratio}
        → find Key_discrete k (clean rng height bb).vrs ≡ some vrs
        → find Key_discrete k bb.vrs ≡ some vrs
    find-clean height bb k found = ground (arith, (clean_lem rng height bb k).0)

    step-IsHistory :
        (c : Call Ratio) (cs : List (Call Ratio)) (bb : Ballotbox Ratio)
        → IsHistory cs bb
        → IsHistory (c ∷ cs) (step c bb)
    unfolding empty new_ballotbox find
    step-IsHistory (cast now blt) cs bb h k vrs found =
        elim (Option-cases (can_vote_ballot suffrages blt)) [
          | inr (e, refused) ↦
              RunOf-weaken (cast now blt) cs k vrs
                (h k vrs (rw (vote_refused now blt bb refused) at found))
          | inl may ↦
              cast-IsHistory now blt cs bb (inside-of blt may) h k vrs
                (rw (vote_accepted now blt bb may) at found)
        ]
    step-IsHistory (clean_to height) cs bb h k vrs found =
        RunOf-weaken (clean_to height) cs k vrs (h k vrs (find-clean height bb k found))
    step-IsHistory empty_all cs bb h k vrs found = absurd (ground arith)

    -- After any calls on a new box, while the suffrage and the threshold stay, each of its records is
    -- what a run of ballots makes of new records; each of these ballots was cast, has the record's
    -- height, round and stage, and is of a node of the suffrage; and there are no more of them than
    -- calls.
    pub after-RunOf :
        (cs : List (Call Ratio)) (k : Key) (vrs : VoteRecords Ratio)
        → find Key_discrete k (after cs).vrs ≡ some vrs
        → RunOf cs k vrs
    unfolding new_ballotbox find
    after-RunOf [] k vrs found = absurd (ground arith)
    after-RunOf (c ∷ cs) k vrs found = step-IsHistory c cs (after cs) (after-RunOf cs) k vrs found
