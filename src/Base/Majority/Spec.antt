-- ===== src/Base/Majority/Spec.antt =====
-- What FindMajority decides, against counts that are summed and compared without overflow.
use mitum.Common.{
  ℕ, suc, ◌+◌, ◌-◌, ◌≤◌, ◌<◌, min, ◌≡◌, refl, sym, ◌∙◌, inl, inr, List, [], ◌∷◌, Option, none, some,
  arith, ltb, leb, if◌then◌else◌, get_elem?, All, Bool-cases, ◌≢◌,
}
use mitum.Common.Int.{ℤ, pos, negsuc}
use native.Mathlib.Nat.{mod-eq_of_lt}
use mitum.Base.Majority.{
  uint_mod, add_uint, sub_uint, sum_from, first_over, insert_desc, sort_desc, set_head,
  decide_majority, find_majority,
}

-- The number of votes that the counts stand for.
abbrev pub total_votes : List ℕ → ℕ
total_votes [] = 0
total_votes (n ∷ set) = n + total_votes set

abbrev pub maximum : List ℕ → ℕ
maximum [] = 0
maximum (n ∷ set) = if ltb n (maximum set) then maximum set else n

-- The sum of the source does not wrap while it stays below 2^64.
sum_from-total_votes :
    (sum : ℕ) (set : List ℕ)
    → sum + total_votes set < uint_mod
    → sum_from sum set ≡ sum + total_votes set
unfolding sum_from
sum_from-total_votes sum [] h = omega arith
sum_from-total_votes sum (n ∷ set) h =
    let e : add_uint sum n ≡ sum + n = mod-eq_of_lt (omega arith) in
    rw e (omega (arith, sum_from-total_votes (sum + n) set (omega arith)))

maximum-insert_desc : (n : ℕ) (set : List ℕ) → maximum (insert_desc n set) ≡ maximum (n ∷ set)
unfolding insert_desc
maximum-insert_desc n [] = refl
maximum-insert_desc n (m ∷ set) = ground (arith, maximum-insert_desc n set)

-- The first of the sorted counts is the greatest.
set_head-insert_desc :
    (n : ℕ) (set : List ℕ)
    → set_head set ≡ maximum set
    → set_head (insert_desc n set) ≡ maximum (n ∷ set)
unfolding insert_desc
set_head-insert_desc n [] h = ground arith
set_head-insert_desc n (m ∷ set) h = ground arith

pub maximum-sort_desc : (set : List ℕ) → maximum (sort_desc set) ≡ maximum set
unfolding sort_desc
maximum-sort_desc [] = refl
maximum-sort_desc (n ∷ set) =
    ground (arith, maximum-insert_desc n (sort_desc set), maximum-sort_desc set)

pub set_head-sort_desc : (set : List ℕ) → set_head (sort_desc set) ≡ maximum set
unfolding sort_desc
set_head-sort_desc [] = refl
set_head-sort_desc (n ∷ set) = ground (
  arith,
  set_head-insert_desc n (sort_desc set) (set_head-sort_desc set ∙ sym (maximum-sort_desc set)),
  maximum-sort_desc set,
)

-- The index that the loop returns is that of the first count which is not below the threshold.
pub first_over-some :
    (total threshold i : ℕ) (set : List ℕ) {j : ℕ}
    → threshold ≤ total
    → first_over total threshold i set ≡ some j
    → (n : ℕ) × (i ≤ j) × (get_elem? set (j - i) ≡ some n) × (threshold ≤ n)
unfolding first_over
first_over-some total threshold i [] le h = cc
first_over-some total threshold i (n ∷ set) {j} le h = elim (Bool-cases (leb threshold n)) [
  | inl over ↦ (n, ground arith, ground arith, ground arith)
  | inr under ↦
      let (m, a, b, c) = first_over-some total threshold (suc i) set {j = j} le (ground arith) in
      let e : j - i ≡ suc (j - suc i) = omega arith in (m, omega arith, rw e b, c)
]

pub first_over-none :
    (total threshold i : ℕ) (set : List ℕ)
    → first_over total threshold i set ≡ none
    → All (λ n. n < threshold) set
unfolding first_over
first_over-none total threshold i [] h = tt
first_over-none total threshold i (n ∷ set) h =
    (ground arith, first_over-none total threshold (suc i) set (ground arith))

pub maximum-lt :
    (threshold : ℕ) (set : List ℕ)
    → set ≢ []
    → All (λ n. n < threshold) set
    → maximum set < threshold
maximum-lt threshold [] some_set h = absurd (some_set refl)
maximum-lt threshold (n ∷ []) some_set h = ground arith
maximum-lt threshold (n ∷ m ∷ set) some_set h =
    ground (arith, maximum-lt threshold (m ∷ set) (λ e. cc) h.1)

maximum-le-total_votes : (set : List ℕ) → maximum set ≤ total_votes set
maximum-le-total_votes [] = omega arith
maximum-le-total_votes (n ∷ set) = ground (arith, maximum-le-total_votes set)

-- What the leading count reaches if every vote that is still out goes to it.
abbrev pub best_possible : ℕ → List ℕ → ℕ
best_possible total set = total - total_votes set + maximum set

-- The sum that the source compares with the threshold does not wrap.
source_best :
    (total : ℕ) (set : List ℕ)
    → total_votes set ≤ total
    → total < uint_mod
    → add_uint (sub_uint total (sum_from 0 set)) (set_head (sort_desc set))
      ≡ best_possible total set
source_best total set le small =
    rw (sum_from-total_votes 0 set (omega arith), set_head-sort_desc set)
      (omega (arith, maximum-le-total_votes set))

-- One of three: a count reaches the threshold, no count can reach it any more, or none has yet
-- but one still can.
pub data Outcome (total threshold : ℕ) (set : List ℕ) : ℤ → Type 0 where
  reached :
      (i n : ℕ)
      → get_elem? set i ≡ some n
      → min total threshold ≤ n
      → Outcome total threshold set (pos i)
  hopeless : best_possible total set < min total threshold → Outcome total threshold set (negsuc 1)
  open_yet :
      All (λ n. n < min total threshold) set
      → min total threshold ≤ best_possible total set
      → Outcome total threshold set (negsuc 0)

decide_majority_cases :
    (total threshold : ℕ) (set : List ℕ)
    → total_votes set ≤ total
    → total < uint_mod
    → (o : Option ℕ) → first_over total (min total threshold) 0 set ≡ o
    → Outcome total threshold set (decide_majority total (min total threshold) set)
unfolding decide_majority
decide_majority_cases total threshold set le small (some i) e =
    let (n, _, at, over) =
      first_over-some total (min total threshold) 0 set {j = i} (omega arith) e in
    let same : i - 0 ≡ i = omega arith in rw (e, decide_majority) (reached i n (rw same at at) over)
decide_majority_cases total threshold set le small none e =
    rw (e, decide_majority, source_best total set le small)
      (elim (Bool-cases (ltb (best_possible total set) (min total threshold))) [
        | inl lt ↦ rw lt (hopeless (ground arith))
        | inr ge ↦
            rw ge (open_yet (first_over-none total (min total threshold) 0 set e) (ground arith))
      ])

-- FindMajority, on counts of at most `total` votes: the index of a count that reaches the
-- threshold if there is one, -2 if the votes still out cannot bring any count to it, else -1.
pub find_majority_cases :
    (total threshold : ℕ) (set : List ℕ)
    → set ≢ []
    → total_votes set ≤ total
    → total < uint_mod
    → Outcome total threshold set (find_majority total threshold set)
unfolding find_majority
find_majority_cases total threshold [] some_set le small = absurd (some_set refl)
find_majority_cases total threshold (n ∷ set) some_set le small =
    let thr : ℕ = if ltb total threshold then total else threshold in
    let e : thr ≡ min total threshold = ground arith in
    rw e (
      decide_majority_cases total threshold (n ∷ set) le small
        (first_over total (min total threshold) 0 (n ∷ set)) refl)

decide_majority_reached :
    (total threshold : ℕ) (set : List ℕ) {i : ℕ}
    → decide_majority total threshold set ≡ pos i
    → first_over total threshold 0 set ≡ some i
unfolding decide_majority
decide_majority_reached total threshold set h = ground arith

-- An index that FindMajority returns is that of a count which reaches the threshold, also where
-- there are more votes than `total`.
pub find_majority_reached :
    (total threshold : ℕ) (set : List ℕ) {i : ℕ}
    → find_majority total threshold set ≡ pos i
    → (n : ℕ) × (get_elem? set i ≡ some n) × (min total threshold ≤ n)
unfolding find_majority
find_majority_reached total threshold [] h = absurd (ground arith)
find_majority_reached total threshold (m ∷ set) {i} h =
    let thr : ℕ = if ltb total threshold then total else threshold in
    let first = decide_majority_reached total thr (m ∷ set) {i = i} h in
    let (n, _, at, over) = first_over-some total thr 0 (m ∷ set) {j = i} (ground arith) first in
    let same : i - 0 ≡ i = omega arith in (n, rw same at at, ground arith)
