-- ===== src/Launch/Suffrage/Roundrobin.antt =====
-- The nodes that a round robin selects.
use mitum.Common.{
  ◌⊎◌, inl, inr, ℕ, zero, suc, ◌+◌, ◌-◌, ◌%◌, ◌≤◌, ◌<◌, ◌≡◌, refl, List, [], ◌∷◌, none, some, arith,
  length, get_elem?, get_elem?-lt, get_elem?-bound, take, drop, count, count-append, length-append,
  length-drop, length-take, string_discrete, Bool-cases,
}
use mitum.Common.Int.{leb_ℤ, pos, ◌-ℤ◌}
use mitum.Common.Errors.{Error, Result, ok, err, Result-cases}
use mitum.Util.Bytes.{Bytes, int64_bits}
use mitum.Base.Env.{Address}
use mitum.Base.Fact.{Height, pre_genesis_height}
use mitum.Base.Suffrage.{ActingSuffrage, new_acting_suffrage}
use mitum.Launch.Suffrage.{
  GetManifest, elect_position, sum_bytes, select_nodes, position, roundrobin_elect, node_at,
}

module _ {A : Type 0} (d : Discrete A) where
  count-take-drop :
      (a : A) (n m : ℕ) (xs : List A)
      → n ≤ m
      → count d a (take n xs) + count d a (drop m xs) ≤ count d a xs
  count-take-drop a zero zero xs h = omega arith
  count-take-drop a zero (suc m) [] h = omega arith
  count-take-drop a zero (suc m) (x ∷ xs) h =
      ground (arith, count-take-drop a zero m xs (omega arith))
  count-take-drop a (suc n) zero xs h = elim h [ ]
  count-take-drop a (suc n) (suc m) [] h = omega arith
  count-take-drop a (suc n) (suc m) (x ∷ xs) h =
      ground (arith, count-take-drop a n m xs (omega (arith, h)))

  count-take : (a : A) (n : ℕ) (xs : List A) → count d a (take n xs) ≤ count d a xs
  count-take a zero xs = omega arith
  count-take a (suc n) [] = omega arith
  count-take a (suc n) (x ∷ xs) = ground (arith, count-take a n xs)

  -- What stands at a place is the first of what is left from there.
  count-get_elem? :
      (a : A) (i n : ℕ) (xs : List A)
      → get_elem? xs i ≡ some a
      → 0 < n
      → 0 < count d a (take n (drop i xs))
  count-get_elem? a i n [] e h = absurd (ground arith)
  count-get_elem? a zero zero (x ∷ xs) e h = elim h [ ]
  count-get_elem? a zero (suc n) (x ∷ xs) e h = ground arith
  count-get_elem? a (suc i) n (x ∷ xs) e h = count-get_elem? a i n xs e h

  count-drop-get_elem? :
      (a : A) (i : ℕ) (xs : List A) → get_elem? xs i ≡ some a → 0 < count d a (drop i xs)
  count-drop-get_elem? a i [] e = absurd (ground arith)
  count-drop-get_elem? a zero (x ∷ xs) e = ground arith
  count-drop-get_elem? a (suc i) (x ∷ xs) e = count-drop-get_elem? a i xs e

  pub count-get_elem?_all :
      (a : A) (i : ℕ) (xs : List A) → get_elem? xs i ≡ some a → 0 < count d a xs
  count-get_elem?_all a i [] e = absurd (ground arith)
  count-get_elem?_all a zero (x ∷ xs) e = ground arith
  count-get_elem?_all a (suc i) (x ∷ xs) e = ground (arith, count-get_elem?_all a i xs e)

-- What is selected: as many nodes as act, none of them more often than it stands in the suffrage,
-- and the node at the place among them, if any node acts.
module _ (nodes : List Address) (na i : ℕ) (enough : na ≤ length nodes) where
  length-select_nodes : i < length nodes → length (select_nodes nodes na i) ≡ na
  unfolding select_nodes
  length-select_nodes below = ground (
    arith,
    length-drop i nodes,
    length-take na (drop i nodes),
    length-append (drop i nodes) (take (na - length (drop i nodes)) nodes),
    length-take (na - length (drop i nodes)) nodes,
  )

  count-select_nodes :
      (a : Address)
      → count string_discrete a (select_nodes nodes na i) ≤ count string_discrete a nodes
  unfolding select_nodes
  count-select_nodes a = ground (
    arith,
    count-take-drop string_discrete a zero i nodes (omega arith),
    count-take-drop string_discrete a (na - length (drop i nodes)) i nodes
        (omega (arith, length-drop i nodes, enough)),
    count-take string_discrete a na (drop i nodes),
    count-append string_discrete a (drop i nodes) (take (na - length (drop i nodes)) nodes),
  )

  chosen-select_nodes :
      (a : Address)
      → get_elem? nodes i ≡ some a
      → 0 < na
      → 0 < count string_discrete a (select_nodes nodes na i)
  unfolding select_nodes
  chosen-select_nodes a e some_act = ground (
    arith,
    count-get_elem?_all string_discrete a i nodes e,
    count-get_elem? string_discrete a i na nodes e some_act,
    count-drop-get_elem? string_discrete a i nodes e,
    count-append string_discrete a (drop i nodes) (take (na - length (drop i nodes)) nodes),
  )

-- The error with which the manifest of the height before is read.
abbrev pub NoManifest : GetManifest → Height → Error → Type 0
NoManifest get_manifest height e =
    (get : Height → Result Bytes) × (get_manifest ≡ some get) × (get (height -ℤ pos 1) ≡ err e)

-- A position that is found lies in the list.
position-lt :
    (get_manifest : GetManifest) (height : Height) (round all : ℕ)
    → 0 < all
    → ((e : Error) × NoManifest get_manifest height e
        × (position get_manifest height round all ≡ err e))
      ⊎ ((i : ℕ) × (position get_manifest height round all ≡ ok i) × (i < all))
unfolding position
position-lt none height round all h = inr (_, refl, omega (arith, h))
position-lt (some get) height round all h = elim (Result-cases (get (height -ℤ pos 1))) [
  | inl (x, q) ↦ inl (x, (get, refl, q), ground arith)
  | inr (b, q) ↦ inr (
    ((sum_bytes b 0 + int64_bits height + round) % 18446744073709551616) % all,
    rw (q, position) refl,
    omega (arith, h),
  )
]

-- What is said of an election: as many nodes as act, none of them more often than it stands in the
-- suffrage, and a proposer of the suffrage that acts itself if any node does.
abbrev pub Elected : ℕ → List Address → ActingSuffrage → Type 0
Elected na nodes af =
    (length af.node_list ≡ na)
    × ((a : Address) → count string_discrete a af.node_list ≤ count string_discrete a nodes)
    × ((p : Address) × (af.proposer ≡ some p)
        × (0 < count string_discrete p nodes)
        × (0 < na → 0 < count string_discrete p af.node_list))

module _ (get_manifest : GetManifest) (na : ℕ) (nodes : List Address) where
  place-lt :
      (height : Height) (round : ℕ)
      → 0 < length nodes
      → ((e : Error) × NoManifest get_manifest height e
          × (elect_position get_manifest nodes height round ≡ err e))
        ⊎ ((i : ℕ) × (elect_position get_manifest nodes height round ≡ ok i) × (i < length nodes))
  unfolding elect_position
  place-lt height round h = elim (Bool-cases (leb_ℤ (height -ℤ pos 1) pre_genesis_height)) [
    | inl first ↦ inr (0, ground arith, h)
    | inr later ↦ elim (position-lt get_manifest height round (length nodes) h) [
      | inl (e, none_read, q) ↦ inl (e, none_read, ground (arith, h))
      | inr (i, q, below) ↦ inr (i, ground (arith, h), below)
    ]
  ]

  Elected-at :
      (height : Height) (round i : ℕ) (p : Address)
      → na ≤ length nodes
      → get_elem? nodes i ≡ some p
      → Elected na nodes (new_acting_suffrage height round (some p) (select_nodes nodes na i))
  unfolding new_acting_suffrage
  Elected-at height round i p enough e = (
    length-select_nodes nodes na i enough (get_elem?-bound i nodes e),
    count-select_nodes nodes na i enough,
    (
      p,
      refl,
      count-get_elem?_all string_discrete p i nodes e,
      chosen-select_nodes nodes na i enough p e,
    ),
  )

  elect-at :
      (height : Height) (round i : ℕ) (p : Address)
      → na ≤ length nodes
      → elect_position get_manifest nodes height round ≡ ok i
      → get_elem? nodes i ≡ some p
      → roundrobin_elect get_manifest na nodes height round
        ≡ ok (new_acting_suffrage height round (some p) (select_nodes nodes na i))
  unfolding roundrobin_elect node_at
  elect-at height round i p enough place e = ground arith

  -- In a suffrage with a node and with no more acting nodes than nodes, an election fails only with
  -- the error with which the manifest of the height before is read. Else as many nodes as set act,
  -- none of them more often than it stands in the suffrage; the proposer is a node of the suffrage,
  -- and it acts itself if any node does.
  pub roundrobin_elect_lem :
      (height : Height) (round : ℕ)
      → 0 < length nodes
      → na ≤ length nodes
      → ((e : Error) × NoManifest get_manifest height e
          × (roundrobin_elect get_manifest na nodes height round ≡ err e))
        ⊎ ((af : ActingSuffrage) × (roundrobin_elect get_manifest na nodes height round ≡ ok af)
            × Elected na nodes af)
  unfolding roundrobin_elect
  roundrobin_elect_lem height round some_node enough = elim (place-lt height round some_node) [
    | inl (e, none_read, place) ↦ inl (e, none_read, ground arith)
    | inr (i, place, below) ↦
        let (p, e) = get_elem?-lt i nodes below in
        inr (
          new_acting_suffrage height round (some p) (select_nodes nodes na i),
          elect-at height round i p enough place e,
          Elected-at height round i p enough e,
        )
  ]
