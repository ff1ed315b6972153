-- ===== src/Launch/Suffrage.antt =====
-- launch/process/suffrage_base.go, suffrage_fixed.go and suffrage_roundrobin.go: which nodes act, and
-- which of them proposes.
pub mod Roundrobin
pub mod Fixed
pub mod Cached
use mitum.Common.{
  ℕ, ◌+◌, ◌-◌, ◌%◌, String, Bool, true, false, List, [], ◌∷◌, ◌++◌, Option, none, some, ltb, ◌==◌,
  if◌then◌else◌, string_discrete, ite, length, get_elem?, take, drop,
}
use mitum.Common.Dict.{Dict, find}
use mitum.Common.Int.{ℤ, pos, ◌-ℤ◌, leb_ℤ}
use mitum.Common.Errors.{Error, Result, ok, err, failed, panicked}
use mitum.Util.Bytes.{Bytes, int64_bits}
use mitum.Base.Env.{Address}
use mitum.Base.Fact.{Height, pre_genesis_height}
use mitum.Base.Suffrage.{ActingSuffrage, new_acting_suffrage, exists, collect_nodes}

abbrev pub ElectFunc : Type 0
ElectFunc = Height → ℕ → Result ActingSuffrage

-- `nodes[i]`.
unfoldable pub node_at : List Address → ℕ → Result Address
node_at nodes i = elim (get_elem? nodes i) [ none ↦ err panicked | some a ↦ ok a ]

-- The third-party cache (`lru.TwoQueueCache`), with what it holds at present, and its keys, the texts
-- of `fmt.Sprintf("%d-%d", …)`. A read and a write may drop entries.
pub record LruCache : Type 1 where
  pub Cache : Type 0
  pub Key : Type 0
  pub held : Cache → Key → Option ActingSuffrage
  pub get : Cache → Key → Option ActingSuffrage × Cache
  pub add : Key → ActingSuffrage → Cache → Cache
  pub empty : ℕ → Cache
  pub format_key : ℤ → ℕ → Key

-- `BaseSuffrage`.
pub record BaseSuffrage (Cache : Type 0) : Type 0 where
  pub nodes : List Address
  pub number_of_acting : ℕ
  pub cache : Option Cache
  pub elect_func : ElectFunc
  pub nodes_map : Dict Address Bool

module _ (lru : LruCache) (sort_addresses : List Address → List Address) where
  open lru use {Cache, empty}

  -- `NewBaseSuffrage`.
  unfoldable pub new_base_suffrage : List Address → ℕ → ElectFunc → ℕ → Result (BaseSuffrage Cache)
  unfolding collect_nodes
  new_base_suffrage nodes number_of_acting elect_func cache_size =
      if ltb (length nodes) number_of_acting
      then err failed
      else ok (record {
        nodes = sort_addresses nodes;
        number_of_acting = number_of_acting;
        cache = if ltb 0 cache_size then some (empty cache_size) else none;
        elect_func = elect_func;
        nodes_map = collect_nodes nodes [];
      })

module _ (lru : LruCache) where
  open lru use {Cache, get, add, format_key}

  -- `IsInside`.
  unfoldable pub is_inside : BaseSuffrage Cache → Address → Bool
  is_inside sf a = elim (find string_discrete a sf.nodes_map) [ none ↦ false | some _ ↦ true ]

  -- `Acting`: the result, and the suffrage with its cache.
  unfoldable pub acting :
      BaseSuffrage Cache → Height → ℕ → Result ActingSuffrage × BaseSuffrage Cache
  acting sf height round = elim sf.cache [
    | none ↦ (sf.elect_func height round, sf)
    | some c ↦
        let (found, c') = get c (format_key height round) in
        elim found [
          | some af ↦ (ok af, record sf { cache = some c' })
          | none ↦ elim (sf.elect_func height round) [
            | err e ↦ (err e, record sf { cache = some c' })
            | ok af ↦ (ok af, record sf { cache = some (add (format_key height round) af c') })
          ]
        ]
  ]

  -- `IsActing`.
  unfoldable pub is_acting : BaseSuffrage Cache → Height → ℕ → Address → Result Bool
  unfolding acting exists
  is_acting sf height round n = elim (acting sf height round).0 [
    | err e ↦ err e
    | ok af ↦ ok (exists af n)
  ]

  -- `IsProposer`; a proposer that is nil makes it panic.
  unfoldable pub is_proposer : BaseSuffrage Cache → Height → ℕ → Address → Result Bool
  unfolding acting
  is_proposer sf height round n = elim (acting sf height round).0 [
    | err e ↦ err e
    | ok af ↦ elim af.proposer [
      | none ↦ err panicked
      | some p ↦ ok (ite (string_discrete p n) true false)
    ]
  ]

-- `FixedSuffrage.electWithProposer`.
unfoldable pub elect_with_proposer : Address → List Address → ElectFunc
unfolding new_acting_suffrage collect_nodes
elect_with_proposer proposer nodes height round =
    ok (new_acting_suffrage height round (some proposer) nodes)

-- `FixedSuffrage.elect`; the sum is a uint64, and a remainder by 0 panics.
unfoldable pub fixed_elect : ℕ → List Address → ElectFunc
unfolding new_acting_suffrage node_at collect_nodes
fixed_elect number_of_acting nodes height round =
    if number_of_acting == 0
    then err panicked
    else elim (node_at nodes
        (((int64_bits height + round) % 18446744073709551616) % number_of_acting)) [
          | err e ↦ err e
          | ok p ↦ ok (new_acting_suffrage height round (some p) nodes)
        ]

unfoldable pub has_address : Address → List Address → Bool
has_address a [] = false
has_address a (n ∷ ns) = let rest = has_address a ns in ite (string_discrete n a) true rest

-- The bytes of a hash summed up, as a uint64.
unfoldable pub sum_bytes : Bytes → ℕ → ℕ
sum_bytes [] sum = sum
sum_bytes (b ∷ bs) sum = sum_bytes bs ((sum + b) % 18446744073709551616)

-- The bytes of the hash of the manifest of a height; there need not be a function for it.
abbrev pub GetManifest : Type 0
GetManifest = Option (Height → Result Bytes)

-- `RoundrobinSuffrage.pos`, for a number of nodes that is not 0.
unfoldable pub position : GetManifest → Height → ℕ → ℕ → Result ℕ
unfolding sum_bytes
position none height round all = ok (((int64_bits height + round) % 18446744073709551616) % all)
position (some get_manifest) height round all = elim (get_manifest (height -ℤ pos 1)) [
  | err e ↦ err e
  | ok bytes ↦ ok (((sum_bytes bytes 0 + int64_bits height + round) % 18446744073709551616) % all)
]

-- The nodes that `RoundrobinSuffrage.elect` selects.
unfoldable pub select_nodes : List Address → ℕ → ℕ → List Address
select_nodes nodes na at =
    let selected = drop at nodes in
    if length nodes == na
    then nodes
    else if ltb na (length selected)
    then take na selected
    else if ltb (length selected) na
    then selected ++ take (na - length selected) nodes
    else selected

-- The place of the proposer in `RoundrobinSuffrage.elect`; without a node it panics.
unfoldable pub elect_position : GetManifest → List Address → Height → ℕ → Result ℕ
unfolding position
elect_position get_manifest nodes height round =
    if leb_ℤ (height -ℤ pos 1) pre_genesis_height
    then ok 0
    else if length nodes == 0
    then err panicked
    else position get_manifest height round (length nodes)

-- `RoundrobinSuffrage.elect`.
unfoldable pub roundrobin_elect : GetManifest → ℕ → List Address → ElectFunc
unfolding elect_position select_nodes new_acting_suffrage node_at collect_nodes
roundrobin_elect get_manifest number_of_acting nodes height round =
    let na = if ltb (length nodes) number_of_acting then length nodes else number_of_acting in
    elim (elect_position get_manifest nodes height round) [
      | err e ↦ err e
      | ok i ↦ elim (node_at nodes i) [
        | err e ↦ err e
        | ok p ↦ ok (new_acting_suffrage height round (some p) (select_nodes nodes na i))
      ]
    ]

module _ (lru : LruCache) (sort_addresses : List Address → List Address) where
  -- `NewRoundrobinSuffrage`.
  unfoldable pub new_roundrobin_suffrage :
      List Address → ℕ → ℕ → GetManifest → Result (BaseSuffrage lru.Cache)
  unfolding new_base_suffrage roundrobin_elect
  new_roundrobin_suffrage nodes number_of_acting cache_size get_manifest =
      new_base_suffrage lru sort_addresses nodes number_of_acting
        (roundrobin_elect get_manifest number_of_acting (sort_addresses nodes)) cache_size

  -- `NewFixedSuffrage`.
  unfoldable pub new_fixed_suffrage :
      Option Address → List Address → ℕ → ℕ → Result (BaseSuffrage lru.Cache)
  unfolding new_base_suffrage elect_with_proposer fixed_elect has_address
  new_fixed_suffrage proposer [] number_of_acting cache_size = err failed
  new_fixed_suffrage none (n ∷ []) number_of_acting cache_size =
      new_base_suffrage lru sort_addresses (n ∷ []) number_of_acting
        (elect_with_proposer n (sort_addresses (n ∷ []))) cache_size
  new_fixed_suffrage none (n ∷ m ∷ ns) number_of_acting cache_size =
      new_base_suffrage lru sort_addresses (n ∷ m ∷ ns) number_of_acting
        (fixed_elect number_of_acting (sort_addresses (n ∷ m ∷ ns))) cache_size
  new_fixed_suffrage (some p) (n ∷ ns) number_of_acting cache_size =
      if has_address p (n ∷ ns)
      then new_base_suffrage lru sort_addresses (n ∷ ns) number_of_acting
          (elect_with_proposer p (sort_addresses (n ∷ ns))) cache_size
      else err failed
