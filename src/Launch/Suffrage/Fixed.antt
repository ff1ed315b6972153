-- ===== src/Launch/Suffrage/Fixed.antt =====
-- The proposer of a fixed suffrage.
use mitum.Common.{
  ℕ, ◌+◌, ◌%◌, ◌≡◌, ◌≢◌, refl, ◌<◌, ◌≤◌, ◌⊎◌, inl, inr, List, [], ◌∷◌, Option, none, some, arith,
  Bool-cases, length, get_elem?-lt, ltb, ◌==◌, true, false, count, string_discrete,
}
use mitum.Common.Errors.{Result, ok, err, panicked}
use mitum.Util.Bytes.{int64_bits}
use mitum.Base.Env.{Address}
use mitum.Base.Fact.{Height}
use mitum.Base.Suffrage.{ActingSuffrage, new_acting_suffrage}
use mitum.Launch.Suffrage.{
  LruCache, BaseSuffrage, ElectFunc, new_base_suffrage, new_fixed_suffrage, fixed_elect,
  elect_with_proposer, node_at, has_address,
}
use mitum.Launch.Suffrage.Roundrobin.{count-get_elem?_all}

-- An election in which each node acts as often as it stands in the suffrage, and that gives a proposer of
-- the suffrage.
abbrev pub Proposes : List Address → Result ActingSuffrage → Type 0
Proposes nodes r =
    (af : ActingSuffrage) × (r ≡ ok af)
    × ((a : Address) → count string_discrete a af.node_list ≡ count string_discrete a nodes)
    × ((p : Address) × (af.proposer ≡ some p) × (0 < count string_discrete p nodes))

has_address-count :
    (a : Address) (ns : List Address) → has_address a ns ≡ true → 0 < count string_discrete a ns
unfolding has_address
has_address-count a [] h = absurd (ground arith)
has_address-count a (n ∷ ns) h = ground (arith, has_address-count a ns)

-- Sorting keeps the number of nodes, and how often each stands in the list.
abbrev pub KeepsLength : (List Address → List Address) → Type 0
KeepsLength sort_addresses = (ns : List Address) → length (sort_addresses ns) ≡ length ns

abbrev pub KeepsCount : (List Address → List Address) → Type 0
KeepsCount sort_addresses =
    (a : Address) (ns : List Address)
    → count string_discrete a (sort_addresses ns) ≡ count string_discrete a ns

not_zero : (n : ℕ) → (n == 0) ≡ false → 0 < n
not_zero n h = ground arith

module _ (lru : LruCache) (sort_addresses : List Address → List Address)
    (keeps_length : KeepsLength sort_addresses) (keeps_count : KeepsCount sort_addresses) where
  made-parts :
      (nodes : List Address) (na : ℕ) (elect : ElectFunc) (cache_size : ℕ)
      (sf : BaseSuffrage lru.Cache)
      → new_base_suffrage lru sort_addresses nodes na elect cache_size ≡ ok sf
      → (na ≤ length nodes) × (sf.elect_func ≡ elect)
  unfolding new_base_suffrage
  made-parts nodes na elect cache_size sf made = elim (Bool-cases (ltb (length nodes) na)) [
    | inl few ↦ absurd (ground arith)
    | inr enough ↦ (ground arith, ground arith)
  ]

  named-Proposes :
      (p : Address) (nodes : List Address) (h : Height) (r : ℕ)
      → 0 < count string_discrete p nodes
      → Proposes nodes (elect_with_proposer p (sort_addresses nodes) h r)
  unfolding elect_with_proposer new_acting_suffrage
  named-Proposes p nodes h r inside = (_, refl, (λ a. keeps_count a nodes), (p, refl, inside))

  turn-Proposes :
      (nodes : List Address) (na : ℕ) (h : Height) (r : ℕ)
      → na ≤ length nodes
      → ((na ≡ 0) × (fixed_elect na (sort_addresses nodes) h r ≡ err panicked))
        ⊎ ((0 < na) × Proposes nodes (fixed_elect na (sort_addresses nodes) h r))
  unfolding fixed_elect new_acting_suffrage node_at
  turn-Proposes nodes na h r enough = elim (Bool-cases (na == 0)) [
    | inl z ↦ inl (ground arith, ground arith)
    | inr some_act ↦
        let (p, e) =
          get_elem?-lt (((int64_bits h + r) % 18446744073709551616) % na) (sort_addresses nodes)
            (omega (arith, keeps_length nodes, enough, not_zero na some_act)) in
        inr (
          not_zero na some_act,
          (
            new_acting_suffrage h r (some p) (sort_addresses nodes),
            ground arith,
            (λ a. keeps_count a nodes),
            (
              p,
              refl,
              rw (← keeps_count p nodes) (
                  count-get_elem?_all string_discrete p
                    (((int64_bits h + r) % 18446744073709551616) % na) (sort_addresses nodes) e),
            ),
          ),
        )
  ]

  -- In a fixed suffrage that has been made, with no proposer named, at least two nodes and no acting
  -- nodes set, an election panics, at every height and round. In every other one all its nodes act at
  -- every height and round, each as often as it stands in the suffrage, and one of them proposes. The
  -- sorting of the nodes keeps how often each stands in the list.
  pub new_fixed_suffrage-Proposes :
      (proposer : Option Address) (nodes : List Address) (na cache_size : ℕ)
      (sf : BaseSuffrage lru.Cache) (h : Height) (r : ℕ)
      → new_fixed_suffrage lru sort_addresses proposer nodes na cache_size ≡ ok sf
      → ((proposer ≡ none) × (1 < length nodes) × (na ≡ 0) × (sf.elect_func h r ≡ err panicked))
        ⊎ (((proposer ≢ none) ⊎ (length nodes ≤ 1) ⊎ (0 < na)) × Proposes nodes (sf.elect_func h r))
  unfolding new_fixed_suffrage new_base_suffrage
  new_fixed_suffrage-Proposes proposer [] na cache_size sf h r made = absurd (ground arith)
  new_fixed_suffrage-Proposes none (n ∷ []) na cache_size sf h r made =
      let (enough, same) = made-parts (n ∷ []) na _ cache_size sf made in
      rw (same) (inr (inr (inl (omega arith)), named-Proposes n (n ∷ []) h r (ground arith)))
  new_fixed_suffrage-Proposes none (n ∷ m ∷ ns) na cache_size sf h r made =
      let (enough, same) = made-parts (n ∷ m ∷ ns) na _ cache_size sf made in
      elim (turn-Proposes (n ∷ m ∷ ns) na h r enough) [
        | inl (nobody, panics) ↦ inl (refl, omega arith, nobody, rw (same) panics)
        | inr (acting, proposes) ↦ rw (same) (inr (inr (inr acting), proposes))
      ]
  new_fixed_suffrage-Proposes (some p) (n ∷ ns) na cache_size sf h r made =
      elim (Bool-cases (has_address p (n ∷ ns))) [
        | inl inside ↦
            let (enough, same) =
              made-parts (n ∷ ns) na (elect_with_proposer p (sort_addresses (n ∷ ns))) cache_size sf
                (ground arith) in
            rw (same) (
              inr (
                inl (λ e. cc),
                named-Proposes p (n ∷ ns) h r (has_address-count p (n ∷ ns) inside),
              ))
        | inr outside ↦ absurd (ground arith)
      ]
