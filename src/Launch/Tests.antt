-- ===== src/Launch/Tests.antt =====
-- The theorems of the package at concrete inputs.
use mitum.Common.{
  ℕ, ℕ_discrete, ◌≡◌, ◌≢◌, ◌≤◌, refl, ◌⊎◌, inl, ◌<◌, List, [], ◌∷◌, Option, none, some, map, arith,
  ite, length,
}
use mitum.Common.Int.{ℤ, pos}
use mitum.Common.Errors.{Error, ok, err, panicked}
use mitum.Base.Env.{Address}
use mitum.Base.Fact.{Height}
use mitum.Base.Suffrage.{ActingSuffrage, collect_nodes}
use mitum.Isaac.Ballotbox.{ℤ_discrete}
use mitum.Samples.{nodes}
use mitum.Launch.Suffrage.{
  LruCache, BaseSuffrage, GetManifest, roundrobin_elect, fixed_elect, new_base_suffrage,
  new_fixed_suffrage,
}
use mitum.Launch.Suffrage.Roundrobin.{NoManifest, Elected, roundrobin_elect_lem}
use mitum.Launch.Suffrage.Fixed.{Proposes, new_fixed_suffrage-Proposes}
use mitum.Launch.Suffrage.Cached.{CacheLaws, actings, elect_call, acting-cached}

-- The bytes of the hash of every manifest.
abbrev one_manifest : GetManifest
one_manifest = some (λ h. ok (7 ∷ 200 ∷ []))

roundrobin_elect_lem_example :
    ((e : Error) × NoManifest one_manifest (pos 5) e
      × (roundrobin_elect one_manifest 2 nodes (pos 5) 1 ≡ err e))
    ⊎ ((af : ActingSuffrage) × (roundrobin_elect one_manifest 2 nodes (pos 5) 1 ≡ ok af)
        × Elected 2 nodes af)
roundrobin_elect_lem_example =
    roundrobin_elect_lem one_manifest 2 nodes (pos 5) 1 (omega arith) (omega arith)

-- A cache of one entry.
abbrev Slot : Type 0
Slot = Option ((ℤ × ℕ) × ActingSuffrage)

unfoldable slot_key_discrete : Discrete (ℤ × ℕ)
slot_key_discrete = hlevel (ℕ_discrete, ℤ_discrete)

unfoldable slot_held : Slot → ℤ × ℕ → Option ActingSuffrage
slot_held none k = none
slot_held (some (j, v)) k = ite (slot_key_discrete j k) (some v) none

abbrev one_slot : LruCache
one_slot = record {
  Cache = Slot;
  Key = ℤ × ℕ;
  held = slot_held;
  get = λ c k. (slot_held c k, c);
  add = λ k v c. some (k, v);
  empty = λ n. none;
  format_key = λ h r. (h, r);
}

slot_add_keeps :
    (k : ℤ × ℕ) (v : ActingSuffrage) (j : ℤ × ℕ) (w : ActingSuffrage)
    → slot_held (some (k, v)) j ≡ some w
    → (j ≡ k) × (w ≡ v)
unfolding slot_held
slot_add_keeps k v j w e =
    elim (slot_key_discrete k j) as (λ d. ite d (some v) none ≡ some w → (j ≡ k) × (w ≡ v)) [
      | yes p ↦ λ q. (cc, cc)
      | no _ ↦ λ q. cc
    ]
      e

slot_empty : (k : ℤ × ℕ) → slot_held none k ≡ none
unfolding slot_held
slot_empty k = refl

slot_laws : CacheLaws one_slot
slot_laws = record {
  get_held = λ c k. refl;
  get_keeps = λ c k j v e. e;
  add_keeps = λ k v c j w e. inl (slot_add_keeps k v j w e);
  empty_held = λ n k. slot_empty k;
  format_key_injective = λ h i r s e. (cc, cc);
}

abbrev fixed_sample : BaseSuffrage Slot
fixed_sample = record {
  nodes = nodes;
  number_of_acting = 2;
  cache = some none;
  elect_func = fixed_elect 2 nodes;
  nodes_map = collect_nodes nodes [];
}

fixed_sample_made :
    new_base_suffrage one_slot (λ ns. ns) nodes 2 (fixed_elect 2 nodes) 1 ≡ ok fixed_sample
unfolding new_base_suffrage
fixed_sample_made = refl

fixed_sample_new : new_fixed_suffrage one_slot (λ ns. ns) none nodes 2 1 ≡ ok fixed_sample
unfolding new_base_suffrage new_fixed_suffrage
fixed_sample_new = refl

-- The second call finds the first one in the cache, the third drops it.
abbrev some_calls : List (Height × ℕ)
some_calls = (pos 4, 0) ∷ (pos 4, 0) ∷ (pos 5, 1) ∷ []

acting-cached_example :
    actings one_slot slot_laws fixed_sample some_calls
    ≡ map (elect_call one_slot slot_laws (fixed_elect 2 nodes)) some_calls
acting-cached_example =
    acting-cached one_slot slot_laws (λ ns. ns) nodes 2 (fixed_elect 2 nodes) 1 fixed_sample
      some_calls fixed_sample_made

abbrev nobody : Option Address
nobody = none

abbrev two_acting : ℕ
two_acting = 2

new_fixed_suffrage-Proposes_example :
    ((nobody ≡ none)
      × (1 < length nodes)
      × (two_acting ≡ 0)
      × (fixed_sample.elect_func (pos 5) 2 ≡ err panicked))
    ⊎ (((nobody ≢ none) ⊎ (length nodes ≤ 1) ⊎ (0 < two_acting))
        × Proposes nodes (fixed_sample.elect_func (pos 5) 2))
new_fixed_suffrage-Proposes_example =
    new_fixed_suffrage-Proposes one_slot (λ ns. ns) (λ ns. refl) (λ a ns. refl) nobody nodes
      two_acting 1 fixed_sample (pos 5) 2 fixed_sample_new
