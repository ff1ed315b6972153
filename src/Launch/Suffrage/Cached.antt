-- ===== src/Launch/Suffrage/Cached.antt =====
-- The cache of a suffrage: a call gives what an election gives.
use mitum.Common.{
  ℕ, ◌≡◌, refl, sym, ◌∙◌, ◌⊎◌, inl, inr, List, [], ◌∷◌, Option, none, some, arith, Option-cases,
  map,
}
use mitum.Common.Int.{ℤ}
use mitum.Common.Errors.{Error, Result, ok, err, Result-cases}
use mitum.Base.Env.{Address}
use mitum.Base.Fact.{Height}
use mitum.Base.Suffrage.{ActingSuffrage}
use mitum.Launch.Suffrage.{LruCache, BaseSuffrage, ElectFunc, new_base_suffrage, acting}

-- What the code relies on: a read gives what is held, and a read or a write adds no other entry. The
-- numbers in a key can be read back.
pub record CacheLaws (lru : LruCache) : Type 0 where
  pub get_held : (c : lru.Cache) (k : lru.Key) → (lru.get c k).0 ≡ lru.held c k
  pub get_keeps :
      (c : lru.Cache) (k j : lru.Key) (v : ActingSuffrage)
      → lru.held (lru.get c k).1 j ≡ some v
      → lru.held c j ≡ some v
  pub add_keeps :
      (k : lru.Key) (v : ActingSuffrage) (c : lru.Cache) (j : lru.Key) (w : ActingSuffrage)
      → lru.held (lru.add k v c) j ≡ some w
      → ((j ≡ k) × (w ≡ v)) ⊎ (lru.held c j ≡ some w)
  pub empty_held : (n : ℕ) (k : lru.Key) → lru.held (lru.empty n) k ≡ none
  pub format_key_injective :
      (h i : ℤ) (r s : ℕ) → lru.format_key h r ≡ lru.format_key i s → (h ≡ i) × (r ≡ s)

module _ (lru : LruCache) (laws : CacheLaws lru) where
  -- Calls one after the other.
  abbrev pub actings : BaseSuffrage lru.Cache → List (Height × ℕ) → List (Result ActingSuffrage)
  actings sf [] = []
  actings sf ((h, r) ∷ calls) = let (result, sf') = acting lru sf h r in result ∷ actings sf' calls

  -- Whatever is held is what the election gives.
  abbrev Sound : ElectFunc → lru.Cache → Type 0
  Sound elect c =
      (h : Height) (r : ℕ) (af : ActingSuffrage)
      → lru.held c (lru.format_key h r) ≡ some af
      → elect h r ≡ ok af

  Sound-get :
      (elect : ElectFunc) (c : lru.Cache) (k : lru.Key)
      → Sound elect c
      → Sound elect (lru.get c k).1
  Sound-get elect c k sound h r af e = sound h r af (laws.get_keeps c k (lru.format_key h r) af e)

  Sound-add :
      (elect : ElectFunc) (c : lru.Cache) (h : Height) (r : ℕ) (af : ActingSuffrage)
      → elect h r ≡ ok af
      → Sound elect c
      → Sound elect (lru.add (lru.format_key h r) af c)
  Sound-add elect c h r af elected sound i s w e =
      elim (laws.add_keeps (lru.format_key h r) af c (lru.format_key i s) w e) [
        | inl (same_key, same) ↦
            let (same_height, same_round) = laws.format_key_injective i h s r same_key in
            rw (same_height, same_round, same) elected
        | inr kept ↦ sound i s w kept
      ]

  Sound-some :
      (elect : ElectFunc) (c d : lru.Cache) → some c ≡ some d → Sound elect c → Sound elect d
  Sound-some elect c d e sound = let same : c ≡ d = cc in rw (← same) sound

  abbrev SoundSuffrage : BaseSuffrage lru.Cache → Type 0
  SoundSuffrage sf = (c : lru.Cache) → sf.cache ≡ some c → Sound sf.elect_func c

  -- The four ways of a call.
  module _ (sf : BaseSuffrage lru.Cache) (h : Height) (r : ℕ) where
    acting-uncached : sf.cache ≡ none → acting lru sf h r ≡ (sf.elect_func h r, sf)
    unfolding acting
    acting-uncached e = ground arith

    module _ (c : lru.Cache) (cached : sf.cache ≡ some c) where
      abbrev read : Option ActingSuffrage × lru.Cache
      read = lru.get c (lru.format_key h r)

      acting-hit :
          (af : ActingSuffrage)
          → read.0 ≡ some af
          → acting lru sf h r ≡ (ok af, record sf { cache = some read.1 })
      unfolding acting
      acting-hit af found = ground arith

      acting-fails :
          (x : Error)
          → read.0 ≡ none
          → sf.elect_func h r ≡ err x
          → acting lru sf h r ≡ (err x, record sf { cache = some read.1 })
      unfolding acting
      acting-fails x missing elected = ground arith

      acting-adds :
          (af : ActingSuffrage)
          → read.0 ≡ none
          → sf.elect_func h r ≡ ok af
          → acting lru sf h r
            ≡ (ok af, record sf { cache = some (lru.add (lru.format_key h r) af read.1) })
      unfolding acting
      acting-adds af missing elected = ground arith

  -- A call on a suffrage with a sound cache: the result, and the suffrage that is left.
  abbrev Answers : BaseSuffrage lru.Cache → Height → ℕ → Type 0
  Answers sf h r =
      ((acting lru sf h r).0 ≡ sf.elect_func h r)
      × ((acting lru sf h r).1.elect_func ≡ sf.elect_func)
      × SoundSuffrage (acting lru sf h r).1

  acting-Answers :
      (sf : BaseSuffrage lru.Cache) (h : Height) (r : ℕ) → SoundSuffrage sf → Answers sf h r
  acting-Answers sf h r sound = elim (Option-cases sf.cache) [
    | inl e ↦ rw (acting-uncached sf h r e) (refl, refl, sound)
    | inr (c, e) ↦
        let elect = sf.elect_func in
        let k = lru.format_key h r in
        let kept = Sound-get elect c k (sound c e) in
        elim (Option-cases (lru.get c k).0) [
          | inr (af, found) ↦ rw (acting-hit sf h r c e af found) (
            sym (sound c e h r af (sym (laws.get_held c k) ∙ found)),
            refl,
            λ d q. Sound-some elect (lru.get c k).1 d q kept,
          )
          | inl missing ↦ elim (Result-cases (elect h r)) [
            | inl (x, failed) ↦
                rw (acting-fails sf h r c e x missing failed)
                  (sym failed, refl, λ d q. Sound-some elect (lru.get c k).1 d q kept)
            | inr (af, elected) ↦ rw (acting-adds sf h r c e af missing elected) (
              sym elected,
              refl,
              λ d q.
                  Sound-some elect (lru.add k af (lru.get c k).1) d q
                    (Sound-add elect (lru.get c k).1 h r af elected kept),
            )
          ]
        ]
  ]

  abbrev pub elect_call : ElectFunc → Height × ℕ → Result ActingSuffrage
  elect_call elect call = elect call.0 call.1

  actings-elect :
      (sf : BaseSuffrage lru.Cache) (calls : List (Height × ℕ))
      → SoundSuffrage sf
      → actings sf calls ≡ map (elect_call sf.elect_func) calls
  actings-elect sf [] sound = refl
  actings-elect sf ((h, r) ∷ calls) sound =
      let (result, same, sound') = acting-Answers sf h r sound in
      rw (result, actings-elect (acting lru sf h r).1 calls sound', same) refl

  SoundSuffrage-new :
      (sort_addresses : List Address → List Address) (nodes : List Address) (na : ℕ)
      (elect : ElectFunc) (cache_size : ℕ) (sf : BaseSuffrage lru.Cache)
      → new_base_suffrage lru sort_addresses nodes na elect cache_size ≡ ok sf
      → (sf.elect_func ≡ elect) × SoundSuffrage sf
  unfolding new_base_suffrage
  SoundSuffrage-new sort_addresses nodes na elect cache_size sf made = (
    ground arith,
    λ c e h r af held.
        let same : lru.empty cache_size ≡ c = ground arith in
        absurd
          (ground (arith, rw (← same) at held, laws.empty_held cache_size (lru.format_key h r))),
  )

  -- Whatever calls are made of a suffrage that has been made, one after the other, each gives what
  -- the election of its height and round gives: the cache never shows.
  pub acting-cached :
      (sort_addresses : List Address → List Address) (nodes : List Address) (na : ℕ)
      (elect : ElectFunc) (cache_size : ℕ) (sf : BaseSuffrage lru.Cache) (calls : List (Height × ℕ))
      → new_base_suffrage lru sort_addresses nodes na elect cache_size ≡ ok sf
      → actings sf calls ≡ map (elect_call elect) calls
  acting-cached sort_addresses nodes na elect cache_size sf calls made =
      let (same, sound) = SoundSuffrage-new sort_addresses nodes na elect cache_size sf made in
      rw (← same) (actings-elect sf calls sound)
