-- ===== src/Base/Majority/Slice/Members.antt =====
-- Which keys and counts stand behind the index that FindMajority returns.
use mathlib.Core.List.{Memᴰ}
use mitum.Common.{
  ℕ, zero, suc, ◌≡◌, refl, ◌∙◌, ◌⊎◌, inl, inr, String, List, [], ◌∷◌, some, ℕ_discrete, arith,
  get_elem?, ltb, Bool-cases,
}
use mitum.Common.Dict.{Dict, find, put, values, find-put_self, find-put_ne}
use mitum.Base.Majority.{insert_desc, sort_desc}
use mitum.Base.Majority.Spec.{maximum}
use mitum.Base.Majority.Slice.{collect_keys}

pub get_elem?-mem : {A : Type 0} (xs : List A) (i : ℕ) {a : A} → get_elem? xs i ≡ some a → Memᴰ a xs
get_elem?-mem [] i h = cc
get_elem?-mem (x ∷ xs) zero h = Memᴰ.head (cc)
get_elem?-mem (x ∷ xs) (suc i) h = Memᴰ.tail (get_elem?-mem xs i h)

mem-cons_cases : {A : Type 0} {x y : A} {l : List A} → Memᴰ x (y ∷ l) → (x ≡ y) ⊎ Memᴰ x l
mem-cons_cases (Memᴰ.head e) = inl e
mem-cons_cases (Memᴰ.tail t) = inr t

mem-insert_desc : (n : ℕ) (set : List ℕ) {x : ℕ} → Memᴰ x (insert_desc n set) → (x ≡ n) ⊎ Memᴰ x set
unfolding insert_desc
mem-insert_desc n [] h = mem-cons_cases h
mem-insert_desc n (m ∷ set) h = elim (Bool-cases (ltb m n)) [
  | inl e ↦ mem-cons_cases (rw (e, insert_desc) at h)
  | inr e ↦ elim (mem-cons_cases (rw (e, insert_desc) at h)) [
    | inl p ↦ inr (Memᴰ.head p)
    | inr t ↦ elim (mem-insert_desc n set t) [ inl p ↦ inl p | inr u ↦ inr (Memᴰ.tail u) ]
  ]
]

pub mem-sort_desc : (set : List ℕ) {x : ℕ} → Memᴰ x (sort_desc set) → Memᴰ x set
unfolding sort_desc
mem-sort_desc [] h = h
mem-sort_desc (n ∷ set) h = elim (mem-insert_desc n (sort_desc set) h) [
  | inl e ↦ Memᴰ.head e
  | inr t ↦ Memᴰ.tail (mem-sort_desc set t)
]

pub mem-values : (m : Dict String ℕ) {n : ℕ} → Memᴰ n (values m) → (k : String) × Memᴰ (k, n) m
mem-values [] h = elim h [ ]
mem-values ((k, c) ∷ m) (Memᴰ.head e) = (k, Memᴰ.head (cc))
mem-values ((k, c) ∷ m) (Memᴰ.tail t) = let (j, i) = mem-values m t in (j, Memᴰ.tail i)

pub maximum-mem : (n : ℕ) (set : List ℕ) → Memᴰ (maximum (n ∷ set)) (n ∷ set)
maximum-mem n [] = Memᴰ.head (ground arith)
maximum-mem n (m ∷ set) = elim (Bool-cases (ltb n (maximum (m ∷ set)))) [
  | inl lt ↦ rw lt (Memᴰ.tail (maximum-mem m set))
  | inr ge ↦ rw ge (Memᴰ.head refl)
]

-- A count that is in the map of keys stays there, with its key or with a later one of that count.
kept_key :
    (counts : Dict String ℕ) (m : Dict ℕ String) (c : ℕ) (j : String)
    → find ℕ_discrete c m ≡ some j
    → (k : String) × (find ℕ_discrete c (collect_keys counts m) ≡ some k)
      × ((k ≡ j) ⊎ Memᴰ (k, c) counts)
unfolding collect_keys
kept_key [] m c j h = (j, h, inl refl)
kept_key ((k, n) ∷ counts) m c j h = elim (ℕ_discrete n c) [
  | yes e ↦
      let (k', found, from) =
        kept_key counts (put ℕ_discrete n k m) c k (rw e (find-put_self ℕ_discrete c k m)) in
      (k', found, elim from [ inl s ↦ inr (Memᴰ.head (cc)) | inr t ↦ inr (Memᴰ.tail t) ])
  | no q ↦
      let (k', found, from) =
        kept_key counts (put ℕ_discrete n k m) c j (find-put_ne ℕ_discrete k m q ∙ h) in
      (k', found, elim from [ inl s ↦ inl s | inr t ↦ inr (Memᴰ.tail t) ])
]

-- The key that is read back for a count is one with this count.
pub collect_keys-mem :
    (counts : Dict String ℕ) (m : Dict ℕ String) (c : ℕ) {j : String}
    → Memᴰ (j, c) counts
    → (k : String) × (find ℕ_discrete c (collect_keys counts m) ≡ some k) × Memᴰ (k, c) counts
unfolding collect_keys
collect_keys-mem [] m c h = elim h [ ]
collect_keys-mem ((k, n) ∷ counts) m c (Memᴰ.head e) =
    let same : n ≡ c = cc in
    let (k', found, from) =
      kept_key counts (put ℕ_discrete n k m) c k (rw same (find-put_self ℕ_discrete c k m)) in
    (k', found, elim from [ inl s ↦ Memᴰ.head (cc) | inr t ↦ Memᴰ.tail t ])
collect_keys-mem ((k, n) ∷ counts) m c (Memᴰ.tail t) =
    let (k', found, i) = collect_keys-mem counts (put ℕ_discrete n k m) c t in
    (k', found, Memᴰ.tail i)
