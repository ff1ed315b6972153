-- ===== src/Common/Dict.antt =====
-- A map with decidable keys as an association list, and the order in which Go ranges over it.
use mathlib.Core.Path.{◌≡◌, refl, sym, ap, ◌∙◌}
use mathlib.Core.Logic.{ite, ◌≢◌}
use mathlib.Core.Option.{Option, none, some}
use mathlib.Core.List.{List, [], ◌∷◌, ◌++◌, Memᴰ, Permᴰ}
use mathlib.Core.List.Permᴰ
use native.Mathlib.Omega.{arith}
use mitum.Common.Lists.{length}

abbrev pub Dict {ℓ} : Type ℓ → Type ℓ → Type ℓ
Dict K V = List (K × V)

module _ {ℓ} {K V : Type ℓ} where
  unfoldable pub find : Discrete K → K → Dict K V → Option V
  find d k [] = none
  find d k ((j, v) ∷ m) = ite (d j k) (some v) (find d k m)

  unfoldable pub put : Discrete K → K → V → Dict K V → Dict K V
  put d k v [] = (k, v) ∷ []
  put d k v ((j, w) ∷ m) = ite (d j k) ((k, v) ∷ m) ((j, w) ∷ put d k v m)

  unfoldable pub delete : Discrete K → K → Dict K V → Dict K V
  delete d k [] = []
  delete d k ((j, w) ∷ m) = let rest = delete d k m in ite (d j k) rest ((j, w) ∷ rest)

  pub find-delete :
      (d : Discrete K) (k j : K) (m : Dict K V)
      → find d j (delete d k m) ≡ ite (d k j) none (find d j m)
  unfolding find delete
  find-delete d k j [] = ground arith
  find-delete d k j ((i, w) ∷ m) = ground (arith, find-delete d k j m)

  pub find-put :
      (d : Discrete K) (k j : K) (v : V) (m : Dict K V)
      → find d j (put d k v m) ≡ ite (d k j) (some v) (find d j m)
  unfolding find put
  find-put d k j v [] = refl
  find-put d k j v ((i, w) ∷ m) = ground (arith, find-put d k j v m)

  pub find-put_self :
      (d : Discrete K) (k : K) (v : V) (m : Dict K V) → find d k (put d k v m) ≡ some v
  find-put_self d k v m = ground (arith, find-put d k k v m)

  pub find-put_ne :
      (d : Discrete K) {k j : K} (v : V) (m : Dict K V)
      → k ≢ j
      → find d j (put d k v m) ≡ find d j m
  find-put_ne d {k} {j} v m h = ground (arith, find-put d k j v m)

  -- What is found stands in the list.
  pub find-mem :
      (d : Discrete K) (k : K) {v : V} (m : Dict K V) → find d k m ≡ some v → Memᴰ (k, v) m
  unfolding find
  find-mem d k [] h = cc
  find-mem d k {v} ((j, w) ∷ m) h =
      elim (d j k) as (λ b. ite b (some w) (find d k m) ≡ some v → Memᴰ (k, v) ((j, w) ∷ m)) [
        | yes p ↦ λ e. Memᴰ.head (cc)
        | no _ ↦ λ e. Memᴰ.tail (find-mem d k m e)
      ]
        h

  -- A key of the list is found.
  pub find_of_mem :
      (d : Discrete K) (k : K) {v : V} (m : Dict K V)
      → Memᴰ (k, v) m
      → (w : V) × (find d k m ≡ some w)
  unfolding find
  find_of_mem d k [] h = elim h [ ]
  find_of_mem d k ((j, w) ∷ m) (Memᴰ.head e) =
      elim (d j k) as (λ b. (w' : V) × (ite b (some w) (find d k m) ≡ some w')) [
        | yes p ↦ (w, refl)
        | no q ↦ absurd (q (cc))
      ]
  find_of_mem d k ((j, w) ∷ m) (Memᴰ.tail t) =
      elim (d j k) as (λ b. (w' : V) × (ite b (some w) (find d k m) ≡ some w')) [
        | yes p ↦ (w, refl)
        | no q ↦ find_of_mem d k m t
      ]

  abbrev pub values : Dict K V → List V
  values [] = []
  values ((k, v) ∷ m) = v ∷ values m

  abbrev pub keys : Dict K V → List K
  keys [] = []
  keys ((k, v) ∷ m) = k ∷ keys m

  -- No key stands twice.
  abbrev pub IsMap : Discrete K → Dict K V → Type ℓ
  IsMap d [] = Unit
  IsMap d ((k, v) ∷ m) = (find d k m ≡ none) × IsMap d m

module _ {ℓ} {K V : Type ℓ} where
  pub put-IsMap :
      (d : Discrete K) (k : K) (v : V) (m : Dict K V) → IsMap d m → IsMap d (put d k v m)
  unfolding find put
  put-IsMap d k v [] h = (refl, tt)
  put-IsMap d k v ((j, w) ∷ m) h =
      elim (d j k) as (λ b. IsMap d (ite b ((k, v) ∷ m) ((j, w) ∷ put d k v m))) [
        | yes p ↦ (rw p at h.0, h.1)
        | no q ↦ (find-put_ne d v m (λ e. q (sym e)) ∙ h.0, put-IsMap d k v m h.1)
      ]

  -- A key that is not there is put behind the others.
  pub put_fresh :
      (d : Discrete K) (k : K) (v : V) (m : Dict K V)
      → find d k m ≡ none
      → put d k v m ≡ m ++ (k, v) ∷ []
  unfolding find put
  put_fresh d k v [] h = refl
  put_fresh d k v ((j, w) ∷ m) h =
      elim (d j k)
          as (λ b.
            ite b (some w) (find d k m) ≡ none
            → ite b ((k, v) ∷ m) ((j, w) ∷ put d k v m) ≡ (j, w) ∷ m ++ (k, v) ∷ []) [
              | yes p ↦ λ e. cc
              | no q ↦ λ e. ap (λ l. (j, w) ∷ l) (put_fresh d k v m e)
            ]
        h

  pub values-append :
      (m : Dict K V) (k : K) (v : V) → values (m ++ (k, v) ∷ []) ≡ values m ++ v ∷ []
  values-append [] k v = refl
  values-append ((j, w) ∷ m) k v = ap (λ l. w ∷ l) (values-append m k v)

  -- In a map, every entry is what its key finds.
  pub find_of_IsMap :
      (d : Discrete K) (k : K) {v : V} (m : Dict K V)
      → IsMap d m
      → Memᴰ (k, v) m
      → find d k m ≡ some v
  unfolding find
  find_of_IsMap d k [] h i = elim i [ ]
  find_of_IsMap d k ((j, w) ∷ m) h (Memᴰ.head e) = ground arith
  find_of_IsMap d k {v} ((j, w) ∷ m) h (Memᴰ.tail t) =
      elim (d j k) as (λ b. ite b (some w) (find d k m) ≡ some v) [
        | yes p ↦ cc (find_of_IsMap d k m h.1 t)
        | no q ↦ find_of_IsMap d k m h.1 t
      ]

-- `for k, v := range m` visits each entry of a map once, in an order that the runtime chooses.
pub record MapRange : Type 1 where
  pub order : (A : Type 0) → List A → List A
  pub order-perm : (A : Type 0) (l : List A) → Permᴰ (order A l) l

module _ {ℓ} {A : Type ℓ} where
  pub mem-perm : {a : A} {xs ys : List A} → Permᴰ xs ys → Memᴰ a xs → Memᴰ a ys
  mem-perm Permᴰ.nil h = h
  mem-perm (Permᴰ.cons e p) (Memᴰ.head q) = Memᴰ.head (q ∙ e)
  mem-perm (Permᴰ.cons e p) (Memᴰ.tail t) = Memᴰ.tail (mem-perm p t)
  mem-perm (Permᴰ.swap e f) (Memᴰ.head q) = Memᴰ.tail (Memᴰ.head (q ∙ e))
  mem-perm (Permᴰ.swap e f) (Memᴰ.tail (Memᴰ.head q)) = Memᴰ.head (q ∙ f)
  mem-perm (Permᴰ.swap e f) (Memᴰ.tail (Memᴰ.tail t)) = Memᴰ.tail (Memᴰ.tail t)
  mem-perm (Permᴰ.trans p q) h = mem-perm q (mem-perm p h)

  pub length-perm : {xs ys : List A} → Permᴰ xs ys → length xs ≡ length ys
  length-perm Permᴰ.nil = refl
  length-perm (Permᴰ.cons e p) = omega (arith, length-perm p)
  length-perm (Permᴰ.swap e f) = refl
  length-perm (Permᴰ.trans p q) = length-perm p ∙ length-perm q

-- The members of a map are members whatever the order.
pub mem-order : (r : MapRange) {A : Type 0} {a : A} (l : List A) → Memᴰ a (r.order A l) → Memᴰ a l
mem-order r {A} l h = mem-perm (r.order-perm A l) h

pub order-mem : (r : MapRange) {A : Type 0} {a : A} (l : List A) → Memᴰ a l → Memᴰ a (r.order A l)
order-mem r {A} l h = mem-perm (Permᴰ.symm (r.order-perm A l)) h
