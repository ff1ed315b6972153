-- ===== src/Common/Lists.antt =====
-- Lists measured and indexed by native numbers, under the library's names.
use Prim.Native.Nat.{ℕ, zero, suc, ◌+◌, ◌-◌, ◌≤◌, ◌<◌, min}
use mathlib.Core.Path.{◌≡◌, refl, ap}
use mathlib.Core.Logic.{◌≢◌, ite}
use mathlib.Core.List.{List, [], ◌∷◌, ◌++◌}
use mathlib.Core.Option.{Option, none, some}
use native.Mathlib.Omega.{arith}

module _ {ℓ} {A : Type ℓ} where
  abbrev pub length : List A → ℕ
  length [] = 0
  length (x ∷ xs) = suc (length xs)

  abbrev pub get_elem? : List A → ℕ → Option A
  get_elem? [] i = none
  get_elem? (x ∷ xs) zero = some x
  get_elem? (x ∷ xs) (suc i) = get_elem? xs i

  -- A write out of bounds changes nothing.
  abbrev pub set : List A → ℕ → A → List A
  set [] i v = []
  set (x ∷ xs) zero v = v ∷ xs
  set (x ∷ xs) (suc i) v = x ∷ set xs i v

  abbrev pub take : ℕ → List A → List A
  take zero xs = []
  take (suc n) [] = []
  take (suc n) (x ∷ xs) = x ∷ take n xs

  abbrev pub drop : ℕ → List A → List A
  drop zero xs = xs
  drop (suc n) [] = []
  drop (suc n) (x ∷ xs) = drop n xs

  abbrev pub replicate : ℕ → A → List A
  replicate zero a = []
  replicate (suc n) a = a ∷ replicate n a

  -- How often a value stands in a list.
  abbrev pub count : Discrete A → A → List A → ℕ
  count dec a [] = 0
  count dec a (x ∷ xs) = let rest = count dec a xs in ite (dec x a) (suc rest) rest

module _ {ℓ κ} {A : Type ℓ} where
  -- A predicate of every element, by recursion.
  abbrev pub All : (A → Type κ) → List A → Type κ
  All P [] = Unit
  All P (x ∷ xs) = P x × All P xs

module _ {ℓ} {A : Type ℓ} where
  pub length-append : (xs ys : List A) → length (xs ++ ys) ≡ length xs + length ys
  length-append [] ys = omega arith
  length-append (x ∷ xs) ys = omega (arith, length-append xs ys)

  pub length-set : (xs : List A) (i : ℕ) (v : A) → length (set xs i v) ≡ length xs
  length-set [] i v = refl
  length-set (x ∷ xs) zero v = refl
  length-set (x ∷ xs) (suc i) v = ap suc (length-set xs i v)

  pub get_elem?-set_self :
      (xs : List A) (i : ℕ) (v : A) → i < length xs → get_elem? (set xs i v) i ≡ some v
  get_elem?-set_self [] i v h = elim h [ ]
  get_elem?-set_self (x ∷ xs) zero v h = refl
  get_elem?-set_self (x ∷ xs) (suc i) v h = get_elem?-set_self xs i v (omega arith)

  pub get_elem?-set_ne :
      (xs : List A) {i j : ℕ} (v : A) → i ≢ j → get_elem? (set xs i v) j ≡ get_elem? xs j
  get_elem?-set_ne [] v h = refl
  get_elem?-set_ne (x ∷ xs) {i = zero} {j = zero} v h = absurd (h refl)
  get_elem?-set_ne (x ∷ xs) {i = zero} {j = suc j} v h = refl
  get_elem?-set_ne (x ∷ xs) {i = suc i} {j = zero} v h = refl
  get_elem?-set_ne (x ∷ xs) {i = suc i} {j = suc j} v h = get_elem?-set_ne xs v (λ e. h (ap suc e))

  pub get_elem?-lt : (i : ℕ) (xs : List A) → i < length xs → (a : A) × (get_elem? xs i ≡ some a)
  get_elem?-lt i [] h = absurd (omega (arith, h))
  get_elem?-lt zero (x ∷ xs) h = (x, refl)
  get_elem?-lt (suc i) (x ∷ xs) h = get_elem?-lt i xs (omega (arith, h))

  pub get_elem?-bound : (i : ℕ) (xs : List A) {a : A} → get_elem? xs i ≡ some a → i < length xs
  get_elem?-bound i [] e = absurd (ground arith)
  get_elem?-bound zero (x ∷ xs) e = omega arith
  get_elem?-bound (suc i) (x ∷ xs) e = omega (arith, get_elem?-bound i xs e)

  pub length-take : (n : ℕ) (xs : List A) → length (take n xs) ≡ min n (length xs)
  length-take zero xs = omega arith
  length-take (suc n) [] = omega arith
  length-take (suc n) (x ∷ xs) = omega (arith, length-take n xs)

  pub length-drop : (n : ℕ) (xs : List A) → length (drop n xs) ≡ length xs - n
  length-drop zero xs = omega arith
  length-drop (suc n) [] = omega arith
  length-drop (suc n) (x ∷ xs) = omega (arith, length-drop n xs)

  pub count-append :
      (dec : Discrete A) (a : A) (xs ys : List A)
      → count dec a (xs ++ ys) ≡ count dec a xs + count dec a ys
  count-append dec a [] ys = omega arith
  count-append dec a (x ∷ xs) ys = ground (arith, count-append dec a xs ys)

  pub count-le-length : (dec : Discrete A) (a : A) (xs : List A) → count dec a xs ≤ length xs
  count-le-length dec a [] = omega arith
  count-le-length dec a (x ∷ xs) = ground (arith, count-le-length dec a xs)

module _ {A : Type 0} (P : A → Type 0) (d : Discrete A) where
  -- What holds of the values that stand in a list, and of all elements.
  pub All-of_counts : (xs : List A) → ((a : A) → 0 < count d a xs → P a) → All P xs
  All-of_counts [] h = tt
  All-of_counts (x ∷ xs) h = (h x (ground arith), All-of_counts xs (λ a p. h a (ground arith)))

  pub counts-All : (xs : List A) (a : A) → All P xs → 0 < count d a xs → P a
  counts-All [] a all p = absurd (omega (arith, p))
  counts-All (x ∷ xs) a all p = elim (d x a) [
    | yes e ↦ rw (← e) all.0
    | no ne ↦ counts-All xs a all.1 (ground arith)
  ]
