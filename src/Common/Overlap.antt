-- ===== src/Common/Overlap.antt =====
-- Lists as counts of their members: two lists without more of anything than a short third one overlap.
use Prim.Native.Nat.{suc, ◌+◌, ◌≤◌, ◌<◌}
use mathlib.Core.Path.{◌≡◌}
use mathlib.Core.Logic.{ite, ◌⊎◌, inl, inr}
use mathlib.Core.List.{List, [], ◌∷◌, ◌++◌}
use native.Mathlib.Omega.{arith}
use native.Mathlib.Decide.{dec_lt}
use mitum.Common.Lists.{length, count, count-append, length-append}

module _ {A : Type 0} (d : Discrete A) where
  -- A list without its first `a`.
  abbrev remove : A → List A → List A
  remove a [] = []
  remove a (x ∷ xs) = ite (d x a) xs (x ∷ remove a xs)

  length-remove : (a : A) (xs : List A) → 0 < count d a xs → suc (length (remove a xs)) ≡ length xs
  length-remove a [] h = omega (arith, h)
  length-remove a (x ∷ xs) h = ground (arith, length-remove a xs)

  count-remove :
      (a b : A) (xs : List A) → count d b xs ≤ count d b (remove a xs) + count d b (a ∷ [])
  count-remove a b [] = omega arith
  count-remove a b (x ∷ xs) = ground (arith, count-remove a b xs)

  -- A list with no more of anything is no longer.
  pub length_of_counts :
      (xs ys : List A) → ((a : A) → count d a xs ≤ count d a ys) → length xs ≤ length ys
  length_of_counts [] ys h = omega arith
  length_of_counts (x ∷ xs) ys h = omega (
    arith,
    length-remove x ys (ground (arith, h x)),
    length_of_counts xs (remove x ys) (λ a. ground (arith, h a, count-remove x a ys)),
  )

  abbrev pub Common : List A → List A → Type 0
  Common xs ys = (a : A) × (0 < count d a xs) × (0 < count d a ys)

  search-Common : (xs ys : List A) → Common xs ys ⊎ ((a : A) → 0 < count d a xs → count d a ys ≡ 0)
  search-Common [] ys = inr (λ a h. absurd (omega (arith, h)))
  search-Common (x ∷ xs) ys = elim (dec_lt 0 (count d x ys)) [
    | yes p ↦ inl (x, ground arith, p)
    | no q ↦ elim (search-Common xs ys) [
      | inl (a, h, k) ↦ inl (a, ground arith, k)
      | inr none_of ↦ inr (λ a h. ground (arith, none_of a))
    ]
  ]

  pub overlap :
      (xs ys zs : List A)
      → ((a : A) → count d a xs ≤ count d a zs)
      → ((a : A) → count d a ys ≤ count d a zs)
      → length zs < length xs + length ys
      → Common xs ys
  overlap xs ys zs inx iny h = elim (search-Common xs ys) [
    | inl c ↦ c
    | inr apart ↦ absurd (
        omega (
          arith,
          length-append xs ys,
          length_of_counts (xs ++ ys) zs
              (λ a. ground (arith, count-append d a xs ys, inx a, iny a, apart a)),
        ))
  ]
