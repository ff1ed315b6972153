-- ===== src/Isaac/BlockChecker/Serialized.antt =====
-- Which rows of manifests pass.
use mitum.Common.{
  ℕ, zero, suc, ◌≡◌, refl, sym, ap, ◌∙◌, ◌↔◌, Option-cases, List, [], ◌∷◌, Option, none, some,
  arith, get_elem?, get_elem?-lt, get_elem?-bound, ◌≢◌, inl, inr,
}
use mathlib.Core.Path.{subst}
use mitum.Common.Int.{ℤ, pos, negsuc, ◌+ℤ◌, eqb_ℤ_iff}
use mitum.Common.Errors.{Error}
use mitum.Util.Bytes.{Bytes}
use mitum.Isaac.BlockChecker.{
  Manifest, check_is_valid, check_previous_block, check_current, check_from, check_serialized,
}

-- The manifest `n` is that of the block behind that of `m`.
abbrev pub Follows : Manifest → Manifest → Type 0
Follows m n = (n.height ≡ m.height +ℤ pos 1) × (n.previous_block ≡ m.hash)

add_zero : (a : ℤ) → a +ℤ pos 0 ≡ a
add_zero (pos n) = ground arith
add_zero (negsuc n) = ground arith

add_next : (a : ℤ) (i : ℕ) → (a +ℤ pos i) +ℤ pos 1 ≡ a +ℤ pos (suc i)
add_next (pos n) i = ground arith
add_next (negsuc n) i = ground arith

module _ (network_id : Bytes) where
  -- At a place of the row stands a valid manifest, and the one behind it, if any, follows it.
  abbrev pub IsLinked : List (Option Manifest) → ℕ → Option Manifest → Type 0
  IsLinked xs i x =
      (m : Manifest) × (x ≡ some m)
      × (m.is_valid network_id ≡ none)
      × ((y : Option Manifest)
          → get_elem? xs (suc i) ≡ some y
          → (n : Manifest) × (y ≡ some n) × Follows m n)

  check_previous_block_iff :
      (m : Manifest) (y : Option Manifest)
      → (check_previous_block network_id m y ≡ none) ↔ ((n : Manifest) × (y ≡ some n) × Follows m n)
  unfolding check_previous_block
  check_previous_block_iff m none = (λ h. cc, λ (n, e, _). cc)
  check_previous_block_iff m (some n) = (
    λ h. (n, refl, ground (arith, eqb_ℤ_iff n.height (m.height +ℤ pos 1))),
    λ (n', e, (high, back)).
        let same : n' ≡ n = cc in
        ground (
          arith,
          ap (λ x. x.height) same,
          ap (λ x. x.previous_block) same,
          eqb_ℤ_iff n.height (m.height +ℤ pos 1),
        ),
  )

  check_current_iff :
      (x : Option Manifest) (xs : List (Option Manifest)) (rest : Option Error)
      → (rest ≡ none → IsLinked (x ∷ xs) zero x → check_current network_id x xs rest ≡ none)
        × (check_current network_id x xs rest ≡ none → IsLinked (x ∷ xs) zero x)
        × (check_current network_id x xs rest ≡ none → xs ≢ [] → rest ≡ none)
  unfolding check_current check_is_valid
  check_current_iff none xs rest = (λ r (m, e, _, _). cc, λ h. cc, λ h. cc)
  check_current_iff (some m) [] rest = (
    λ r (m', e, valid, _).
        let same : m' ≡ m = cc in ap (λ x. x.is_valid network_id) (sym same) ∙ valid,
    λ h. (m, refl, h, λ y e. cc),
    λ h behind. absurd (behind refl),
  )
  check_current_iff (some m) (y ∷ xs) rest = elim (Option-cases (m.is_valid network_id)) [
    | inr (x, fails) ↦ (
      λ r (m', e, valid, _).
          let same : m' ≡ m = cc in
          absurd (ground (arith, ap (λ x. x.is_valid network_id) (sym same) ∙ valid)),
      λ h. absurd (ground arith),
      λ h. absurd (ground arith),
    )
    | inl valid ↦ elim (Option-cases (check_previous_block network_id m y)) [
      | inr (x, fails) ↦ (
        λ r (m', e, _, behind).
            let same : m' ≡ m = cc in
            let follows : (n : Manifest) × (y ≡ some n) × Follows m n =
              subst (λ k. (n : Manifest) × (y ≡ some n) × Follows k n) same (behind y refl) in
            absurd (ground (arith, (check_previous_block_iff m y).1 follows)),
        λ h. absurd (ground arith),
        λ h. absurd (ground arith),
      )
      | inl follows ↦ (
        λ r _. ground arith,
        λ h. (
          m,
          refl,
          valid,
          λ z e.
              let same : y ≡ z = cc in
              subst (λ w. (n : Manifest) × (w ≡ some n) × Follows m n) same
                ((check_previous_block_iff m y).0 follows),
        ),
        λ h _. ground arith,
      )
    ]
  ]

  -- Every place of the row is linked.
  abbrev pub AllLinked : List (Option Manifest) → Type 0
  AllLinked xs = (i : ℕ) (x : Option Manifest) → get_elem? xs i ≡ some x → IsLinked xs i x

  check_from_linked : (xs : List (Option Manifest)) → check_from network_id xs ≡ none → AllLinked xs
  unfolding check_from
  check_from_linked [] h i x e = cc
  check_from_linked (x ∷ xs) h zero z e =
      subst (IsLinked (x ∷ xs) zero) (cc) ((check_current_iff x xs (check_from network_id xs)).1 h)
  check_from_linked (x ∷ []) h (suc i) z e = cc
  check_from_linked (x ∷ y ∷ xs) h (suc i) z e =
      check_from_linked (y ∷ xs)
        ((check_current_iff x (y ∷ xs) (check_from network_id (y ∷ xs))).2 h (λ q. cc)) i z e

  linked-check_from : (xs : List (Option Manifest)) → AllLinked xs → check_from network_id xs ≡ none
  unfolding check_from
  linked-check_from [] h = refl
  linked-check_from (x ∷ xs) h =
      (check_current_iff x xs (check_from network_id xs)).0
        (linked-check_from xs (λ i z e. h (suc i) z e)) (h zero x refl)

  -- The heights of a row that passes count up from the first one.
  heights_of_linked :
      (xs : List (Option Manifest)) (first : Manifest)
      → AllLinked (some first ∷ xs)
      → (i : ℕ) (m : Manifest) → get_elem? (some first ∷ xs) i ≡ some (some m)
      → m.height ≡ first.height +ℤ pos i
  heights_of_linked xs first h zero m e =
      let same : first ≡ m = cc in ap (λ x. x.height) (sym same) ∙ sym (add_zero first.height)
  heights_of_linked xs first h (suc i) m e =
      let (x, at) =
        get_elem?-lt i (some first ∷ xs)
          (omega (arith, get_elem?-bound (suc i) (some first ∷ xs) e)) in
      let (k, is_there, _, behind) = h i x at in
      let (n, next, (high, _)) = behind (some m) e in
      let same : n ≡ m = cc in
      let below : k.height ≡ first.height +ℤ pos i =
        heights_of_linked xs first h i k (at ∙ ap (λ w. some w) is_there) in
      ap (λ w. w.height) (sym same) ∙ high ∙ ap (λ a. a +ℤ pos 1) below ∙ add_next first.height i

  -- CheckSerialized passes a row of manifests exactly if there is one, each is there and valid, and
  -- each names the one in front of it as its previous block, at the height above it; then the
  -- manifest at the i-th place is i above the height of the first.
  pub check_serialized_iff :
      (xs : List (Option Manifest))
      → ((check_serialized network_id xs ≡ none) ↔ ((xs ≢ []) × AllLinked xs))
        × (check_serialized network_id xs ≡ none
            → (first m : Manifest) (i : ℕ) → get_elem? xs zero ≡ some (some first)
            → get_elem? xs i ≡ some (some m)
            → m.height ≡ first.height +ℤ pos i)
  unfolding check_serialized
  check_serialized_iff [] = ((λ h. cc, λ (some_, _). absurd (some_ refl)), λ h. cc)
  check_serialized_iff (x ∷ xs) = (
    (λ h. (λ q. cc, check_from_linked (x ∷ xs) h), λ (_, h). linked-check_from (x ∷ xs) h),
    λ h first m i e e'.
        let same : x ≡ some first = cc in
        heights_of_linked xs first
          (subst (λ w. AllLinked (w ∷ xs)) same (check_from_linked (x ∷ xs) h)) i m
          (subst (λ w. get_elem? (w ∷ xs) i ≡ some (some m)) same e'),
  )
