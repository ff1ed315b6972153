-- ===== src/Util/FixedTree/Places.antt =====
-- The places of the parent and of the children of a node.
use mitum.Common.{
  ◌⊎◌, ltb→lt, not-ltb→le, not-leb→lt, ==→eq, ℕ, suc, ◌+◌, ◌-◌, ◌*◌, ◌/◌, ◌%◌, ◌^◌, ◌≤◌, ◌<◌, ◌≡◌,
  refl, ◌∙◌, ap, Bool-cases, inl, inr, arith, ltb, leb, ◌==◌, if◌then◌else◌,
}
use native.Mathlib.Nat.{pow-suc, pow-le-pow_right}
use mitum.Common.Errors.{Result, ok, err, no_parent, no_children}
use mitum.Util.Bytes.{int64_of_bits}
use mitum.Util.FixedTree.{
  TreeEnv, wrap, sub_wrapped, height_fixed_tree, parent_at, parent_fixed_tree, child_at,
  children_fixed_tree,
}

-- Trees of up to 2 ^ 47 nodes.
abbrev pub max_size : ℕ
max_size = 140737488355328

-- What the code relies on: the logarithm of a number up to 2 ^ 47 and the powers below 2 ^ 50 are
-- rounded down to the right number.
pub record FloatLaws (env : TreeEnv) : Type 0 where
  pub log2_low : (i : ℕ) → i < max_size → 2 ^ env.log2_next i ≤ i + 1
  pub log2_high : (i : ℕ) → i < max_size → i + 1 < 2 ^ suc (env.log2_next i)
  pub pow2_exact : (h : ℕ) → h < 50 → env.pow2_less h + 1 ≡ 2 ^ h

pub pow_mono : (i j : ℕ) → i ≤ j → 2 ^ i ≤ 2 ^ j
pow_mono i j h = pow-le-pow_right (omega arith) h

parent_arith :
    (i p u q : ℕ)
    → p + 1 ≡ 2 * q
    → u + 1 ≡ q
    → 2 * q ≤ i + 1
    → i + 1 < 4 * q
    → i < max_size
    → wrap (u + (if (sub_wrapped i p % 2 == 1) then sub_wrapped i p - 1 else sub_wrapped i p) / 2)
      ≡ (i - 1) / 2
parent_arith i p u q hp hu low high small = ground arith

child_arith :
    (i p n q : ℕ)
    → p + 1 ≡ q
    → n + 1 ≡ 2 * q
    → q ≤ i + 1
    → i + 1 < 2 * q
    → i < max_size
    → wrap (n + sub_wrapped i p * 2) ≡ 2 * i + 1
child_arith i p n q hp hn low high small = omega (arith, hp, hn, low, high, small)

module _ (env : TreeEnv) (laws : FloatLaws env) where
  level_low : (i : ℕ) → i < max_size → env.log2_next i < 48
  level_low i small = elim (Bool-cases (ltb (env.log2_next i) 48)) [
    | inl low ↦ ground arith
    | inr high ↦ absurd (
        omega (
          arith,
          laws.log2_low i small,
          small,
          pow_mono 48 (env.log2_next i) (not-ltb→le (env.log2_next i) 48 high),
        ))
  ]

  -- The level of the root is 0, and of no other node.
  pub level_root : env.log2_next 0 ≡ 0
  level_root = elim (Bool-cases (env.log2_next 0 == 0)) [
    | inl z ↦ ground arith
    | inr nz ↦
        absurd (
          omega (arith, laws.log2_low 0 (omega arith), pow_mono 1 (env.log2_next 0) (ground arith)))
  ]

  pub height_lem :
      (size i : ℕ)
      → i < size
      → size ≤ max_size
      → height_fixed_tree env size i ≡ ok (env.log2_next i)
  unfolding height_fixed_tree int64_of_bits
  height_lem size i below small = ground (arith, level_root)

  same_power : (i h : ℕ) → env.log2_next i ≡ suc h → 2 ^ env.log2_next i ≡ 2 ^ suc h
  same_power i h e = rw (e) refl

  same_next : (i h : ℕ) → env.log2_next i ≡ h → 2 ^ suc (env.log2_next i) ≡ 2 ^ suc h
  same_next i h e = rw (e) refl

  -- A level is a power of 2, twice the one above.
  level_up :
      (i h : ℕ)
      → i < max_size
      → env.log2_next i ≡ suc h
      → (env.pow2_less (suc h) + 1 ≡ 2 * 2 ^ h)
        × (env.pow2_less h + 1 ≡ 2 ^ h)
        × (2 * 2 ^ h ≤ i + 1)
        × (i + 1 < 4 * 2 ^ h)
  level_up i h small e =
      let low = level_low i small in
      (
        omega (arith, laws.pow2_exact (suc h) (omega (arith, low, e)), pow-suc 2 h),
        laws.pow2_exact h (omega (arith, low, e)),
        (omega (arith, laws.log2_low i small, pow-suc 2 h, e, same_power i h e)),
        omega (
          arith,
          laws.log2_high i small,
          pow-suc 2 (env.log2_next i),
          pow-suc 2 h,
          same_power i h e,
        ),
      )

  pub level_below : (i : ℕ) → suc i < max_size → (h : ℕ) × (env.log2_next (suc i) ≡ suc h)
  level_below i small = elim (Bool-cases (env.log2_next (suc i) == 0)) [
    | inl z ↦ absurd (
        omega (
          arith,
          laws.log2_high (suc i) small,
          same_next (suc i) 0 (==→eq (env.log2_next (suc i)) 0 z),
        ))
    | inr nz ↦ (env.log2_next (suc i) - 1, ground arith)
  ]

  parent_at_lem :
      (i h : ℕ)
      → suc i < max_size
      → env.log2_next (suc i) ≡ suc h
      → parent_at env (suc h) (suc i) ≡ i / 2
  unfolding parent_at
  parent_at_lem i h small e =
      let (p, u, low, high) = level_up (suc i) h small e in
      let same_level : suc h - 1 ≡ h = omega arith in
      let u' : env.pow2_less (suc h - 1) + 1 ≡ 2 ^ h =
        omega (arith, u, ap env.pow2_less same_level) in
      parent_arith (suc i) (env.pow2_less (suc h)) (env.pow2_less (suc h - 1)) (2 ^ h) p u' low high
        small
      ∙ omega arith

  parent_from :
      (size i h : ℕ)
      → height_fixed_tree env size (suc i) ≡ ok (suc h)
      → parent_at env (suc h) (suc i) ≡ i / 2
      → parent_fixed_tree env size (suc i) ≡ ok (i / 2)
  unfolding parent_fixed_tree
  parent_from size i h e p = rw (e, parent_fixed_tree) (ground (arith, p))

  -- Below 2 ^ 47 nodes the parent of any node but the root stands at half of the place before it.
  pub parent_lem :
      (size i : ℕ)
      → suc i < size
      → size ≤ max_size
      → parent_fixed_tree env size (suc i) ≡ ok (i / 2)
  unfolding parent_fixed_tree
  parent_lem size i below small =
      let in_range : suc i < max_size = omega (arith, below, small) in
      let (h, e) = level_below i in_range in
      parent_from size i h (height_lem size (suc i) below small ∙ ap ok e)
        (parent_at_lem i h in_range e)

  pub parent_root :
      (size : ℕ) → 0 < size → size ≤ max_size → parent_fixed_tree env size 0 ≡ err no_parent
  unfolding parent_fixed_tree
  parent_root size some_node small =
      rw (height_lem size 0 some_node small, parent_fixed_tree, level_root) refl

  child_at_lem : (i : ℕ) → i < max_size → child_at env (env.log2_next i) i ≡ 2 * i + 1
  unfolding child_at
  child_at_lem i small =
      let k = env.log2_next i in
      let low = level_low i small in
      let same_level : k + 1 ≡ suc k = omega arith in
      child_arith i (env.pow2_less k) (env.pow2_less (k + 1)) (2 ^ k)
        (laws.pow2_exact k (omega (arith, low)))
        (omega (
          arith,
          laws.pow2_exact (suc k) (omega (arith, low)),
          pow-suc 2 k,
          ap env.pow2_less same_level,
        ))
        (laws.log2_low i small) (omega (arith, laws.log2_high i small, pow-suc 2 k)) small

  -- Where the children of a node stand, by their number.
  abbrev pub child_places : ℕ → ℕ → Result (ℕ × ℕ)
  child_places size i =
      if leb size (2 * i + 1)
      then err no_children
      else if ltb (2 * i + 2) size
      then ok (2 * i + 1, 2 * i + 2)
      else ok (2 * i + 1, 0)

  children_from :
      (size i h : ℕ)
      → height_fixed_tree env size i ≡ ok h
      → child_at env h i ≡ 2 * i + 1
      → i < max_size
      → children_fixed_tree env size i ≡ child_places size i
  unfolding children_fixed_tree
  children_from size i h e c small = ground (arith, e, c)

  -- Below 2 ^ 47 nodes the children of a node stand at the two places behind its double.
  pub children_lem :
      (size i : ℕ)
      → i < size
      → size ≤ max_size
      → children_fixed_tree env size i ≡ child_places size i
  unfolding children_fixed_tree
  children_lem size i below small =
      let in_range : i < max_size = omega (arith, below, small) in
      children_from size i (env.log2_next i) (height_lem size i below small)
        (child_at_lem i in_range) in_range

  parent_of :
      (size i k p : ℕ)
      → suc k < size
      → size ≤ max_size
      → k / 2 ≡ i
      → p ≡ suc k
      → parent_fixed_tree env size p ≡ ok i
  parent_of size i k p below small half at =
      ap (parent_fixed_tree env size) at ∙ (parent_lem size k below small ∙ ap ok half)

  -- Below 2 ^ 47 nodes both places that `childrenFixedTree` gives for a node have that node as their
  -- parent; a second place that is 0 stands for no child.
  pub children-parent :
      (size i l r : ℕ)
      → i < size
      → size ≤ max_size
      → children_fixed_tree env size i ≡ ok (l, r)
      → (parent_fixed_tree env size l ≡ ok i) × ((r ≡ 0) ⊎ (parent_fixed_tree env size r ≡ ok i))
  children-parent size i l r below small e = elim (Bool-cases (leb size (2 * i + 1))) [
    | inl out ↦ absurd (ground (arith, children_lem size i below small))
    | inr child ↦
        let places : l ≡ 2 * i + 1 = ground (arith, children_lem size i below small) in
        let first =
          parent_of size i (2 * i) l (omega (arith, not-leb→lt size (2 * i + 1) child)) small
            (omega arith) (omega (arith, places)) in
        elim (Bool-cases (ltb (2 * i + 2) size)) [
          | inl second ↦
              let other : r ≡ 2 * i + 2 = ground (arith, children_lem size i below small) in
              (
                first,
                inr (
                    parent_of size i (2 * i + 1) r (omega (arith, ltb→lt (2 * i + 2) size second))
                      small (omega arith) (omega (arith, other))),
              )
          | inr alone ↦ (first, inl (ground (arith, children_lem size i below small)))
        ]
  ]
