-- ===== src/Util/FixedTree/Climb.antt =====
-- The way from a node up to the root.
use mitum.Common.{
  ℕ, zero, suc, ◌+◌, ◌-◌, ◌/◌, ◌^◌, ◌≤◌, ◌<◌, ◌≡◌, refl, ap, ◌∙◌, Bool-cases, inl, inr, arith, ltb,
  not-ltb→le, some, List, [], ◌∷◌, length, get_elem?, get_elem?-lt, ltb→lt,
}
use native.Mathlib.Nat.{pow-suc}
use mitum.Common.Errors.{ok, err, no_parent}
use mitum.Util.Bytes.{int64_of_bits}
use mitum.Util.FixedTree.{TreeEnv, TreeNode, node_at, node, parent}
use mitum.Util.FixedTree.Proof.{stop_climbing, climb}
use mitum.Util.FixedTree.Places.{
  FloatLaws, max_size, pow_mono, level_root, level_below, parent_lem, parent_root,
}

-- Each node stands at its index.
abbrev pub Placed : List TreeNode → Type 0
Placed nodes = (i : ℕ) (n : TreeNode) → get_elem? nodes i ≡ some n → n.index ≡ i

-- A way up by parents, which ends at the root.
abbrev pub IsWayUp : ℕ → List TreeNode → Type 0
IsWayUp i [] = i ≡ 0
IsWayUp i (p ∷ ps) = (0 < i) × (p.index ≡ (i - 1) / 2) × IsWayUp p.index ps

-- The power of 2 below a number.
level_unique : (a b n : ℕ) → 2 ^ a ≤ n → n < 2 ^ suc a → 2 ^ b ≤ n → n < 2 ^ suc b → a ≡ b
level_unique a b n la ha lb hb = elim (Bool-cases (ltb a b)) [
  | inl below ↦ absurd (omega (arith, pow_mono (suc a) b (ltb→lt a b below), ha, lb))
  | inr above ↦ elim (Bool-cases (ltb b a)) [
    | inl below ↦ absurd (omega (arith, pow_mono (suc b) a (ltb→lt b a below), hb, la))
    | inr same ↦ omega (arith, not-ltb→le a b above, not-ltb→le b a same)
  ]
]

module _ (env : TreeEnv) (laws : FloatLaws env) where
  level_half :
      (i h : ℕ) → suc i < max_size → env.log2_next (suc i) ≡ suc h → env.log2_next (i / 2) ≡ h
  level_half i h small e =
      let half : i / 2 < max_size = omega (arith, small) in
      let low = laws.log2_low (suc i) small in
      let high = laws.log2_high (suc i) small in
      level_unique (env.log2_next (i / 2)) h (i / 2 + 1) (laws.log2_low (i / 2) half)
        (laws.log2_high (i / 2) half) (omega (arith, low, pow-suc 2 h, ap (λ k. 2 ^ k) e))
        (omega (
          arith,
          high,
          pow-suc 2 h,
          pow-suc 2 (suc h),
          pow-suc 2 (env.log2_next (suc i)),
          ap (λ k. 2 ^ k) e,
        ))

  module _ (nodes : List TreeNode) (small : length nodes ≤ max_size) (placed : Placed nodes) where
    node_lem : (i : ℕ) → i < length nodes → (n : TreeNode) × (node nodes i ≡ ok n) × (n.index ≡ i)
    unfolding node node_at int64_of_bits
    node_lem i below =
        let (n, e) = get_elem?-lt i nodes below in
        (n, ground (arith, e, below, small), placed i n e)

    parent_up :
        (i : ℕ)
        → suc i < length nodes
        → (p : TreeNode) × (parent env nodes (suc i) ≡ ok p) × (p.index ≡ i / 2)
    unfolding parent
    parent_up i below =
        let (p, e, at) = node_lem (i / 2) (omega (arith, below)) in
        (p, rw (parent_lem env laws (length nodes) i below small, parent) e, at)

    parent_top : 0 < length nodes → parent env nodes 0 ≡ err no_parent
    unfolding parent
    parent_top below = rw (parent_root env laws (length nodes) below small, parent) refl

    climb_from :
        (h i : ℕ)
        → env.log2_next i ≡ h
        → i < length nodes
        → (ps : List TreeNode) × (climb env h nodes i ≡ ok ps) × (length ps ≡ h) × IsWayUp i ps
    unfolding climb stop_climbing
    climb_from zero zero e below = ([], rw (parent_top below, climb) refl, refl, refl)
    climb_from zero (suc i) e below =
        let (h, e') = level_below env laws i (omega (arith, below, small)) in
        absurd (omega (arith, e, e'))
    climb_from (suc h) zero e below = absurd (omega (arith, e, level_root env laws))
    climb_from (suc h) (suc i) e below =
        let (p, up, at) = parent_up i below in
        let half = level_half i h (omega (arith, below, small)) e in
        let (ps, way, long, ends) =
          climb_from h p.index (ap env.log2_next at ∙ half) (omega (arith, at, below)) in
        (
          p ∷ ps,
          rw (up, climb) (rw (way) refl),
          omega (arith, long),
          (omega arith, omega (arith, at), ends),
        )

    -- In a tree of up to 2 ^ 47 nodes that stand at their indices, the loop of `Proof` ends: from any
    -- node it climbs by parents to the root, and the room for as many nodes as the height of the node
    -- is just filled.
    pub climb_lem :
        (i : ℕ)
        → i < length nodes
        → (ps : List TreeNode) × (climb env (env.log2_next i) nodes i ≡ ok ps)
          × (length ps ≡ env.log2_next i)
          × IsWayUp i ps
    climb_lem i below = climb_from (env.log2_next i) i refl below
