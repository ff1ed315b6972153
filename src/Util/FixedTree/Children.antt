-- ===== src/Util/FixedTree/Children.antt =====
-- The children of a node, and the hash that is generated for it.
use mitum.Common.{
  ℕ, suc, ◌+◌, ◌*◌, ◌≤◌, ◌<◌, ◌≡◌, refl, sym, ◌∙◌, ◌≢◌, ◌⊎◌, Bool, Bool-cases, inl, inr, true,
  false, arith, ltb, leb, if◌then◌else◌, Option, none, some, List, [], length, get_elem?,
  get_elem?-lt, get_elem?-bound,
}
use mitum.Common.Errors.{Result, ok, err, panicked, no_children}
use mitum.Util.Bytes.{Bytes}
use mitum.Util.FixedTree.{
  TreeEnv, TreeNode, is_empty, set_hash, node_hash, node_at, nodes_at, children, generate_node_hash,
}
use mitum.Util.FixedTree.Places.{FloatLaws, max_size, children_lem}

-- The same nodes behind a place.
abbrev pub SameBehind : ℕ → List TreeNode → List TreeNode → Type 0
SameBehind i nodes nodes' =
    (length nodes ≡ length nodes') × ((j : ℕ) → i < j → get_elem? nodes j ≡ get_elem? nodes' j)

abbrev pub HasKeys : List TreeNode → Type 0
HasKeys nodes = (i : ℕ) (n : TreeNode) → get_elem? nodes i ≡ some n → is_empty n.key ≡ false

-- The children of a node, by what stands at their places.
abbrev pick_two : Bool → Option TreeNode → Option TreeNode → Result (TreeNode × Option TreeNode)
pick_two two none b = err panicked
pick_two true (some l) none = err panicked
pick_two true (some l) (some r) = ok (l, some r)
pick_two false (some l) b = ok (l, none)

abbrev pick : ℕ → ℕ → Option TreeNode → Option TreeNode → Result (TreeNode × Option TreeNode)
pick size i a b =
    if leb size (2 * i + 1) then err no_children else pick_two (ltb (2 * i + 2) size) a b

pub next_place : (i j : ℕ) → i ≤ j → i ≢ j → suc i ≤ j
next_place i j above other = ground arith

abbrev pub hash_of : Option TreeNode → Bytes
hash_of none = []
hash_of (some n) = n.hash

module _ (env : TreeEnv) (laws : FloatLaws env) where
  -- The children of a node, by their places.
  pub children_at :
      (nodes : List TreeNode) (i : ℕ)
      → i < length nodes
      → length nodes ≤ max_size
      → ((length nodes ≤ 2 * i + 1) × (children env nodes i ≡ err no_children))
        ⊎ ((l : TreeNode) × (get_elem? nodes (2 * i + 1) ≡ some l)
            × (((length nodes ≤ 2 * i + 2) × (children env nodes i ≡ ok (l, none)))
                ⊎ ((r : TreeNode) × (get_elem? nodes (2 * i + 2) ≡ some r)
                    × (children env nodes i ≡ ok (l, some r)))))
  unfolding children nodes_at node_at
  children_at nodes i below small = elim (Bool-cases (leb (length nodes) (2 * i + 1))) [
    | inl no_child ↦
        inl (ground arith, ground (arith, children_lem env laws (length nodes) i below small))
    | inr child ↦
        let (l, at_l) = get_elem?-lt (2 * i + 1) nodes (ground arith) in
        inr (
          l,
          at_l,
          elim (Bool-cases (ltb (2 * i + 2) (length nodes))) [
            | inl second ↦
                let (r, at_r) = get_elem?-lt (2 * i + 2) nodes (ground arith) in
                inr (r, at_r, ground (arith, children_lem env laws (length nodes) i below small))
            | inr alone ↦
                inl
                  (ground arith, ground (arith, children_lem env laws (length nodes) i below small))
          ],
        )
  ]

  children-pick :
      (nodes : List TreeNode) (i : ℕ)
      → i < length nodes
      → length nodes ≤ max_size
      → children env nodes i
        ≡ pick (length nodes) i (get_elem? nodes (2 * i + 1)) (get_elem? nodes (2 * i + 2))
  children-pick nodes i below small = elim (children_at nodes i below small) [
    | inl (out, e) ↦ ground (arith, e)
    | inr (l, at_l, inl (out, e)) ↦ ground (arith, get_elem?-bound (2 * i + 1) nodes at_l)
    | inr (l, at_l, inr (r, at_r, e)) ↦
        ground
          (arith, get_elem?-bound (2 * i + 1) nodes at_l, get_elem?-bound (2 * i + 2) nodes at_r)
  ]

  pub children_same :
      (nodes nodes' : List TreeNode) (i : ℕ)
      → SameBehind i nodes nodes'
      → i < length nodes
      → length nodes ≤ max_size
      → children env nodes i ≡ children env nodes' i
  children_same nodes nodes' i (long, same) below small =
      children-pick nodes i below small
      ∙ (rw (long, same (2 * i + 1) (omega arith), same (2 * i + 2) (omega arith)) refl
          ∙ sym (children-pick nodes' i (omega (arith, long, below)) (omega (arith, long, small))))

  -- The hash of a node depends on its key and its index, and on its children.
  pub generate_same :
      (nodes nodes' : List TreeNode) (n : TreeNode) (h : Bytes)
      → children env nodes n.index ≡ children env nodes' n.index
      → generate_node_hash env nodes n ≡ generate_node_hash env nodes' (set_hash h n)
  unfolding generate_node_hash set_hash node_hash
  generate_same nodes nodes' n h same = rw (same, generate_node_hash) refl
