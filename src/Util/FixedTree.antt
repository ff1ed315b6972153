-- ===== src/Util/FixedTree.antt =====
-- util/tree/fixedtree.go: a tree of hashes kept in a list by levels, the root first. The hints of the
-- tree and of its nodes are left out. Numbers of nodes are `uint64`, and wrap around.
pub mod Generator
pub mod Proof
pub mod Places
pub mod Climb
pub mod Children
pub mod Filled
pub mod Generated
use mitum.Common.{
  ℕ, zero, suc, ◌+◌, ◌-◌, ◌*◌, ◌/◌, ◌%◌, Bool, true, false, List, [], ◌∷◌, ◌++◌, Option, none, some,
  ltb, leb, ◌==◌, not, ◌&&◌, if◌then◌else◌, length, get_elem?, set, replicate, ite, ℕ_discrete,
}
use mitum.Common.Int.{ℤ, pos, leb_ℤ, eqb_ℤ}
use mitum.Common.Errors.{
  Error, Result, ok, err, invalid, failed, panicked, not_found, no_parent, no_children,
}
use mitum.Util.Bytes.{Bytes, uint64_to_bytes, int64_of_bits}

-- What is used of the packages `math` and `crypto/sha256`, with the conversions from and to `uint64`:
-- `Log(index + 1) / Log(2)`, `Pow(2, h) - 1`, and the hash.
pub record TreeEnv : Type 0 where
  pub log2_next : ℕ → ℕ
  pub pow2_less : ℕ → ℕ
  pub sha256 : Bytes → Bytes

-- `BaseFixedTreeNode`; no bytes stand for a nil hash.
pub record TreeNode : Type 0 where
  pub index : ℕ
  pub key : Bytes
  pub hash : Bytes

abbrev pub wrap : ℕ → ℕ
wrap n = n % 18446744073709551616

-- `a - b` of `uint64` numbers.
abbrev pub sub_wrapped : ℕ → ℕ → ℕ
sub_wrapped a b = wrap (a + 18446744073709551616 - b)

unfoldable pub bytes_discrete : Discrete Bytes
bytes_discrete = hlevel ℕ_discrete

-- `len(b) < 1`
abbrev pub is_empty : Bytes → Bool
is_empty [] = true
is_empty (x ∷ xs) = false

-- `BaseFixedTreeNode.IsValid`.
unfoldable pub node_is_valid : TreeNode → Option Error
node_is_valid n =
    if is_empty n.key then some invalid else if is_empty n.hash then some invalid else none

-- `BaseFixedTreeNode.SetHash`.
unfoldable pub set_hash : Bytes → TreeNode → TreeNode
set_hash h n = record n { hash = h }

-- `nodes[i]`.
unfoldable pub node_at : List TreeNode → ℕ → Result TreeNode
node_at nodes i = elim (get_elem? nodes i) [ none ↦ err panicked | some n ↦ ok n ]

-- `FixedTree.Node`; an index of 2 ^ 63 or more passes the test, and panics.
unfoldable pub node : List TreeNode → ℕ → Result TreeNode
unfolding node_at int64_of_bits
node nodes index =
    if leb_ℤ (pos (length nodes)) (int64_of_bits index) then err not_found else node_at nodes index

-- `FixedTree.children`, of two places.
unfoldable pub nodes_at : List TreeNode → ℕ × ℕ → Result (TreeNode × Option TreeNode)
unfolding node_at
nodes_at nodes (i, j) = elim (node_at nodes i) [
  | err e ↦ err e
  | ok l ↦
      let both : Result (TreeNode × Option TreeNode) = elim (node_at nodes j) [
        | err e ↦ err e
        | ok r ↦ ok (l, some r)
      ] in
      if j == 0 then ok (l, none) else both
]

-- The two loops of `FixedTree.IsValid`, from the place `i` on.
unfoldable pub nodes_are_valid : ℕ → List TreeNode → Option Error
unfolding node_is_valid int64_of_bits
nodes_are_valid i [] = none
nodes_are_valid i (n ∷ ns) =
    let rest = nodes_are_valid (suc i) ns in
    elim (node_is_valid n) [
      | some e ↦ some invalid
      | none ↦ if eqb_ℤ (int64_of_bits n.index) (pos i) then rest else some invalid
    ]

-- `FixedTree.Root`.
unfoldable pub root : List TreeNode → Bytes
root [] = []
root (n ∷ ns) = n.hash

module _ (env : TreeEnv) where
  open env use {log2_next, pow2_less, sha256}

  -- `heightFixedTree`; the index is compared as an `int`.
  unfoldable pub height_fixed_tree : ℕ → ℕ → Result ℕ
  unfolding int64_of_bits
  height_fixed_tree size index =
      if leb_ℤ (pos size) (int64_of_bits index)
      then err not_found
      else if index == 0
      then ok 0
      else ok (log2_next index)

  -- `parentFixedTree`, from the height.
  unfoldable pub parent_at : ℕ → ℕ → ℕ
  parent_at height index =
      let pos = sub_wrapped index (pow2_less height) in
      let even = if pos % 2 == 1 then pos - 1 else pos in wrap (pow2_less (height - 1) + even / 2)

  unfoldable pub parent_fixed_tree : ℕ → ℕ → Result ℕ
  unfolding height_fixed_tree parent_at
  parent_fixed_tree size index = elim (height_fixed_tree size index) [
    | err e ↦ err e
    | ok height ↦ if height == 0 then err no_parent else ok (parent_at height index)
  ]

  -- The first child in `childrenFixedTree`, from the height.
  unfoldable pub child_at : ℕ → ℕ → ℕ
  child_at height index = wrap (pow2_less (height + 1) + sub_wrapped index (pow2_less height) * 2)

  -- `childrenFixedTree`; a second child that there is not is 0.
  unfoldable pub children_fixed_tree : ℕ → ℕ → Result (ℕ × ℕ)
  unfolding height_fixed_tree child_at
  children_fixed_tree size index = elim (height_fixed_tree size index) [
    | err e ↦ err e
    | ok height ↦
        let i = child_at height index in
        if leb size i
        then err no_children
        else if ltb (wrap (i + 1)) size
        then ok (i, wrap (i + 1))
        else ok (i, 0)
  ]

  -- `FixedTreeNodeHash`.
  unfoldable pub node_hash : TreeNode → Option TreeNode → Option TreeNode → Result Bytes
  node_hash self left right =
      let lh : Bytes = elim left [ none ↦ [] | some l ↦ l.hash ] in
      let rh : Bytes = elim right [ none ↦ [] | some r ↦ r.hash ] in
      if is_empty self.key
      then err failed
      else ok (sha256 ((uint64_to_bytes self.index ++ self.key) ++ (lh ++ rh)))

  unfoldable pub children : List TreeNode → ℕ → Result (TreeNode × Option TreeNode)
  unfolding children_fixed_tree nodes_at
  children nodes index = elim (children_fixed_tree (length nodes) index) [
    | err e ↦ err e
    | ok ij ↦ nodes_at nodes ij
  ]

  -- `FixedTree.parent`.
  unfoldable pub parent : List TreeNode → ℕ → Result TreeNode
  unfolding parent_fixed_tree node
  parent nodes index = elim (parent_fixed_tree (length nodes) index) [
    | err e ↦ err e
    | ok i ↦ node nodes i
  ]

  -- `FixedTree.generateNodeHash`.
  unfoldable pub generate_node_hash : List TreeNode → TreeNode → Result Bytes
  unfolding children node_hash
  generate_node_hash nodes n =
      let hashed : Result Bytes = elim (children nodes n.index) [
        | ok (l, r) ↦ node_hash n (some l) r
        | err no_children ↦ node_hash n none none
        | err e ↦ err e
      ] in
      if is_empty n.key then err failed else hashed

  unfoldable pub hashes_are_valid : List TreeNode → List TreeNode → Option Error
  unfolding generate_node_hash bytes_discrete
  hashes_are_valid nodes [] = none
  hashes_are_valid nodes (n ∷ ns) =
      let rest = hashes_are_valid nodes ns in
      elim (generate_node_hash nodes n) [
        | err e ↦ some e
        | ok h ↦ ite (bytes_discrete n.hash h) rest (some invalid)
      ]

  -- `FixedTree.IsValid`.
  unfoldable pub is_valid : List TreeNode → Option Error
  unfolding nodes_are_valid hashes_are_valid
  is_valid nodes = elim (nodes_are_valid 0 nodes) [
    | some e ↦ some e
    | none ↦ hashes_are_valid nodes nodes
  ]
