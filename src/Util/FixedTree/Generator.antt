-- ===== src/Util/FixedTree/Generator.antt =====
-- util/tree/fixedtree.go: the generator of trees.
use mitum.Common.{
  ℕ, zero, suc, List, [], ◌∷◌, Option, none, some, ltb, leb, ◌&&◌, if◌then◌else◌, length, set,
  replicate,
}
use mitum.Common.Errors.{Result, ok, err, failed}
use mitum.Util.FixedTree.{TreeEnv, TreeNode, is_empty, set_hash, node_at, root, generate_node_hash}

-- `FixedTreeGenerator`: its nodes, `none` where none has been added.
abbrev pub Generator : Type 0
Generator = List (Option TreeNode)

-- `NewFixedTreeGenerator`.
unfoldable pub new_generator : ℕ → Generator
new_generator size = replicate size none

-- `Add`.
unfoldable pub add : TreeNode → Generator → Result Generator
unfolding set_hash
add n g =
    if is_empty n.key
    then err failed
    else if leb (length g) n.index
    then err failed
    else ok (set g n.index (some (set_hash [] n)))

-- The nodes, if none is missing.
unfoldable pub all_nodes : Generator → Option (List TreeNode)
all_nodes [] = some []
all_nodes (none ∷ g) = none
all_nodes (some n ∷ g) = elim (all_nodes g) [ none ↦ none | some ns ↦ some (n ∷ ns) ]

module _ (env : TreeEnv) where
  -- The loop of `Tree` from the place `i - 1` down.
  unfoldable pub fill : ℕ → List TreeNode → Result (List TreeNode)
  unfolding generate_node_hash node_at set_hash
  fill zero nodes = ok nodes
  fill (suc i) nodes = elim (node_at nodes i) [
    | err e ↦ err e
    | ok n ↦ elim (generate_node_hash env nodes n) [
      | err e ↦ err e
      | ok h ↦ fill i (set nodes n.index (set_hash h n))
    ]
  ]

  -- `Tree`: only a tree whose root has no hash is filled.
  unfoldable pub tree : Generator → Result (List TreeNode)
  unfolding all_nodes fill root
  tree g = elim (all_nodes g) [
    | none ↦ err failed
    | some nodes ↦
        let filled = fill (length nodes) nodes in
        if (ltb 0 (length nodes)) && is_empty (root nodes) then filled else ok nodes
  ]
