-- ===== src/Util/FixedTree/Proof.antt =====
-- util/tree/fixedtree.go: the proof that a node is in a tree.
use mitum.Common.{ℕ, zero, suc, List, [], ◌∷◌, ◌++◌, Option, none, some, length}
use mitum.Common.Errors.{Error, Result, ok, err, panicked, no_parent, no_children}
use mitum.Util.FixedTree.{TreeEnv, TreeNode, node_at, node, height_fixed_tree, children, parent}

-- The end of the loop of `FixedTree.Proof`.
unfoldable pub stop_climbing : Error → Result (List TreeNode)
stop_climbing no_parent = ok []
stop_climbing e = err e

module _ (env : TreeEnv) where
  -- The loop of `FixedTree.Proof`: the nodes above a node, from it on. There is room for as many
  -- nodes as given; one more makes it panic.
  unfoldable pub climb : ℕ → List TreeNode → ℕ → Result (List TreeNode)
  unfolding parent stop_climbing
  climb zero nodes l = elim (parent env nodes l) [ err e ↦ stop_climbing e | ok j ↦ err panicked ]
  climb (suc k) nodes l = elim (parent env nodes l) [
    | err e ↦ stop_climbing e
    | ok j ↦ elim (climb k nodes j.index) [ err e ↦ err e | ok ps ↦ ok (j ∷ ps) ]
  ]

  -- The pairs of children in a proof, two places for each node; a node without children leaves them
  -- nil.
  unfoldable pub child_pairs : List TreeNode → List TreeNode → Result (List (Option TreeNode))
  unfolding children
  child_pairs nodes [] = ok []
  child_pairs nodes (n ∷ ps) = elim (child_pairs nodes ps) [
    | err e ↦ err e
    | ok rest ↦ elim (children env nodes n.index) [
      | ok (l, r) ↦ ok (some l ∷ r ∷ rest)
      | err no_children ↦ ok (none ∷ none ∷ rest)
      | err e ↦ err e
    ]
  ]

  -- `FixedTree.Proof`.
  unfoldable pub proof : List TreeNode → ℕ → Result (List (Option TreeNode))
  unfolding node height_fixed_tree climb child_pairs node_at
  proof nodes index = elim (node nodes index) [
    | err e ↦ err e
    | ok self ↦ elim (height_fixed_tree env (length nodes) index) [
      | err e ↦ err e
      | ok height ↦ elim (climb height nodes index) [
        | err e ↦ err e
        | ok ps ↦ elim (child_pairs nodes (self ∷ ps)) [
          | err e ↦ err e
          | ok pairs ↦ elim (node_at nodes 0) [
            | err e ↦ err e
            | ok top ↦ ok (pairs ++ (some top ∷ []))
          ]
        ]
      ]
    ]
  ]
