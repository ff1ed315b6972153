-- ===== src/Util/FixedTree/Filled.antt =====
-- The loop that fills a tree with its hashes.
use mitum.Common.{
  ℕ, zero, suc, ◌≤◌, ◌<◌, ◌≡◌, refl, sym, ap, ◌∙◌, ◌≢◌, ◌⊎◌, inl, inr, false, arith, Option, none,
  some, List, ◌++◌, length, get_elem?, ℕ_discrete, get_elem?-lt, get_elem?-bound, set, length-set,
  get_elem?-set_self, get_elem?-set_ne,
}
use mitum.Common.Errors.{ok}
use mitum.Util.Bytes.{Bytes, uint64_to_bytes}
use mitum.Util.FixedTree.{
  TreeEnv, TreeNode, is_empty, set_hash, node_hash, node_at, children, generate_node_hash,
}
use mitum.Util.FixedTree.Generator.{fill}
use mitum.Util.FixedTree.Places.{FloatLaws, max_size}
use mitum.Util.FixedTree.Climb.{Placed}
use mitum.Util.FixedTree.Children.{
  SameBehind, HasKeys, hash_of, children_at, children_same, generate_same, next_place,
}

module _ (env : TreeEnv) (laws : FloatLaws env) where
  module _ (filled : (b : Bytes) → is_empty (env.sha256 b) ≡ false) where
    node_hash_ok :
        (n : TreeNode) (l r : Option TreeNode)
        → is_empty n.key ≡ false
        → (h : Bytes) × (node_hash env n l r ≡ ok h) × (is_empty h ≡ false)
    unfolding node_hash
    node_hash_ok n l r keyed =
        let input = (uint64_to_bytes n.index ++ n.key) ++ (hash_of l ++ hash_of r) in
        (env.sha256 input, rw (keyed, node_hash) refl, filled input)

    -- A node with a key has a hash, which is not empty.
    generate_ok :
        (nodes : List TreeNode) (n : TreeNode)
        → is_empty n.key ≡ false
        → n.index < length nodes
        → length nodes ≤ max_size
        → (h : Bytes) × (generate_node_hash env nodes n ≡ ok h) × (is_empty h ≡ false)
    unfolding generate_node_hash
    generate_ok nodes n keyed below small = elim (children_at env laws nodes n.index below small) [
      | inl (out, e) ↦
          let (h, hashed, f) = node_hash_ok n none none keyed in
          (h, ground (arith, e, hashed, keyed), f)
      | inr (l, at_l, inl (out, e)) ↦
          let (h, hashed, f) = node_hash_ok n (some l) none keyed in
          (h, ground (arith, e, hashed, keyed), f)
      | inr (l, at_l, inr (r, at_r, e)) ↦
          let (h, hashed, f) = node_hash_ok n (some l) (some r) keyed in
          (h, ground (arith, e, hashed, keyed), f)
    ]

    -- The nodes from a place on carry the hashes that are generated for them.
    abbrev pub Hashed : ℕ → List TreeNode → Type 0
    Hashed i nodes =
        (j : ℕ) (n : TreeNode)
        → i ≤ j
        → get_elem? nodes j ≡ some n
        → (generate_node_hash env nodes n ≡ ok n.hash) × (is_empty n.hash ≡ false)

    -- One round of the loop.
    module _ (i : ℕ) (nodes : List TreeNode) (n : TreeNode) (h : Bytes) (placed : Placed nodes)
        (keyed : HasKeys nodes) (small : length nodes ≤ max_size)
        (at : get_elem? nodes i ≡ some n) where
      filled_others : (j : ℕ) → i ≢ j → get_elem? (set nodes i (set_hash h n)) j ≡ get_elem? nodes j
      filled_others j other = get_elem?-set_ne nodes (set_hash h n) other

      filled_self : get_elem? (set nodes i (set_hash h n)) i ≡ some (set_hash h n)
      filled_self = get_elem?-set_self nodes i (set_hash h n) (get_elem?-bound i nodes at)

      filled_behind : SameBehind i nodes (set nodes i (set_hash h n))
      filled_behind = (
        sym (length-set nodes i (set_hash h n)),
        λ j below. sym (filled_others j (λ e. omega (arith, e, below))),
      )

      -- What stands at a place afterwards.
      filled_at :
          (j : ℕ) (m : TreeNode)
          → get_elem? (set nodes i (set_hash h n)) j ≡ some m
          → ((i ≡ j) × (m ≡ set_hash h n)) ⊎ ((i ≢ j) × (get_elem? nodes j ≡ some m))
      filled_at j m e = elim (ℕ_discrete i j) [
        | yes same ↦
            inl
              (same, ground (arith, filled_self, ap (get_elem? (set nodes i (set_hash h n))) same))
        | no other ↦ inr (other, sym (filled_others j other) ∙ e)
      ]

      filled-Placed : Placed (set nodes i (set_hash h n))
      unfolding set_hash
      filled-Placed j m e = elim (filled_at j m e) [
        | inl (same, is) ↦ ap (λ (k : TreeNode). k.index) is ∙ (placed i n at ∙ same)
        | inr (other, was) ↦ placed j m was
      ]

      filled-HasKeys : HasKeys (set nodes i (set_hash h n))
      unfolding set_hash
      filled-HasKeys j m e = elim (filled_at j m e) [
        | inl (same, is) ↦ ap (λ (k : TreeNode). is_empty k.key) is ∙ keyed i n at
        | inr (other, was) ↦ keyed j m was
      ]

      children_kept :
          (j k : ℕ)
          → k ≡ j
          → i ≤ j
          → j < length nodes
          → children env nodes k ≡ children env (set nodes i (set_hash h n)) k
      children_kept j k same above below =
          children_same env laws nodes (set nodes i (set_hash h n)) k
            (filled_behind.0, λ p behind. filled_behind.1 p (omega (arith, same, above, behind)))
            (omega (arith, same, below)) small

      generate_kept :
          (j : ℕ) (m : TreeNode) (g : Bytes)
          → i ≤ j
          → get_elem? nodes j ≡ some m
          → generate_node_hash env nodes m
            ≡ generate_node_hash env (set nodes i (set_hash h n)) (set_hash g m)
      generate_kept j m g above was =
          generate_same env laws nodes (set nodes i (set_hash h n)) m g
            (children_kept j m.index (placed j m was) above (get_elem?-bound j nodes was))

      filled-Hashed :
          generate_node_hash env nodes n ≡ ok h
          → is_empty h ≡ false
          → Hashed (suc i) nodes
          → Hashed i (set nodes i (set_hash h n))
      unfolding set_hash
      filled-Hashed hashed full rest j m above e = elim (filled_at j m e) [
        | inl (same, is) ↦ rw (is) (sym (generate_kept i n h (omega arith) at) ∙ hashed, full)
        | inr (other, was) ↦
            let (kept, not_empty) = rest j m (next_place i j above other) was in
            (sym (generate_kept j m m.hash above was) ∙ kept, not_empty)
      ]

    fill_step :
        (i : ℕ) (nodes : List TreeNode) (n : TreeNode) (h : Bytes)
        → get_elem? nodes i ≡ some n
        → generate_node_hash env nodes n ≡ ok h
        → n.index ≡ i
        → fill env (suc i) nodes ≡ fill env i (set nodes i (set_hash h n))
    unfolding fill node_at
    fill_step i nodes n h at generated same =
        rw (at, fill, generated) (ap (λ k. fill env i (set nodes k (set_hash h n))) same)

    -- The loop of `Tree` goes through, and leaves each node with its key, at its place, and with the
    -- hash that is generated for it in the end.
    pub fill_lem :
        (i : ℕ) (nodes : List TreeNode)
        → i ≤ length nodes
        → length nodes ≤ max_size
        → Placed nodes
        → HasKeys nodes
        → Hashed i nodes
        → (out : List TreeNode) × (fill env i nodes ≡ ok out)
          × (length out ≡ length nodes)
          × Placed out
          × HasKeys out
          × Hashed 0 out
    unfolding fill
    fill_lem zero nodes below small placed keyed hashed = (nodes, refl, refl, placed, keyed, hashed)
    fill_lem (suc i) nodes below small placed keyed hashed =
        let (n, at) = get_elem?-lt i nodes (omega (arith, below)) in
        let (h, generated, full) =
          generate_ok nodes n (keyed i n at) (omega (arith, below, placed i n at)) small in
        let nodes' = set nodes i (set_hash h n) in
        let long = length-set nodes i (set_hash h n) in
        let (out, done, same, placed', keyed', hashed') =
          fill_lem i nodes' (omega (arith, below, long)) (omega (arith, small, long))
            (filled-Placed i nodes n h placed keyed small at)
            (filled-HasKeys i nodes n h placed keyed small at)
            (filled-Hashed i nodes n h placed keyed small at generated full hashed) in
        (
          out,
          fill_step i nodes n h at generated (placed i n at) ∙ done,
          same ∙ long,
          placed',
          keyed',
          hashed',
        )
