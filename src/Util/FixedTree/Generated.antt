-- ===== src/Util/FixedTree/Generated.antt =====
-- From the nodes that are added to the tree that is made.
use mitum.Common.{
  ℕ, zero, suc, ◌+◌, ◌≤◌, ◌<◌, ◌≡◌, refl, sym, ap, ◌∙◌, ◌≢◌, ◌⊎◌, Option-cases, inl, inr, true,
  false, arith, none, some, List, [], ◌∷◌, length, get_elem?, ℕ_discrete, get_elem?-bound, set,
  length-set, replicate, get_elem?-set_self, get_elem?-set_ne,
}
use mitum.Common.Errors.{Result, ok, err, failed, Result-cases}
use mitum.Util.Bytes.{Bytes, int64_of_bits}
use mitum.Util.FixedTree.{
  TreeEnv, TreeNode, is_empty, set_hash, generate_node_hash, node_is_valid, nodes_are_valid,
  hashes_are_valid, is_valid, root,
}
use mitum.Util.FixedTree.Generator.{Generator, new_generator, add, all_nodes, fill, tree}
use mitum.Util.FixedTree.Places.{FloatLaws, max_size}
use mitum.Util.FixedTree.Climb.{Placed}
use mitum.Util.FixedTree.Children.{HasKeys}
use mitum.Util.FixedTree.Filled.{Hashed, fill_lem}

-- Nodes with keys and hashes, at their places from `i` on, pass the first loop of `IsValid`.
nodes_are_valid_lem :
    (i : ℕ) (ns : List TreeNode)
    → i + length ns ≤ max_size
    → ((j : ℕ) (n : TreeNode) → get_elem? ns j ≡ some n → n.index ≡ i + j)
    → HasKeys ns
    → ((j : ℕ) (n : TreeNode) → get_elem? ns j ≡ some n → is_empty n.hash ≡ false)
    → nodes_are_valid i ns ≡ none
unfolding nodes_are_valid node_is_valid int64_of_bits
nodes_are_valid_lem i [] small at keyed full = refl
nodes_are_valid_lem i (n ∷ ns) small at keyed full =
    let rest =
      nodes_are_valid_lem (suc i) ns (omega (arith, small)) (λ j m e. at (suc j) m e ∙ omega arith)
        (λ j m e. keyed (suc j) m e) (λ j m e. full (suc j) m e) in
    ground (arith, rest, at 0 n refl, keyed 0 n refl, full 0 n refl, small)

module _ (env : TreeEnv) where
  -- Nodes with the hashes that are generated for them pass the second one.
  hashes_are_valid_lem :
      (nodes ns : List TreeNode)
      → ((j : ℕ) (n : TreeNode)
          → get_elem? ns j ≡ some n
          → generate_node_hash env nodes n ≡ ok n.hash)
      → hashes_are_valid env nodes ns ≡ none
  unfolding hashes_are_valid
  hashes_are_valid_lem nodes [] hashed = refl
  hashes_are_valid_lem nodes (n ∷ ns) hashed =
      let rest = hashes_are_valid_lem nodes ns (λ j m e. hashed (suc j) m e) in
      ground (arith, rest, hashed 0 n refl)

-- What a generator holds: nodes at their places, with keys and without hashes.
abbrev pub Holds : Generator → Type 0
Holds g =
    (j : ℕ) (n : TreeNode)
    → get_elem? g j ≡ some (some n)
    → (n.index ≡ j) × (is_empty n.key ≡ false) × (n.hash ≡ [])

replicate-none : (size j : ℕ) (n : TreeNode) → get_elem? (replicate size none) j ≢ some (some n)
replicate-none zero j n h = cc
replicate-none (suc size) zero n h = cc
replicate-none (suc size) (suc j) n h = replicate-none size j n h

length-replicate : (size : ℕ) {A : Type 0} (a : A) → length (replicate size a) ≡ size
length-replicate zero a = refl
length-replicate (suc size) a = ap suc (length-replicate size a)

-- Nodes added one after the other; the first error ends the calls.
abbrev pub adds : List TreeNode → Generator → Result Generator
adds [] g = ok g
adds (n ∷ ns) g = elim (add n g) [ err e ↦ err e | ok g' ↦ adds ns g' ]

-- What a call of Add that succeeds writes.
add-writes :
    (n : TreeNode) (g g' : Generator)
    → add n g ≡ ok g'
    → (is_empty n.key ≡ false) × (n.index < length g) × (g' ≡ set g n.index (some (set_hash [] n)))
unfolding add
add-writes n g g' e = (ground arith, ground arith, ground arith)

set-Holds :
    (n : TreeNode) (g : Generator)
    → is_empty n.key ≡ false
    → n.index < length g
    → Holds g
    → Holds (set g n.index (some (set_hash [] n)))
unfolding set_hash
set-Holds n g keyed below holds j m e = elim (ℕ_discrete n.index j) [
  | yes same ↦
      let at = get_elem?-set_self g n.index (some (set_hash [] n)) below in
      let is : set_hash [] n ≡ m =
        cc (at, e, ap (get_elem? (set g n.index (some (set_hash [] n)))) same) in
      (
        sym (ap (λ (k : TreeNode). k.index) is) ∙ same,
        sym (ap (λ (k : TreeNode). is_empty k.key) is) ∙ keyed,
        sym (ap (λ (k : TreeNode). k.hash) is),
      )
  | no other ↦ holds j m (sym (get_elem?-set_ne g (some (set_hash [] n)) other) ∙ e)
]

adds-Holds :
    (ns : List TreeNode) (g g' : Generator)
    → adds ns g ≡ ok g'
    → Holds g
    → Holds g' × (length g' ≡ length g)
adds-Holds [] g g' e holds = let same : g ≡ g' = ground arith in rw (← same) (holds, refl)
adds-Holds (n ∷ ns) g g' e holds = elim (Result-cases (add n g)) [
  | inl (x, refused) ↦ absurd (ground arith)
  | inr (g₁, added) ↦
      let (keyed, below, same) = add-writes n g g₁ added in
      let written : Holds g₁ = rw (same) (set-Holds n g keyed below holds) in
      let (held, long) = adds-Holds ns g₁ g' (ground arith) written in
      (held, long ∙ (ap length same ∙ length-set g n.index (some (set_hash [] n))))
]

all_nodes-get_cons :
    (n : TreeNode) (g : Generator) (ns : List TreeNode)
    → ((j : ℕ) (m : TreeNode) → get_elem? ns j ≡ some m → get_elem? g j ≡ some (some m))
    → (j : ℕ) (m : TreeNode) → get_elem? (n ∷ ns) j ≡ some m
    → get_elem? (some n ∷ g) j ≡ some (some m)
all_nodes-get_cons n g ns same zero m h = ap some h
all_nodes-get_cons n g ns same (suc j) m h = same j m h

all_nodes-get :
    (g : Generator) (nodes : List TreeNode)
    → all_nodes g ≡ some nodes
    → (length nodes ≡ length g)
      × ((j : ℕ) (n : TreeNode) → get_elem? nodes j ≡ some n → get_elem? g j ≡ some (some n))
unfolding all_nodes
all_nodes-get [] nodes e = let same : [] ≡ nodes = ground arith in rw (← same) (refl, λ j n h. cc)
all_nodes-get (none ∷ g) nodes e = absurd (ground arith)
all_nodes-get (some n ∷ g) nodes e = elim (Option-cases (all_nodes g)) [
  | inl missing ↦ absurd (ground arith)
  | inr (ns, found) ↦
      let (long, same) = all_nodes-get g ns found in
      let is : (n ∷ ns) ≡ nodes = ground arith in
      rw (← is) (ap suc long, all_nodes-get_cons n g ns same)
]

module _ (env : TreeEnv) (laws : FloatLaws env)
    (filled : (b : Bytes) → is_empty (env.sha256 b) ≡ false) where
  tree_fails : (g : Generator) → all_nodes g ≡ none → tree env g ≡ err failed
  unfolding tree
  tree_fails g e = rw (e, tree) refl

  -- A list of nodes without hashes is filled.
  tree_fills :
      (g : Generator) (nodes : List TreeNode)
      → all_nodes g ≡ some nodes
      → ((n : TreeNode) → get_elem? nodes 0 ≡ some n → n.hash ≡ [])
      → tree env g ≡ fill env (length nodes) nodes
  unfolding tree root
  tree_fills g [] e bare = rw (e, tree) refl
  tree_fills g (n ∷ ns) e bare =
      let bare_root : is_empty n.hash ≡ true = ap is_empty (bare n refl) in
      ground (arith, e, bare_root)

  is_valid_lem :
      (nodes : List TreeNode)
      → length nodes ≤ max_size
      → Placed nodes
      → HasKeys nodes
      → Hashed env laws filled 0 nodes
      → is_valid env nodes ≡ none
  unfolding is_valid
  is_valid_lem nodes small placed keyed hashed =
      let first =
        nodes_are_valid_lem 0 nodes (omega (arith, small)) (λ j n e. placed j n e ∙ omega arith)
          keyed (λ j n e. (hashed j n (omega arith) e).1) in
      let second = hashes_are_valid_lem env nodes nodes (λ j n e. (hashed j n (omega arith) e).0) in
      rw (first, is_valid) second

  -- Whatever nodes are added to a generator of up to 2 ^ 47 places, in any order: `Tree` fails only
  -- if a node is missing; else it makes a tree of all places that `IsValid` accepts.
  pub tree-is_valid :
      (size : ℕ) (ns : List TreeNode) (g : Generator)
      → size ≤ max_size
      → adds ns (new_generator size) ≡ ok g
      → ((all_nodes g ≡ none) × (tree env g ≡ err failed))
        ⊎ ((nodes : List TreeNode) × (tree env g ≡ ok nodes)
            × (length nodes ≡ size)
            × (is_valid env nodes ≡ none))
  unfolding new_generator
  tree-is_valid size ns g small added =
      let (holds, long) =
        adds-Holds ns (replicate size none) g added (λ j n e. absurd (replicate-none size j n e)) in
      elim (Option-cases (all_nodes g)) [
        | inl missing ↦ inl (missing, tree_fails g missing)
        | inr (nodes, found) ↦
            let (same, get) = all_nodes-get g nodes found in
            let whole : length nodes ≡ size = same ∙ (long ∙ length-replicate size none) in
            let (out, done, kept, placed, keyed, hashed) =
              fill_lem env laws filled (length nodes) nodes (omega arith)
                (omega (arith, whole, small)) (λ j n e. (holds j n (get j n e)).0)
                (λ j n e. (holds j n (get j n e)).1)
                (λ j n above e. absurd (omega (arith, above, get_elem?-bound j nodes e))) in
            inr (
              out,
              tree_fills g nodes found (λ n e. (holds 0 n (get 0 n e)).2) ∙ done,
              kept ∙ whole,
              is_valid_lem out (omega (arith, kept, whole, small)) placed keyed hashed,
            )
      ]
