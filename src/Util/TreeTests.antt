-- ===== src/Util/TreeTests.antt =====
-- The theorems on fixed trees at concrete inputs.
use mitum.Common.{
  ℕ, zero, suc, ◌+◌, ◌-◌, ◌/◌, ◌^◌, ◌≤◌, ◌<◌, ◌≡◌, refl, ◌⊎◌, inl, inr, Bool-cases, List, [], ◌∷◌,
  none, some, arith, ltb, if◌then◌else◌, length, ltb→lt, not-ltb→le,
}
use native.Mathlib.Nat.{pow-suc, one-le-pow}
use mitum.Common.Errors.{ok, err, failed}
use mitum.Util.FixedTree.{TreeEnv, TreeNode, parent_fixed_tree, is_valid}
use mitum.Util.FixedTree.Places.{FloatLaws, children_lem, children-parent}
use mitum.Util.FixedTree.Generator.{Generator, all_nodes, add, tree, new_generator}
use mitum.Util.FixedTree.Proof.{climb}
use mitum.Util.FixedTree.Climb.{Placed, IsWayUp, climb_lem}
use mitum.Util.FixedTree.Generated.{adds, tree-is_valid}

-- The logarithm of a number, rounded down, for a number of halvings.
log2_within : ℕ → ℕ → ℕ
log2_within zero n = 0
log2_within (suc k) n = let above = suc (log2_within k (n / 2)) in if ltb n 2 then 0 else above

log2_within_lem :
    (k n : ℕ) → 1 ≤ n → n < 2 ^ suc k → (2 ^ log2_within k n ≤ n) × (n < 2 ^ suc (log2_within k n))
unfolding log2_within
log2_within_lem zero n low high = (omega (arith, low), omega (arith, high))
log2_within_lem (suc k) n low high = elim (Bool-cases (ltb n 2)) [
  | inl one ↦ rw (one, log2_within) (omega (arith, low), omega (arith, ltb→lt n 2 one))
  | inr more ↦
      let (below, above) =
        log2_within_lem k (n / 2) (omega (arith, not-ltb→le n 2 more))
          (omega (arith, high, pow-suc 2 (suc k))) in
      rw (more, log2_within)
        (
          omega (arith, below, pow-suc 2 (log2_within k (n / 2))),
          omega (
            arith,
            above,
            pow-suc 2 (log2_within k (n / 2)),
            pow-suc 2 (suc (log2_within k (n / 2))),
          ),
        )
]

-- Exact numbers, and a hash that puts a byte in front.
abbrev exact_env : TreeEnv
exact_env = record {
  log2_next = λ i. log2_within 47 (i + 1);
  pow2_less = λ h. 2 ^ h - 1;
  sha256 = λ b. 1 ∷ b;
}

exact_laws : FloatLaws exact_env
exact_laws = record {
  log2_low = λ i small. (log2_within_lem 47 (i + 1) (omega arith) (omega (arith, small))).0;
  log2_high = λ i small. (log2_within_lem 47 (i + 1) (omega arith) (omega (arith, small))).1;
  pow2_exact = λ h small. omega (arith, one-le-pow h 2 (omega arith));
}

abbrev leaf : ℕ → TreeNode
leaf i = record { index = i; key = 5 ∷ i ∷ []; hash = 1 ∷ [] }

abbrev three_nodes : List TreeNode
three_nodes = leaf 0 ∷ leaf 1 ∷ leaf 2 ∷ []

abbrev three_slots : Generator
three_slots =
    some (record { index = 0; key = 5 ∷ 0 ∷ []; hash = [] })
    ∷ some (record { index = 1; key = 5 ∷ 1 ∷ []; hash = [] })
    ∷ some (record { index = 2; key = 5 ∷ 2 ∷ []; hash = [] })
    ∷ []

three_Placed : Placed three_nodes
three_Placed zero n e = let same : leaf 0 ≡ n = cc in rw (← same) refl
three_Placed (suc zero) n e = let same : leaf 1 ≡ n = cc in rw (← same) refl
three_Placed (suc (suc zero)) n e = let same : leaf 2 ≡ n = cc in rw (← same) refl
three_Placed (suc (suc (suc i))) n e = cc

climb_lem_example :
    (ps : List TreeNode) × (climb exact_env (exact_env.log2_next 2) three_nodes 2 ≡ ok ps)
    × (length ps ≡ exact_env.log2_next 2)
    × IsWayUp 2 ps
climb_lem_example =
    climb_lem exact_env exact_laws three_nodes (omega arith) three_Placed 2 (omega arith)

-- The nodes are added in another order than that of their places.
three_added : adds (leaf 2 ∷ leaf 0 ∷ leaf 1 ∷ []) (new_generator 3) ≡ ok three_slots
unfolding new_generator add
three_added = refl

tree-is_valid_example :
    ((all_nodes three_slots ≡ none) × (tree exact_env three_slots ≡ err failed))
    ⊎ ((nodes : List TreeNode) × (tree exact_env three_slots ≡ ok nodes)
        × (length nodes ≡ 3)
        × (is_valid exact_env nodes ≡ none))
tree-is_valid_example =
    tree-is_valid exact_env exact_laws (λ b. refl) 3 (leaf 2 ∷ leaf 0 ∷ leaf 1 ∷ []) three_slots
      (omega arith) three_added

abbrev second_place : ℕ
second_place = 4

children-parent_example :
    (parent_fixed_tree exact_env 5 3 ≡ ok 1)
    × ((second_place ≡ 0) ⊎ (parent_fixed_tree exact_env 5 second_place ≡ ok 1))
children-parent_example =
    children-parent exact_env exact_laws 5 1 3 second_place (omega arith) (omega arith)
      (children_lem exact_env exact_laws 5 1 (omega arith) (omega arith))
