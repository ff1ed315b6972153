-- ===== src/Base/Suffrage.antt =====
-- base/suffrage.go: the nodes that act at a height and a round.
use mitum.Common.{ℕ, Bool, true, false, List, [], ◌∷◌, Option, none, some, string_discrete}
use mitum.Common.Dict.{Dict, find, put}
use mitum.Base.Env.{Address}
use mitum.Base.Fact.{Height}

-- `nodes` is the set of the nodes in `node_list`.
pub record ActingSuffrage : Type 0 where
  pub height : Height
  pub round : ℕ
  pub proposer : Option Address
  pub nodes : Dict Address Bool
  pub node_list : List Address

unfoldable pub collect_nodes : List Address → Dict Address Bool → Dict Address Bool
collect_nodes [] m = m
collect_nodes (n ∷ ns) m = collect_nodes ns (put string_discrete n true m)

unfoldable pub new_acting_suffrage : Height → ℕ → Option Address → List Address → ActingSuffrage
unfolding collect_nodes
new_acting_suffrage height round proposer selected = record {
  height = height;
  round = round;
  proposer = proposer;
  nodes = collect_nodes selected [];
  node_list = selected;
}

unfoldable pub exists : ActingSuffrage → Address → Bool
exists af node = elim (find string_discrete node af.nodes) [ none ↦ false | some _ ↦ true ]
