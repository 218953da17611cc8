-- ===== src/Pages/Topology/Tests.antt =====
-- The theorems on the topology at a hub with an environment and its service.
use ansible_aam.Prelude.{
  ℕ, String, ◌≡◌, refl, true, not, none, some, List, [], ◌∷◌, arith, ◌==◌, if◌then◌else◌, select,
  every,
}
use ansible_aam.Prelude.Dict.{includes, lookup}
use ansible_aam.Value.{Value}
use ansible_aam.Types.{TopologyNode, TopologyEdge}
use ansible_aam.Pages.Topology.{Card, build_tree, draw_topology}
use ansible_aam.Pages.Topology.Built.{
  ids_of, known_edges, targets_of, is_target, children_in, build_tree-refines,
}
use ansible_aam.Pages.Topology.Covers.{card_ids}
use ansible_aam.Pages.Topology.Drawing.{draw_topology-ends}

abbrev node : String → TopologyNode
node id = record { id = id; label = id; kind = "service"; status = "healthy"; metadata = [] }

abbrev edge : String → String → TopologyEdge
edge source target = record { source = source; target = target; relationship = "has" }

abbrev nodes : List TopologyNode
nodes = node "hub" ∷ node "east" ∷ node "eda" ∷ []

-- The last edge leads to a node that is not there.
abbrev edges : List TopologyEdge
edges = edge "hub" "east" ∷ edge "east" "eda" ∷ edge "east" "gone" ∷ []

abbrev rank : String → ℕ
rank id = if id == "hub" then 2 else if id == "east" then 1 else 0

abbrev no_json : Value → String
no_json _ = ""

build_tree-refines_example :
    ((id : String)
      → children_in (lookup id (build_tree nodes edges).node_map) ≡ (
          if includes (ids_of nodes) id
          then some (targets_of id (known_edges nodes edges))
          else none))
    × ((build_tree nodes edges).roots
        ≡ ids_of
            (select (λ (n : TopologyNode). not (is_target (known_edges nodes edges) n.id)) nodes))
build_tree-refines_example = build_tree-refines nodes edges

draw_topology-ends_example :
    (cards : List Card) × (draw_topology no_json 3 nodes edges ≡ some cards)
    × (every (includes (card_ids cards)) (ids_of nodes) ≡ true)
draw_topology-ends_example =
    draw_topology-ends no_json rank 3 nodes edges (omega arith, (omega arith, (omega arith, tt)))
      (omega arith, (omega arith, (omega arith, tt)))

-- Two nodes that lead to each other, reached from a root, are drawn without end.
cycle_undrawn :
    draw_topology no_json 40 nodes (edge "hub" "east" ∷ edge "east" "eda" ∷ edge "eda" "east" ∷ [])
    ≡ none
unfolding draw_topology
cycle_undrawn = refl
