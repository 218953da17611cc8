-- ===== src/Pages/Topology/Keyed.antt =====
-- Each object of the built tree stands under its own id.
use ansible_aam.Prelude.{
  String, ◌≡◌, refl, Bool, true, false, Option, none, some, List, [], ◌∷◌, arith, eq_iff,
  if◌then◌else◌, is_some,
}
use ansible_aam.Prelude.Dict.{Dict, lookup, insert, lookup-insert}
use ansible_aam.Types.{TopologyNode, TopologyEdge}
use ansible_aam.Pages.Topology.{
  TreeNode, Building, add_nodes, push_child, link, add_edge, add_edges, build_tree,
}
use ansible_aam.Pages.Topology.Built.{start}

-- The id of an object of the `Map`.
abbrev pub id_in : Option TreeNode → Option String
id_in none = none
id_in (some entry) = some entry.node.id

-- Each object stands under its own id.
abbrev pub IsKeyed : Dict TreeNode → Type 0
IsKeyed m = (k : String) → id_in (lookup k m) ≡ (if is_some (lookup k m) then some k else none)

add_nodes-IsKeyed :
    (nodes : List TopologyNode) (m : Dict TreeNode) → IsKeyed m → IsKeyed (add_nodes nodes m)
unfolding add_nodes
add_nodes-IsKeyed [] m h = h
add_nodes-IsKeyed (node ∷ nodes) m h =
    let entry : TreeNode = record { node = node; children = [] } in
    add_nodes-IsKeyed nodes (insert node.id entry m)
      λ k. ground (arith, eq_iff node.id k, h k, lookup-insert node.id k entry m)

link-IsKeyed :
    (edge : TopologyEdge) (b : Building) (parent : Option TreeNode) (is_known : Bool)
    → lookup edge.source b.node_map ≡ parent
    → IsKeyed b.node_map
    → IsKeyed (link parent is_known edge b).node_map
link-IsKeyed edge b none is_known h keyed k = keyed k
link-IsKeyed edge b (some parent) false h keyed k = keyed k
link-IsKeyed edge b (some parent) true h keyed k = ground (
  arith,
  eq_iff edge.source k,
  keyed k,
  keyed edge.source,
  lookup-insert edge.source k (push_child edge.target parent) b.node_map,
)

add_edges-IsKeyed :
    (edges : List TopologyEdge) (b : Building)
    → IsKeyed b.node_map
    → IsKeyed (add_edges edges b).node_map
unfolding add_edges add_edge
add_edges-IsKeyed [] b h = h
add_edges-IsKeyed (edge ∷ edges) b h = add_edges-IsKeyed edges (add_edge edge b) (
    link-IsKeyed edge b (lookup edge.source b.node_map) (is_some (lookup edge.target b.node_map))
      refl h)

pub build_tree-IsKeyed :
    (nodes : List TopologyNode) (edges : List TopologyEdge)
    → IsKeyed (build_tree nodes edges).node_map
unfolding build_tree lookup
build_tree-IsKeyed nodes edges =
    add_edges-IsKeyed edges (start nodes) (add_nodes-IsKeyed nodes [] λ k. refl)
