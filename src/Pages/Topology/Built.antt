-- ===== src/Pages/Topology/Built.antt =====
-- What buildTree of frontend/src/pages/topology.tsx builds.
use ansible_aam.Prelude.{
  String, ◌≡◌, refl, sym, ap, Bool, true, false, not, ◌&&◌, ◌||◌, Option, none, some, List, [], ◌∷◌,
  ◌++◌, map, arith, ◌==◌, eq_iff, if◌then◌else◌, is_some, select, some_of,
}
use ansible_aam.Prelude.Dict.{Dict, includes, lookup, insert, lookup-insert}
use ansible_aam.Types.{TopologyNode, TopologyEdge}
use ansible_aam.Pages.Topology.{
  TreeNode, Building, add_nodes, push_child, link, add_edge, add_edges, build_tree,
}

-- The ids of the nodes.
abbrev pub ids_of : List TopologyNode → List String
ids_of nodes = map (λ (node : TopologyNode). node.id) nodes

-- The specification: the edges between nodes that are there.
abbrev pub known_edges : List TopologyNode → List TopologyEdge → List TopologyEdge
known_edges nodes edges =
    select
      (λ (e : TopologyEdge). includes (ids_of nodes) e.source && includes (ids_of nodes) e.target)
      edges

abbrev pub targets_of : String → List TopologyEdge → List String
targets_of id edges =
    map (λ (e : TopologyEdge). e.target) (select (λ (e : TopologyEdge). e.source == id) edges)

abbrev pub is_target : List TopologyEdge → String → Bool
is_target edges id = some_of (λ (e : TopologyEdge). e.target == id) edges

-- The children of an object of the `Map`.
abbrev pub children_in : Option TreeNode → Option (List String)
children_in none = none
children_in (some entry) = some entry.children

abbrev extend : Option (List String) → List String → Option (List String)
extend none ys = none
extend (some xs) ys = some (xs ++ ys)

append_nil {ℓ} : {A : Type ℓ} (xs : List A) → xs ++ [] ≡ xs
append_nil [] = refl
append_nil (x ∷ xs) = ap (x ∷◌) (append_nil xs)

append_assoc {ℓ} : {A : Type ℓ} (xs ys zs : List A) → (xs ++ ys) ++ zs ≡ xs ++ (ys ++ zs)
append_assoc [] ys zs = refl
append_assoc (x ∷ xs) ys zs = ap (x ∷◌) (append_assoc xs ys zs)

children-add_nodes :
    (nodes : List TopologyNode) (m : Dict TreeNode) (k : String)
    → children_in (lookup k (add_nodes nodes m))
      ≡ (if includes (ids_of nodes) k then some [] else children_in (lookup k m))
unfolding add_nodes
children-add_nodes [] m k = refl
children-add_nodes (node ∷ nodes) m k = ground (
  arith,
  children-add_nodes nodes (insert node.id (record { node = node; children = [] }) m) k,
  lookup-insert node.id k (record { node = node; children = [] }) m,
)

children-link :
    (edge : TopologyEdge) (b : Building) (k : String) (parent : Option TreeNode) (is_known : Bool)
    → lookup edge.source b.node_map ≡ parent
    → children_in (lookup k (link parent is_known edge b).node_map) ≡ (
        if edge.source == k && is_known
        then extend (children_in (lookup k b.node_map)) (edge.target ∷ [])
        else children_in (lookup k b.node_map))
children-link edge b k none true h = ground (arith, eq_iff edge.source k)
children-link edge b k none false h = ground (arith, eq_iff edge.source k)
children-link edge b k (some parent) false h = ground (arith, eq_iff edge.source k)
children-link edge b k (some parent) true h = ground (
  arith,
  eq_iff edge.source k,
  lookup-insert edge.source k (push_child edge.target parent) b.node_map,
)

children-add_edge :
    (edge : TopologyEdge) (b : Building) (k : String)
    → children_in (lookup k (add_edge edge b).node_map) ≡ (
        if edge.source == k && is_some (lookup edge.target b.node_map)
        then extend (children_in (lookup k b.node_map)) (edge.target ∷ [])
        else children_in (lookup k b.node_map))
unfolding add_edge
children-add_edge edge b k =
    children-link edge b k (lookup edge.source b.node_map) (is_some (lookup edge.target b.node_map))
      refl

child_ids-link :
    (edge : TopologyEdge) (b : Building) (parent : Option TreeNode) (is_known : Bool)
    → (link parent is_known edge b).child_ids
      ≡ (if is_some parent && is_known then edge.target ∷ b.child_ids else b.child_ids)
child_ids-link edge b none is_known = refl
child_ids-link edge b (some parent) true = refl
child_ids-link edge b (some parent) false = refl

-- Which ids the `Map` has.
abbrev Knows : (String → Bool) → Dict TreeNode → Type 0
Knows known m = (k : String) → is_some (children_in (lookup k m)) ≡ known k

is_some-children_in : (o : Option TreeNode) → is_some (children_in o) ≡ is_some o
is_some-children_in none = refl
is_some-children_in (some entry) = refl

is_some-if-extend :
    (b : Bool) (o : Option (List String)) (ys : List String)
    → is_some (if b then extend o ys else o) ≡ is_some o
is_some-if-extend true none ys = refl
is_some-if-extend true (some xs) ys = refl
is_some-if-extend false o ys = refl

add_edge-Knows :
    (known : String → Bool) (edge : TopologyEdge) (b : Building)
    → Knows known b.node_map
    → Knows known (add_edge edge b).node_map
add_edge-Knows known edge b h k = cc (
  h k,
  children-add_edge edge b k,
  is_some-if-extend (edge.source == k && is_some (lookup edge.target b.node_map))
      (children_in (lookup k b.node_map)) (edge.target ∷ []),
)

-- The edges whose two ends are known.
abbrev between : (String → Bool) → List TopologyEdge → List TopologyEdge
between known edges = select (λ (e : TopologyEdge). known e.source && known e.target) edges

extend-extend :
    (o : Option (List String)) (xs ys : List String) → extend (extend o xs) ys ≡ extend o (xs ++ ys)
extend-extend none xs ys = refl
extend-extend (some zs) xs ys = ap some (append_assoc zs xs ys)

extend-nil : (o : Option (List String)) → extend o [] ≡ o
extend-nil none = refl
extend-nil (some zs) = ap some (append_nil zs)

children-add_edges :
    (known : String → Bool) (edges : List TopologyEdge) (b : Building) (k : String)
    → Knows known b.node_map
    → children_in (lookup k (add_edges edges b).node_map)
      ≡ extend (children_in (lookup k b.node_map)) (targets_of k (between known edges))
unfolding add_edges
children-add_edges known [] b k h = sym (extend-nil (children_in (lookup k b.node_map)))
children-add_edges known (edge ∷ edges) b k h = ground (
  arith,
  eq_iff edge.source k,
  children-add_edges known edges (add_edge edge b) k (add_edge-Knows known edge b h),
  children-add_edge edge b k,
  h edge.target,
  h edge.source,
  is_some-children_in (lookup edge.target b.node_map),
  is_some-children_in (lookup edge.source b.node_map),
  extend-extend (children_in (lookup k b.node_map)) (edge.target ∷ [])
      (targets_of k (between known edges)),
)

child_ids-add_edges :
    (known : String → Bool) (edges : List TopologyEdge) (b : Building) (k : String)
    → Knows known b.node_map
    → includes (add_edges edges b).child_ids k
      ≡ includes b.child_ids k || is_target (between known edges) k
unfolding add_edges add_edge
child_ids-add_edges known [] b k h = ground arith
child_ids-add_edges known (edge ∷ edges) b k h = ground (
  arith,
  h edge.target,
  h edge.source,
  child_ids-add_edges known edges (add_edge edge b) k (add_edge-Knows known edge b h),
  child_ids-link edge b (lookup edge.source b.node_map) (is_some (lookup edge.target b.node_map)),
  is_some-children_in (lookup edge.target b.node_map),
  is_some-children_in (lookup edge.source b.node_map),
)

abbrev pub start : List TopologyNode → Building
start nodes = record { node_map = add_nodes nodes []; child_ids = [] }

start-Knows : (nodes : List TopologyNode) → Knows (includes (ids_of nodes)) (start nodes).node_map
unfolding lookup
start-Knows nodes k = ground (arith, children-add_nodes nodes [] k)

select-cong :
    (p q : TopologyNode → Bool) (nodes : List TopologyNode)
    → ((node : TopologyNode) → p node ≡ q node)
    → select p nodes ≡ select q nodes
select-cong p q [] h = refl
select-cong p q (node ∷ nodes) h = ground (arith, h node, select-cong p q nodes h)

-- The built `Map` has an object for just the ids of the nodes, and the children of each are the
-- targets, in order, of its edges to other nodes of the list.
pub children-build_tree :
    (nodes : List TopologyNode) (edges : List TopologyEdge) (id : String)
    → children_in (lookup id (build_tree nodes edges).node_map) ≡ (
        if includes (ids_of nodes) id then some (targets_of id (known_edges nodes edges)) else none)
unfolding build_tree lookup
children-build_tree nodes edges id = ground (
  arith,
  children-add_nodes nodes [] id,
  children-add_edges (includes (ids_of nodes)) edges (start nodes) id (start-Knows nodes),
)

-- The roots are the nodes, in order, that no edge between two nodes of the list points at.
pub roots-build_tree :
    (nodes : List TopologyNode) (edges : List TopologyEdge)
    → (build_tree nodes edges).roots
      ≡ ids_of (
          select (λ (node : TopologyNode). not (is_target (known_edges nodes edges) node.id)) nodes)
unfolding build_tree
roots-build_tree nodes edges = ap ids_of (
    select-cong _ _ nodes λ node. ap not (
      child_ids-add_edges (includes (ids_of nodes)) edges (start nodes) node.id
        (start-Knows nodes)))

-- The built tree refines the graph that the nodes and the edges describe. It has an object for just
-- the ids of the nodes; the children of each are the targets, in order, of its edges between two
-- nodes of the list; and its roots are the nodes, in order, that no such edge points at.
pub build_tree-refines :
    (nodes : List TopologyNode) (edges : List TopologyEdge)
    → ((id : String)
        → children_in (lookup id (build_tree nodes edges).node_map) ≡ (
            if includes (ids_of nodes) id
            then some (targets_of id (known_edges nodes edges))
            else none))
      × ((build_tree nodes edges).roots
          ≡ ids_of (
              select
                (λ (node : TopologyNode). not (is_target (known_edges nodes edges) node.id))
                nodes))
build_tree-refines nodes edges = (children-build_tree nodes edges, roots-build_tree nodes edges)
