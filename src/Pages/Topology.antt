-- ===== src/Pages/Topology.antt =====
-- frontend/src/pages/topology.tsx, lines 35-165: the tree that is built from the nodes and the edges,
-- the cards that are drawn from it, the list of the relationships, and the selected environment.
mod Tests
pub mod Built
pub mod Keyed
pub mod Covers
pub mod Drawing
use ansible_aam.Prelude.{
  ℕ, zero, suc, ◌+◌, ◌-◌, ◌*◌, ◌≤◌, ◌<◌, Char, code, String, ◌≡◌, refl, sym, ap, ◌∙◌, ◌≢◌, ◌↔◌, ◌⊎◌,
  inl, inr, Bool, true, false, not, ◌&&◌, ◌||◌, Option, none, some, List, [], ◌∷◌, ◌++◌, map, arith,
  ◌==◌, eq_iff, eq_refl, ltb, leb, eqb, if◌then◌else◌, Bool-cases, Option-cases, or_else, is_some,
  length, select, some_of, every, find, take, drop, somes, length-append, select-append,
  length-select-le, length-somes-le, All, All-append, flat_map, length-map,
}
use ansible_aam.Prelude.Int.{ℤ, pos, negsuc, ◌+ℤ◌, ltb_ℤ, leb_ℤ, eqb_ℤ}
use ansible_aam.Prelude.Dict.{
  Dict, includes, keys, lookup, insert, remove, lookup-insert, lookup-remove,
}
use ansible_aam.Prelude.Text.{
  ◌⊕◌, is_empty, or_text, trim, is_blank, String-cases, trim_idem, trim-nil, is_empty-eq,
}
use ansible_aam.Prelude.Text.Numbers.{
  Number, nan, infinity, neg_infinity, int, is_finite, truthy_number, add, less, same_number,
  parse_int, show_nat, show, parse_int-show_nat,
}
use ansible_aam.Prelude.Text.Search.{spaced}
use ansible_aam.Value.{Value, str, get}
use ansible_aam.Types.{TopologyNode, TopologyEdge, EnvironmentSummary}
use ansible_aam.Utils.{stringify_value}
use ansible_aam.Monitoring.Services.{service_label, resource_type_label}

-- What follows a drawing that has ended.
infixl 5 ◌>>=◌
abbrev pub ◌>>=◌ : {A B : Type 0} → Option A → (A → Option B) → Option B
none >>= next = none
some a >>= next = next a

-- An object of the `Map`. Its children are objects of the `Map` too, each known by its id, so that
-- a child that is changed later is changed in every list that holds it.
pub record TreeNode : Type 0 where
  pub node : TopologyNode
  pub children : List String

-- The `Map`, and the `Set` of the ids that are a child's.
pub record Building : Type 0 where
  pub node_map : Dict TreeNode
  pub child_ids : List String

unfoldable pub add_nodes : List TopologyNode → Dict TreeNode → Dict TreeNode
unfolding insert
add_nodes [] m = m
add_nodes (node ∷ nodes) m =
    add_nodes nodes (insert node.id (record { node = node; children = [] }) m)

-- `parent.children.push(child)`.
abbrev pub push_child : String → TreeNode → TreeNode
push_child child parent = record parent { children = parent.children ++ (child ∷ []) }

-- `if (parent && child)`.
abbrev pub link : Option TreeNode → Bool → TopologyEdge → Building → Building
link (some parent) true edge b = record {
  node_map = insert edge.source (push_child edge.target parent) b.node_map;
  child_ids = edge.target ∷ b.child_ids;
}
link parent is_known edge b = b

unfoldable pub add_edge : TopologyEdge → Building → Building
unfolding lookup insert
add_edge edge b =
    link (lookup edge.source b.node_map) (is_some (lookup edge.target b.node_map)) edge b

unfoldable pub add_edges : List TopologyEdge → Building → Building
unfolding add_edge
add_edges [] b = b
add_edges (edge ∷ edges) b = add_edges edges (add_edge edge b)

-- The `Map` when all is built, and the ids of the objects that are returned.
pub record Tree : Type 0 where
  pub node_map : Dict TreeNode
  pub roots : List String

unfoldable pub build_tree : List TopologyNode → List TopologyEdge → Tree
unfolding add_nodes add_edges
build_tree nodes edges =
    let built = add_edges edges (record { node_map = add_nodes nodes []; child_ids = [] }) in
    record {
      node_map = built.node_map;
      roots =
          map (λ (node : TopologyNode). node.id)
            (select (λ (node : TopologyNode). not (includes built.child_ids node.id)) nodes);
    }

-- A card, and how deep it is nested.
pub record Card : Type 0 where
  pub id : String
  pub depth : ℕ
  pub title : String
  pub subtitle : String
  pub status : String
  pub facts : List (String × String)

-- `node.kind === "service" && typeof node.metadata.service === "string"`.
abbrev pub subtitle_of : TopologyNode → Value → String
subtitle_of node (str service) =
    if node.kind == "service" then service_label service else resource_type_label node.kind
subtitle_of node _ = resource_type_label node.kind

module _ (json : Value → String) where
  unfoldable pub card_of : ℕ → TopologyNode → Card
  unfolding get lookup stringify_value spaced service_label resource_type_label
  card_of depth node = record {
    id = node.id;
    depth = depth;
    title = node.label;
    subtitle = subtitle_of node (get "service" node.metadata);
    status = node.status;
    facts =
        map (λ (e : String × Value). (spaced e.0, stringify_value json e.1)) (take 3 node.metadata);
  }

  -- TopologyNodeCard for each of a list of nodes: the cards in the document's order. The fuel bounds
  -- the nesting; `none` is a drawing that has not ended.
  unfoldable pub draw : ℕ → Dict TreeNode → ℕ → List String → Option (List Card)
  unfolding lookup card_of
  draw fuel m depth [] = some []
  draw zero m depth (id ∷ ids) = none
  draw (suc fuel) m depth (id ∷ ids) = elim (lookup id m) [
    | none ↦ none
    | some entry ↦ do
      nested ← draw fuel m (depth + 1) entry.children
      rest ← draw (suc fuel) m depth ids
      some (card_of depth entry.node ∷ (nested ++ rest))
  ]

  unfoldable pub draw_topology : ℕ → List TopologyNode → List TopologyEdge → Option (List Card)
  unfolding build_tree draw
  draw_topology fuel nodes edges =
      let tree = build_tree nodes edges in draw fuel tree.node_map 0 tree.roots

-- One row of TopologyEdgeList.
pub record Relationship : Type 0 where
  pub source : String
  pub relationship : String
  pub target : String

unfoldable pub node_labels : List TopologyNode → Dict String → Dict String
unfolding insert
node_labels [] m = m
node_labels (node ∷ nodes) m = node_labels nodes (insert node.id node.label m)

unfoldable pub relationships : List TopologyEdge → List TopologyNode → List Relationship
unfolding node_labels lookup
relationships edges nodes =
    let labels = node_labels nodes [] in
    map
      (λ (edge : TopologyEdge). record {
        source = or_else (lookup edge.source labels) edge.source;
        relationship = edge.relationship;
        target = or_else (lookup edge.target labels) edge.target;
      })
      edges

-- `current` after the environments are loaded, when the location asks for `requested`.
unfoldable pub next_selected : List EnvironmentSummary → Option String → String → String
next_selected items requested current =
    if or_else requested "" == "fleet"
    then "fleet"
    else if not (is_empty (or_else requested ""))
        && some_of (λ (item : EnvironmentSummary). item.id == or_else requested "") items
    then or_else requested ""
    else if current == "fleet"
    then current
    else if not (is_empty current)
        && some_of (λ (item : EnvironmentSummary). item.id == current) items
    then current
    else "fleet"
