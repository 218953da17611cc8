-- ===== src/Pages/Topology/Drawing.antt =====
-- What is drawn of the built tree: the drawing ends and has a card for each node.
use ansible_aam.Prelude.{
  ℕ, zero, suc, ◌+◌, ◌≤◌, ◌<◌, String, ◌≡◌, refl, ap, ◌∙◌, inl, inr, Bool, true, false, not, ◌&&◌,
  some, List, [], ◌∷◌, arith, ◌==◌, eq_iff, eq_refl, Bool-cases, is_some, select, every, All,
}
use ansible_aam.Prelude.Dict.{includes, lookup}
use ansible_aam.Value.{Value}
use ansible_aam.Types.{TopologyNode, TopologyEdge}
use ansible_aam.Pages.Topology.{Card, build_tree, draw_topology}
use ansible_aam.Pages.Topology.Built.{
  ids_of, known_edges, targets_of, is_target, children-build_tree, roots-build_tree,
}
use ansible_aam.Pages.Topology.Keyed.{build_tree-IsKeyed}
use ansible_aam.Pages.Topology.Covers.{
  card_ids, children_of, Covers, IsBelow, Descends, draw-Covers,
}

-- Each edge between two known nodes leads to a node of smaller rank.
abbrev pub IsRanked : (String → ℕ) → List TopologyEdge → Type 0
IsRanked rank edges = All (λ (e : TopologyEdge). rank e.target < rank e.source) edges

abbrev pub IsBounded : (String → ℕ) → ℕ → List TopologyNode → Type 0
IsBounded rank fuel nodes = All (λ (node : TopologyNode). rank node.id < fuel) nodes

module _ (rank : String → ℕ) (fuel : ℕ) (nodes : List TopologyNode)
    (edges : List TopologyEdge) where
  rank-known :
      (ns : List TopologyNode) (id : String)
      → IsBounded rank fuel ns
      → includes (ids_of ns) id ≡ true
      → rank id < fuel
  rank-known [] id h k = absurd cc
  rank-known (n ∷ ns) id h k = ground (arith, eq_iff n.id id, h.0, rank-known ns id h.1, ap rank)

  -- An edge between known nodes.
  record IsLink (e : TopologyEdge) : Type 0 where
    source : includes (ids_of nodes) e.source ≡ true
    target : includes (ids_of nodes) e.target ≡ true
    descends : rank e.target < rank e.source

  known_edges-IsLink :
      (es : List TopologyEdge) → IsRanked rank es → All IsLink (known_edges nodes es)
  known_edges-IsLink [] h = tt
  known_edges-IsLink (e ∷ es) h =
      elim (Bool-cases (includes (ids_of nodes) e.source && includes (ids_of nodes) e.target)) [
        | inl b ↦ rw b (
          record { source = ground arith; target = ground arith; descends = h.0 },
          known_edges-IsLink es h.1,
        )
        | inr b ↦ rw b (known_edges-IsLink es h.1)
      ]

  -- The parent that an edge gives to its target.
  parent_of :
      (es : List TopologyEdge) (id : String)
      → All IsLink es
      → is_target es id ≡ true
      → (e : TopologyEdge) × IsLink e
        × (e.target ≡ id)
        × (includes (targets_of e.source es) id ≡ true)
  parent_of [] id h t = absurd cc
  parent_of (e ∷ es) id h t = elim (Bool-cases (e.target == id)) [
    | inl b ↦ (e, h.0, ground (arith, eq_iff e.target id), ground (arith, eq_refl e.source))
    | inr b ↦
        let (p, link, e2, q) = parent_of es id h.1 (ground arith) in
        (p, link, e2, ground (arith, e2))
  ]

  known_in_map :
      (id : String)
      → includes (ids_of nodes) id ≡ true
      → is_some (lookup id (build_tree nodes edges).node_map) ≡ true
  known_in_map id h = ground (arith, children-build_tree nodes edges id)

  targets-IsBelow :
      (es : List TopologyEdge) (id : String)
      → All IsLink es
      → All (IsBelow rank (rank id) (build_tree nodes edges).node_map) (targets_of id es)
  targets-IsBelow [] id h = tt
  targets-IsBelow (e ∷ es) id h = elim (Bool-cases (e.source == id)) [
    | inl b ↦
        let same : e.source ≡ id = ground (arith, eq_iff e.source id) in
        rw b (
          (omega (arith, h.0.descends, ap rank same), known_in_map e.target h.0.target),
          targets-IsBelow es id h.1,
        )
    | inr b ↦ rw b (targets-IsBelow es id h.1)
  ]

  build_tree-Descends : IsRanked rank edges → Descends rank (build_tree nodes edges).node_map
  build_tree-Descends ranked id entry e =
      let children : entry.children ≡ targets_of id (known_edges nodes edges) =
        ground (arith, children-build_tree nodes edges id) in
      rw children (targets-IsBelow (known_edges nodes edges) id (known_edges-IsLink edges ranked))

  All-IsBelow :
      (p : TopologyNode → Bool) (ns : List TopologyNode)
      → ((id : String) → includes (ids_of ns) id ≡ true → includes (ids_of nodes) id ≡ true)
      → IsBounded rank fuel ns
      → All (IsBelow rank fuel (build_tree nodes edges).node_map) (ids_of (select p ns))
  All-IsBelow p [] h bounded = tt
  All-IsBelow p (n ∷ ns) h bounded =
      let rest = All-IsBelow p ns (λ id k. h id (ground arith)) bounded.1 in
      elim (Bool-cases (p n)) [
        | inl b ↦
            rw b ((bounded.0, known_in_map n.id (h n.id (ground (arith, eq_refl n.id)))), rest)
        | inr b ↦ rw b rest
      ]

  children_of-known :
      (id : String)
      → includes (ids_of nodes) id ≡ true
      → children_of (build_tree nodes edges).node_map id ≡ targets_of id (known_edges nodes edges)
  children_of-known id h = ground (arith, children-build_tree nodes edges id)

  includes-select :
      (q : String → Bool) (ns : List TopologyNode) (id : String)
      → includes (ids_of (select (λ (n : TopologyNode). q n.id) ns)) id
        ≡ includes (ids_of ns) id && q id
  includes-select q [] id = refl
  includes-select q (n ∷ ns) id = ground (arith, eq_iff n.id id, ap q, includes-select q ns id)

  root_of :
      (id : String)
      → includes (ids_of nodes) id ≡ true
      → is_target (known_edges nodes edges) id ≡ false
      → includes (build_tree nodes edges).roots id ≡ true
  root_of id h t =
      ap (λ xs. includes xs id) (roots-build_tree nodes edges)
      ∙ includes-select (λ j. not (is_target (known_edges nodes edges) j)) nodes id
      ∙ ground (arith, h, t)

  -- A node whose rank is within `room` of the bound is drawn.
  covered :
      (cards : List Card) (room : ℕ) (id : String)
      → IsRanked rank edges
      → IsBounded rank fuel nodes
      → Covers (build_tree nodes edges).node_map (build_tree nodes edges).roots cards
      → includes (ids_of nodes) id ≡ true
      → fuel ≤ rank id + room
      → includes (card_ids cards) id ≡ true
  covered cards zero id ranked bounded covers h r =
      absurd (omega (arith, rank-known nodes id bounded h))
  covered cards (suc room) id ranked bounded covers h r =
      elim (Bool-cases (is_target (known_edges nodes edges) id)) [
        | inl t ↦
            let (e, link, same, child) =
              parent_of (known_edges nodes edges) id (known_edges-IsLink edges ranked) t in
            covers.closed e.source id
              (covered cards room e.source ranked bounded covers link.source
                (omega (arith, r, link.descends, ap rank same)))
              (ap (λ xs. includes xs id) (children_of-known e.source link.source) ∙ child)
        | inr t ↦ covers.all id (root_of id h t)
      ]

every-ids :
    (p : String → Bool) (nodes : List TopologyNode)
    → ((id : String) → includes (ids_of nodes) id ≡ true → p id ≡ true)
    → every p (ids_of nodes) ≡ true
every-ids p [] h = refl
every-ids p (n ∷ nodes) h =
    ground (
      arith,
      h n.id (ground (arith, eq_refl n.id)),
      every-ids p nodes (λ id k. h id (ground arith)),
    )

-- When each edge leads to a node of smaller rank, so that there is no cycle, and the fuel is above
-- the ranks, the drawing ends, and it has a card for each node.
pub draw_topology-ends :
    (json : Value → String) (rank : String → ℕ) (fuel : ℕ) (nodes : List TopologyNode)
    (edges : List TopologyEdge)
    → IsRanked rank edges
    → IsBounded rank fuel nodes
    → (cards : List Card) × (draw_topology json fuel nodes edges ≡ some cards)
      × (every (includes (card_ids cards)) (ids_of nodes) ≡ true)
unfolding draw_topology
draw_topology-ends json rank fuel nodes edges ranked bounded =
    let tree = build_tree nodes edges in
    let below : All (IsBelow rank fuel tree.node_map) tree.roots =
      rw (roots-build_tree nodes edges)
        (All-IsBelow rank fuel nodes edges _ nodes (λ id h. h) bounded) in
    let (cards, e, covers) =
      draw-Covers rank json tree.node_map (build_tree-IsKeyed nodes edges)
        (build_tree-Descends rank fuel nodes edges ranked) fuel 0 tree.roots below in
    (
      cards,
      e,
      every-ids (includes (card_ids cards)) nodes
          λ id h. covered rank fuel nodes edges cards fuel id ranked bounded covers h (omega arith),
    )
