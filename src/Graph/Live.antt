-- ===== src/Graph/Live.antt =====
-- The calls that `parse` makes on the graph of src/graph/owning.rs, with no assumption on the conversion of
-- the ids: as long as a counter has room and the nodes are there, a call returns and keeps the nodes.
use jstd.Base.{
  ℕ, ◌+◌, ◌-◌, ◌^◌, ◌≤◌, ◌<◌, ◌≡◌, refl, inl, inr, true, Option-cases, List, [], is_some, done,
  lookup, insert, lookup-insert, add, arith,
}
use jstd.Graph.{OwningGraph, RawNode, attach, make_node, make_edge, set_node_data, empty}

-- `usize::MAX`
abbrev pub last_count : ℕ
last_count = 2 ^ 64 - 1

is_some-insert :
    {V : Type 0} (k : ℕ) (v : V) (m : List (ℕ × V)) (q : ℕ)
    → is_some (lookup q m) ≡ true
    → is_some (lookup q (insert k v m)) ≡ true
is_some-insert k v m q h = ground (arith, lookup-insert k v m q, h)

is_some-inserted :
    {V : Type 0} (k : ℕ) (v : V) (m : List (ℕ × V)) → is_some (lookup k (insert k v m)) ≡ true
is_some-inserted k v m = ground (arith, lookup-insert k v m k)

attach_done :
    (n e : ℕ) (nodes : List (ℕ × RawNode))
    → is_some (lookup n nodes) ≡ true
    → (after : List (ℕ × RawNode)) × (attach n e nodes ≡ done after)
      × ((q : ℕ) → is_some (lookup q nodes) ≡ true → is_some (lookup q after) ≡ true)
unfolding attach
attach_done n e nodes h = elim (Option-cases (lookup n nodes)) [
  | inl absent ↦ absurd (ground (arith, h, absent))
  | inr (incident, found) ↦ (
    insert n (add e incident) nodes,
    ground (arith, found),
    λ q there. is_some-insert n (add e incident) nodes q there,
  )
]

module _ {N E : Type 0} where
  -- The id has a node with a payload.
  abbrev pub IsLive : OwningGraph N E → ℕ → Type 0
  IsLive g id = (is_some (lookup id g.node_data) ≡ true) × (is_some (lookup id g.nodes) ≡ true)

  -- The nodes stay, and the counters rise by no more than `nodes` and `edges`.
  pub record Grows (g : OwningGraph N E) (nodes edges : ℕ) (g' : OwningGraph N E) : Type 0 where
    pub stay : (id : ℕ) → IsLive g id → IsLive g' id
    pub nodes_made : g'.next_node_id ≤ g.next_node_id + nodes
    pub edges_made : g'.next_edge_id ≤ g.next_edge_id + edges

  pub Grows-refl : (g : OwningGraph N E) → Grows g 0 0 g
  Grows-refl g = record {
    stay = λ q there. there;
    nodes_made = omega arith;
    edges_made = omega arith;
  }

  -- Growth within larger limits, and one growth after another.
  pub Grows-widen :
      {g g' : OwningGraph N E} {nodes edges : ℕ} (nodes' edges' : ℕ)
      → Grows g nodes edges g'
      → nodes ≤ nodes'
      → edges ≤ edges'
      → Grows g nodes' edges' g'
  Grows-widen nodes' edges' grows more_nodes more_edges = record {
    stay = grows.stay;
    nodes_made = omega (arith, grows.nodes_made, more_nodes);
    edges_made = omega (arith, grows.edges_made, more_edges);
  }

  pub Grows-trans :
      {g g' g'' : OwningGraph N E} {nodes edges nodes' edges' : ℕ}
      → Grows g nodes edges g'
      → Grows g' nodes' edges' g''
      → Grows g (nodes + nodes') (edges + edges') g''
  Grows-trans one two = record {
    stay = λ q there. two.stay q (one.stay q there);
    nodes_made = omega (arith, one.nodes_made, two.nodes_made);
    edges_made = omega (arith, one.edges_made, two.edges_made);
  }

  pub make_node-Grows :
      (node_id : ℕ → ℕ) (g : OwningGraph N E) (payload : N)
      → g.next_node_id < last_count
      → (g' : OwningGraph N E) × (id : ℕ) × (make_node node_id g payload ≡ done (g', id))
        × Grows g 1 0 g'
        × IsLive g' id
  unfolding make_node
  make_node-Grows node_id g payload room =
      let id = node_id g.next_node_id in
      (
        record g {
          next_node_id = g.next_node_id + 1;
          nodes = insert id [] g.nodes;
          node_data = insert id payload g.node_data;
        },
        id,
        ground (arith, room),
        record {
          stay = λ q (data_there, there). (
            is_some-insert id payload g.node_data q data_there,
            is_some-insert id [] g.nodes q there,
          );
          nodes_made = omega arith;
          edges_made = omega arith;
        },
        (is_some-inserted id payload g.node_data, is_some-inserted id [] g.nodes),
      )

  pub set_node_data-Grows :
      (g : OwningGraph N E) (id : ℕ) (payload : N)
      → IsLive g id
      → (g' : OwningGraph N E) × (set_node_data g id payload ≡ done g') × Grows g 0 0 g'
  unfolding set_node_data
  set_node_data-Grows g id payload live = elim (Option-cases (lookup id g.node_data)) [
    | inl absent ↦ absurd (ground (arith, live.0, absent))
    | inr (old, found) ↦ (
      record g { node_data = insert id payload g.node_data },
      ground (arith, found),
      record {
        stay = λ q (data_there, there). (is_some-insert id payload g.node_data q data_there, there);
        nodes_made = omega arith;
        edges_made = omega arith;
      },
    )
  ]

  pub make_edge-Grows :
      (edge_id : ℕ → ℕ) (g : OwningGraph N E) (from_node to_node : ℕ) (payload : E)
      → g.next_edge_id < last_count
      → IsLive g from_node
      → IsLive g to_node
      → (g' : OwningGraph N E) × (id : ℕ) × (make_edge edge_id g from_node to_node payload
          ≡ done (g', id))
        × Grows g 0 1 g'
  unfolding make_edge
  make_edge-Grows edge_id g from_node to_node payload room from to =
      let id = edge_id g.next_edge_id in
      let (one, attached, keep) = attach_done from_node id g.nodes from.1 in
      let (two, attached', keep') = attach_done to_node id one (keep to_node to.1) in
      (
        record g {
          next_edge_id = g.next_edge_id + 1;
          edges = insert id (record { from_node = from_node; to_node = to_node }) g.edges;
          edge_data = insert id payload g.edge_data;
          nodes = two;
        },
        id,
        ground (arith, room, attached, attached'),
        record {
          stay = λ q (data_there, there). (data_there, keep' q (keep q there));
          nodes_made = omega arith;
          edges_made = omega arith;
        },
      )

pub empty_counts :
    (N E : Type 0)
    → ((empty {N = N} {E = E}).next_node_id ≡ 0) × ((empty {N = N} {E = E}).next_edge_id ≡ 0)
unfolding empty
empty_counts N E = (refl, refl)
