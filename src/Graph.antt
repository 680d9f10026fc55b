-- ===== src/Graph.antt =====
-- src/graph/owning.rs, src/graph/node.rs, src/graph/edge.rs and src/graph.rs: the owning graph, its
-- node and edge views, and the structural edits. An id is its number. `node_id` and `edge_id` take a
-- number to an id and back, so an id type that drops high bits shows in `make_node` and `make_edge`.
-- A view is an id beside the graph, so the methods of `NodeRef`, `NodeMutRef`, `EdgeRef` and
-- `EdgeMutRef` are functions of the graph and the id. `panic` is an `unwrap` of `None`, an index by an
-- absent key, or a counter that overflows.
pub mod Live
pub mod Diagram
pub mod Represents
pub mod Edges
pub mod Edits
pub mod Nodes
pub mod Refine
pub mod History
pub mod Views
pub mod Adjacency
pub mod Merge
pub mod MergeArcs
pub mod Merged
pub mod Dfs
pub mod Tests
use jstd.Base.{
  ℕ, zero, suc, ◌+◌, ◌^◌, Bool, true, false, ◌||◌, Option, none, some, List, [], ◌∷◌, ltb, ◌==◌,
  if◌then◌else◌, Outcome, done, ◌>>=◌, ◌>>◌, assert, unwrap, length, is_some, lookup, insert, erase,
  keys, add, discard,
}

-- `RawEdge`
pub record RawEdge : Type 0 where
  pub from_node : ℕ
  pub to_node : ℕ

-- `RawNode` is its set of incident edges.
abbrev pub RawNode : Type 0
RawNode = List ℕ

pub record OwningGraph {ℓ} (N E : Type ℓ) : Type ℓ where
  pub node_data : List (ℕ × N)
  pub edge_data : List (ℕ × E)
  pub nodes : List (ℕ × RawNode)
  pub edges : List (ℕ × RawEdge)
  pub next_node_id : ℕ
  pub next_edge_id : ℕ

-- `EdgeItem`, without the graph
pub record EdgeItem : Type 0 where
  pub edge : ℕ
  pub node : ℕ

-- `id += 1`
abbrev pub bump : ℕ → Outcome ℕ
bump n = do assert (ltb (n + 1) (2 ^ 64)); done (n + 1)

-- `nodes.get_mut(&n).unwrap().edges.insert(e)`
pub attach : ℕ → ℕ → List (ℕ × RawNode) → Outcome (List (ℕ × RawNode))
attach n e nodes = do incident ← unwrap (lookup n nodes); done (insert n (add e incident) nodes)

-- `nodes.get_mut(&n).unwrap().edges.remove(&e)`
pub detach : ℕ → ℕ → List (ℕ × RawNode) → Outcome (List (ℕ × RawNode))
detach n e nodes = do incident ← unwrap (lookup n nodes); done (insert n (discard e incident) nodes)

module _ {ℓ} {N E : Type ℓ} where
  pub empty : OwningGraph N E
  empty = record {
    node_data = [];
    edge_data = [];
    nodes = [];
    edges = [];
    next_node_id = 0;
    next_edge_id = 0;
  }

  -- `Graph::get_node` and `get_node_mut`: whether there is a view.
  pub get_node : OwningGraph N E → ℕ → Bool
  get_node g n = is_some (lookup n g.node_data)

  -- `Graph::get_edge` and `get_edge_mut`
  pub get_edge : OwningGraph N E → ℕ → Bool
  get_edge g e = is_some (lookup e g.edge_data)

  -- `NodeRef::data`
  pub node_data : OwningGraph N E → ℕ → Outcome N
  node_data g n = unwrap (lookup n g.node_data)

  -- `EdgeRef::data`
  pub edge_data : OwningGraph N E → ℕ → Outcome E
  edge_data g e = unwrap (lookup e g.edge_data)

  -- `NodeRef::edge_ids`
  pub edge_ids : OwningGraph N E → ℕ → Outcome (List ℕ)
  edge_ids g n = unwrap (lookup n g.nodes)

  -- `NodeRef::edge_count`
  pub edge_count : OwningGraph N E → ℕ → Outcome ℕ
  edge_count g n = do incident ← unwrap (lookup n g.nodes); done (length incident)

  -- `Node::is_leaf`
  pub is_leaf : OwningGraph N E → ℕ → Outcome Bool
  is_leaf g n = do count ← edge_count g n; done (count == 0)

  -- `EdgeRef::from_id`
  pub from_id : OwningGraph N E → ℕ → Outcome ℕ
  from_id g e = do edge ← unwrap (lookup e g.edges); done edge.from_node

  -- `EdgeRef::to_id`
  pub to_id : OwningGraph N E → ℕ → Outcome ℕ
  to_id g e = do edge ← unwrap (lookup e g.edges); done edge.to_node

  -- `Edge::is_loop`
  pub is_loop : OwningGraph N E → ℕ → Outcome Bool
  is_loop g e = do from_node ← from_id g e; to_node ← to_id g e; done (from_node == to_node)

  -- A write through `NodeMutRef::data`.
  pub set_node_data : OwningGraph N E → ℕ → N → Outcome (OwningGraph N E)
  set_node_data g n payload = do
    old ← unwrap (lookup n g.node_data)
    done (record g { node_data = insert n payload g.node_data })

  -- A write through `EdgeMutRef::data`.
  pub set_edge_data : OwningGraph N E → ℕ → E → Outcome (OwningGraph N E)
  set_edge_data g e payload = do
    old ← unwrap (lookup e g.edge_data)
    done (record g { edge_data = insert e payload g.edge_data })

  -- `NodeMutRef::add_edge_id`
  pub add_edge_id : OwningGraph N E → ℕ → ℕ → Outcome (OwningGraph N E)
  add_edge_id g n e = do nodes ← attach n e g.nodes; done (record g { nodes = nodes })

  -- `NodeMutRef::remove_edge_id`
  pub remove_edge_id : OwningGraph N E → ℕ → ℕ → Outcome (OwningGraph N E)
  remove_edge_id g n e = do nodes ← detach n e g.nodes; done (record g { nodes = nodes })

  -- `EdgeMutRef::set_from`
  pub set_from : OwningGraph N E → ℕ → ℕ → Outcome (OwningGraph N E)
  set_from g e node = do
    edge ← unwrap (lookup e g.edges)
    done (record g { edges = insert e (record edge { from_node = node }) g.edges })

  pub make_node : (ℕ → ℕ) → OwningGraph N E → N → Outcome (OwningGraph N E × ℕ)
  make_node node_id g payload = do
    let id = node_id g.next_node_id
    next ← bump g.next_node_id
    done (
      record g {
        next_node_id = next;
        nodes = insert id [] g.nodes;
        node_data = insert id payload g.node_data;
      },
      id,
    )

  pub make_edge : (ℕ → ℕ) → OwningGraph N E → ℕ → ℕ → E → Outcome (OwningGraph N E × ℕ)
  make_edge edge_id g from_node to_node payload = do
    let id = edge_id g.next_edge_id
    next ← bump g.next_edge_id
    nodes ← attach from_node id g.nodes
    nodes ← attach to_node id nodes
    done (
      record g {
        next_edge_id = next;
        edges = insert id (record { from_node = from_node; to_node = to_node }) g.edges;
        edge_data = insert id payload g.edge_data;
        nodes = nodes;
      },
      id,
    )

  pub remove_edge : OwningGraph N E → ℕ → Outcome (OwningGraph N E)
  remove_edge g id = do
    edge ← unwrap (lookup id g.edges)
    nodes ← detach edge.from_node id g.nodes
    nodes ← detach edge.to_node id nodes
    done (record g { edges = erase id g.edges; edge_data = erase id g.edge_data; nodes = nodes })

  pub edit_edge : OwningGraph N E → ℕ → ℕ → ℕ → Outcome (OwningGraph N E)
  edit_edge g id new_from new_to = do
    edge ← unwrap (lookup id g.edges)
    nodes ← detach edge.from_node id g.nodes
    nodes ← detach edge.to_node id nodes
    nodes ← attach new_from id nodes
    nodes ← attach new_to id nodes
    done (record g {
      edges = insert id (record { from_node = new_from; to_node = new_to }) g.edges;
      nodes = nodes;
    })

  -- The loop of `remove_node`.
  pub remove_edges : OwningGraph N E → List ℕ → Outcome (OwningGraph N E)
  remove_edges g [] = done g
  remove_edges g (id ∷ rest) = do g' ← remove_edge g id; remove_edges g' rest

  pub remove_node : OwningGraph N E → ℕ → Outcome (OwningGraph N E)
  remove_node g id = do
    incident ← unwrap (lookup id g.nodes)
    g' ← remove_edges g incident
    node ← unwrap (lookup id g'.nodes)
    done (record g' { nodes = erase id g'.nodes; node_data = erase id g'.node_data })

  -- The `next` of the three iterators, over the ids that are left.
  pub children_among : OwningGraph N E → ℕ → List ℕ → Outcome (List EdgeItem)
  children_among g node [] = done []
  children_among g node (id ∷ rest) = do
    from_node ← from_id g id
    to_node ← to_id g id
    items ← children_among g node rest
    done (if node == from_node then record { edge = id; node = to_node } ∷ items else items)

  pub parents_among : OwningGraph N E → ℕ → List ℕ → Outcome (List EdgeItem)
  parents_among g node [] = done []
  parents_among g node (id ∷ rest) = do
    to_node ← to_id g id
    from_node ← from_id g id
    items ← parents_among g node rest
    done (if node == to_node then record { edge = id; node = from_node } ∷ items else items)

  pub edges_among : OwningGraph N E → ℕ → List ℕ → Outcome (List EdgeItem)
  edges_among g node [] = done []
  edges_among g node (id ∷ rest) = do
    from_node ← from_id g id
    to_node ← to_id g id
    items ← edges_among g node rest
    let other_node = if node == from_node then to_node else from_node
    done (record { edge = id; node = other_node } ∷ items)

  -- `Node::children`, collected
  pub children : OwningGraph N E → ℕ → Outcome (List EdgeItem)
  children g n = do ids ← edge_ids g n; children_among g n ids

  -- `Node::parents`, collected
  pub parents : OwningGraph N E → ℕ → Outcome (List EdgeItem)
  parents g n = do ids ← edge_ids g n; parents_among g n ids

  -- `Node::edges`, collected
  pub edges : OwningGraph N E → ℕ → Outcome (List EdgeItem)
  edges g n = do ids ← edge_ids g n; edges_among g n ids

  -- The loop of `merge_nodes`, over the ids of the items.
  pub rehome : OwningGraph N E → ℕ → ℕ → List EdgeItem → Outcome (OwningGraph N E)
  rehome g keep remove [] = done g
  rehome g keep remove (item ∷ rest) = do
    assert (get_edge g item.edge)
    g ← set_from g item.edge keep
    assert (get_node g keep)
    g ← add_edge_id g keep item.edge
    assert (get_node g remove)
    g ← remove_edge_id g remove item.edge
    rehome g keep remove rest

  pub merge_nodes : OwningGraph N E → ℕ → ℕ → ℕ → Outcome (OwningGraph N E)
  merge_nodes g keep remove direct_edge = do
    assert (get_node g keep)
    g ← remove_edge_id g keep direct_edge
    assert (get_node g remove)
    g ← remove_edge_id g remove direct_edge
    assert (get_node g remove)
    outgoing ← children g remove
    rehome g keep remove outgoing

-- The nodes of the items.
abbrev pub targets : List EdgeItem → List ℕ
targets [] = []
targets (item ∷ rest) = item.node ∷ targets rest

module _ {ℓ} {N E : Type ℓ} where
  -- `Cfg::successors`
  pub successors : OwningGraph N E → ℕ → Outcome (List ℕ)
  successors g n = if get_node g n then (do items ← children g n; done (targets items)) else done []

-- `iter().map(…).collect()` on the values of a map
abbrev map_values {ι θ} : {V : Type ι} {W : Type θ} → (V → W) → List (ℕ × V) → List (ℕ × W)
map_values f [] = []
map_values f ((k, v) ∷ m) = (k, f v) ∷ map_values f m

module _ {ℓ κ} {N E : Type ℓ} {N' E' : Type κ} where
  pub reinterpret : (N → N') → (E → E') → OwningGraph N E → OwningGraph N' E'
  reinterpret node_data_map edge_data_map g = record {
    node_data = map_values node_data_map g.node_data;
    edge_data = map_values edge_data_map g.edge_data;
    nodes = g.nodes;
    edges = g.edges;
    next_node_id = g.next_node_id;
    next_edge_id = g.next_edge_id;
  }
