-- ===== src/Sese/Flowgraph.antt =====
-- The internal flowgraph that `compute_sese` and `compute_sese_candidates` of
-- src/graph/analysis/sese.rs build: the nodes that the root reaches, numbered in ascending order of
-- their ids, the edges among them, and the synthetic edges to the exit and back to the root. The graph
-- is its successor function and its edges as triples (id, source, target). The breadth-first loop
-- runs on fuel, and `none` is that the fuel ran out.
pub mod Numbering
pub mod Shape
pub mod Sinks
pub mod Exact
pub mod Tests
use jstd.Base.{
  ℕ, zero, suc, ◌+◌, ◌-◌, Bool, true, false, not, ◌&&◌, Option, none, some, List, [], ◌∷◌, ◌++◌,
  ◌==◌, leb, if◌then◌else◌, is_some, Outcome, done, ◌>>=◌, unwrap, length, member, add, lookup,
  insert, set_at, replicate, sort, sort_by,
}
use jstd.Sese.{IEdge}

module _ (successors : ℕ → List ℕ) where
  -- The `while` loop over the queue, whose front is the head of the list.
  unfoldable pub breadth_first : ℕ → (seen ids queue : List ℕ) → Option (List ℕ)
  breadth_first fuel seen ids [] = some ids
  breadth_first zero seen ids (id ∷ queue) = none
  breadth_first (suc fuel) seen ids (id ∷ queue) = elim (member id seen) [
    | true ↦ breadth_first fuel seen ids queue
    | false ↦ breadth_first fuel (add id seen) (ids ++ (id ∷ [])) (queue ++ sort (successors id))
  ]

  unfoldable pub reached_ids : ℕ → ℕ → Option (List ℕ)
  reached_ids fuel root = elim (breadth_first fuel [] [] (root ∷ [])) [
    | none ↦ none
    | some ids ↦ some (sort ids)
  ]

-- `ids.iter().enumerate().map(|(i, id)| (*id, i)).collect()`, from the position `i` on
abbrev pub index_map : ℕ → List ℕ → List (ℕ × ℕ) → List (ℕ × ℕ)
index_map i [] map = map
index_map i (id ∷ ids) map = index_map (i + 1) ids (insert id i map)

-- An edge of the graph: its id, its source and its target.
abbrev pub Row : Type 0
Row = ℕ × ℕ × ℕ

-- The edges among the nodes reached that are not loops.
abbrev pub inner_rows : List (ℕ × ℕ) → List Row → List Row
inner_rows positions [] = []
inner_rows positions ((id, u, v) ∷ rows) =
    let rest = inner_rows positions rows in
    if not (u == v) && (is_some (lookup u positions) && is_some (lookup v positions))
    then (id, u, v) ∷ rest
    else rest

-- The order of `sort_by_key(|(id, _, _)| *id)`.
abbrev pub id_before : Row → Row → Bool
id_before (id, _, _) (id', _, _) = leb id id'

abbrev pub internal_edges : List (ℕ × ℕ) → List Row → Outcome (List (IEdge ℕ))
internal_edges positions [] = done []
internal_edges positions ((id, u, v) ∷ rows) = do
  from_node ← unwrap (lookup u positions)
  to_node ← unwrap (lookup v positions)
  edges ← internal_edges positions rows
  done (record { from_node = from_node; to_node = to_node; original = some id } ∷ edges)

-- `for edge in &edges { has_out[edge.from] = true; }`
abbrev pub mark_sources : List (IEdge ℕ) → List Bool → Outcome (List Bool)
mark_sources [] has_out = done has_out
mark_sources (e ∷ es) has_out = do
  has_out ← set_at has_out e.from_node true
  mark_sources es has_out

abbrev pub synthetic : ℕ → ℕ → IEdge ℕ
synthetic u v = record { from_node = u; to_node = v; original = none }

-- The edges to the exit from the nodes, from `node` on, that have no edge out.
abbrev pub exits : ℕ → ℕ → List Bool → List (IEdge ℕ)
exits exit node [] = []
exits exit node (outgoing ∷ rest) =
    let more = exits exit (node + 1) rest in if outgoing then more else synthetic node exit ∷ more

abbrev pub is_empty : {A : Type 0} → List A → Bool
is_empty [] = true
is_empty (x ∷ xs) = false

-- The edge to the exit where every node has an edge out.
abbrev pub exits_or_last : List ℕ → List (IEdge ℕ) → List (IEdge ℕ)
exits_or_last ids (e ∷ es) = e ∷ es
exits_or_last ids [] = if is_empty ids then [] else synthetic (length ids - 1) (length ids) ∷ []

-- The edge back to the root, if an edge to the exit was added.
abbrev pub back_edge : ℕ → ℕ → List (IEdge ℕ) → List (IEdge ℕ)
back_edge exit entry [] = []
back_edge exit entry (e ∷ es) = synthetic exit entry ∷ []

pub record Flowgraph : Type 0 where
  pub ids : List ℕ
  pub edges : List (IEdge ℕ)
  pub n : ℕ
  pub entry : ℕ
  pub original_count : ℕ

unfoldable pub flowgraph : List ℕ → List Row → ℕ → Outcome Flowgraph
flowgraph ids rows root = do
  let positions = index_map 0 ids []
  originals ← internal_edges positions (sort_by id_before (inner_rows positions rows))
  has_out ← mark_sources originals (replicate (length ids) false)
  entry ← unwrap (lookup root positions)
  let out = exits_or_last ids (exits (length ids) 0 has_out)
  done (record {
    ids = ids;
    edges = originals ++ (out ++ back_edge (length ids) entry out);
    n = length ids + 1;
    entry = entry;
    original_count = length originals;
  })
