-- ===== src/Graph/Tests.antt =====
-- A graph of three nodes and two edges, and the theorems at it.
use jstd.Base.{ℕ, ◌≡◌, refl, ◌&&◌, Option, none, some, List, [], ◌∷◌, ◌++◌, done, arith}
use jstd.Graph
use jstd.Graph.{OwningGraph, empty, children, parents, edges, merge_nodes}
use jstd.Graph.Diagram.{Diagram, Arc, enter, void, touches}
use jstd.Graph.Represents.{Represents}
use jstd.Graph.Refine.{Tracks}
use jstd.Graph.History.{
  Call, make_node, make_edge, remove_node, run, draw_all, Alike, graph_run_refines,
}
use jstd.Graph.Views.{leaving, entering, across, is_at}
use jstd.Graph.Adjacency.{Lists, adjacency_exact}
use jstd.Graph.Merged.{Merges, merge_nodes_done}
use jstd.Graph.Dfs.{dfs, undirected_dfs}
use jstd.Graph.Dfs.Reached.{goes, joins, Visits, traversals_exact}

abbrev calls : List (Call ℕ ℕ)
calls = make_node 10 ∷ make_node 20 ∷ make_node 30 ∷ make_edge 0 1 5 ∷ make_edge 1 2 6 ∷ []

abbrev three : OwningGraph ℕ ℕ
three = record {
  node_data = (0, 10) ∷ (1, 20) ∷ (2, 30) ∷ [];
  edge_data = (0, 5) ∷ (1, 6) ∷ [];
  nodes = (0, 0 ∷ []) ∷ (1, 1 ∷ 0 ∷ []) ∷ (2, 1 ∷ []) ∷ [];
  edges =
      (0, record { from_node = 0; to_node = 1 }) ∷ (1, record { from_node = 1; to_node = 2 }) ∷ [];
  next_node_id = 3;
  next_edge_id = 2;
}

abbrev arc : ℕ → ℕ → ℕ → Option (Arc ℕ)
arc from_node to_node payload =
    some (record { from_node = from_node; to_node = to_node; payload = payload })

abbrev drawn : Diagram ℕ ℕ
drawn = record {
  node = enter (enter (enter (λ _. none) 0 (some 10)) 1 (some 20)) 2 (some 30);
  arc = enter (enter (λ _. none) 0 (arc 0 1 5)) 1 (arc 1 2 6);
  next_node = 3;
  next_edge = 2;
}

graph_run_refines_example :
    Tracks Alike
      (run (λ k. k) (λ k. k) (calls ++ (remove_node 1 ∷ [])) empty)
      (draw_all (calls ++ (remove_node 1 ∷ [])) void)
graph_run_refines_example =
    graph_run_refines (λ k. k) (λ k. k) 100 (ground arith) (λ k h. refl) (λ k h. refl)
      (calls ++ (remove_node 1 ∷ [])) (ground arith)

three-Represents : Represents three drawn
unfolding empty Graph.make_node Graph.make_edge Graph.attach
three-Represents =
    (graph_run_refines (λ k. k) (λ k. k) 100 (ground arith) (λ k h. refl) (λ k h. refl) calls
      (ground arith)).0

adjacency_exact_example :
    Lists (children three 1) (λ e t. is_at t (leaving 1 (drawn.arc e)))
    × Lists (parents three 1) (λ e t. is_at t (entering 1 (drawn.arc e)))
    × Lists (edges three 1) (λ e t. touches (drawn.arc e) 1 && is_at t (across 1 (drawn.arc e)))
adjacency_exact_example = adjacency_exact three drawn three-Represents 1 refl

merge_nodes_done_example : Merges drawn 0 1 0 (merge_nodes three 0 1 0)
merge_nodes_done_example =
    merge_nodes_done three drawn three-Represents 0 1 0 refl 5 refl refl refl (λ e. ground arith)

traversals_exact_example :
    Visits goes drawn 1 (dfs 4 three 1) × Visits joins drawn 1 (undirected_dfs 4 three 1)
traversals_exact_example = traversals_exact three drawn three-Represents 1 4 refl (ground arith)

-- A merge leaves the record of the direct edge, which is in no incident set.
merge_nodes_direct :
    merge_nodes three 0 1 0
    ≡ done (record {
      node_data = three.node_data;
      edge_data = three.edge_data;
      nodes = (0, 1 ∷ []) ∷ (1, []) ∷ (2, 1 ∷ []) ∷ [];
      edges =
          (0, record { from_node = 0; to_node = 1 })
          ∷ (1, record { from_node = 0; to_node = 2 })
          ∷ [];
      next_node_id = 3;
      next_edge_id = 2;
    })
unfolding merge_nodes Graph.get_node Graph.remove_edge_id children Graph.edge_ids
    Graph.children_among Graph.from_id Graph.to_id Graph.rehome Graph.get_edge Graph.set_from
    Graph.add_edge_id Graph.attach Graph.detach
merge_nodes_direct = refl

-- A self-loop of the removed node is rehomed to an edge into it, which its incident set has lost.
abbrev looped : OwningGraph ℕ ℕ
looped = record {
  node_data = (0, 10) ∷ (1, 20) ∷ [];
  edge_data = (0, 5) ∷ (1, 6) ∷ [];
  nodes = (0, 0 ∷ []) ∷ (1, 1 ∷ 0 ∷ []) ∷ [];
  edges =
      (0, record { from_node = 0; to_node = 1 }) ∷ (1, record { from_node = 1; to_node = 1 }) ∷ [];
  next_node_id = 2;
  next_edge_id = 2;
}

merge_nodes-looped :
    merge_nodes looped 0 1 0
    ≡ done (record {
      node_data = looped.node_data;
      edge_data = looped.edge_data;
      nodes = (0, 1 ∷ []) ∷ (1, []) ∷ [];
      edges =
          (0, record { from_node = 0; to_node = 1 })
          ∷ (1, record { from_node = 0; to_node = 1 })
          ∷ [];
      next_node_id = 2;
      next_edge_id = 2;
    })
unfolding merge_nodes Graph.get_node Graph.remove_edge_id children Graph.edge_ids
    Graph.children_among Graph.from_id Graph.to_id Graph.rehome Graph.get_edge Graph.set_from
    Graph.add_edge_id Graph.attach Graph.detach
merge_nodes-looped = refl
