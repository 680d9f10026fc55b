-- ===== src/Sese/Regions/Tests.antt =====
-- The tree of regions of a row of nodes, and the hypotheses of its theorem there.
use jstd.Base.{ℕ, ◌≡◌, refl, some, none, List, [], ◌∷◌, done}
use jstd.Sese.{IEdge}
use jstd.Sese.Candidates.{Candidate}
use jstd.Sese.Regions
use jstd.Sese.Regions.{selected, region_tree}

abbrev edge : ℕ → ℕ → ℕ → IEdge ℕ
edge id u v = record { from_node = u; to_node = v; original = some id }

abbrev ids : List ℕ
ids = 10 ∷ 11 ∷ 12 ∷ 13 ∷ []

abbrev edges : List (IEdge ℕ)
edges = edge 5 0 1 ∷ edge 6 1 2 ∷ edge 7 2 3 ∷ []

abbrev found : List Candidate
found = (0, 1, 1 ∷ []) ∷ (0, 2, 1 ∷ 2 ∷ []) ∷ (1, 2, 2 ∷ []) ∷ []

-- The region of both nodes is the smallest of no edge.
tree_found :
    region_tree ids edges found
    ≡ done (
        record {
          parent = none;
          children = 1 ∷ 2 ∷ [];
          entry_edge = none;
          exit_edge = none;
          nodes = 10 ∷ 13 ∷ [];
          contained_nodes = ids;
        }
        ∷ record {
          parent = some 0;
          children = [];
          entry_edge = some 5;
          exit_edge = some 6;
          nodes = 11 ∷ [];
          contained_nodes = 11 ∷ [];
        }
        ∷ record {
          parent = some 0;
          children = [];
          entry_edge = some 6;
          exit_edge = some 7;
          nodes = 12 ∷ [];
          contained_nodes = 12 ∷ [];
        }
        ∷ [])
unfolding region_tree selected Regions.add_regions Regions.own_nodes
tree_found = refl
