-- ===== src/Sese/Compute/Tests.antt =====
-- `compute_sese` on one graph, and the hypotheses of its theorem there.
use jstd.Base.{
  ℕ, ◌≡◌, refl, sym, ◌∙◌, subst, some, none, List, [], ◌∷◌, ◌==◌, if◌then◌else◌, done, arith,
}
use jstd.Dominators.Total.{IsClosed}
use jstd.Sese
use jstd.Sese.{IEdge}
use jstd.Sese.Flowgraph
use jstd.Sese.Flowgraph.{Row, Flowgraph}
use jstd.Sese.Jpp
use jstd.Sese.Jpp.Brackets
use jstd.Sese.Direct
use jstd.Sese.Candidates
use jstd.Sese.Regions
use jstd.Sese.Regions.{SeseRegion}
use jstd.Sese.Compute.{graph_from, compute_sese, compute_sese_candidates}
use jstd.Sese.Compute.Exact.{Suffices, IsComputed, compute_sese_exact}

-- 4 → 5, 5 → 6, 5 → 7, 6 → 8, 7 → 8, 8 → 9: a choice between two edges
abbrev rows : List Row
rows = (0, 4, 5) ∷ (1, 5, 6) ∷ (2, 5, 7) ∷ (3, 6, 8) ∷ (4, 7, 8) ∷ (5, 8, 9) ∷ []

abbrev successors : ℕ → List ℕ
successors n =
    if n == 4
    then 5 ∷ []
    else if n == 5
    then 6 ∷ 7 ∷ []
    else if n == 6
    then 8 ∷ []
    else if n == 7
    then 8 ∷ []
    else if n == 8
    then 9 ∷ []
    else []

candidates_of_choice :
    compute_sese_candidates successors rows 100 4
    ≡ done (some ((0, 5, 5 ∷ 6 ∷ 7 ∷ 8 ∷ []) ∷ (1, 3, 6 ∷ []) ∷ (2, 4, 7 ∷ []) ∷ []))
unfolding compute_sese_candidates Flowgraph.breadth_first Flowgraph.reached_ids Flowgraph.flowgraph
    Brackets.jpp_cycle_classes Brackets.propose Jpp.visit Jpp.settle Sese.valid Sese.rows_valid
    Sese.pairs_valid Direct.direct_cycle_classes Direct.join_rows Direct.join_row Direct.join
    Direct.find Direct.label_from Sese.cycle_equivalent Sese.cycle_without Sese.reachable
    Sese.search Sese.visit Sese.scan Sese.offer Candidates.candidates Candidates.pair_rows
    Candidates.pair_row Candidates.pair_nodes Sese.edge_dominates Sese.edge_postdominates
    Sese.region_nodes Sese.both_seen
candidates_of_choice = refl

-- The whole, and the two branches.
tree_of_choice :
    compute_sese successors rows 100 4
    ≡ done (
        some (
          record {
            parent = none;
            children = 1 ∷ [];
            entry_edge = none;
            exit_edge = none;
            nodes = 4 ∷ 9 ∷ [];
            contained_nodes = 4 ∷ 5 ∷ 6 ∷ 7 ∷ 8 ∷ 9 ∷ [];
          }
          ∷ record {
            parent = some 0;
            children = 2 ∷ 3 ∷ [];
            entry_edge = some 0;
            exit_edge = some 5;
            nodes = 5 ∷ 8 ∷ [];
            contained_nodes = 5 ∷ 6 ∷ 7 ∷ 8 ∷ [];
          }
          ∷ record {
            parent = some 1;
            children = [];
            entry_edge = some 1;
            exit_edge = some 3;
            nodes = 6 ∷ [];
            contained_nodes = 6 ∷ [];
          }
          ∷ record {
            parent = some 1;
            children = [];
            entry_edge = some 2;
            exit_edge = some 4;
            nodes = 7 ∷ [];
            contained_nodes = 7 ∷ [];
          }
          ∷ []))
unfolding compute_sese Flowgraph.breadth_first Flowgraph.reached_ids Flowgraph.flowgraph
    Brackets.jpp_cycle_classes Brackets.propose Jpp.visit Jpp.settle Sese.valid Sese.rows_valid
    Sese.pairs_valid Direct.direct_cycle_classes Direct.join_rows Direct.join_row Direct.join
    Direct.find Direct.label_from Sese.cycle_equivalent Sese.cycle_without Sese.reachable
    Sese.search Sese.visit Sese.scan Sese.offer Candidates.candidates Candidates.pair_rows
    Candidates.pair_row Candidates.pair_nodes Sese.edge_dominates Sese.edge_postdominates
    Sese.region_nodes Sese.both_seen Regions.region_tree Regions.selected Regions.add_regions
    Regions.own_nodes
tree_of_choice = refl

abbrev inner : ℕ → ℕ → ℕ → IEdge ℕ
inner id u v = record { from_node = u; to_node = v; original = some id }

abbrev choice : Flowgraph
choice = record {
  ids = 4 ∷ 5 ∷ 6 ∷ 7 ∷ 8 ∷ 9 ∷ [];
  edges =
      inner 0 0 1
      ∷ inner 1 1 2
      ∷ inner 2 1 3
      ∷ inner 3 2 4
      ∷ inner 4 3 4
      ∷ inner 5 4 5
      ∷ record { from_node = 5; to_node = 6; original = none }
      ∷ record { from_node = 6; to_node = 0; original = none }
      ∷ [];
  n = 7;
  entry = 0;
  original_count = 6;
}

graph_from-choice : graph_from successors rows 100 4 ≡ done (some choice)
unfolding Flowgraph.breadth_first Flowgraph.reached_ids Flowgraph.flowgraph
graph_from-choice = refl

choice-Suffices : Suffices 100 choice
choice-Suffices = record { nodes = omega arith; pairs = omega arith; small = omega arith }

some_done : (g : Flowgraph) → done (some choice) ≡ done (some g) → choice ≡ g
some_done g e = cc

successors-IsClosed : IsClosed successors (4 ∷ 5 ∷ 6 ∷ 7 ∷ 8 ∷ 9 ∷ [])
successors-IsClosed m n h k = ground arith

compute_sese_exact_example :
    (regions : List SeseRegion) × (compute_sese successors rows 100 4 ≡ done (some regions))
    × IsComputed successors rows 4 regions
compute_sese_exact_example =
    compute_sese_exact successors rows 4 100 (4 ∷ 5 ∷ 6 ∷ 7 ∷ 8 ∷ 9 ∷ []) successors-IsClosed refl
      (omega arith)
      (λ g e. subst (Suffices 100) (some_done g (sym graph_from-choice ∙ e)) choice-Suffices)
