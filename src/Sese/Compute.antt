-- ===== src/Sese/Compute.antt =====
-- `compute_sese` and `compute_sese_candidates` of src/graph/analysis/sese.rs, from the graph to the tree of
-- regions. The graph is its successor function and its edges.
pub mod Exact
pub mod Tests
use jstd.Base.{
  ℕ, Bool, ◌&&◌, ◌||◌, none, some, List, [], ◌∷◌, ◌==◌, ltb, Outcome, done, ◌>>=◌, Run, ◌>=>◌,
  unwrap, length, index, sort_by,
}
use jstd.Sese.Flowgraph.{Row, Flowgraph, reached_ids, flowgraph}
use jstd.Sese.Jpp.Brackets.{jpp_cycle_classes}
use jstd.Sese.Candidates.{Candidate, candidates}
use jstd.Sese.Regions.{SeseRegion, ids_at, pair_before, region_tree}

-- `SeseCandidate`: the ids of the entry edge and the exit edge, and the nodes.
abbrev pub SeseCandidate : Type 0
SeseCandidate = ℕ × ℕ × List ℕ

-- The candidates by the ids of their edges and nodes.
abbrev pub named : Flowgraph → List Candidate → Outcome (List SeseCandidate)
named g [] = done []
named g ((a, b, nodes) ∷ rest) = do
  entry ← index g.edges a
  entry_edge ← unwrap entry.original
  exit ← index g.edges b
  exit_edge ← unwrap exit.original
  contained ← ids_at g.ids nodes
  more ← named g rest
  done ((entry_edge, exit_edge, contained) ∷ more)

-- The order of `sort_by_key(|c| (Reverse(c.contained_nodes.len()), c.entry_edge, c.exit_edge))`.
abbrev pub larger_named : SeseCandidate → SeseCandidate → Bool
larger_named (a, b, xs) (c, d, ys) =
    ltb (length ys) (length xs) || ((length xs == length ys) && pair_before a b c d)

-- The classes and the candidates of a flowgraph.
abbrev pub found_in : ℕ → Flowgraph → Run (List Candidate)
found_in fuel g = jpp_cycle_classes fuel g.edges g.n g.entry >=> (λ classes. do
  found ← candidates g.edges g.n g.entry (length g.ids) classes g.original_count
  done (some found))

module _ (successors : ℕ → List ℕ) (rows : List Row) where
  -- The flowgraph of what the root reaches.
  abbrev pub graph_from : ℕ → ℕ → Run Flowgraph
  graph_from fuel root = elim (reached_ids successors fuel root) [
    | none ↦ done none
    | some ids ↦ do g ← flowgraph ids rows root; done (some g)
  ]

  pub compute_sese_candidates : ℕ → ℕ → Run (List SeseCandidate)
  compute_sese_candidates fuel root = graph_from fuel root >=> (λ g.
      found_in fuel g
      >=> (λ found. do list ← named g found; done (some (sort_by larger_named list))))

  pub compute_sese : ℕ → ℕ → Run (List SeseRegion)
  compute_sese fuel root = graph_from fuel root >=> (λ g.
      found_in fuel g
      >=> (λ found. do regions ← region_tree g.ids g.edges found; done (some regions)))
