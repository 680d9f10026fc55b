-- ===== src/Sese/Compute/Exact.antt =====
-- `compute_sese` of src/graph/analysis/sese.rs from the graph to the tree of regions.
use jstd.Base.{
  ℕ, ◌+◌, ◌*◌, ◌≤◌, ◌<◌, ◌≡◌, refl, sym, ap, subst, true, some, List, [], ◌∷◌, done, length,
  get_elem?, lt-length_of_get_elem?, member, Among, arith,
}
use jstd.Dominators.Path.{here}
use jstd.Dominators.Total.{weight, IsClosed, Finds}
use jstd.Sese.{IEdge}
use jstd.Sese.Flowgraph.{Row, Flowgraph}
use jstd.Sese.Flowgraph.Numbering.{reached_ids_exact}
use jstd.Sese.Flowgraph.Exact.{IsFlowgraph, flowgraph_exact}
use jstd.Sese.Jpp.{max_index}
use jstd.Sese.Jpp.Settle.{Classifies}
use jstd.Sese.Jpp.Brackets.Exact.{jpp_cycle_classes_exact}
use jstd.Sese.Candidates.{Candidate}
use jstd.Sese.Candidates.Pair.{Bounds, Between}
use jstd.Sese.Candidates.Exact.{IsRegion, candidates_exact}
use jstd.Sese.Regions.{SeseRegion, is_subset, positions_from, selected}
use jstd.Sese.Regions.Parents.{member-positions}
use jstd.Sese.Regions.Made.{Fits}
use jstd.Sese.Regions.Selection.{IsSelection}
use jstd.Sese.Regions.Tree.{IsRegionTree, region_tree_exact}
use jstd.Sese.Compute.{found_in, graph_from, compute_sese}

-- Enough fuel for a flowgraph, whose nodes an index can count.
pub record Suffices (fuel : ℕ) (g : Flowgraph) : Type 0 where
  pub nodes : g.n ≤ fuel
  pub pairs : length g.edges * length g.edges < fuel
  pub small : g.n < max_index

-- The nodes of a region are numbered nodes.
subset_all :
    (count : ℕ) (nodes : List ℕ)
    → ((v : ℕ) → member v nodes ≡ true → v < count)
    → is_subset nodes (positions_from 0 count) ≡ true
subset_all count [] h = refl
subset_all count (x ∷ nodes) h = ground (
  arith,
  member-positions 0 count x,
  h x (ground arith),
  subset_all count nodes (λ v there. h v (ground (arith, there))),
)

-- Every pair of boundary edges with a node between them is found, with all nodes between them.
abbrev pub HasAll : Flowgraph → List ℕ → List Candidate → Type 0
HasAll g classes found =
    (a b v : ℕ) (e f : IEdge ℕ)
    → a < g.original_count
    → b < g.original_count
    → get_elem? g.edges a ≡ some e
    → get_elem? g.edges b ≡ some f
    → Bounds g.edges g.n g.entry (length g.ids) classes a b e f
    → Between g.edges g.n g.entry (length g.ids) classes a b e f v
    → (nodes : List ℕ) × Among (a, b, nodes) found × (member v nodes ≡ true)

-- The classes and the candidates of a flowgraph are found, and the candidates name its edges and nodes.
found_in_done :
    (fuel : ℕ) (ids : List ℕ) (rows : List Row) (root : ℕ) (g : Flowgraph)
    → IsFlowgraph ids rows root g
    → Suffices fuel g
    → (classes : List ℕ) × (found : List Candidate) × (found_in fuel g ≡ done (some found))
      × Classifies g.edges g.n classes
      × ((c : Candidate)
          → Among c found
          → IsRegion g.edges g.n g.entry (length g.ids) classes g.original_count c)
      × HasAll g classes found
found_in_done fuel ids rows root g f enough =
    let entry : g.entry < g.n = omega (arith, f.size, lt-length_of_get_elem? ids g.entry f.entry) in
    let exit : length g.ids < g.n = omega (arith, f.size, ap length (f.nodes)) in
    let (classes, classed, exact) =
      jpp_cycle_classes_exact g.edges g.n f.within fuel g.entry (enough.small) entry (enough.nodes)
        (enough.pairs) in
    let (found, ran, regions, all) =
      candidates_exact g.edges g.n g.entry (length g.ids) classes g.original_count f.within exact.0
        entry exit (f.counted) in
    (classes, found, rw classed (rw ran refl), exact, regions, all)

IsRegion-Fits :
    (ids : List ℕ) (rows : List Row) (root : ℕ) (g : Flowgraph) (classes : List ℕ) (c : Candidate)
    → IsFlowgraph ids rows root g
    → IsRegion g.edges g.n g.entry (length g.ids) classes g.original_count c
    → Fits g.ids g.edges c
IsRegion-Fits ids rows root g classes c f r = record {
  entry = omega (arith, r.counted, f.counted);
  exit = omega (arith, r.counted, f.counted);
  inside = subset_all (length g.ids) c.2 (λ v there.
      let (_, (low, _, _)) = (r.nodes.1 v).0 there in
      omega (arith, low, f.size, ap length (f.nodes)));
}

-- What the tree is made of: the flowgraph of what the root reaches, exact classes, regions and their tree.
pub record IsComputed (successors : ℕ → List ℕ) (rows : List Row) (root : ℕ)
    (regions : List SeseRegion) : Type 0 where
  pub g : Flowgraph
  pub classes : List ℕ
  pub found : List Candidate
  pub reached : Finds successors root g.ids
  pub graph : IsFlowgraph g.ids rows root g
  pub classed : Classifies g.edges g.n classes
  pub sound :
      (c : Candidate)
      → Among c found
      → IsRegion g.edges g.n g.entry (length g.ids) classes g.original_count c
  pub complete : HasAll g classes found
  pub selection : IsSelection found (selected found)
  pub tree : IsRegionTree g.ids g.edges (selected found) regions

module _ (successors : ℕ → List ℕ) (rows : List Row) where
  graph_from_done :
      (root fuel : ℕ) (within : List ℕ)
      → IsClosed successors within
      → member root within ≡ true
      → 1 + weight successors [] within ≤ fuel
      → (g : Flowgraph) × (graph_from successors rows fuel root ≡ done (some g))
        × Finds successors root g.ids
        × IsFlowgraph g.ids rows root g
  graph_from_done root fuel within shut there enough =
      let (ids, reached, finds) = reached_ids_exact successors root fuel within shut there enough in
      let (g, made, f) = flowgraph_exact ids rows root ((finds.1 root).1 here) in
      (
        g,
        rw (graph_from, reached) (rw made refl),
        subst (Finds successors root) (sym f.nodes) finds,
        subst (λ x. IsFlowgraph x rows root g) (sym f.nodes) f,
      )

  -- If all that the root leads to lies in the list `within`, and the fuel is enough for its nodes and
  -- their edges and for the flowgraph, `compute_sese` ends without a panic. The nodes of the flowgraph are
  -- those that a path from the root leads to, its edges those of the graph among them and the synthetic
  -- ones, and the classes are equal exactly for linked edges. For the candidates, which are exactly the
  -- regions that these classes and the walks of the flowgraph bound, the result has the root region and
  -- one region for each candidate selected, with its edges and nodes, under the smallest before it that
  -- contains it, and every node is owned by a smallest region that contains it.
  pub compute_sese_exact :
      (root fuel : ℕ) (within : List ℕ)
      → IsClosed successors within
      → member root within ≡ true
      → 1 + weight successors [] within ≤ fuel
      → ((g : Flowgraph) → graph_from successors rows fuel root ≡ done (some g) → Suffices fuel g)
      → (regions : List SeseRegion) × (compute_sese successors rows fuel root ≡ done (some regions))
        × IsComputed successors rows root regions
  unfolding compute_sese
  compute_sese_exact root fuel within shut there enough suffices =
      let (g, made, finds, f) = graph_from_done root fuel within shut there enough in
      let (classes, found, ran, exact, regions, all) =
        found_in_done fuel g.ids rows root g f (suffices g made) in
      let (tree, built, selection, is_tree) =
        region_tree_exact g.ids g.edges found finds.0
          (λ c a. IsRegion-Fits g.ids rows root g classes c f (regions c a)) in
      (
        tree,
        rw made (rw ran (rw built refl)),
        record {
          g = g;
          classes = classes;
          found = found;
          reached = finds;
          graph = f;
          classed = exact;
          sound = regions;
          complete = all;
          selection = selection;
          tree = is_tree;
        },
      )
