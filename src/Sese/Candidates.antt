-- ===== src/Sese/Candidates.antt =====
-- The candidate regions of src/graph/analysis/sese.rs: the double loop of `compute_sese` and
-- `compute_sese_candidates` over the pairs of numbered edges. A candidate is its entry edge, its exit
-- edge, by their positions, and its nodes in ascending order.
pub mod Pair
pub mod Exact
pub mod Tests
use jstd.Base.{
  ℕ, zero, suc, ◌+◌, Bool, true, false, List, [], ◌∷◌, ◌++◌, ◌==◌, if◌then◌else◌, Outcome, done,
  ◌>>=◌, index,
}
use jstd.Sese.{IEdge, edge_dominates, edge_postdominates, region_nodes}
use jstd.Sese.Flowgraph.{is_empty}

abbrev pub Candidate : Type 0
Candidate = ℕ × ℕ × List ℕ

module _ {E : Type 0} (edges : List (IEdge E)) (n entry exit : ℕ) (classes : List ℕ) where
  -- The tests of the loop body: the nodes of the region, or none.
  unfoldable pub pair_nodes : ℕ → ℕ → Outcome (List ℕ)
  pair_nodes a b = elim (a == b) [
    | true ↦ done []
    | false ↦ do
      dominates ← edge_dominates edges n entry a b
      elim dominates [
        | false ↦ done []
        | true ↦ do
          postdominates ← edge_postdominates edges n exit b a
          elim postdominates [
            | false ↦ done []
            | true ↦ do
              class_a ← index classes a
              elim (class_a == 0) [
                | true ↦ done []
                | false ↦ do
                  class_b ← index classes b
                  elim (class_a == class_b) [ false ↦ done [] | true ↦ region_nodes edges n a b ]
              ]
          ]
      ]
  ]

  -- The inner loop, for the `k` edges from `b` on.
  unfoldable pub pair_row : (a b k : ℕ) → Outcome (List Candidate)
  pair_row a b zero = done []
  pair_row a b (suc k) = do
    nodes ← pair_nodes a b
    rest ← pair_row a (b + 1) k
    done (if is_empty nodes then rest else (a, b, nodes) ∷ rest)

  -- The outer loop, for the `k` edges from `a` on, over pairs of the first `count` edges.
  unfoldable pub pair_rows : (count a k : ℕ) → Outcome (List Candidate)
  pair_rows count a zero = done []
  pair_rows count a (suc k) = do
    row ← pair_row a 0 count
    rest ← pair_rows count (a + 1) k
    done (row ++ rest)

  unfoldable pub candidates : ℕ → Outcome (List Candidate)
  candidates count = pair_rows count 0 count
