-- ===== src/Sese/Candidates/Tests.antt =====
-- The candidates of a row of edges, and the hypotheses of their theorem there.
use jstd.Base.{
  ℕ, ◌≡◌, ◌<◌, refl, some, none, List, [], ◌∷◌, done, get_elem?, member, true, Among, arith,
}
use jstd.Sese
use jstd.Sese.{IEdge}
use jstd.Sese.Walk.{Within}
use jstd.Sese.Candidates
use jstd.Sese.Candidates.{Candidate, candidates}
use jstd.Sese.Candidates.Pair.{Bounds, Between}
use jstd.Sese.Candidates.Exact.{IsRegion, candidates_exact}

abbrev edge : ℕ → ℕ → IEdge ℕ
edge u v = record { from_node = u; to_node = v; original = none }

-- 0 → 1, 1 → 2, 2 → 3, 3 → 0, with the exit 3
abbrev row : List (IEdge ℕ)
row = edge 0 1 ∷ edge 1 2 ∷ edge 2 3 ∷ edge 3 0 ∷ []

abbrev one_class : List ℕ
one_class = 1 ∷ 1 ∷ 1 ∷ 1 ∷ []

row-Within : Within 4 row
row-Within = (
  omega arith,
  omega arith,
  (omega arith, omega arith, (omega arith, omega arith, (omega arith, omega arith, tt))),
)

candidates-row :
    candidates row 4 0 3 one_class 3
    ≡ done ((0, 1, 1 ∷ []) ∷ (0, 2, 1 ∷ 2 ∷ []) ∷ (1, 2, 2 ∷ []) ∷ [])
unfolding candidates Candidates.pair_rows Candidates.pair_row Candidates.pair_nodes
    Sese.edge_dominates Sese.edge_postdominates Sese.region_nodes Sese.both_seen Sese.reachable
    Sese.search Sese.visit Sese.scan Sese.offer
candidates-row = refl

candidates_exact_example :
    (found : List Candidate) × (candidates row 4 0 3 one_class 3 ≡ done found)
    × ((c : Candidate) → Among c found → IsRegion row 4 0 3 one_class 3 c)
    × ((a b v : ℕ) (e f : IEdge ℕ)
        → a < 3
        → b < 3
        → get_elem? row a ≡ some e
        → get_elem? row b ≡ some f
        → Bounds row 4 0 3 one_class a b e f
        → Between row 4 0 3 one_class a b e f v
        → (nodes : List ℕ) × Among (a, b, nodes) found × (member v nodes ≡ true))
candidates_exact_example =
    candidates_exact row 4 0 3 one_class 3 row-Within refl (omega arith) (omega arith) (omega arith)
