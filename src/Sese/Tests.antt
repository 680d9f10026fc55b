-- ===== src/Sese/Tests.antt =====
-- A flowgraph of three nodes in a row and the synthetic exit, through which the theorems on the edge
-- predicates are applied.
use jstd.Base.{
  ℕ, ◌-◌, ◌<◌, ◌≡◌, refl, ◌↔◌, Bool, true, false, none, some, List, [], ◌∷◌, done, length,
  get_elem?, member, arith,
}
use jstd.Sese.{
  IEdge, offer, scan, visit, search, reachable, edge_dominates, both_seen, region_nodes, valid,
}
use jstd.Sese.Walk.{Link, Walk, here, step, Within}
use jstd.Sese.Scan.{flag}
use jstd.Sese.Loop.{reachable-Walk}
use jstd.Sese.Boundary.{Decides, edge_dominates-Walk}
use jstd.Sese.Region.{Ascending, region_nodes-Walk}
use jstd.Sese.Classes.{Fair, valid_exact, valid-cycle}

abbrev edge : ℕ → ℕ → IEdge ℕ
edge u v = record { from_node = u; to_node = v; original = none }

-- The row, the exit edge, and the edge that closes the cycle.
abbrev row : List (IEdge ℕ)
row = edge 0 1 ∷ edge 1 2 ∷ edge 2 3 ∷ edge 3 0 ∷ []

row-Within : Within 4 row
row-Within = (
  omega arith,
  omega arith,
  (omega arith, omega arith, (omega arith, omega arith, (omega arith, omega arith, tt))),
)

reachable-row : reachable row 4 0 (some 1) false ≡ done (true ∷ true ∷ false ∷ false ∷ [])
unfolding reachable search visit scan offer
reachable-row = refl

region_row : region_nodes row 4 0 2 ≡ done (1 ∷ 2 ∷ [])
unfolding region_nodes both_seen reachable search visit scan offer
region_row = refl

reachable-Walk_example :
    (seen : List Bool) × (reachable row 4 0 (some 1) false ≡ done seen)
    × (length seen ≡ 4)
    × ((v : ℕ) → (flag seen v ≡ true) ↔ Walk row (some 1) false 0 v)
reachable-Walk_example = reachable-Walk row 4 0 (some 1) false row-Within (omega arith)

edge_dominates-Walk_example : Decides (edge_dominates row 4 0 0 1) (¬ Walk row (some 0) false 0 1)
edge_dominates-Walk_example =
    edge_dominates-Walk row 4 0 0 1 (edge 1 2) row-Within (omega arith) refl

region_nodes-Walk_example :
    (nodes : List ℕ) × (region_nodes row 4 0 2 ≡ done nodes)
    × Ascending 0 nodes
    × ((v : ℕ)
        → (member v nodes ≡ true)
          ↔ ((v < 4 - 1) × Walk row (some 2) false 1 v × Walk row (some 0) false v 2))
region_nodes-Walk_example = region_nodes-Walk row 4 0 2 (edge 0 1) (edge 2 3) row-Within refl refl

valid_exact_example :
    Decides
      (valid row 4 (1 ∷ 1 ∷ 1 ∷ 1 ∷ []))
      ((i j : ℕ) → i < 4 → j < 4 → Fair row 4 row-Within (1 ∷ 1 ∷ 1 ∷ 1 ∷ []) refl i j)
valid_exact_example = valid_exact row 4 row-Within (1 ∷ 1 ∷ 1 ∷ 1 ∷ []) refl

along : (j u v : ℕ) → get_elem? row j ≡ some (edge u v) → Link row none false 0 j u v
along j u v h = record { edge = edge u v; at = h; kept = refl; from = refl; to = refl }

around : Walk row none false 1 0
around = step 3 (step 2 (step 1 here (along 1 1 2 refl)) (along 2 2 3 refl)) (along 3 3 0 refl)

valid-cycle_example : valid row 4 (1 ∷ 1 ∷ 1 ∷ 1 ∷ []) ≡ done false
valid-cycle_example =
    valid-cycle row 4 row-Within (1 ∷ 1 ∷ 1 ∷ 1 ∷ []) refl 0 (edge 0 1) refl around
