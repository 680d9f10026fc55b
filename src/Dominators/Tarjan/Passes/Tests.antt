-- ===== src/Dominators/Tarjan/Passes/Tests.antt =====
-- Runs of `compute_dominators` on a diamond with an edge back and a node that branches of different
-- depth reach.
use jstd.Base.{ℕ, ◌≡◌, refl, some, List, [], ◌∷◌, ◌==◌, if◌then◌else◌, done}
use jstd.Dominators
use jstd.Dominators.Tarjan
use jstd.Dominators.Tarjan.Passes.{compute_dominators}

-- 0 → 1, 0 → 2, 1 → 3, 2 → 3, 3 → 4, 4 → 1, 2 → 5, 4 → 5
abbrev graph : ℕ → List ℕ
graph n =
    if n == 0
    then 1 ∷ 2 ∷ []
    else if n == 1
    then 3 ∷ []
    else if n == 2
    then 3 ∷ 5 ∷ []
    else if n == 3
    then 4 ∷ []
    else if n == 4
    then 1 ∷ 5 ∷ []
    else []

graph_idom :
    compute_dominators graph 20 0
    ≡ done (
        some (record {
          root = 0;
          idom = (1, 0) ∷ (3, 0) ∷ (4, 3) ∷ (5, 0) ∷ (2, 0) ∷ [];
          preds =
              (0, [])
              ∷ (1, 4 ∷ 0 ∷ [])
              ∷ (3, 1 ∷ 2 ∷ [])
              ∷ (4, 3 ∷ [])
              ∷ (5, 4 ∷ 2 ∷ [])
              ∷ (2, 0 ∷ [])
              ∷ [];
        }))
unfolding compute_dominators jstd.Dominators.Tarjan.Passes.run_lengauer_tarjan
    Dominators.reachable_from_root Dominators.search Tarjan.dfs Tarjan.compress Tarjan.eval
graph_idom = refl
