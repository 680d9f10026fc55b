-- ===== src/Dominators/Tests.antt =====
-- A diamond with a loop and its dominator tree, and the theorems at them.
use jstd.Base.{
  ℕ, ◌≡◌, ◌<◌, ◌↔◌, refl, Bool, true, ◌||◌, some, List, [], ◌∷◌, ◌==◌, if◌then◌else◌, is_some,
  lookup, arith,
}
use jstd.Dominators.{reachable_from_root}
use jstd.Dominators.Tree.{DominatorTree, dominates, dominator_frontier}
use jstd.Dominators.Tree.Above.{Above, itself, higher, IsRanked}
use jstd.Dominators.Tree.Sets.{dominates_exact}
use jstd.Dominators.Tree.Frontier.{in_frontier}
use jstd.Dominators.Tree.Joins.{JoinsAt}
use jstd.Dominators.Tree.Exact.{Borders, frontier_exact}
use jstd.Dominators.Total.{IsClosed, Finds, reachable_from_root_exact}

abbrev diamond : ℕ → List ℕ
diamond n =
    if n == 0 then 1 ∷ 2 ∷ [] else if n == 1 then 3 ∷ [] else if n == 2 then 3 ∷ 0 ∷ [] else []

abbrev nodes : List ℕ
nodes = 0 ∷ 1 ∷ 2 ∷ 3 ∷ []

nodes-IsClosed : IsClosed diamond nodes
nodes-IsClosed m n h k = ground (arith, h, k)

reachable_from_root_exact_example :
    (order : List ℕ) × (reachable_from_root diamond 10 0 ≡ some order) × Finds diamond 0 order
reachable_from_root_exact_example =
    reachable_from_root_exact diamond 0 10 nodes nodes-IsClosed refl (ground arith)

-- The order is that of the stack, so the last successor comes first.
reachable_order : reachable_from_root diamond 10 0 ≡ some (0 ∷ 2 ∷ 3 ∷ 1 ∷ [])
unfolding reachable_from_root jstd.Dominators.search
reachable_order = refl

abbrev tree : DominatorTree
tree = record {
  root = 0;
  idom = (1, 0) ∷ (2, 0) ∷ (3, 0) ∷ [];
  preds = (0, []) ∷ (1, 0 ∷ []) ∷ (2, 0 ∷ []) ∷ (3, 1 ∷ 2 ∷ []) ∷ [];
}

abbrev rank : ℕ → ℕ
rank n = if n == 0 then 0 else 1

tree-IsRanked : IsRanked tree.idom rank
tree-IsRanked n p h = ground (arith, h)

rank_below : (n : ℕ) → rank n < 2
rank_below n = ground arith

tree_joins :
    (y p q : ℕ) → JoinsAt y p tree.preds → lookup y tree.idom ≡ some q → Above tree.idom q p
tree_joins y p q joins up = higher (ground (arith, joins, up)) itself

dominates_exact_example :
    (answer : Bool) × (dominates 2 tree 0 3 ≡ some answer)
    × ((answer ≡ true) ↔ (((3 == 0 || is_some (lookup 3 tree.idom)) ≡ true) × Above tree.idom 0 3))
dominates_exact_example = dominates_exact tree.idom rank tree-IsRanked 2 rank_below 0 tree.preds 0 3

frontier_exact_example :
    (frontier : List (ℕ × List ℕ)) × (dominator_frontier 2 tree ≡ some frontier)
    × ((in_frontier frontier 1 3 ≡ true) ↔ Borders tree 1 3)
frontier_exact_example = frontier_exact tree rank tree-IsRanked 2 rank_below tree_joins 1 3
