-- ===== src/Dominators.antt =====
-- src/graph/analysis/dominator.rs: the reachable part of a control-flow graph, and what is read off the
-- immediate dominators. A `Cfg` is its successor function. `while let Some(node) = stack.pop()` runs on
-- fuel, and `none` is that the fuel ran out.
pub mod Path
pub mod Reach
pub mod Total
pub mod Tree
pub mod Tarjan
pub mod Tests
use jstd.Base.{
  ℕ, zero, suc, Bool, true, false, Option, none, some, List, [], ◌∷◌, ◌++◌, if◌then◌else◌, member,
  add,
}

-- The loop that pushes the successors which were not visited.
abbrev pub push_unvisited : List ℕ → List ℕ → List ℕ → List ℕ
push_unvisited visited [] stack = stack
push_unvisited visited (succ ∷ rest) stack =
    push_unvisited visited rest (if member succ visited then stack else succ ∷ stack)

module _ (successors : ℕ → List ℕ) where
  -- The `while` loop of `reachable_from_root`.
  pub search : ℕ → List ℕ → List ℕ → List ℕ → Option (List ℕ)
  search fuel visited order [] = some order
  search zero visited order (node ∷ stack) = none
  search (suc fuel) visited order (node ∷ stack) = elim (member node visited) [
    | true ↦ search fuel visited order stack
    | false ↦
        let seen = add node visited in
        search fuel seen (order ++ (node ∷ [])) (push_unvisited seen (successors node) stack)
  ]

  pub reachable_from_root : ℕ → ℕ → Option (List ℕ)
  reachable_from_root fuel root = search fuel [] [] (root ∷ [])
