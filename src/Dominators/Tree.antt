-- ===== src/Dominators/Tree.antt =====
-- `DominatorTree` of src/graph/analysis/dominator.rs: what is read off the immediate dominators. The
-- cells that cache the sets, the children and the frontier hold what these functions return. The loops
-- that follow the immediate dominators run on fuel, and `none` is that the fuel ran out.
pub mod Above
pub mod Sets
pub mod Strip
pub mod Frontier
pub mod Joins
pub mod Exact
use jstd.Base.{
  ℕ, zero, suc, Bool, true, false, Option, none, some, List, [], ◌∷◌, ◌++◌, ◌==◌, ltb,
  if◌then◌else◌, member, add, lookup, insert, keys, length, is_some,
}

pub record DominatorTree : Type 0 where
  pub root : ℕ
  pub idom : List (ℕ × ℕ)
  pub preds : List (ℕ × List ℕ)

-- `immediate_dominator`
abbrev pub immediate_dominator : DominatorTree → ℕ → Option ℕ
immediate_dominator tree node = lookup node tree.idom

abbrev pub or_empty : Option (List ℕ) → List ℕ
or_empty none = []
or_empty (some list) = list

-- `map.get(&node)`, or the empty list
abbrev pub entry : ℕ → List (ℕ × List ℕ) → List ℕ
entry node map = or_empty (lookup node map)

-- The loop of `children_map`.
abbrev pub children_from : List (ℕ × ℕ) → List (ℕ × List ℕ) → List (ℕ × List ℕ)
children_from [] map = map
children_from ((n, parent) ∷ rest) map =
    children_from rest (insert parent (entry parent map ++ (n ∷ [])) map)

abbrev pub children_map : DominatorTree → List (ℕ × List ℕ)
children_map tree = children_from tree.idom []

abbrev pub children_of : DominatorTree → ℕ → List ℕ
children_of tree node = entry node (children_map tree)

-- The inner loop of `compute_dominator_sets`.
pub climb : ℕ → List (ℕ × ℕ) → ℕ → List ℕ → Option (List ℕ)
climb zero idom cursor set = none
climb (suc fuel) idom cursor set = elim (lookup cursor idom) [
  | none ↦ some (add cursor set)
  | some parent ↦ climb fuel idom parent (add cursor set)
]

-- The outer loop of `compute_dominator_sets`, over the nodes that are left.
pub sets_from : ℕ → List (ℕ × ℕ) → List ℕ → List (ℕ × List ℕ) → Option (List (ℕ × List ℕ))
sets_from fuel idom [] out = some out
sets_from fuel idom (n ∷ rest) out = elim (climb fuel idom n []) [
  | none ↦ none
  | some set ↦ sets_from fuel idom rest (insert n set out)
]

-- The keys of the immediate dominators and the root.
abbrev pub all_nodes : List (ℕ × ℕ) → ℕ → List ℕ
all_nodes idom root = add root (keys idom)

pub compute_dominator_sets : ℕ → List (ℕ × ℕ) → ℕ → Option (List (ℕ × List ℕ))
compute_dominator_sets fuel idom root = sets_from fuel idom (all_nodes idom root) []

-- `dominator_set`
pub dominator_set : ℕ → DominatorTree → ℕ → Option (Option (List ℕ))
dominator_set fuel tree node = elim (compute_dominator_sets fuel tree.idom tree.root) [
  | none ↦ none
  | some sets ↦ some (lookup node sets)
]

pub dominates : ℕ → DominatorTree → ℕ → ℕ → Option Bool
dominates fuel tree dominator node = elim (dominator_set fuel tree node) [
  | none ↦ none
  | some found ↦ some (elim found [ none ↦ false | some set ↦ member dominator set ])
]

-- The `while` loop of `dominator_frontier`, which stops at `stop`.
pub run_up : ℕ → List (ℕ × ℕ) → (stop n runner : ℕ) → List (ℕ × List ℕ) → Option (List (ℕ × List ℕ))
run_up zero idom stop n runner frontier = none
run_up (suc fuel) idom stop n runner frontier = elim (runner == stop) [
  | true ↦ some frontier
  | false ↦
      let noted = insert runner (add n (entry runner frontier)) frontier in
      elim (lookup runner idom) [
        | none ↦ some noted
        | some parent ↦ run_up fuel idom stop n parent noted
      ]
]

-- The loop over the predecessors of one node.
pub run_all :
    ℕ → List (ℕ × ℕ) → (stop n : ℕ) → List ℕ → List (ℕ × List ℕ) → Option (List (ℕ × List ℕ))
run_all fuel idom stop n [] frontier = some frontier
run_all fuel idom stop n (p ∷ rest) frontier = elim (run_up fuel idom stop n p frontier) [
  | none ↦ none
  | some noted ↦ run_all fuel idom stop n rest noted
]

-- The loop over the nodes with predecessors.
pub frontier_from :
    ℕ → List (ℕ × ℕ) → List (ℕ × List ℕ) → List (ℕ × List ℕ) → Option (List (ℕ × List ℕ))
frontier_from fuel idom [] frontier = some frontier
frontier_from fuel idom ((n, preds) ∷ rest) frontier = elim (lookup n idom) [
  | none ↦ frontier_from fuel idom rest frontier
  | some stop ↦ elim (ltb (length preds) 2) [
    | true ↦ frontier_from fuel idom rest frontier
    | false ↦ elim (run_all fuel idom stop n preds frontier) [
      | none ↦ none
      | some noted ↦ frontier_from fuel idom rest noted
    ]
  ]
]

-- `iter().map(|&n| (n, HashSet::default())).collect()`
abbrev pub empty_sets : List ℕ → List (ℕ × List ℕ)
empty_sets [] = []
empty_sets (n ∷ rest) = insert n [] (empty_sets rest)

pub dominator_frontier : ℕ → DominatorTree → Option (List (ℕ × List ℕ))
dominator_frontier fuel tree =
    frontier_from fuel tree.idom tree.preds (empty_sets (all_nodes tree.idom tree.root))
