-- ===== src/Graph/Dfs.antt =====
-- `DfsIter` of src/graph.rs. The `next` of both modes is one function of the iterator it explores a node
-- by, `children` or `edges`. The top of the stack is the head of the list.
pub mod Exact
pub mod Reached
use jstd.Base.{
  ℕ, zero, suc, ◌+◌, ◌<◌, ◌≤◌, ◌≡◌, refl, ◌∙◌, sym, subst, ap, ◌⊎◌, inl, inr, Bool, true, false,
  not, ◌&&◌, ◌||◌, Option, none, some, List, [], ◌∷◌, ◌++◌, ◌==◌, ==→eq, ltb, Outcome, done, panic,
  ◌>>=◌, ◌>>◌, assert, if◌then◌else◌, Bool-cases, Option-cases, is_some, member, Distinct, length,
  member-add, add, arith, ◌↔◌,
}
use jstd.Graph.{OwningGraph, EdgeItem, get_node, get_edge, children, edges, targets}

-- The loop that pushes the nodes of the items which were not visited, each with its edge.
abbrev pub push_items : List ℕ → List EdgeItem → List (Option ℕ × ℕ) → List (Option ℕ × ℕ)
push_items visited [] stack = stack
push_items visited (item ∷ rest) stack =
    push_items visited rest
      (if member item.node visited then stack else (some item.edge, item.node) ∷ stack)

-- The nodes of the entries.
abbrev pub nodes_of : List (Option ℕ × ℕ) → List ℕ
nodes_of [] = []
nodes_of ((edge, node) ∷ rest) = node ∷ nodes_of rest

module _ {ℓ} {N E : Type ℓ} (explore : OwningGraph N E → ℕ → Outcome (List EdgeItem))
    (g : OwningGraph N E) where
  -- `edge_id.and_then(|id| self.graph.get_edge(id))`
  abbrev pub tree_edge : Option ℕ → Option ℕ
  tree_edge none = none
  tree_edge (some e) = if get_edge g e then some e else none

  -- `DfsIter::next`: what it yields, the visited nodes and the stack.
  pub next :
      List ℕ → List (Option ℕ × ℕ) → Outcome (Option (Option ℕ × ℕ) × List ℕ × List (Option ℕ × ℕ))
  next visited [] = done (none, visited, [])
  next visited ((edge, node) ∷ stack) = elim (member node visited) [
    | true ↦ next visited stack
    | false ↦ do
      assert (get_node g node)
      items ← explore g node
      done
          (some (tree_edge edge, node), add node visited, push_items (add node visited) items stack)
  ]

  -- The calls of `next` until it yields `None`, at most `fuel` of them.
  pub collect : ℕ → List ℕ → List (Option ℕ × ℕ) → Outcome (Option (List (Option ℕ × ℕ)))
  collect zero visited stack = done none
  collect (suc fuel) visited stack = do
    (item, visited, stack) ← next visited stack
    elim item [
      | none ↦ done (some [])
      | some found ↦ do
        more ← collect fuel visited stack
        elim more [ none ↦ done none | some rest ↦ done (some (found ∷ rest)) ]
    ]

module _ {ℓ} {N E : Type ℓ} where
  -- `Graph::dfs`, collected
  pub dfs : ℕ → OwningGraph N E → ℕ → Outcome (Option (List (Option ℕ × ℕ)))
  dfs fuel g root = collect children g fuel [] ((none, root) ∷ [])

  -- `Graph::undirected_dfs`, collected
  pub undirected_dfs : ℕ → OwningGraph N E → ℕ → Outcome (Option (List (Option ℕ × ℕ)))
  undirected_dfs fuel g root = collect edges g fuel [] ((none, root) ∷ [])
