-- ===== src/Sese/Jpp.antt =====
-- `jpp_cycle_classes` of src/graph/analysis/sese.rs: the undirected depth-first search, and what is kept of
-- the classes. The recursion of `visit` runs on fuel, and `none` is that the fuel ran out.
pub mod Lists
pub mod Depth
pub mod Brackets
pub mod Settle
pub mod Tests
use jstd.Base.{
  ℕ, zero, suc, ◌+◌, ◌-◌, ◌^◌, Bool, true, false, Option, none, some, List, [], ◌∷◌, ◌++◌, ◌==◌,
  if◌then◌else◌, Outcome, done, ◌>>=◌, Run, ◌>=>◌, length, index, set_at, replicate,
}
use jstd.Sese.{IEdge, is_some_of, valid}
use jstd.Sese.Direct.{direct_cycle_classes}

-- `usize::MAX`
abbrev pub max_index : ℕ
max_index = 2 ^ 64 - 1

-- The arrays of the depth-first search.
pub record Visit : Type 0 where
  pub parent : List (Option ℕ)
  pub parent_edge : List (Option ℕ)
  pub number : List ℕ
  pub end_number : List ℕ
  pub preorder : List ℕ
  pub tree : List Bool

-- `lists[i].push(v)`
abbrev pub push_to : List (List ℕ) → ℕ → ℕ → Outcome (List (List ℕ))
push_to lists i v = do list ← index lists i; set_at lists i (list ++ (v ∷ []))

module _ {E : Type 0} where
  -- The end of the edge that is not the node.
  abbrev pub other_end : IEdge E → ℕ → ℕ
  other_end e node = if e.from_node == node then e.to_node else e.from_node

  -- The loop that fills `incident`, for the edges from the index `id` on.
  abbrev pub incident_from : ℕ → List (IEdge E) → List (List ℕ) → Outcome (List (List ℕ))
  incident_from id [] incident = done incident
  incident_from id (e ∷ es) incident = do
    incident ← push_to incident e.from_node id
    incident ← push_to incident e.to_node id
    incident_from (id + 1) es incident

  module _ (edges : List (IEdge E)) (incident : List (List ℕ)) where
    -- The loop of `visit`, which goes on to a node by `go`.
    abbrev pub visit_each : (Visit → ℕ → Run Visit) → ℕ → Visit → List ℕ → Run Visit
    visit_each go node s [] = done (some s)
    visit_each go node s (eid ∷ rest) = do
      above ← index s.parent_edge node
      elim (is_some_of above eid) [
        | true ↦ visit_each go node s rest
        | false ↦ do
          edge ← index edges eid
          number ← index s.number (other_end edge node)
          elim (number == max_index) [
            | false ↦ visit_each go node s rest
            | true ↦ do
              parent ← set_at s.parent (other_end edge node) (some node)
              parent_edge ← set_at s.parent_edge (other_end edge node) (some eid)
              go (record s { parent = parent; parent_edge = parent_edge }) (other_end edge node)
                  >=> (λ s. do
                    tree ← set_at s.tree eid true
                    visit_each go node (record s { tree = tree }) rest)
          ]
      ]

    -- `visit`
    unfoldable pub visit : ℕ → Visit → ℕ → Run Visit
    visit zero s node = done none
    visit (suc fuel) s node = do
      number ← set_at s.number node (length s.preorder)
      around ← index incident node
      visit_each (visit fuel) node
            (record s { number = number; preorder = s.preorder ++ (node ∷ []) }) around
          >=> (λ s. do
            end_number ← set_at s.end_number node (length s.preorder)
            done (some (record s { end_number = end_number })))

    -- The arrays before the search.
    abbrev pub unvisited : ℕ → Visit
    unvisited n = record {
      parent = replicate n none;
      parent_edge = replicate n none;
      number = replicate n max_index;
      end_number = replicate n 0;
      preorder = [];
      tree = replicate (length edges) false;
    }

  -- The end of `jpp_cycle_classes`: the classes of the brackets, if there are any and they pass the
  -- validation, and otherwise the direct ones.
  unfoldable pub settle : ℕ → List (IEdge E) → ℕ → Option (List ℕ) → Run (List ℕ)
  settle fuel edges n none = direct_cycle_classes fuel edges n
  settle fuel edges n (some classes) = do
    kept ← valid edges n classes
    elim kept [ true ↦ done (some classes) | false ↦ direct_cycle_classes fuel edges n ]
