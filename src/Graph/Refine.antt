-- ===== src/Graph/Refine.antt =====
-- The edits of src/graph/owning.rs against those of a diagram, on both branches.
use jstd.Base.{
  ℕ, ◌+◌, ◌^◌, ◌<◌, ◌≡◌, refl, inl, inr, ◌&&◌, Bool-cases, Option-cases, is_some, Outcome, done,
  panic, arith,
}
use jstd.Graph.{OwningGraph, make_edge, remove_edge, edit_edge, remove_node}
use jstd.Graph.Diagram
use jstd.Graph.Diagram.{Diagram, Arc}
use jstd.Graph.Represents.{Represents}
use jstd.Graph.Edges.{make_edge_done}
use jstd.Graph.Edits.{
  remove_edge_done, remove_edge_missing, edit_edge_done, edit_edge_missing, edit_edge_stray,
  make_edge_stray,
}
use jstd.Graph.Nodes.{remove_node_done, remove_node_missing}

-- Both sides panic, or both are done with results that `R` relates.
abbrev pub Tracks : {A B : Type 0} → (A → B → Type 0) → Outcome A → Outcome B → Type 0
Tracks R panic panic = Unit
Tracks R panic (done b) = ⊥
Tracks R (done a) panic = ⊥
Tracks R (done a) (done b) = R a b

-- A graph and the id it handed out, against a diagram and the id `k`.
abbrev pub Made : {N E : Type 0} → ℕ → OwningGraph N E × ℕ → Diagram N E → Type 0
Made k (g, id) d = Represents g d × (id ≡ k)

module _ {N E : Type 0} (g : OwningGraph N E) (d : Diagram N E) where
  -- An edit of a graph that represents a diagram: `remove_edge` panics exactly if there is no such
  -- arc, and else the graph it leaves represents the diagram without the arc.
  pub remove_edge_refines :
      Represents g d → (e : ℕ) → Tracks Represents (remove_edge g e) (Diagram.remove_edge d e)
  remove_edge_refines r e = elim (Option-cases (d.arc e)) [
    | inl missing ↦ rw (remove_edge_missing g d r e missing, missing) tt
    | inr (a, found) ↦ let (g', eq, r') = remove_edge_done g d r e a found in rw (eq, found) r'
  ]

  -- On a graph that represents a diagram, `edit_edge` panics exactly if the arc or one of the new ends
  -- is not there, and else the graph it leaves represents the diagram in which the arc has the new
  -- ends and its old payload.
  pub edit_edge_refines :
      Represents g d
      → (e new_from new_to : ℕ)
      → Tracks Represents (edit_edge g e new_from new_to) (Diagram.edit_edge d e new_from new_to)
  edit_edge_refines r e new_from new_to = elim (Option-cases (d.arc e)) [
    | inl missing ↦ rw (edit_edge_missing g d r e new_from new_to missing, missing) tt
    | inr (a, found) ↦ elim (Bool-cases (is_some (d.node new_from) && is_some (d.node new_to))) [
      | inl both ↦
          let (g', eq, r') =
            edit_edge_done g d r e a new_from new_to found (ground (arith, both))
              (ground (arith, both)) in
          rw (eq, found, both) r'
      | inr stray ↦ rw (edit_edge_stray g d r e a new_from new_to found stray, found, stray) tt
    ]
  ]

  -- On a graph that represents a diagram, `remove_node` panics exactly if the node is not there, and
  -- else the graph it leaves represents the diagram without the node and without every arc that
  -- touches it.
  pub remove_node_refines :
      Represents g d → (n : ℕ) → Tracks Represents (remove_node g n) (Diagram.remove_node d n)
  remove_node_refines r n = elim (Bool-cases (is_some (d.node n))) [
    | inl found ↦ let (g', eq, r') = remove_node_done g d r n found in rw (eq, found) r'
    | inr missing ↦ rw (remove_node_missing g d r n missing, missing) tt
  ]

  -- On a graph that represents a diagram, while the counter has room and its id does not lose bits,
  -- `make_edge` panics exactly if an end is not there, and else it returns the next id and a graph that
  -- represents the diagram with the new arc.
  pub make_edge_refines :
      Represents g d
      → (edge_id : ℕ → ℕ) → edge_id d.next_edge ≡ d.next_edge
      → d.next_edge + 1 < 2 ^ 64
      → (from_node to_node : ℕ) (p : E)
      → Tracks
          (Made d.next_edge)
          (make_edge edge_id g from_node to_node p)
          (Diagram.make_edge d from_node to_node p)
  make_edge_refines r edge_id fit room from_node to_node p =
      elim (Bool-cases (is_some (d.node from_node) && is_some (d.node to_node))) [
        | inl both ↦
            let (g', eq, r') =
              make_edge_done g d r edge_id from_node to_node p fit room (ground (arith, both))
                (ground (arith, both)) in
            rw (eq, both) (r', refl)
        | inr stray ↦
            rw (make_edge_stray g d r edge_id from_node to_node p fit room stray, stray) tt
      ]
