-- ===== src/Graph/History.antt =====
-- Whole histories of the edits of src/graph/owning.rs, from the empty graph.
use jstd.Base.{
  ℕ, ◌+◌, ◌^◌, ◌<◌, ◌≤◌, ◌≡◌, refl, subst, ap, ap₂, inl, inr, ◌&&◌, List, [], ◌∷◌, ◌++◌, Bool-cases,
  Option-cases, is_some, Outcome, done, panic, ◌>>=◌, length, arith,
}
use jstd.Graph
use jstd.Graph.{OwningGraph, empty}
use jstd.Graph.Diagram
use jstd.Graph.Diagram.{Diagram, Arc, void}
use jstd.Graph.Represents.{Represents, empty-Represents}
use jstd.Graph.Nodes.{make_node_done}
use jstd.Graph.Refine.{
  Tracks, Made, make_edge_refines, remove_edge_refines, edit_edge_refines, remove_node_refines,
}

-- A call of one of the edits.
pub data Call (N E : Type 0) : Type 0 where
  make_node : (payload : N) → Call N E
  make_edge : (from_node to_node : ℕ) (payload : E) → Call N E
  remove_edge : (id : ℕ) → Call N E
  edit_edge : (id new_from new_to : ℕ) → Call N E
  remove_node : (id : ℕ) → Call N E

-- `Tracks` of two chains.
bind-Tracks :
    {A B C D : Type 0} (R : A → B → Type 0) (S : C → D → Type 0) (x : Outcome A) (y : Outcome B)
    (f : A → Outcome C) (h : B → Outcome D)
    → Tracks R x y
    → ((a : A) (b : B) → y ≡ done b → R a b → Tracks S (f a) (h b))
    → Tracks S (x >>= f) (y >>= h)
bind-Tracks R S panic panic f h t k = tt
bind-Tracks R S panic (done b) f h t k = absurd t
bind-Tracks R S (done a) panic f h t k = absurd t
bind-Tracks R S (done a) (done b) f h t k = k a b refl t

module _ {N E : Type 0} where
  -- A call, and the id it returns if it makes one.
  abbrev pub call :
      (node_id edge_id : ℕ → ℕ) → Call N E → OwningGraph N E → Outcome (OwningGraph N E × List ℕ)
  call node_id edge_id (make_node payload) g = do
    (g', id) ← Graph.make_node node_id g payload
    done (g', id ∷ [])
  call node_id edge_id (make_edge from_node to_node payload) g = do
    (g', id) ← Graph.make_edge edge_id g from_node to_node payload
    done (g', id ∷ [])
  call node_id edge_id (remove_edge id) g = do g' ← Graph.remove_edge g id; done (g', [])
  call node_id edge_id (edit_edge id new_from new_to) g = do
    g' ← Graph.edit_edge g id new_from new_to
    done (g', [])
  call node_id edge_id (remove_node id) g = do g' ← Graph.remove_node g id; done (g', [])

  -- The same call on a diagram.
  abbrev pub draw : Call N E → Diagram N E → Outcome (Diagram N E × List ℕ)
  draw (make_node payload) d = done (Diagram.make_node d payload, d.next_node ∷ [])
  draw (make_edge from_node to_node payload) d = do
    d' ← Diagram.make_edge d from_node to_node payload
    done (d', d.next_edge ∷ [])
  draw (remove_edge id) d = do d' ← Diagram.remove_edge d id; done (d', [])
  draw (edit_edge id new_from new_to) d = do
    d' ← Diagram.edit_edge d id new_from new_to
    done (d', [])
  draw (remove_node id) d = do d' ← Diagram.remove_node d id; done (d', [])

  -- A history up to its first panic, with the ids it returns in order.
  abbrev pub run :
      (node_id edge_id : ℕ → ℕ)
      → List (Call N E)
      → OwningGraph N E
      → Outcome (OwningGraph N E × List ℕ)
  run node_id edge_id [] g = done (g, [])
  run node_id edge_id (c ∷ cs) g = do
    (g', ids) ← call node_id edge_id c g
    (g'', more) ← run node_id edge_id cs g'
    done (g'', ids ++ more)

  abbrev pub draw_all : List (Call N E) → Diagram N E → Outcome (Diagram N E × List ℕ)
  draw_all [] d = done (d, [])
  draw_all (c ∷ cs) d = do
    (d', ids) ← draw c d
    (d'', more) ← draw_all cs d'
    done (d'', ids ++ more)

  -- The graph represents the diagram, and the same ids were returned.
  abbrev pub Alike : OwningGraph N E × List ℕ → Diagram N E × List ℕ → Type 0
  Alike (g, ids) (d, keys) = Represents g d × (ids ≡ keys)

  -- Both counters are at most `k`.
  abbrev Below : Diagram N E → ℕ → Type 0
  Below d k = (d.next_node ≤ k) × (d.next_edge ≤ k)

  module _ (node_id edge_id : ℕ → ℕ) (bound : ℕ) (room : bound < 2 ^ 64)
      (node_fit : (k : ℕ) → k < bound → node_id k ≡ k)
      (edge_fit : (k : ℕ) → k < bound → edge_id k ≡ k) where
    call_refines :
        (c : Call N E) (g : OwningGraph N E) (d : Diagram N E)
        → Represents g d
        → d.next_node + 1 < bound
        → d.next_edge + 1 < bound
        → Tracks Alike (call node_id edge_id c g) (draw c d)
    call_refines (make_node p) g d r bn be =
        let (g', eq, r') =
          make_node_done g d r node_id p (node_fit d.next_node (omega (arith, bn)))
            (omega (arith, bn, room)) in
        rw eq (r', refl)
    call_refines (make_edge from_node to_node p) g d r bn be =
        bind-Tracks (Made d.next_edge) Alike _ _ _ _
          (make_edge_refines g d r edge_id (edge_fit d.next_edge (omega (arith, be)))
            (omega (arith, be, room)) from_node to_node p)
          (λ (g', id) d' _ (r', same). (r', ap (λ k. k ∷ []) same))
    call_refines (remove_edge e) g d r bn be =
        bind-Tracks Represents Alike _ _ _ _ (remove_edge_refines g d r e)
          (λ g' d' _ r'. (r', refl))
    call_refines (edit_edge e new_from new_to) g d r bn be =
        bind-Tracks Represents Alike _ _ _ _ (edit_edge_refines g d r e new_from new_to)
          (λ g' d' _ r'. (r', refl))
    call_refines (remove_node n) g d r bn be =
        bind-Tracks Represents Alike _ _ _ _ (remove_node_refines g d r n)
          (λ g' d' _ r'. (r', refl))

  -- A call raises each counter by at most one.
  abbrev Counted : Diagram N E → Outcome (Diagram N E × List ℕ) → Type 0
  Counted d panic = Unit
  Counted d (done (d', ids)) = (d'.next_node ≤ d.next_node + 1) × (d'.next_edge ≤ d.next_edge + 1)

  draw-Counted : (c : Call N E) (d : Diagram N E) → Counted d (draw c d)
  draw-Counted (make_node p) d = (omega arith, omega arith)
  draw-Counted (make_edge from_node to_node p) d =
      elim (Bool-cases (is_some (d.node from_node) && is_some (d.node to_node))) [
        | inl both ↦ rw both (omega arith, omega arith)
        | inr stray ↦ rw stray tt
      ]
  draw-Counted (remove_edge e) d = elim (Bool-cases (is_some (d.arc e))) [
    | inl found ↦ rw found (omega arith, omega arith)
    | inr missing ↦ rw missing tt
  ]
  draw-Counted (edit_edge e new_from new_to) d = elim (Option-cases (d.arc e)) [
    | inl missing ↦ rw missing tt
    | inr (a, found) ↦ elim (Bool-cases (is_some (d.node new_from) && is_some (d.node new_to))) [
      | inl both ↦ rw (found, both) (omega arith, omega arith)
      | inr stray ↦ rw (found, stray) tt
    ]
  ]
  draw-Counted (remove_node n) d = elim (Bool-cases (is_some (d.node n))) [
    | inl found ↦ rw found (omega arith, omega arith)
    | inr missing ↦ rw missing tt
  ]

  module _ (node_id edge_id : ℕ → ℕ) (bound : ℕ) (room : bound < 2 ^ 64)
      (node_fit : (k : ℕ) → k < bound → node_id k ≡ k)
      (edge_fit : (k : ℕ) → k < bound → edge_id k ≡ k) where
    run_refines :
        (cs : List (Call N E)) (g : OwningGraph N E) (d : Diagram N E)
        → Represents g d
        → d.next_node + length cs < bound
        → d.next_edge + length cs < bound
        → Tracks Alike (run node_id edge_id cs g) (draw_all cs d)
    run_refines [] g d r bn be = (r, refl)
    run_refines (c ∷ cs) g d r bn be =
        bind-Tracks Alike Alike _ _ _ _
          (call_refines node_id edge_id bound room node_fit edge_fit c g d r (omega (arith, bn))
            (omega (arith, be)))
          (λ (g', ids) (d', keys) drawn (r', same).
            let (up, down) = subst (Counted d) drawn (draw-Counted c d) in
            bind-Tracks Alike Alike _ _ _ _
              (run_refines cs g' d' r' (omega (arith, bn, up)) (omega (arith, be, down)))
              (λ (g'', more) (d'', rest) _ (r'', agree). (r'', ap₂ (λ x y. x ++ y) same agree)))

  -- A history of `make_node`, `make_edge`, `remove_edge`, `edit_edge` and `remove_node` from the empty
  -- graph, with fewer calls than `2 ^ 64` and than the ids that do not lose bits, panics exactly if the
  -- diagram's does. If neither panics, the same ids were returned in the same order and the graph
  -- represents the diagram.
  pub graph_run_refines :
      (node_id edge_id : ℕ → ℕ) (bound : ℕ)
      → bound < 2 ^ 64
      → ((k : ℕ) → k < bound → node_id k ≡ k)
      → ((k : ℕ) → k < bound → edge_id k ≡ k)
      → (cs : List (Call N E)) → length cs < bound
      → Tracks Alike (run node_id edge_id cs empty) (draw_all cs void)
  graph_run_refines node_id edge_id bound room node_fit edge_fit cs short =
      run_refines node_id edge_id bound room node_fit edge_fit cs empty void empty-Represents
        (omega (arith, short)) (omega (arith, short))
