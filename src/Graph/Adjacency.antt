-- ===== src/Graph/Adjacency.antt =====
-- `children`, `parents` and `edges` of src/graph/node.rs against the arcs of the diagram.
use jstd.Base.{
  ℕ, ◌≡◌, refl, ◌∙◌, sym, Bool, true, ◌&&◌, Option, none, some, List, is_some, Outcome, done,
  member, Distinct, arith,
}
use jstd.Graph.{OwningGraph, EdgeItem, edge_ids, children, parents, edges}
use jstd.Graph.Diagram.{Diagram, Arc, touches}
use jstd.Graph.Represents.{Represents, node_found}
use jstd.Graph.Views.{
  has_item, item_edges, is_at, among, leaving, entering, across, among-has, among-Distinct,
  children_among_lem, parents_among_lem, edges_among_lem,
}

-- The items that a run returns are those of `wanted`, each edge once.
abbrev pub Lists : Outcome (List EdgeItem) → (ℕ → ℕ → Bool) → Type 0
Lists result wanted =
    (items : List EdgeItem) × (result ≡ done items)
    × ((e t : ℕ) → has_item e t items ≡ wanted e t)
    × Distinct (item_edges items)

pub touches-some :
    {E : Type 0} → (a : Option (Arc E)) (n : ℕ) → touches a n ≡ true → is_some a ≡ true
touches-some none n on = absurd (ground (arith, on))
touches-some (some a) n on = refl

touches-leaving :
    {E : Type 0}
    → (a : Option (Arc E)) (n t : ℕ)
    → (touches a n && is_at t (leaving n a)) ≡ is_at t (leaving n a)
touches-leaving none n t = refl
touches-leaving (some a) n t = ground arith

touches-entering :
    {E : Type 0}
    → (a : Option (Arc E)) (n t : ℕ)
    → (touches a n && is_at t (entering n a)) ≡ is_at t (entering n a)
touches-entering none n t = refl
touches-entering (some a) n t = ground arith

module _ {N E : Type 0} where
  -- On a graph that represents a diagram, at a node that is there, `children` lists the arcs that leave
  -- the node with their targets, `parents` those that enter it with their sources, and `edges` all that
  -- touch it with the end across (the target for an arc that leaves the node), each arc once.
  pub adjacency_exact :
      (g : OwningGraph N E) (d : Diagram N E)
      → Represents g d
      → (n : ℕ) → is_some (d.node n) ≡ true
      → Lists (children g n) (λ e t. is_at t (leaving n (d.arc e)))
        × Lists (parents g n) (λ e t. is_at t (entering n (d.arc e)))
        × Lists (edges g n) (λ e t. touches (d.arc e) n && is_at t (across n (d.arc e)))
  unfolding children parents edges edge_ids
  adjacency_exact g d r n h =
      let (s, found) = node_found _ _ g.nodes r.incidence n h in
      let same = r.incidence.incident n s found in
      let known : (e : ℕ) → member e s ≡ true → is_some (d.arc e) ≡ true =
        λ e on. touches-some (d.arc e) n (sym (same e) ∙ on) in
      let once = r.incidence.distinct n s found in
      (
        (
          among (leaving n) d.arc s,
          rw found (children_among_lem g d.arc r.arcs n s known),
          (λ e t. among-has (leaving n) d.arc e t s ∙ rw (same e) (touches-leaving (d.arc e) n t)),
          among-Distinct (leaving n) d.arc s once,
        ),
        (
          among (entering n) d.arc s,
          rw found (parents_among_lem g d.arc r.arcs n s known),
          (λ e t.
              among-has (entering n) d.arc e t s ∙ rw (same e) (touches-entering (d.arc e) n t)),
          among-Distinct (entering n) d.arc s once,
        ),
        (
          among (across n) d.arc s,
          rw found (edges_among_lem g d.arc r.arcs n s known),
          (λ e t. among-has (across n) d.arc e t s ∙ rw (same e) refl),
          among-Distinct (across n) d.arc s once,
        ),
      )
