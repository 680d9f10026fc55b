-- ===== src/Graph/Edges.antt =====
-- `make_edge`, `remove_edge` and `edit_edge` on a graph that represents a diagram.
use jstd.Base.{
  ℕ, ◌+◌, ◌^◌, ◌<◌, ◌≡◌, refl, subst, inl, inr, true, ◌&&◌, ◌||◌, Option, none, some, List, ◌==◌,
  ==→eq, Bool-cases, Option-cases, is_some, done, lookup, insert, lookup-insert, arith,
}
use jstd.Graph.{OwningGraph, RawNode, bump, attach, make_edge}
use jstd.Graph.Diagram.{Diagram, Arc, touches, enter}
use jstd.Graph.Represents.{Incidence, attach_lem, Incidence-ext, payload, Attached, Represents}

pub bump_done : (n : ℕ) → n + 1 < 2 ^ 64 → bump n ≡ done (n + 1)
bump_done n h = ground (arith, h)

module _ {N E : Type 0} where
  -- An arc of the diagram has its ends there.
  pub ends_alive :
      (g : OwningGraph N E) (d : Diagram N E) (e : ℕ) (a : Arc E)
      → Represents g d
      → d.arc e ≡ some a
      → (is_some (d.node a.from_node) ≡ true) × (is_some (d.node a.to_node) ≡ true)
  ends_alive g d e a r h = subst (Attached d.node) h (r.attached e)

  pub Attached-enter :
      (node : ℕ → Option N) (arc : ℕ → Option (Arc E)) (id : ℕ) (v : Option (Arc E))
      → ((e : ℕ) → Attached node (arc e))
      → Attached node v
      → (e : ℕ) → Attached node (enter arc id v e)
  Attached-enter node arc id v all new e = elim (Bool-cases (e == id)) [
    | inl same ↦ rw same new
    | inr other ↦ rw other (all e)
  ]

  module _ (g : OwningGraph N E) (d : Diagram N E) (r : Represents g d) where
    -- The graph after the arc of one id was written.
    pub put-Represents :
        (id : ℕ) (a : Arc E) (ms : List (ℕ × RawNode)) (datas : List (ℕ × E)) (counter next : ℕ)
        → Incidence (λ n. is_some (d.node n)) (λ e n. touches (enter d.arc id (some a) e) n) ms
        → Attached d.node (some a)
        → ((e : ℕ) → lookup e datas ≡ payload (enter d.arc id (some a) e))
        → ((e : ℕ) → is_some (enter d.arc id (some a) e) ≡ true → e < next)
        → counter ≡ next
        → Represents
            (record g {
              next_edge_id = counter;
              edges = insert id (record { from_node = a.from_node; to_node = a.to_node }) g.edges;
              edge_data = datas;
              nodes = ms;
            })
            (record d { arc = enter d.arc id (some a); next_edge = next })
    put-Represents id a ms datas counter next v new same below count = record {
      node = r.node;
      payloads = same;
      arcs = λ e. ground (
        arith,
        lookup-insert id (record { from_node = a.from_node; to_node = a.to_node }) g.edges e,
        r.arcs e,
      );
      incidence = v;
      attached = Attached-enter d.node d.arc id (some a) r.attached new;
      node_below = r.node_below;
      edge_below = below;
      next_node = r.next_node;
      next_edge = count;
    }

    fresh : d.arc d.next_edge ≡ none
    fresh = elim (Option-cases (d.arc d.next_edge)) [
      | inl free ↦ free
      | inr (a, used) ↦ absurd (omega (arith, r.edge_below d.next_edge (ground (arith, used))))
    ]

    abbrev pub arc_of : ℕ → ℕ → E → Arc E
    arc_of from_node to_node p = record { from_node = from_node; to_node = to_node; payload = p }

    make_edge_at :
        (edge_id : ℕ → ℕ) (from_node to_node : ℕ) (p : E) (ns ms : List (ℕ × RawNode))
        → edge_id d.next_edge ≡ d.next_edge
        → d.next_edge + 1 < 2 ^ 64
        → attach from_node d.next_edge g.nodes ≡ done ns
        → attach to_node d.next_edge ns ≡ done ms
        → make_edge edge_id g from_node to_node p
          ≡ done (
            record g {
              next_edge_id = d.next_edge + 1;
              edges =
                  insert d.next_edge (record { from_node = from_node; to_node = to_node }) g.edges;
              edge_data = insert d.next_edge p g.edge_data;
              nodes = ms;
            },
            d.next_edge,
          )
    unfolding make_edge
    make_edge_at edge_id from_node to_node p ns ms fit room first second =
        rw (r.next_edge, fit, bump_done d.next_edge room, first, second) refl

    pub make_edge_done :
        (edge_id : ℕ → ℕ) (from_node to_node : ℕ) (p : E)
        → edge_id d.next_edge ≡ d.next_edge
        → d.next_edge + 1 < 2 ^ 64
        → is_some (d.node from_node) ≡ true
        → is_some (d.node to_node) ≡ true
        → (g' : OwningGraph N E) × (make_edge edge_id g from_node to_node p
            ≡ done (g', d.next_edge))
          × Represents g' (record d {
            arc = enter d.arc d.next_edge (some (arc_of from_node to_node p));
            next_edge = d.next_edge + 1;
          })
    make_edge_done edge_id from_node to_node p fit room hf ht =
        let (ns, first, v) = attach_lem _ _ g.nodes r.incidence from_node d.next_edge hf in
        let (ms, second, w) = attach_lem _ _ ns v to_node d.next_edge ht in
        (
          record g {
            next_edge_id = d.next_edge + 1;
            edges =
                insert d.next_edge (record { from_node = from_node; to_node = to_node }) g.edges;
            edge_data = insert d.next_edge p g.edge_data;
            nodes = ms;
          },
          make_edge_at edge_id from_node to_node p ns ms fit room first second,
          put-Represents d.next_edge (arc_of from_node to_node p) ms
              (insert d.next_edge p g.edge_data) (d.next_edge + 1) (d.next_edge + 1)
              (Incidence-ext _ _ ms w _ (λ e n h. both_ends e n from_node to_node p)) (hf, ht)
              (λ e. ground (arith, lookup-insert d.next_edge p g.edge_data e, r.payloads e))
              (λ e h. ground (arith, r.edge_below e, h)) refl,
        )
      where
        both_ends :
            (e n from_node to_node : ℕ) (p : E)
            → ((e == d.next_edge && n == to_node)
                || ((e == d.next_edge && n == from_node) || touches (d.arc e) n))
              ≡ touches (enter d.arc d.next_edge (some (arc_of from_node to_node p)) e) n
        both_ends e n from_node to_node p = elim (Bool-cases (e == d.next_edge)) [
          | inl same ↦ ground (arith, same, ==→eq e d.next_edge same, fresh)
          | inr other ↦ ground (arith, other)
        ]
