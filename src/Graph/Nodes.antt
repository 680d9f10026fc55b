-- ===== src/Graph/Nodes.antt =====
-- `make_node` and `remove_node` on a graph that represents a diagram.
use jstd.Base.{
  ℕ, ◌+◌, ◌^◌, ◌<◌, ◌≡◌, refl, ◌∙◌, sym, subst, fun_ext, inl, inr, true, false, Option, none, some,
  List, [], ◌∷◌, ◌==◌, ==→eq, if◌then◌else◌, Bool-cases, Option-cases, is_some, done, panic, insert,
  erase, member, Distinct, lookup-insert, lookup-erase, arith,
}
use jstd.Graph.{OwningGraph, make_node, remove_edges, remove_node}
use jstd.Graph.Diagram.{Diagram, Arc, touches, enter}
use jstd.Graph.Represents.{node_found, node_missing, written, Attached, Represents}
use jstd.Graph.Edges.{bump_done}
use jstd.Graph.Edits.{remove_edge_done}

-- The arcs that are left without those of `es`.
abbrev without : {E : Type 0} → (ℕ → Option (Arc E)) → List ℕ → ℕ → Option (Arc E)
without arc es e = if member e es then none else arc e

-- The arcs that do not touch `n`.
abbrev pub pruned : {E : Type 0} → (ℕ → Option (Arc E)) → ℕ → ℕ → Option (Arc E)
pruned arc n e = if touches (arc e) n then none else arc e

pruned-free :
    {E : Type 0} → (arc : ℕ → Option (Arc E)) (n e : ℕ) → touches (pruned arc n e) n ≡ false
pruned-free arc n e = elim (Bool-cases (touches (arc e) n)) [
  | inl on ↦ rw on refl
  | inr off ↦ rw off off
]

module _ {N E : Type 0} where
  -- An arc stays attached when a node is entered.
  Attached-grown :
      (node : ℕ → Option N) (n : ℕ) (p : N) (a : Option (Arc E))
      → Attached node a
      → Attached (enter node n (some p)) a
  Attached-grown node n p none h = tt
  Attached-grown node n p (some a) (hf, ht) = (ground (arith, hf), ground (arith, ht))

  -- No arc touches a node that is not there.
  untouched :
      (node : ℕ → Option N) (n : ℕ) (a : Option (Arc E))
      → Attached node a
      → is_some (node n) ≡ false
      → touches a n ≡ false
  untouched node n none h missing = refl
  untouched node n (some a) (hf, ht) missing =
      ground (arith, hf, ht, missing, ==→eq n a.from_node, ==→eq n a.to_node)

  module _ (g : OwningGraph N E) (d : Diagram N E) (r : Represents g d) where
    fresh : is_some (d.node d.next_node) ≡ false
    fresh = elim (Bool-cases (is_some (d.node d.next_node))) [
      | inl used ↦ absurd (omega (arith, r.node_below d.next_node used))
      | inr free ↦ free
    ]

    pub make_node_done :
        (node_id : ℕ → ℕ) (p : N)
        → node_id d.next_node ≡ d.next_node
        → d.next_node + 1 < 2 ^ 64
        → (g' : OwningGraph N E) × (make_node node_id g p ≡ done (g', d.next_node))
          × Represents g'
              (record d { node = enter d.node d.next_node (some p); next_node = d.next_node + 1 })
    unfolding make_node
    make_node_done node_id p fit room = (
      record g {
        next_node_id = d.next_node + 1;
        nodes = insert d.next_node [] g.nodes;
        node_data = insert d.next_node p g.node_data;
      },
      rw (r.next_node, fit, bump_done d.next_node room) refl,
      record {
        node = λ n. ground (arith, lookup-insert d.next_node p g.node_data n, r.node n);
        payloads = r.payloads;
        arcs = r.arcs;
        incidence = record {
          alive = λ n. ground (arith, lookup-insert d.next_node [] g.nodes n, r.incidence.alive n);
          distinct = λ n s at. elim (written d.next_node [] g.nodes n s at) [
            | inl (same, now) ↦ subst Distinct now tt
            | inr (other, was) ↦ r.incidence.distinct n s was
          ];
          incident = λ n s at e. elim (written d.next_node [] g.nodes n s at) [
            | inl (same, now) ↦ ground (
              arith,
              now,
              ==→eq n d.next_node same,
              untouched d.node d.next_node (d.arc e) (r.attached e) fresh,
            )
            | inr (other, was) ↦ r.incidence.incident n s was e
          ];
        };
        attached = λ e. Attached-grown d.node d.next_node p (d.arc e) (r.attached e);
        node_below = λ n h. elim (Bool-cases (n == d.next_node)) [
          | inl same ↦ omega (arith, ==→eq n d.next_node same)
          | inr other ↦ omega (arith, r.node_below n (ground (arith, other, h)))
        ];
        edge_below = r.edge_below;
        next_node = refl;
        next_edge = r.next_edge;
      },
    )

    -- Only the arcs themselves matter.
    Represents-ext :
        (arc : ℕ → Option (Arc E))
        → ((e : ℕ) → d.arc e ≡ arc e)
        → Represents g (record d { arc = arc })
    Represents-ext arc same = subst (λ f. Represents g (record d { arc = f })) (fun_ext same) r

  pub remove_edges_done :
      (g : OwningGraph N E) (d : Diagram N E)
      → Represents g d
      → (es : List ℕ) → Distinct es
      → ((e : ℕ) → member e es ≡ true → is_some (d.arc e) ≡ true)
      → (g' : OwningGraph N E) × (remove_edges g es ≡ done g')
        × Represents g' (record d { arc = without d.arc es })
  unfolding remove_edges
  remove_edges_done g d r [] distinct there = (g, refl, r)
  remove_edges_done g d r (id ∷ es) (new, distinct) there = elim (Option-cases (d.arc id)) [
    | inl missing ↦ absurd (ground (arith, there id, missing))
    | inr (a, found) ↦
        let (g1, first, r1) = remove_edge_done g d r id a found in
        let (g2, second, r2) =
          remove_edges_done g1 (record d { arc = enter d.arc id none }) r1 es distinct
            (λ e h. ground (arith, there e, h, new, ==→eq e id)) in
        (
          g2,
          rw (first, second) refl,
          Represents-ext g2 _ r2 (without d.arc (id ∷ es)) (λ e. ground arith),
        )
  ]

  -- An arc that does not touch a node stays attached when the node goes.
  Attached-pruned :
      (node : ℕ → Option N) (n : ℕ) (a : Option (Arc E))
      → Attached node a
      → touches a n ≡ false
      → Attached (enter node n none) a
  Attached-pruned node n none h off = tt
  Attached-pruned node n (some a) (hf, ht) off =
      (ground (arith, hf, off, ==→eq a.from_node n), ground (arith, ht, off, ==→eq a.to_node n))

  module _ (g : OwningGraph N E) (d : Diagram N E) (r : Represents g d) where
    pub remove_node_missing : (n : ℕ) → is_some (d.node n) ≡ false → remove_node g n ≡ panic
    unfolding remove_node
    remove_node_missing n h = rw (node_missing _ _ g.nodes r.incidence n h) refl

    erase-Represents :
        (n : ℕ)
        → ((e : ℕ) → touches (d.arc e) n ≡ false)
        → Represents
            (record g { nodes = erase n g.nodes; node_data = erase n g.node_data })
            (record d { node = enter d.node n none })
    erase-Represents n free = record {
      node = λ m. ground (arith, lookup-erase n g.node_data m, r.node m);
      payloads = r.payloads;
      arcs = r.arcs;
      incidence = record {
        alive = λ m. ground (arith, lookup-erase n g.nodes m, r.incidence.alive m);
        distinct =
            λ m s at. r.incidence.distinct m s (ground (arith, lookup-erase n g.nodes m, at));
        incident =
            λ m s at. r.incidence.incident m s (ground (arith, lookup-erase n g.nodes m, at));
      };
      attached = λ e. Attached-pruned d.node n (d.arc e) (r.attached e) (free e);
      node_below = λ m h. r.node_below m (ground (arith, h));
      edge_below = r.edge_below;
      next_node = r.next_node;
      next_edge = r.next_edge;
    }

  pub remove_node_done :
      (g : OwningGraph N E) (d : Diagram N E)
      → Represents g d
      → (n : ℕ) → is_some (d.node n) ≡ true
      → (g' : OwningGraph N E) × (remove_node g n ≡ done g')
        × Represents g' (record d { node = enter d.node n none; arc = pruned d.arc n })
  unfolding remove_node
  remove_node_done g d r n h =
      let (s, found) = node_found _ _ g.nodes r.incidence n h in
      let same = r.incidence.incident n s found in
      let (g1, looped, r1) =
        remove_edges_done g d r s (r.incidence.distinct n s found)
          (λ e on. touched (d.arc e) n (sym (same e) ∙ on)) in
      let r2 = Represents-ext g1 _ r1 (pruned d.arc n) (λ e. ground (arith, same e)) in
      let (t, still) = node_found _ _ g1.nodes r2.incidence n h in
      (
        record g1 { nodes = erase n g1.nodes; node_data = erase n g1.node_data },
        rw (found, looped, still) refl,
        erase-Represents g1 _ r2 n (pruned-free d.arc n),
      )
    where
      touched : (a : Option (Arc E)) (n : ℕ) → touches a n ≡ true → is_some a ≡ true
      touched none n on = absurd (ground (arith, on))
      touched (some a) n on = refl
