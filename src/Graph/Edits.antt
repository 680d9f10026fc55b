-- ===== src/Graph/Edits.antt =====
-- `remove_edge` and `edit_edge` on a graph that represents a diagram, and the panics of all three.
use jstd.Base.{
  ℕ, ◌+◌, ◌^◌, ◌<◌, ◌≡◌, refl, ◌∙◌, inl, inr, Bool, true, false, not, ◌&&◌, ◌||◌, none, some, List,
  ◌==◌, ==→eq, if◌then◌else◌, Bool-cases, is_some, done, panic, lookup, insert, erase, lookup-erase,
  arith,
}
use jstd.Graph.{OwningGraph, RawNode, attach, detach, make_edge, remove_edge, edit_edge}
use jstd.Graph.Diagram.{Diagram, Arc, touches, enter}
use jstd.Graph.Represents.{
  Incidence, attach_lem, attach_missing, detach_lem, Incidence-ext, payload, Represents,
}
use jstd.Graph.Edges.{bump_done, ends_alive, Attached-enter, put-Represents}

-- Neither end of an edge that was taken off both of its nodes.
off :
    (e n id from_node to_node : ℕ) (t : Bool)
    → (e == id ≡ true → t ≡ (n == from_node || n == to_node))
    → (not (e == id && n == to_node) && (not (e == id && n == from_node) && t))
      ≡ (if e == id then false else t)
off e n id from_node to_node t h = elim (Bool-cases (e == id)) [
  | inl same ↦ ground (arith, same, h same)
  | inr other ↦ ground (arith, other)
]

module _ {N E : Type 0} (g : OwningGraph N E) (d : Diagram N E) (r : Represents g d) where
  stored :
      (id : ℕ) (a : Arc E)
      → d.arc id ≡ some a
      → lookup id g.edges ≡ some (record { from_node = a.from_node; to_node = a.to_node })
  stored id a h = ground (arith, r.arcs id, h)

  -- Both nodes of an arc let go of it.
  detached :
      (id : ℕ) (a : Arc E)
      → d.arc id ≡ some a
      → (ns : List (ℕ × RawNode)) × (ms : List (ℕ × RawNode)) × (detach a.from_node id g.nodes
          ≡ done ns)
        × (detach a.to_node id ns ≡ done ms)
        × Incidence (λ n. is_some (d.node n)) (λ e n. touches (enter d.arc id none e) n) ms
  detached id a h =
      let (hf, ht) = ends_alive g d id a r h in
      let (ns, first, v) = detach_lem _ _ g.nodes r.incidence a.from_node id hf in
      let (ms, second, w) = detach_lem _ _ ns v a.to_node id ht in
      (
        ns,
        ms,
        first,
        second,
        Incidence-ext _ _ ms w _ (λ e n _.
            off e n id a.from_node a.to_node (touches (d.arc e) n)
              (λ same. ground (arith, ==→eq e id same, h))
            ∙ ground arith),
      )

  remove_edge_at :
      (id : ℕ) (a : Arc E) (ns ms : List (ℕ × RawNode))
      → d.arc id ≡ some a
      → detach a.from_node id g.nodes ≡ done ns
      → detach a.to_node id ns ≡ done ms
      → remove_edge g id
        ≡ done (record g { edges = erase id g.edges; edge_data = erase id g.edge_data; nodes = ms })
  unfolding remove_edge
  remove_edge_at id a ns ms h first second = rw (stored id a h, first, second) refl

  pub remove_edge_done :
      (id : ℕ) (a : Arc E)
      → d.arc id ≡ some a
      → (g' : OwningGraph N E) × (remove_edge g id ≡ done g')
        × Represents g' (record d { arc = enter d.arc id none })
  remove_edge_done id a h =
      let (ns, ms, first, second, v) = detached id a h in
      (
        record g { edges = erase id g.edges; edge_data = erase id g.edge_data; nodes = ms },
        remove_edge_at id a ns ms h first second,
        record {
          node = r.node;
          payloads = λ e. ground (arith, lookup-erase id g.edge_data e, r.payloads e);
          arcs = λ e. ground (arith, lookup-erase id g.edges e, r.arcs e);
          incidence = v;
          attached = Attached-enter d.node d.arc id none r.attached tt;
          node_below = r.node_below;
          edge_below = λ e k. ground (arith, r.edge_below e, k);
          next_node = r.next_node;
          next_edge = r.next_edge;
        },
      )

  pub remove_edge_missing : (id : ℕ) → d.arc id ≡ none → remove_edge g id ≡ panic
  unfolding remove_edge
  remove_edge_missing id h = ground (arith, r.arcs id, h)

  edit_edge_at :
      (id : ℕ) (a : Arc E) (new_from new_to : ℕ) (ns ms ks ls : List (ℕ × RawNode))
      → d.arc id ≡ some a
      → detach a.from_node id g.nodes ≡ done ns
      → detach a.to_node id ns ≡ done ms
      → attach new_from id ms ≡ done ks
      → attach new_to id ks ≡ done ls
      → edit_edge g id new_from new_to
        ≡ done (record g {
          edges = insert id (record { from_node = new_from; to_node = new_to }) g.edges;
          nodes = ls;
        })
  unfolding edit_edge
  edit_edge_at id a new_from new_to ns ms ks ls h p q u v = rw (stored id a h, p, q, u, v) refl

  moved :
      (id : ℕ) (a : Arc E) (new_from new_to : ℕ) (e n : ℕ)
      → ((e == id && n == new_to)
          || ((e == id && n == new_from) || touches (enter d.arc id none e) n))
        ≡ touches (enter d.arc id (some (record a { from_node = new_from; to_node = new_to })) e) n
  moved id a new_from new_to e n = elim (Bool-cases (e == id)) [
    | inl same ↦ ground (arith, same)
    | inr other ↦ ground (arith, other)
  ]

  pub edit_edge_done :
      (id : ℕ) (a : Arc E) (new_from new_to : ℕ)
      → d.arc id ≡ some a
      → is_some (d.node new_from) ≡ true
      → is_some (d.node new_to) ≡ true
      → (g' : OwningGraph N E) × (edit_edge g id new_from new_to ≡ done g')
        × Represents g' (record d {
          arc = enter d.arc id (some (record a { from_node = new_from; to_node = new_to }));
        })
  edit_edge_done id a new_from new_to h hf ht =
      let (ns, ms, first, second, v) = detached id a h in
      let (ks, third, w) = attach_lem _ _ ms v new_from id hf in
      let (ls, fourth, x) = attach_lem _ _ ks w new_to id ht in
      (
        record g {
          edges = insert id (record { from_node = new_from; to_node = new_to }) g.edges;
          nodes = ls;
        },
        edit_edge_at id a new_from new_to ns ms ks ls h first second third fourth,
        put-Represents g d r id (record a { from_node = new_from; to_node = new_to }) ls g.edge_data
            g.next_edge_id d.next_edge
            (Incidence-ext _ _ ls x _ (λ e n _. moved id a new_from new_to e n)) (hf, ht)
            (λ e. same_payload id a new_from new_to h e)
            (λ e k. elim (Bool-cases (e == id)) [
              | inl same ↦ ground (arith, r.edge_below e, ==→eq e id same, h)
              | inr other ↦ ground (arith, r.edge_below e, other, k)
            ])
            r.next_edge,
      )
    where
      same_payload :
          (id : ℕ) (a : Arc E) (new_from new_to : ℕ)
          → d.arc id ≡ some a
          → (e : ℕ)
          → lookup e g.edge_data
            ≡ payload
                (enter d.arc id (some (record a { from_node = new_from; to_node = new_to })) e)
      same_payload id a new_from new_to h e = elim (Bool-cases (e == id)) [
        | inl same ↦ ground (arith, r.payloads e, ==→eq e id same, same, h)
        | inr other ↦ ground (arith, r.payloads e, other)
      ]

  pub edit_edge_missing :
      (id new_from new_to : ℕ) → d.arc id ≡ none → edit_edge g id new_from new_to ≡ panic
  unfolding edit_edge
  edit_edge_missing id new_from new_to h = ground (arith, r.arcs id, h)

  -- The first missing end stops `edit_edge`.
  pub edit_edge_stray :
      (id : ℕ) (a : Arc E) (new_from new_to : ℕ)
      → d.arc id ≡ some a
      → (is_some (d.node new_from) && is_some (d.node new_to)) ≡ false
      → edit_edge g id new_from new_to ≡ panic
  unfolding edit_edge
  edit_edge_stray id a new_from new_to h stray =
      let (ns, ms, first, second, v) = detached id a h in
      elim (Bool-cases (is_some (d.node new_from))) [
        | inl hf ↦
            let (ks, third, w) = attach_lem _ _ ms v new_from id hf in
            rw
              (
                stored id a h,
                first,
                second,
                third,
                attach_missing _ _ ks w new_to id (ground (arith, hf, stray)),
              )
              refl
        | inr hf ↦ rw (stored id a h, first, second, attach_missing _ _ ms v new_from id hf) refl
      ]

  -- `make_edge` with a missing end
  pub make_edge_stray :
      (edge_id : ℕ → ℕ) (from_node to_node : ℕ) (p : E)
      → edge_id d.next_edge ≡ d.next_edge
      → d.next_edge + 1 < 2 ^ 64
      → (is_some (d.node from_node) && is_some (d.node to_node)) ≡ false
      → make_edge edge_id g from_node to_node p ≡ panic
  unfolding make_edge
  make_edge_stray edge_id from_node to_node p fit room stray =
      elim (Bool-cases (is_some (d.node from_node))) [
        | inl hf ↦
            let (ns, first, v) = attach_lem _ _ g.nodes r.incidence from_node d.next_edge hf in
            rw
              (
                r.next_edge,
                fit,
                bump_done d.next_edge room,
                first,
                attach_missing _ _ ns v to_node d.next_edge (ground (arith, hf, stray)),
              )
              refl
        | inr hf ↦
            rw
              (
                r.next_edge,
                fit,
                bump_done d.next_edge room,
                attach_missing _ _ g.nodes r.incidence from_node d.next_edge hf,
              )
              refl
      ]
