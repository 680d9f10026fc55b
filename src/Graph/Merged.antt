-- ===== src/Graph/Merged.antt =====
-- `merge_nodes` of src/graph.rs against the diagram.
use jstd.Base.{
  ℕ, ◌≡◌, refl, ◌∙◌, sym, subst, ap, inl, inr, true, false, not, ◌&&◌, ◌||◌, some, List, ◌==◌,
  ==→eq, Option-cases, is_some, Outcome, done, lookup, erase, member, lookup-erase, arith,
}
use jstd.Graph.{
  OwningGraph, RawEdge, RawNode, detach, get_node, get_edge, edge_ids, children, remove_edge_id,
  rehome, merge_nodes,
}
use jstd.Graph.Diagram.{Diagram, touches}
use jstd.Graph.Represents.{Represents, Incidence, Incidence-ext, detach_lem, node_found, ends}
use jstd.Graph.Views.{
  item_edges, among, leaving, is_at, among-edges, among-Distinct, children_among_lem,
}
use jstd.Graph.Merge.{rehomed, moved, rewired, rehome_done}
use jstd.Graph.MergeArcs.{
  merged, let_go, let_go-leaving, payload-merged, ends-merged, touches-merged, Attached-merged,
  merged-some, let_go-some, leaving-some, stays,
}

-- The graph without the record of an edge.
abbrev pub purged : {N E : Type 0} → ℕ → OwningGraph N E → OwningGraph N E
purged e g = record g { edges = erase e g.edges; edge_data = erase e g.edge_data }

module _ {N E : Type 0} (g : OwningGraph N E) (d : Diagram N E) (r : Represents g d) where
  views : (n : ℕ) → get_node g n ≡ is_some (d.node n)
  unfolding get_node
  views n = rw (r.node n) refl

  seen : (e : ℕ) → is_some (d.arc e) ≡ true → (is_some (d.arc e) ≡ true) × (get_edge g e ≡ true)
  unfolding get_edge
  seen e h = (
    h,
    elim (Option-cases (d.arc e)) [
      | inl missing ↦ absurd (ground (arith, missing, h))
      | inr (a, found) ↦ rw (r.payloads e, found) refl
    ],
  )

-- The merge is done. Its graph still has the record of the direct edge, and without that record it
-- represents the diagram of the merged arcs.
abbrev pub Merges :
    {N E : Type 0} → Diagram N E → (keep remove direct : ℕ) → Outcome (OwningGraph N E) → Type 0
Merges d keep remove direct result =
    (g : OwningGraph _ _) × (result ≡ done g)
    × (lookup direct g.edges ≡ ends (d.arc direct))
    × Represents (purged direct g) (record d { arc = merged keep remove direct d.arc })

module _ {N E : Type 0} (g : OwningGraph N E) (d : Diagram N E) (r : Represents g d)
    (keep remove direct : ℕ) (apart : keep == remove ≡ false) where
  -- The steps before the loop.
  merge_nodes_start :
      (ns ks : List (ℕ × RawNode)) (s : RawNode)
      → is_some (d.node keep) ≡ true
      → is_some (d.node remove) ≡ true
      → detach keep direct g.nodes ≡ done ns
      → detach remove direct ns ≡ done ks
      → lookup remove ks ≡ some s
      → ((e : ℕ) → member e s ≡ true → is_some (d.arc e) ≡ true)
      → merge_nodes g keep remove direct
        ≡ rehome (rewired g ks g.edges) keep remove (among (leaving remove) d.arc s)
  unfolding merge_nodes get_node remove_edge_id children edge_ids
  merge_nodes_start ns ks s hk hr first second found known =
      rw
        (
          r.node keep,
          hk,
          first,
          r.node remove,
          hr,
          second,
          r.node remove,
          hr,
          found,
          children_among_lem (rewired g ks g.edges) d.arc r.arcs remove s known,
        )
        refl

  merged-Represents :
      (ids : List ℕ) (ms : List (ℕ × RawNode)) (es : List (ℕ × RawEdge))
      → is_some (d.node keep) ≡ true
      → ((e : ℕ) → lookup e es ≡ ends (rehomed keep d.arc ids e))
      → Incidence
          (λ n. is_some (d.node n))
          (moved keep remove (let_go keep remove direct d.arc) ids)
          ms
      → ((e : ℕ) → member e ids ≡ (not (e == direct) && is_some (leaving remove (d.arc e))))
      → ((n : ℕ) → touches (d.arc direct) n ≡ (n == keep || n == remove))
      → ((e : ℕ) → is_at remove (leaving remove (d.arc e)) ≡ false)
      → Represents
          (purged direct (rewired g ms es))
          (record d { arc = merged keep remove direct d.arc })
  merged-Represents ids ms es hk stored v exact on no_loop = record {
    node = r.node;
    payloads = λ e.
        lookup-erase direct g.edge_data e
        ∙ rw (r.payloads e) (payload-merged keep remove direct d.arc apart e);
    arcs = λ e.
        lookup-erase direct es e
        ∙ rw (stored e) (ends-merged keep remove direct d.arc apart ids exact e);
    incidence = Incidence-ext _ _ ms v _ (λ e n _.
        touches-merged keep remove direct d.arc apart ids exact e n (d.arc e) refl
          (λ same.
            subst (λ k. touches (d.arc k) n ≡ (n == keep || n == remove))
              (sym (==→eq e direct same)) (on n))
          (no_loop e));
    attached =
        λ e. Attached-merged d.node keep remove direct d.arc e (d.arc e) refl hk (r.attached e);
    node_below = r.node_below;
    edge_below = λ e h. r.edge_below e (merged-some keep remove direct d.arc e h);
    next_node = r.next_node;
    next_edge = r.next_edge;
  }

  -- On a graph that represents a diagram, with two nodes that are there and differ, a direct arc from
  -- `keep` to `remove`, and no arc from `remove` to itself, `merge_nodes` does not panic. The record of
  -- the direct arc stays as it is. Without it the graph represents the diagram in which the direct arc
  -- is gone, the arcs that left `remove` leave `keep`, and nothing else has changed.
  pub merge_nodes_done :
      (p : E)
      → is_some (d.node keep) ≡ true
      → is_some (d.node remove) ≡ true
      → d.arc direct ≡ some (record { from_node = keep; to_node = remove; payload = p })
      → ((e : ℕ) → is_at remove (leaving remove (d.arc e)) ≡ false)
      → Merges d keep remove direct (merge_nodes g keep remove direct)
  merge_nodes_done p hk hr hd no_loop =
      let (ns, first, v) = detach_lem _ _ g.nodes r.incidence keep direct hk in
      let (ks, second, w) = detach_lem _ _ ns v remove direct hr in
      let (s, found) = node_found _ _ ks w remove hr in
      let on : (n : ℕ) → touches (d.arc direct) n ≡ (n == keep || n == remove) = λ n. rw hd refl in
      let same = w.incident remove s found in
      let known : (e : ℕ) → member e s ≡ true → is_some (d.arc e) ≡ true =
        λ e h. let_go-some keep remove direct d.arc e remove (sym (same e) ∙ h) in
      let items = among (leaving remove) d.arc s in
      let exact : (e : ℕ)
          → member e (item_edges items)
            ≡ (not (e == direct) && is_some (leaving remove (d.arc e))) =
        λ e.
          among-edges (leaving remove) d.arc e s
          ∙ rw (same e) (let_go-leaving keep remove direct d.arc apart e) in
      let (ms, es, looped, stored, x) =
        rehome_done keep remove (λ n. is_some (d.node n)) g (views g d r) hk hr items ks g.edges
          d.arc (let_go keep remove direct d.arc) r.arcs w
          (λ e h. seen g d r e (leaving-some remove (d.arc e) (ground (arith, exact e, h))))
          (among-Distinct (leaving remove) d.arc s (w.distinct remove s found)) in
      (
        rewired g ms es,
        merge_nodes_start ns ks s hk hr first second found known ∙ looped,
        stored direct
            ∙ ap ends (stays keep d.arc direct (item_edges items) (exact direct ∙ ground arith)),
        merged-Represents (item_edges items) ms es hk stored x exact on no_loop,
      )
