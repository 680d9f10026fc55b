-- ===== src/Graph/Merge.antt =====
-- `merge_nodes` of src/graph.rs: an edge that leaves the removed node is rehomed, and the direct edge
-- keeps its record but is in no incident set.
use jstd.Base.{
  ℕ, ◌≡◌, refl, ◌∙◌, ap, inl, inr, Bool, true, false, not, ◌&&◌, ◌||◌, Option, none, some, List, [],
  ◌∷◌, ◌==◌, ==→eq, if◌then◌else◌, Bool-cases, is_some, done, lookup, insert, member, Distinct,
  lookup-insert, arith,
}
use jstd.Graph.{
  OwningGraph, RawEdge, RawNode, EdgeItem, attach, detach, get_node, get_edge, set_from,
  add_edge_id, remove_edge_id, rehome,
}
use jstd.Graph.Diagram.{Arc, enter}
use jstd.Graph.Represents.{Incidence, Incidence-ext, attach_lem, detach_lem, ends}
use jstd.Graph.Views.{item_edges}

-- The arc with another source.
abbrev pub resourced : {E : Type 0} → ℕ → Option (Arc E) → Option (Arc E)
resourced keep none = none
resourced keep (some a) = some (record a { from_node = keep })

-- The arcs after those of `ids` were rehomed.
abbrev pub rehomed : {E : Type 0} → ℕ → (ℕ → Option (Arc E)) → List ℕ → ℕ → Option (Arc E)
rehomed keep arc ids e = if member e ids then resourced keep (arc e) else arc e

-- The incident sets after that.
abbrev pub moved : ℕ → ℕ → (ℕ → ℕ → Bool) → List ℕ → ℕ → ℕ → Bool
moved keep remove touch ids e n =
    if member e ids then not (n == remove) && (n == keep || touch e n) else touch e n

-- The graph with the incident sets and edges, the rest of it as in `g`.
abbrev pub rewired :
    {N E : Type 0} → OwningGraph N E → List (ℕ × RawNode) → List (ℕ × RawEdge) → OwningGraph N E
rewired g ms es = record g { nodes = ms; edges = es }

rehomed-step :
    {E : Type 0}
    → (keep : ℕ) (arc : ℕ → Option (Arc E)) (id : ℕ) (a : Arc E) (ids : List ℕ) → arc id ≡ some a
    → member id ids ≡ false
    → (e : ℕ)
    → rehomed keep (enter arc id (some (record a { from_node = keep }))) ids e
      ≡ rehomed keep arc (id ∷ ids) e
rehomed-step keep arc id a ids h new e = elim (Bool-cases (e == id)) [
  | inl same ↦ ground (arith, same, ==→eq e id same, new, h)
  | inr other ↦ ground (arith, other)
]

moved-step :
    (keep remove : ℕ) (touch : ℕ → ℕ → Bool) (id : ℕ) (ids : List ℕ)
    → member id ids ≡ false
    → (e n : ℕ)
    → moved keep remove
        (λ f m. not (f == id && m == remove) && ((f == id && m == keep) || touch f m))
        ids
        e
        n
      ≡ moved keep remove touch (id ∷ ids) e n
moved-step keep remove touch id ids new e n = elim (Bool-cases (e == id)) [
  | inl same ↦ ground (arith, same, ==→eq e id same, new)
  | inr other ↦ ground (arith, other)
]

module _ {N E : Type 0} (keep remove : ℕ) (live : ℕ → Bool) (g : OwningGraph N E)
    (views : (n : ℕ) → get_node g n ≡ live n) (keep_live : live keep ≡ true)
    (remove_live : live remove ≡ true) where
  -- One round of the loop.
  rehome_step :
      (item : EdgeItem) (items : List EdgeItem) (ms ns ks : List (ℕ × RawNode))
      (es : List (ℕ × RawEdge)) (old : RawEdge)
      → get_edge g item.edge ≡ true
      → lookup item.edge es ≡ some old
      → attach keep item.edge ms ≡ done ns
      → detach remove item.edge ns ≡ done ks
      → rehome (rewired g ms es) keep remove (item ∷ items)
        ≡ rehome
            (rewired g ks (insert item.edge (record old { from_node = keep }) es))
            keep
            remove
            items
  unfolding rehome get_node get_edge set_from add_edge_id remove_edge_id
  rehome_step item items ms ns ks es old seen found first second =
      rw (seen, found, views keep, keep_live, first, views remove, remove_live, second) refl

  pub rehome_done :
      (items : List EdgeItem) (ms : List (ℕ × RawNode)) (es : List (ℕ × RawEdge))
      (arc : ℕ → Option (Arc E)) (touch : ℕ → ℕ → Bool)
      → ((e : ℕ) → lookup e es ≡ ends (arc e))
      → Incidence live touch ms
      → ((e : ℕ)
          → member e (item_edges items) ≡ true
          → (is_some (arc e) ≡ true) × (get_edge g e ≡ true))
      → Distinct (item_edges items)
      → (ms' : List (ℕ × RawNode)) × (es' : List (ℕ × RawEdge)) × (rehome
            (rewired g ms es)
            keep
            remove
            items
          ≡ done (rewired g ms' es'))
        × ((e : ℕ) → lookup e es' ≡ ends (rehomed keep arc (item_edges items) e))
        × Incidence live (moved keep remove touch (item_edges items)) ms'
  unfolding rehome
  rehome_done [] ms es arc touch stored v known once = (ms, es, refl, stored, v)
  rehome_done (item ∷ items) ms es arc touch stored v known (new, once) =
      let id = item.edge in
      let (a, found) = the_arc (arc id) (known id (ground arith)).0 in
      let (ns, first, w) = attach_lem _ _ ms v keep id keep_live in
      let (ks, second, x) = detach_lem _ _ ns w remove id remove_live in
      let (ms', es', looped, stored', y) =
        rehome_done items ks (insert id (record { from_node = keep; to_node = a.to_node }) es)
          (enter arc id (some (record a { from_node = keep })))
          (λ f m. not (f == id && m == remove) && ((f == id && m == keep) || touch f m))
          (λ e. ground (
            arith,
            lookup-insert id (record { from_node = keep; to_node = a.to_node }) es e,
            stored e,
          ))
          x
          (λ e h.
            (ground (arith, (known e (ground (arith, h))).0), (known e (ground (arith, h))).1))
          once in
      (
        ms',
        es',
        rehome_step item items ms ns ks es (record { from_node = a.from_node; to_node = a.to_node })
              (known id (ground arith)).1 (ground (arith, stored id, found)) first second
            ∙ looped,
        (λ e. stored' e ∙ ap ends (rehomed-step keep arc id a (item_edges items) found new e)),
        Incidence-ext _ _ ms' y _
            (λ e n _. moved-step keep remove touch id (item_edges items) new e n),
      )
    where
      the_arc : (o : Option (Arc E)) → is_some o ≡ true → (a : Arc E) × (o ≡ some a)
      the_arc none h = absurd (ground (arith, h))
      the_arc (some a) h = (a, refl)
