-- ===== src/Graph/Dfs/Reached.antt =====
-- `dfs` and `undirected_dfs` of src/graph.rs on a graph that represents a diagram.
use jstd.Base.{
  ℕ, ◌<◌, ◌≤◌, ◌≡◌, refl, ◌∙◌, sym, subst, ap, inl, inr, Bool, true, false, ◌&&◌, ◌||◌, Option,
  none, some, List, [], ◌∷◌, ◌==◌, ==→eq, Outcome, done, Bool-cases, Option-cases, is_some, member,
  Distinct, length, arith, ◌↔◌, keys, member-keys, lookup,
}
use jstd.Graph.{OwningGraph, RawNode, EdgeItem, get_node, targets, children, edges, edge_ids}
use jstd.Graph.Diagram.{Diagram, Arc, touches}
use jstd.Graph.Represents.{Represents, Attached, node_found}
use jstd.Graph.Views.{among, leaving, across, is_at, children_among_lem, edges_among_lem}
use jstd.Graph.Adjacency.{touches-some}
use jstd.Graph.Dfs.{nodes_of, collect, dfs, undirected_dfs}
use jstd.Graph.Dfs.Exact.{collect_exact}
use jstd.Dominators.Path.{Reaches, here, step}
use jstd.Dominators.Total.{weight}

module _ {E : Type 0} where
  -- An arc from `m` to `n`.
  abbrev pub goes : ℕ → ℕ → Option (Arc E) → Bool
  goes m n none = false
  goes m n (some a) = m == a.from_node && n == a.to_node

  -- An arc between `m` and `n`.
  abbrev pub joins : ℕ → ℕ → Option (Arc E) → Bool
  joins m n a = goes m n a || goes n m a

  -- `Leads link arc root n` holds if a path of arcs that `link` leads from `root` to `n`.
  pub data Leads (link : ℕ → ℕ → Option (Arc E) → Bool) (arc : ℕ → Option (Arc E)) (root : ℕ)
      : ℕ → Type 0 where
    start : Leads link arc root root
    along :
        {m n : ℕ} (e : ℕ) → Leads link arc root m → link m n (arc e) ≡ true → Leads link arc root n

  leaving-goes :
      (a : Option (Arc E)) (m n : ℕ) → (touches a m && is_at n (leaving m a)) ≡ goes m n a
  leaving-goes none m n = refl
  leaving-goes (some a) m n = ground arith

  across-joins :
      (a : Option (Arc E)) (m n : ℕ) → (touches a m && is_at n (across m a)) ≡ joins m n a
  across-joins none m n = refl
  across-joins (some a) m n =
      ground (arith, ==→eq m a.from_node, ==→eq m a.to_node, ==→eq n a.from_node, ==→eq n a.to_node)

  target_arc :
      (pick : Option (Arc E) → Option ℕ) (arc : ℕ → Option (Arc E)) (n : ℕ) (ids : List ℕ)
      → member n (targets (among pick arc ids)) ≡ true
      → (e : ℕ) × (member e ids ≡ true) × (is_at n (pick (arc e)) ≡ true)
  target_arc pick arc n [] h = absurd (ground (arith, h))
  target_arc pick arc n (id ∷ ids) h = elim (Bool-cases (is_at n (pick (arc id)))) [
    | inl hit ↦ (id, ground arith, hit)
    | inr miss ↦
        let (e, at, hit) = target_arc pick arc n ids (ground (arith, h, miss)) in
        (e, ground (arith, at), hit)
  ]

  arc_target :
      (pick : Option (Arc E) → Option ℕ) (arc : ℕ → Option (Arc E)) (n e : ℕ) (ids : List ℕ)
      → member e ids ≡ true
      → is_at n (pick (arc e)) ≡ true
      → member n (targets (among pick arc ids)) ≡ true
  arc_target pick arc n e [] at hit = absurd (ground (arith, at))
  arc_target pick arc n e (id ∷ ids) at hit = elim (Bool-cases (e == id)) [
    | inl same ↦ ground (arith, subst (λ k. is_at n (pick (arc k)) ≡ true) (==→eq e id same) hit)
    | inr other ↦ ground (arith, arc_target pick arc n e ids (ground (arith, at, other)) hit)
  ]

  -- The other end of an arc is there.
  joins-alive :
      {N : Type 0}
      → (node : ℕ → Option N) (a : Option (Arc E)) (m n : ℕ) → Attached node a
      → joins m n a ≡ true
      → is_some (node n) ≡ true
  joins-alive node none m n at h = absurd (ground (arith, h))
  joins-alive node (some a) m n (hf, ht) h =
      ground (arith, hf, ht, h, ==→eq n a.from_node, ==→eq n a.to_node)

-- The iterator ends, and the nodes it yielded are those that a path of arcs leads to, each once.
abbrev pub Visits :
    {N E : Type 0}
    → (ℕ → ℕ → Option (Arc E) → Bool)
    → Diagram N E
    → ℕ
    → Outcome (Option (List (Option ℕ × ℕ)))
    → Type 0
Visits link d root result =
    (found : List (Option ℕ × ℕ)) × (result ≡ done (some found))
    × Distinct (nodes_of found)
    × ((n : ℕ) → (member n (nodes_of found) ≡ true) ↔ Leads link d.arc root n)

unvisited : {V : Type 0} → (m : List (ℕ × V)) → weight (λ _. []) [] (keys m) ≤ length m
unvisited [] = omega arith
unvisited ((k, v) ∷ m) = omega (arith, unvisited m)

module _ {N E : Type 0} (g : OwningGraph N E) (d : Diagram N E) (r : Represents g d)
    (pick : ℕ → Option (Arc E) → Option ℕ) (link : ℕ → ℕ → Option (Arc E) → Bool)
    (same : (a : Option (Arc E)) (m n : ℕ) → (touches a m && is_at n (pick m a)) ≡ link m n a) where
  -- The items that `pick` makes of the incident edges of a node.
  abbrev items_of : ℕ → Option RawNode → List EdgeItem
  items_of n none = []
  items_of n (some s) = among (pick n) d.arc s

  abbrev items : ℕ → List EdgeItem
  items n = items_of n (lookup n g.nodes)

  linked_item :
      (m n e : ℕ)
      → is_some (d.node m) ≡ true
      → link m n (d.arc e) ≡ true
      → member n (targets (items m)) ≡ true
  linked_item m n e alive h =
      let (s, found) = node_found _ _ g.nodes r.incidence m alive in
      let both = same (d.arc e) m n ∙ h in
      rw found (
        arc_target (pick m) d.arc n e s (r.incidence.incident m s found e ∙ ground (arith, both))
          (ground (arith, both)))

  item_linked :
      (m n : ℕ) → member n (targets (items m)) ≡ true → (e : ℕ) × (link m n (d.arc e) ≡ true)
  item_linked m n h = elim (Option-cases (lookup m g.nodes)) [
    | inl missing ↦ absurd (ground (arith, missing, h))
    | inr (s, found) ↦
        let (e, at, hit) =
          target_arc (pick m) d.arc n s
            (subst (λ o. member n (targets (items_of m o)) ≡ true) found h) in
        (
          e,
          sym (same (d.arc e) m n)
              ∙ ground (arith, sym (r.incidence.incident m s found e) ∙ at, hit),
        )
  ]

  Reaches-Leads : {root n : ℕ} → Reaches (λ m. targets (items m)) root n → Leads link d.arc root n
  Reaches-Leads here = start
  Reaches-Leads (step {m} {n} path edge) =
      let (e, h) = item_linked m n edge in along e (Reaches-Leads path) h

  module _ (alive : (m n e : ℕ) → link m n (d.arc e) ≡ true → is_some (d.node n) ≡ true) where
    Leads-alive :
        {root n : ℕ}
        → is_some (d.node root) ≡ true
        → Leads link d.arc root n
        → is_some (d.node n) ≡ true
    Leads-alive there start = there
    Leads-alive there (along {m} {n} e path h) = alive m n e h

    Leads-Reaches :
        {root n : ℕ}
        → is_some (d.node root) ≡ true
        → Leads link d.arc root n
        → Reaches (λ m. targets (items m)) root n
    Leads-Reaches there start = here
    Leads-Reaches there (along {m} {n} e path h) =
        step (Leads-Reaches there path) (linked_item m n e (Leads-alive there path) h)

    listed : (n : ℕ) → member n (keys g.node_data) ≡ is_some (d.node n)
    listed n = member-keys g.node_data n ∙ ap is_some (r.node n)

    traversed :
        (explore : OwningGraph N E → ℕ → Outcome (List EdgeItem))
        → ((n : ℕ) → is_some (d.node n) ≡ true → explore g n ≡ done (items n))
        → (root fuel : ℕ) → is_some (d.node root) ≡ true
        → length g.node_data < fuel
        → Visits link d root (collect explore g fuel [] ((none, root) ∷ []))
    unfolding get_node
    traversed explore explored root fuel there enough =
        let (found, eq, (once, exact)) =
          collect_exact explore g items (keys g.node_data)
            (λ n h. (sym (member-keys g.node_data n) ∙ h, explored n (sym (listed n) ∙ h)))
            (λ m n h k. let (e, linked) = item_linked m n k in listed n ∙ alive m n e linked) root
            fuel (listed root ∙ there) (omega (arith, enough, unvisited g.node_data)) in
        (
          found,
          eq,
          once,
          λ n. (λ h. Reaches-Leads ((exact n).0 h), λ path. (exact n).1 (Leads-Reaches there path)),
        )

module _ {N E : Type 0} (g : OwningGraph N E) (d : Diagram N E) (r : Represents g d) where
  known :
      (n : ℕ) (s : RawNode)
      → lookup n g.nodes ≡ some s
      → (e : ℕ) → member e s ≡ true
      → is_some (d.arc e) ≡ true
  known n s found e h = touches-some (d.arc e) n (sym (r.incidence.incident n s found e) ∙ h)

  children-items :
      (n : ℕ)
      → is_some (d.node n) ≡ true
      → children g n ≡ done (items g d r (λ m. leaving m) goes leaving-goes n)
  unfolding children edge_ids
  children-items n h =
      let (s, found) = node_found _ _ g.nodes r.incidence n h in
      rw found (children_among_lem g d.arc r.arcs n s (known n s found))

  edges-items :
      (n : ℕ)
      → is_some (d.node n) ≡ true
      → edges g n ≡ done (items g d r (λ m. across m) joins across-joins n)
  unfolding edges edge_ids
  edges-items n h =
      let (s, found) = node_found _ _ g.nodes r.incidence n h in
      rw found (edges_among_lem g d.arc r.arcs n s (known n s found))

  directed :
      (root fuel : ℕ)
      → is_some (d.node root) ≡ true
      → length g.node_data < fuel
      → Visits goes d root (dfs fuel g root)
  unfolding dfs
  directed =
      traversed g d r (λ m. leaving m) goes leaving-goes
        (λ m n e h. joins-alive d.node (d.arc e) m n (r.attached e) (ground (arith, h))) children
        children-items

  undirected :
      (root fuel : ℕ)
      → is_some (d.node root) ≡ true
      → length g.node_data < fuel
      → Visits joins d root (undirected_dfs fuel g root)
  unfolding undirected_dfs
  undirected =
      traversed g d r (λ m. across m) joins across-joins
        (λ m n e h. joins-alive d.node (d.arc e) m n (r.attached e) h) edges edges-items

  -- On a graph that represents a diagram, from a root that is there, `dfs` and `undirected_dfs` never
  -- panic and end after at most as many calls of `next` as there are nodes and one more. `dfs` yields
  -- the nodes that a path of arcs leads to from the root, each once, and `undirected_dfs` those that a
  -- path leads to which may take an arc in either direction.
  pub traversals_exact :
      (root fuel : ℕ)
      → is_some (d.node root) ≡ true
      → length g.node_data < fuel
      → Visits goes d root (dfs fuel g root) × Visits joins d root (undirected_dfs fuel g root)
  traversals_exact root fuel there enough =
      (directed root fuel there enough, undirected root fuel there enough)
