-- ===== src/Graph/Represents.antt =====
-- How the maps and incident sets of an owning graph store a diagram.
use jstd.Base.{
  ℕ, ◌<◌, ◌≡◌, refl, ◌∙◌, subst, ◌⊎◌, inl, inr, Bool, true, false, not, ◌&&◌, ◌||◌, Option, none,
  some, List, ◌==◌, ==→eq, Bool-cases, Option-cases, is_some, done, panic, lookup, insert, member,
  add, discard, Distinct, lookup-insert, member-add, member-discard, add-Distinct, discard-Distinct,
  arith,
}
use jstd.Graph.{OwningGraph, RawEdge, RawNode, attach, detach, empty}
use jstd.Graph.Diagram.{Diagram, Arc, touches, void}

-- The nodes of the map are those of `live`, and the edge `e` is in the set of the node `n` exactly if
-- `touch e n`.
pub record Incidence (live : ℕ → Bool) (touch : ℕ → ℕ → Bool) (nodes : List (ℕ × RawNode))
    : Type 0 where
  pub alive : (n : ℕ) → is_some (lookup n nodes) ≡ live n
  pub distinct : (n : ℕ) (s : RawNode) → lookup n nodes ≡ some s → Distinct s
  pub incident : (n : ℕ) (s : RawNode) → lookup n nodes ≡ some s → (e : ℕ) → member e s ≡ touch e n

-- What an entry of a map is after an insertion: the new one, or an old one.
pub written :
    (n : ℕ) (s : RawNode) (nodes : List (ℕ × RawNode)) (m : ℕ) (t : RawNode)
    → lookup m (insert n s nodes) ≡ some t
    → ((m == n ≡ true) × (s ≡ t)) ⊎ ((m == n ≡ false) × (lookup m nodes ≡ some t))
written n s nodes m t h = elim (Bool-cases (m == n)) [
  | inl same ↦ inl (same, ground (arith, lookup-insert n s nodes m, same, h))
  | inr other ↦ inr (other, ground (arith, lookup-insert n s nodes m, other, h))
]

module _ (live : ℕ → Bool) (touch : ℕ → ℕ → Bool) (nodes : List (ℕ × RawNode))
    (v : Incidence live touch nodes) where
  pub node_found : (n : ℕ) → live n ≡ true → (s : RawNode) × (lookup n nodes ≡ some s)
  node_found n h = elim (Option-cases (lookup n nodes)) [
    | inl missing ↦ absurd (ground (arith, missing, v.alive n, h))
    | inr found ↦ found
  ]

  pub node_missing : (n : ℕ) → live n ≡ false → lookup n nodes ≡ none
  node_missing n h = elim (Option-cases (lookup n nodes)) [
    | inl missing ↦ missing
    | inr (s, found) ↦ absurd (ground (arith, found, v.alive n, h))
  ]

  -- One more edge in the set of one node.
  pub attach_lem :
      (n e : ℕ)
      → live n ≡ true
      → (nodes' : List (ℕ × RawNode)) × (attach n e nodes ≡ done nodes')
        × Incidence live (λ f m. (f == e && m == n) || touch f m) nodes'
  unfolding attach
  attach_lem n e h =
      let (s, found) = node_found n h in
      (
        insert n (add e s) nodes,
        rw found refl,
        record {
          alive = λ m. ground (arith, lookup-insert n (add e s) nodes m, v.alive m, h, ==→eq m n);
          distinct = λ m t at. elim (written n (add e s) nodes m t at) [
            | inl (same, now) ↦ subst Distinct now (add-Distinct e s (v.distinct n s found))
            | inr (other, was) ↦ v.distinct m t was
          ];
          incident = λ m t at f. elim (written n (add e s) nodes m t at) [
            | inl (same, now) ↦
                ground (arith, same, now, member-add e f s, v.incident n s found f, ==→eq m n same)
            | inr (other, was) ↦ ground (arith, other, v.incident m t was f)
          ];
        },
      )

  pub attach_missing : (n e : ℕ) → live n ≡ false → attach n e nodes ≡ panic
  unfolding attach
  attach_missing n e h = rw (node_missing n h) refl

  -- One edge less in the set of one node.
  pub detach_lem :
      (n e : ℕ)
      → live n ≡ true
      → (nodes' : List (ℕ × RawNode)) × (detach n e nodes ≡ done nodes')
        × Incidence live (λ f m. not (f == e && m == n) && touch f m) nodes'
  unfolding detach
  detach_lem n e h =
      let (s, found) = node_found n h in
      (
        insert n (discard e s) nodes,
        rw found refl,
        record {
          alive =
              λ m. ground (arith, lookup-insert n (discard e s) nodes m, v.alive m, h, ==→eq m n);
          distinct = λ m t at. elim (written n (discard e s) nodes m t at) [
            | inl (same, now) ↦ subst Distinct now (discard-Distinct e s (v.distinct n s found))
            | inr (other, was) ↦ v.distinct m t was
          ];
          incident = λ m t at f. elim (written n (discard e s) nodes m t at) [
            | inl (same, now) ↦
                ground
                  (arith, same, now, member-discard e f s, v.incident n s found f, ==→eq m n same)
            | inr (other, was) ↦ ground (arith, other, v.incident m t was f)
          ];
        },
      )

  pub detach_missing : (n e : ℕ) → live n ≡ false → detach n e nodes ≡ panic
  unfolding detach
  detach_missing n e h = rw (node_missing n h) refl

  -- Only the nodes that are there matter.
  pub Incidence-ext :
      (touch' : ℕ → ℕ → Bool)
      → ((e n : ℕ) → live n ≡ true → touch e n ≡ touch' e n)
      → Incidence live touch' nodes
  Incidence-ext touch' same = record {
    alive = v.alive;
    distinct = v.distinct;
    incident = λ n s at e. v.incident n s at e ∙ same e n (ground (arith, v.alive n, at));
  }

-- The ends of an arc, as the graph stores them.
abbrev pub ends : {E : Type 0} → Option (Arc E) → Option RawEdge
ends none = none
ends (some a) = some (record { from_node = a.from_node; to_node = a.to_node })

abbrev pub payload : {E : Type 0} → Option (Arc E) → Option E
payload none = none
payload (some a) = some a.payload

module _ {N E : Type 0} where
  -- An arc goes between nodes that are there.
  abbrev pub Attached : (ℕ → Option N) → Option (Arc E) → Type 0
  Attached node none = Unit
  Attached node (some a) = (is_some (node a.from_node) ≡ true) × (is_some (node a.to_node) ≡ true)

  pub record Represents (g : OwningGraph N E) (d : Diagram N E) : Type 0 where
    pub node : (n : ℕ) → lookup n g.node_data ≡ d.node n
    pub payloads : (e : ℕ) → lookup e g.edge_data ≡ payload (d.arc e)
    pub arcs : (e : ℕ) → lookup e g.edges ≡ ends (d.arc e)
    pub incidence : Incidence (λ n. is_some (d.node n)) (λ e n. touches (d.arc e) n) g.nodes
    pub attached : (e : ℕ) → Attached d.node (d.arc e)
    pub node_below : (n : ℕ) → is_some (d.node n) ≡ true → n < d.next_node
    pub edge_below : (e : ℕ) → is_some (d.arc e) ≡ true → e < d.next_edge
    pub next_node : g.next_node_id ≡ d.next_node
    pub next_edge : g.next_edge_id ≡ d.next_edge

  pub empty-Represents : Represents empty void
  unfolding empty
  empty-Represents = record {
    node = λ n. refl;
    payloads = λ e. refl;
    arcs = λ e. refl;
    incidence = record { alive = λ n. refl; distinct = λ n s h. cc; incident = λ n s h e. cc };
    attached = λ e. tt;
    node_below = λ n h. absurd (ground arith);
    edge_below = λ e h. absurd (ground arith);
    next_node = refl;
    next_edge = refl;
  }
