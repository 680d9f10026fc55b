-- ===== src/Graph/Views.antt =====
-- The iterators of src/graph/node.rs on a graph that represents a diagram.
use jstd.Base.{
  ℕ, ◌≡◌, refl, ◌∙◌, inl, inr, Bool, true, false, ◌&&◌, ◌||◌, Option, none, some, List, [], ◌∷◌,
  ◌==◌, ==→eq, if◌then◌else◌, Bool-cases, Option-cases, is_some, done, lookup, member, Distinct,
  arith,
}
use jstd.Graph.{OwningGraph, EdgeItem, from_id, to_id, children_among, parents_among, edges_among}
use jstd.Graph.Diagram.{Arc}
use jstd.Graph.Represents.{ends}

-- Whether the item of the edge `e` and the node `t` is among the items.
abbrev pub has_item : ℕ → ℕ → List EdgeItem → Bool
has_item e t [] = false
has_item e t (item ∷ rest) = (e == item.edge && t == item.node) || has_item e t rest

abbrev pub item_edges : List EdgeItem → List ℕ
item_edges [] = []
item_edges (item ∷ rest) = item.edge ∷ item_edges rest

abbrev pub is_at : ℕ → Option ℕ → Bool
is_at t none = false
is_at t (some n) = t == n

-- The item of an edge if there is a node to show.
abbrev show : ℕ → Option ℕ → List EdgeItem → List EdgeItem
show e none items = items
show e (some t) items = record { edge = e; node = t } ∷ items

-- The items of `ids`, each with the node that `pick` takes from its arc.
abbrev pub among :
    {E : Type 0} → (Option (Arc E) → Option ℕ) → (ℕ → Option (Arc E)) → List ℕ → List EdgeItem
among pick arc [] = []
among pick arc (id ∷ ids) = show id (pick (arc id)) (among pick arc ids)

show-has :
    (e t id : ℕ) (m : Option ℕ) (items : List EdgeItem)
    → has_item e t (show id m items) ≡ ((e == id && is_at t m) || has_item e t items)
show-has e t id none items = ground arith
show-has e t id (some n) items = refl

show-edges :
    (e id : ℕ) (m : Option ℕ) (items : List EdgeItem)
    → member e (item_edges (show id m items))
      ≡ ((e == id && is_some m) || member e (item_edges items))
show-edges e id none items = ground arith
show-edges e id (some n) items = ground arith

module _ {E : Type 0} where
  -- The target of an arc that leaves `n`.
  abbrev pub leaving : ℕ → Option (Arc E) → Option ℕ
  leaving n none = none
  leaving n (some a) = if n == a.from_node then some a.to_node else none

  -- The source of an arc that enters `n`.
  abbrev pub entering : ℕ → Option (Arc E) → Option ℕ
  entering n none = none
  entering n (some a) = if n == a.to_node then some a.from_node else none

  -- The end of an arc across from `n`.
  abbrev pub across : ℕ → Option (Arc E) → Option ℕ
  across n none = none
  across n (some a) = some (if n == a.from_node then a.to_node else a.from_node)

  module _ (pick : Option (Arc E) → Option ℕ) (arc : ℕ → Option (Arc E)) where
    pub among-has :
        (e t : ℕ) (ids : List ℕ)
        → has_item e t (among pick arc ids) ≡ (member e ids && is_at t (pick (arc e)))
    among-has e t [] = refl
    among-has e t (id ∷ ids) =
        show-has e t id (pick (arc id)) (among pick arc ids) ∙ elim (Bool-cases (e == id)) [
          | inl same ↦ ground (arith, same, ==→eq e id same, among-has e t ids)
          | inr other ↦ ground (arith, other, among-has e t ids)
        ]

    pub among-edges :
        (e : ℕ) (ids : List ℕ)
        → member e (item_edges (among pick arc ids)) ≡ (member e ids && is_some (pick (arc e)))
    among-edges e [] = refl
    among-edges e (id ∷ ids) =
        show-edges e id (pick (arc id)) (among pick arc ids) ∙ elim (Bool-cases (e == id)) [
          | inl same ↦ ground (arith, same, ==→eq e id same, among-edges e ids)
          | inr other ↦ ground (arith, other, among-edges e ids)
        ]

    pub among-Distinct : (ids : List ℕ) → Distinct ids → Distinct (item_edges (among pick arc ids))
    among-Distinct [] distinct = tt
    among-Distinct (id ∷ ids) (new, distinct) = elim (Option-cases (pick (arc id))) [
      | inl missing ↦ rw missing (among-Distinct ids distinct)
      | inr (t, found) ↦
          rw found (ground (arith, among-edges id ids, new), among-Distinct ids distinct)
    ]

  module _ {N : Type 0} (g : OwningGraph N E) (arc : ℕ → Option (Arc E))
      (stored : (e : ℕ) → lookup e g.edges ≡ ends (arc e)) (n : ℕ) where
    from_id_done : (e : ℕ) (a : Arc E) → arc e ≡ some a → from_id g e ≡ done a.from_node
    unfolding from_id
    from_id_done e a h = rw (stored e, h) refl

    to_id_done : (e : ℕ) (a : Arc E) → arc e ≡ some a → to_id g e ≡ done a.to_node
    unfolding to_id
    to_id_done e a h = rw (stored e, h) refl

    -- Every id of the list has an arc.
    abbrev pub Known : List ℕ → Type 0
    Known ids = (e : ℕ) → member e ids ≡ true → is_some (arc e) ≡ true

    Known-rest : (id : ℕ) (ids : List ℕ) → Known (id ∷ ids) → Known ids
    Known-rest id ids known e h = known e (ground (arith, h))

    first_arc : (id : ℕ) (ids : List ℕ) → Known (id ∷ ids) → (a : Arc E) × (arc id ≡ some a)
    first_arc id ids known = elim (Option-cases (arc id)) [
      | inl missing ↦ absurd (ground (arith, known id, missing))
      | inr found ↦ found
    ]

    pub children_among_lem :
        (ids : List ℕ) → Known ids → children_among g n ids ≡ done (among (leaving n) arc ids)
    unfolding children_among
    children_among_lem [] known = refl
    children_among_lem (id ∷ ids) known =
        let (a, found) = first_arc id ids known in
        rw
          (
            from_id_done id a found,
            to_id_done id a found,
            children_among_lem ids (Known-rest id ids known),
            found,
          )
          (elim (Bool-cases (n == a.from_node)) [ inl on ↦ rw on refl | inr off ↦ rw off refl ])

    pub parents_among_lem :
        (ids : List ℕ) → Known ids → parents_among g n ids ≡ done (among (entering n) arc ids)
    unfolding parents_among
    parents_among_lem [] known = refl
    parents_among_lem (id ∷ ids) known =
        let (a, found) = first_arc id ids known in
        rw
          (
            to_id_done id a found,
            from_id_done id a found,
            parents_among_lem ids (Known-rest id ids known),
            found,
          )
          (elim (Bool-cases (n == a.to_node)) [ inl on ↦ rw on refl | inr off ↦ rw off refl ])

    pub edges_among_lem :
        (ids : List ℕ) → Known ids → edges_among g n ids ≡ done (among (across n) arc ids)
    unfolding edges_among
    edges_among_lem [] known = refl
    edges_among_lem (id ∷ ids) known =
        let (a, found) = first_arc id ids known in
        rw
          (
            from_id_done id a found,
            to_id_done id a found,
            edges_among_lem ids (Known-rest id ids known),
            found,
          )
          refl
