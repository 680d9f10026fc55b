-- ===== src/Parse/Build/Names.antt =====
-- The names of `parse`, src/graph/parse.rs: `ensure_node` returns as long as the nodes' counter has room, and
-- every name keeps its node.
use jstd.Base.{
  ℕ, ◌<◌, ◌≡◌, inl, inr, true, false, Bool-cases, Option, Option-cases, none, some, List, ◌∷◌, done,
  subst, arith,
}
use jstd.Graph.{OwningGraph, make_node}
use jstd.Graph.Live.{last_count, IsLive, Grows, make_node-Grows, set_node_data-Grows, Grows-widen}
use jstd.Parse.{Str, str_eq}
use jstd.Parse.Build.{find_name, unwrap_or, Named, ensure_node}

-- Every name has a node.
pub record Known (named : Named) : Type 0 where
  pub live : (name : Str) (id : ℕ) → find_name name named.1 ≡ some id → IsLive named.0 id

pub make_edge-Known :
    (graph g : OwningGraph Str Str) (names : List (Str × ℕ))
    → Known (graph, names)
    → Grows graph 0 1 g
    → Known (g, names)
make_edge-Known graph g names known grows = record {
  live = λ q j found. grows.stay j (known.live q j found);
}

module _ (node_id edge_id : ℕ → ℕ) where
  ensure_new :
      (graph g : OwningGraph Str Str) (names : List (Str × ℕ)) (name : Str) (explicit : Option Str)
      (id : ℕ)
      → find_name name names ≡ none
      → make_node node_id graph (unwrap_or explicit name) ≡ done (g, id)
      → ensure_node node_id edge_id (graph, names) name explicit
        ≡ done ((g, (name, id) ∷ names), id)
  unfolding ensure_node
  ensure_new graph g names name explicit id new made = ground (arith, new, made)

  found_head :
      (q name : Str) (id j : ℕ) (names : List (Str × ℕ))
      → find_name q ((name, id) ∷ names) ≡ some j
      → str_eq q name ≡ true
      → id ≡ j
  found_head q name id j names found same = grind (arith, found, same)

  found_tail :
      (q name : Str) (id j : ℕ) (names : List (Str × ℕ))
      → find_name q ((name, id) ∷ names) ≡ some j
      → str_eq q name ≡ false
      → find_name q names ≡ some j
  found_tail q name id j names found differ = grind (arith, found, differ)

  make_node-Known :
      (graph g : OwningGraph Str Str) (names : List (Str × ℕ)) (name : Str) (id : ℕ)
      → Known (graph, names)
      → Grows graph 1 0 g
      → IsLive g id
      → Known (g, (name, id) ∷ names)
  make_node-Known graph g names name id known grows live = record {
    live = λ q j found. elim (Bool-cases (str_eq q name)) [
      | inl same ↦ subst (IsLive g) (found_head q name id j names found same) live
      | inr differ ↦ grows.stay j (known.live q j (found_tail q name id j names found differ))
    ];
  }

  set_node_data-Known :
      (graph g : OwningGraph Str Str) (names : List (Str × ℕ))
      → Known (graph, names)
      → Grows graph 0 0 g
      → Known (g, names)
  set_node_data-Known graph g names known grows = record {
    live = λ q j found. grows.stay j (known.live q j found);
  }

  ensure_old :
      (graph : OwningGraph Str Str) (names : List (Str × ℕ)) (name : Str) (explicit : Option Str)
      (id : ℕ)
      → find_name name names ≡ some id
      → IsLive graph id
      → (g : OwningGraph Str Str) × (ensure_node node_id edge_id (graph, names) name explicit
          ≡ done ((g, names), id))
        × Grows graph 0 0 g
  unfolding ensure_node
  ensure_old graph names name none id found live = (
    graph,
    ground (arith, found),
    record { stay = λ q there. there; nodes_made = omega arith; edges_made = omega arith },
  )
  ensure_old graph names name (some payload) id found live =
      let (g, set, grows) = set_node_data-Grows graph id payload live in
      (g, ground (arith, found, set), grows)

  pub ensure_node-Known :
      (named : Named) (name : Str) (explicit : Option Str)
      → Known named
      → named.0.next_node_id < last_count
      → (named' : Named) × (id : ℕ) × (ensure_node node_id edge_id named name explicit
          ≡ done (named', id))
        × Known named'
        × Grows named.0 1 0 named'.0
        × IsLive named'.0 id
  ensure_node-Known (graph, names) name explicit known room =
      elim (Option-cases (find_name name names)) [
        | inl new ↦
            let (g, id, made, grows, live) =
              make_node-Grows node_id graph (unwrap_or explicit name) room in
            (
              (g, (name, id) ∷ names),
              id,
              ensure_new graph g names name explicit id new made,
              make_node-Known graph g names name id known grows live,
              grows,
              live,
            )
        | inr (id, found) ↦
            let (g, same, grows) =
              ensure_old graph names name explicit id found (known.live name id found) in
            (
              (g, names),
              id,
              same,
              set_node_data-Known graph g names known grows,
              Grows-widen 1 0 grows (omega arith) (omega arith),
              grows.stay id (known.live name id found),
            )
      ]
