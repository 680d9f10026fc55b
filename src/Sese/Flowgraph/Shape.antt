-- ===== src/Sese/Flowgraph/Shape.antt =====
-- The flowgraph of src/graph/analysis/sese.rs in terms of the graph: its numbered edges are the edges
-- among the nodes reached that are not loops, and all its edges stay among its nodes.
use jstd.Base.{
  ℕ, suc, ◌<◌, ◌≡◌, refl, ◌∙◌, ap, ◌⊎◌, inl, inr, Bool, true, false, not, ◌&&◌, some, List, [], ◌∷◌,
  ◌==◌, if◌then◌else◌, is_some, done, length, get_elem?, member, lookup, Among, arith,
}
use jstd.Sese.{IEdge}
use jstd.Sese.Walk.{Within}
use jstd.Sese.Flowgraph.{index_map, Row, inner_rows, internal_edges}
use jstd.Sese.Flowgraph.Numbering.{position, is_some-index_map}

-- The edge stands for the row, with the positions of its ends.
pub record Stands (ids : List ℕ) (row : Row) (e : IEdge ℕ) : Type 0 where
  pub named : e.original ≡ some row.0
  pub source : get_elem? ids e.from_node ≡ some row.1
  pub target : get_elem? ids e.to_node ≡ some row.2

-- A row among the nodes that is not a loop.
abbrev pub Inner : List ℕ → Row → Type 0
Inner ids (id, u, v) = ((u == v) ≡ false) × (member u ids ≡ true) × (member v ids ≡ true)

-- How many rows are among the nodes and not loops.
abbrev pub inner_count : List ℕ → List Row → ℕ
inner_count ids [] = 0
inner_count ids ((id, u, v) ∷ rows) =
    let rest = inner_count ids rows in
    if not (u == v) && (member u ids && member v ids) then suc rest else rest

module _ (ids : List ℕ) where
  abbrev positions : List (ℕ × ℕ)
  positions = index_map 0 ids []

  Inner-good :
      (id u v : ℕ)
      → (not (u == v) && (is_some (lookup u positions) && is_some (lookup v positions))) ≡ true
      → Inner ids (id, u, v)
  Inner-good id u v h =
      ground (arith, h, is_some-index_map 0 ids [] u, is_some-index_map 0 ids [] v)

  kept_or_not :
      (keep : Bool) {row first : Row} {rest : List Row}
      → Among row (if keep then first ∷ rest else rest)
      → ((keep ≡ true) × (row ≡ first)) ⊎ Among row rest
  kept_or_not true Among.first = inl (refl, refl)
  kept_or_not true (Among.later a) = inr a
  kept_or_not false a = inr a

  pub length-inner_rows :
      (rows : List Row) → length (inner_rows positions rows) ≡ inner_count ids rows
  length-inner_rows [] = refl
  length-inner_rows ((id, u, v) ∷ rows) =
      ground
        (arith, is_some-index_map 0 ids [] u, is_some-index_map 0 ids [] v, length-inner_rows rows)

  -- The rows that are kept are those among the nodes that are not loops.
  pub inner_rows-Inner :
      (row : Row) (rows : List Row)
      → Among row (inner_rows positions rows)
      → Among row rows × Inner ids row
  inner_rows-Inner row [] a = elim a [ ]
  inner_rows-Inner row ((id, u, v) ∷ rows) a =
      elim (kept_or_not
        (not (u == v) && (is_some (lookup u positions) && is_some (lookup v positions))) a) [
          | inl (keep, e) ↦ rw e (Among.first, Inner-good id u v keep)
          | inr rest ↦
              let (among, inner) = inner_rows-Inner row rows rest in (Among.later among, inner)
        ]

  kept_rest :
      (keep : Bool) (first : Row) {row : Row} {rest : List Row}
      → Among row rest
      → Among row (if keep then first ∷ rest else rest)
  kept_rest true first a = Among.later a
  kept_rest false first a = a

  pub inner_rows_all :
      (row : Row) {rows : List Row}
      → Among row rows
      → Inner ids row
      → Among row (inner_rows positions rows)
  inner_rows_all (id, u, v) Among.first (straight, here, there) =
      rw (straight, is_some-index_map 0 ids [] u, is_some-index_map 0 ids [] v, here, there)
        Among.first
  inner_rows_all row (Among.later {y} a) inner = kept_rest _ y (inner_rows_all row a inner)

  -- What `internal_edges` returns for rows among the nodes.
  pub record Renumbered (rows : List Row) (es : List (IEdge ℕ)) : Type 0 where
    pub size : length es ≡ length rows
    pub of_row : (e : IEdge ℕ) → Among e es → (row : Row) × Among row rows × Stands ids row e
    pub of_edge : (row : Row) → Among row rows → (e : IEdge ℕ) × Among e es × Stands ids row e

  Renumbered-row :
      (row : Row) (e : IEdge ℕ) (rows : List Row) (es : List (IEdge ℕ))
      → Stands ids row e
      → Renumbered rows es
      → (f : IEdge ℕ) → Among f (e ∷ es)
      → (r : Row) × Among r (row ∷ rows) × Stands ids r f
  Renumbered-row row e rows es s r f Among.first = (row, Among.first, s)
  Renumbered-row row e rows es s r f (Among.later a) =
      let (found, among, stands) = r.of_row f a in (found, Among.later among, stands)

  Renumbered-edge :
      (row : Row) (e : IEdge ℕ) (rows : List Row) (es : List (IEdge ℕ))
      → Stands ids row e
      → Renumbered rows es
      → (q : Row) → Among q (row ∷ rows)
      → (f : IEdge ℕ) × Among f (e ∷ es) × Stands ids q f
  Renumbered-edge row e rows es s r q Among.first = (e, Among.first, s)
  Renumbered-edge row e rows es s r q (Among.later a) =
      let (found, among, stands) = r.of_edge q a in (found, Among.later among, stands)

  pub internal_edges-Renumbered :
      (rows : List Row)
      → ((row : Row) → Among row rows → Inner ids row)
      → (es : List (IEdge ℕ)) × (internal_edges positions rows ≡ done es) × Renumbered rows es
  internal_edges-Renumbered [] inner =
      ([], refl, record { size = refl; of_row = λ e a. elim a [ ]; of_edge = λ row a. elim a [ ] })
  internal_edges-Renumbered ((id, u, v) ∷ rows) inner =
      let (straight, here, there) = inner (id, u, v) Among.first in
      let (i, found, at) = position ids u (is_some-index_map 0 ids [] u ∙ rw here refl) in
      let (j, found', at') = position ids v (is_some-index_map 0 ids [] v ∙ rw there refl) in
      let (es, later, r) = internal_edges-Renumbered rows (λ row a. inner row (Among.later a)) in
      let e : IEdge ℕ = record { from_node = i; to_node = j; original = some id } in
      let s : Stands ids (id, u, v) e = record { named = refl; source = at; target = at' } in
      (
        e ∷ es,
        ground (arith, found, found', later),
        record {
          size = ap suc r.size;
          of_row = Renumbered-row (id, u, v) e rows es s r;
          of_edge = Renumbered-edge (id, u, v) e rows es s r;
        },
      )

pub Within_of :
    (n : ℕ) (es : List (IEdge ℕ))
    → ((e : IEdge ℕ) → Among e es → (e.from_node < n) × (e.to_node < n))
    → Within n es
Within_of n [] h = tt
Within_of n (e ∷ es) h =
    let (from, to) = h e Among.first in (from, to, Within_of n es (λ f a. h f (Among.later a)))
