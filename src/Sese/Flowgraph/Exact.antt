-- ===== src/Sese/Flowgraph/Exact.antt =====
-- `flowgraph` as a whole: it does not panic, and the edge predicates of src/graph/analysis/sese.rs may be
-- asked about what it returns.
use jstd.Base.{
  ℕ, ◌+◌, ◌≤◌, ◌<◌, ◌≡◌, refl, sym, ◌∙◌, inl, inr, true, false, some, List, [], ◌∷◌, ◌++◌, done,
  length, length-append, get_elem?, lt-length_of_get_elem?, length-replicate, get_elem?-replicate,
  ◌⊎◌, Among_left, member, replicate, sort_by, Among, Among_at, Among-of_at, Among_right,
  Among-append, get_elem?-append_left, Among_after, Among-sort_by, length-sort, Among-of_sort,
  arith,
}
use jstd.Sese.{IEdge}
use jstd.Sese.Walk.{Within}
use jstd.Sese.Flowgraph.{
  index_map, Row, inner_rows, id_before, synthetic, exits, exits_or_last, back_edge, Flowgraph,
  flowgraph,
}
use jstd.Sese.Flowgraph.Numbering.{position, is_some-index_map}
use jstd.Sese.Flowgraph.Shape.{
  Stands, Inner, inner_count, length-inner_rows, inner_rows-Inner, inner_rows_all,
  internal_edges-Renumbered, Within_of,
}
use jstd.Sese.Flowgraph.Sinks.{
  leaves, LeadsOut, mark_sources_done, or_last-LeadsOut, LeadsOut-or_last, exits_once,
}

-- An edge that is added: the one from the exit to the root, or one to the exit from a node that leads out.
abbrev pub Added : List (IEdge ℕ) → (count size entry : ℕ) → IEdge ℕ → Type 0
Added edges count size entry e =
    (e ≡ synthetic size entry) ⊎ ((u : ℕ) × (e ≡ synthetic u size) × LeadsOut edges count size u)

-- The flowgraph of the rows among the nodes.
pub record IsFlowgraph (ids : List ℕ) (rows : List Row) (root : ℕ) (g : Flowgraph) : Type 0 where
  pub nodes : g.ids ≡ ids
  pub size : g.n ≡ length ids + 1
  pub within : Within g.n g.edges
  pub entry : get_elem? ids g.entry ≡ some root
  pub counted : g.original_count ≤ length g.edges
  pub numbered : g.original_count ≡ inner_count ids rows
  pub of_row :
      (i : ℕ) (e : IEdge ℕ)
      → i < g.original_count
      → get_elem? g.edges i ≡ some e
      → (row : Row) × Among row rows × Inner ids row × Stands ids row e
  pub of_edge :
      (row : Row)
      → Among row rows
      → Inner ids row
      → (i : ℕ) × (e : IEdge ℕ) × (i < g.original_count)
        × (get_elem? g.edges i ≡ some e)
        × Stands ids row e
  pub rest :
      (i : ℕ) (e : IEdge ℕ)
      → g.original_count ≤ i
      → get_elem? g.edges i ≡ some e
      → Added g.edges g.original_count (length ids) g.entry e
  pub leads_out :
      (u : ℕ)
      → LeadsOut g.edges g.original_count (length ids) u
      → Among (synthetic u (length ids)) g.edges
  pub once :
      (i j : ℕ) (e f : IEdge ℕ)
      → g.original_count ≤ i
      → i < j
      → get_elem? g.edges i ≡ some e
      → get_elem? g.edges j ≡ some f
      → f.to_node ≡ length ids
      → e.from_node < f.from_node
  pub closes : Among (synthetic (length ids) g.entry) g.edges

last_some :
    (ids : List ℕ) (es : List (IEdge ℕ)) → 0 < length ids → 0 < length (exits_or_last ids es)
last_some ids (e ∷ es) h = omega arith
last_some [] [] h = absurd (omega arith)
last_some (id ∷ ids) [] h = omega arith

back_at :
    (exit entry : ℕ) (es : List (IEdge ℕ)) (e : IEdge ℕ)
    → Among e (back_edge exit entry es)
    → e ≡ synthetic exit entry
back_at exit entry [] e a = elim a [ ]
back_at exit entry (f ∷ es) e Among.first = refl
back_at exit entry (f ∷ es) e (Among.later a) = elim a [ ]

back_some :
    (exit entry : ℕ) (es : List (IEdge ℕ))
    → 0 < length es
    → Among (synthetic exit entry) (back_edge exit entry es)
back_some exit entry [] h = absurd (omega arith)
back_some exit entry (e ∷ es) h = Among.first

-- The ends of an edge that stands for a row are positions.
Stands-lt :
    (ids : List ℕ) (row : Row) (e : IEdge ℕ)
    → Stands ids row e
    → (e.from_node < length ids) × (e.to_node < length ids)
Stands-lt ids row e s =
    (lt-length_of_get_elem? ids e.from_node s.source, lt-length_of_get_elem? ids e.to_node s.target)

-- A synthetic edge stays among the nodes and the exit.
Added-lt :
    (edges : List (IEdge ℕ)) (count size entry : ℕ) (e : IEdge ℕ)
    → entry < size
    → Added edges count size entry e
    → (e.from_node < size + 1) × (e.to_node < size + 1)
Added-lt edges count size entry e h (inl back) = rw back (omega arith, omega (arith, h))
Added-lt edges count size entry e h (inr (u, out, leads)) =
    rw out (omega (arith, leads.0), omega arith)

pub flowgraph_exact :
    (ids : List ℕ) (rows : List Row) (root : ℕ)
    → member root ids ≡ true
    → (g : Flowgraph) × (flowgraph ids rows root ≡ done g) × IsFlowgraph ids rows root g
unfolding flowgraph
flowgraph_exact ids rows root there =
    let positions = index_map 0 ids [] in
    let inner = inner_rows positions rows in
    let kept = sort_by id_before inner in
    let back : (row : Row) → Among row kept → Among row rows × Inner ids row =
      λ row a. inner_rows-Inner ids row rows (Among-of_sort id_before inner a) in
    let (es, made, r) = internal_edges-Renumbered ids kept (λ row a. (back row a).1) in
    let ends : (e : IEdge ℕ) → Among e es → (e.from_node < length ids) × (e.to_node < length ids) =
      λ e a. let (row, _, s) = r.of_row e a in Stands-lt ids row e s in
    let blank = length-replicate (length ids) false in
    let (marks, marked, size, read) =
      mark_sources_done es (replicate (length ids) false)
        (λ e a. omega (arith, blank, (ends e a).0)) in
    let spec : (u : ℕ) → u < length ids → get_elem? marks u ≡ some (leaves es u) = λ u h.
      read u (omega (arith, blank, h))
      ∙ ground (arith, get_elem?-replicate (length ids) false u, h) in
    let (entry, found, at) = position ids root (is_some-index_map 0 ids [] root ∙ rw there refl) in
    let exit = length ids in
    let out = exits_or_last ids (exits exit 0 marks) in
    let inside : entry < exit = lt-length_of_get_elem? ids entry at in
    let filled : 0 < length out = last_some ids (exits exit 0 marks) (omega (arith, inside)) in
    let tail = out ++ back_edge exit entry out in
    let edges = es ++ tail in
    let prefix : (i : ℕ) → i < length es → get_elem? edges i ≡ get_elem? es i =
      λ i h. get_elem?-append_left es tail i h in
    let marks_size : length marks ≡ length ids = omega (arith, size, blank) in
    let added : (e : IEdge ℕ) → Among e tail → Added edges (length es) exit entry e = λ e a.
      elim (Among-append out (back_edge exit entry out) a) [
        | inl one ↦ inr (or_last-LeadsOut ids es edges marks spec marks_size prefix e one)
        | inr one ↦ inl (back_at exit entry out e one)
      ] in
    (
      _,
      ground (arith, made, marked, found),
      record {
        nodes = refl;
        size = refl;
        within = Within_of (exit + 1) (es ++ tail) (λ e a. elim (Among-append es tail a) [
          | inl one ↦ let (from, to) = ends e one in (omega (arith, from), omega (arith, to))
          | inr one ↦ Added-lt edges (length es) exit entry e inside (added e one)
        ]);
        entry = at;
        counted = omega (arith, length-append es tail);
        numbered = r.size ∙ length-sort id_before inner ∙ length-inner_rows ids rows;
        of_row = λ i e h got.
            let a = Among-of_at es i (sym (get_elem?-append_left es tail i h) ∙ got) in
            let (row, among, s) = r.of_row e a in
            let (listed, good) = back row among in (row, listed, good, s);
        of_edge = λ row a good.
            let (e, among, s) =
              r.of_edge row (Among-sort_by id_before (inner_rows_all ids row a good)) in
            let (i, h, got) = Among_at among in
            (i, e, h, get_elem?-append_left es tail i h ∙ got, s);
        rest = λ i e h got. added e (Among_after es tail i h got);
        leads_out = λ u leads. Among_right es (
            Among_left (back_edge exit entry out)
              (LeadsOut-or_last ids es edges marks spec marks_size prefix u leads));
        once = λ i j e f low lt got got' to.
            exits_once ids marks es (back_edge exit entry out) i j e f
              (λ h a. rw (back_at exit entry out h a) inside) low lt got got' to;
        closes = Among_right es (Among_right out (back_some exit entry out filled));
      },
    )
