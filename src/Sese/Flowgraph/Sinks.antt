-- ===== src/Sese/Flowgraph/Sinks.antt =====
-- The synthetic edges of the flowgraph, src/graph/analysis/sese.rs: which nodes have an edge to the exit.
use jstd.Base.{
  ℕ, zero, suc, ◌+◌, ◌-◌, ◌≤◌, ◌<◌, ◌≡◌, refl, sym, ◌∙◌, ap, subst, ◌⊎◌, inl, inr, Bool, true,
  false, ◌||◌, Bool-cases, ==→eq, eq→==, some, List, [], ◌∷◌, ◌==◌, if◌then◌else◌, done, length,
  length-set, get_elem?, get_elem?-set, set, Among, lt-length_of_get_elem?, InOrder, InOrder-at,
  ltb, dec_lt, get_elem?-append_left, Among_after, ◌++◌, arith,
}
use jstd.Sese.{IEdge}
use jstd.Sese.Flowgraph.{mark_sources, synthetic, exits, exits_or_last}

-- Whether an edge starts at the node.
abbrev pub leaves : List (IEdge ℕ) → ℕ → Bool
leaves [] u = false
leaves (e ∷ es) u = (e.from_node == u) || leaves es u

-- One of the first `count` edges starts at the node.
abbrev pub Departs : List (IEdge ℕ) → ℕ → ℕ → Type 0
Departs edges count u =
    (i : ℕ) × (e : IEdge ℕ) × (i < count) × (get_elem? edges i ≡ some e) × (e.from_node ≡ u)

-- The node has an edge to the exit: none of the first `count` edges starts at it, or it is the last of the
-- nodes and one starts at each of them.
abbrev pub LeadsOut : List (IEdge ℕ) → ℕ → ℕ → ℕ → Type 0
LeadsOut edges count size u =
    (u < size)
    × ((¬ Departs edges count u) ⊎ ((suc u ≡ size) × ((v : ℕ) → v < size → Departs edges count v)))

-- The edges from positions of the vector are marked without a panic, and these are the marks added.
pub mark_sources_done :
    (es : List (IEdge ℕ)) (has_out : List Bool)
    → ((e : IEdge ℕ) → Among e es → e.from_node < length has_out)
    → (marks : List Bool) × (mark_sources es has_out ≡ done marks)
      × (length marks ≡ length has_out)
      × ((u : ℕ)
          → u < length has_out
          → get_elem? marks u ≡ (if leaves es u then some true else get_elem? has_out u))
mark_sources_done [] has_out inside = (has_out, refl, refl, λ u h. refl)
mark_sources_done (e ∷ es) has_out inside =
    let size = length-set has_out e.from_node true in
    let first = inside e Among.first in
    let (marks, found, same, read) =
      mark_sources_done es (set has_out e.from_node true)
        (λ f a. omega (arith, size, inside f (Among.later a))) in
    (
      marks,
      ground (arith, found, first),
      same ∙ size,
      λ u h.
          read u (omega (arith, size, h))
          ∙ ground (arith, get_elem?-set has_out e.from_node true u first),
    )

leaves_at :
    (es : List (IEdge ℕ)) (u : ℕ)
    → leaves es u ≡ true
    → (i : ℕ) × (e : IEdge ℕ) × (get_elem? es i ≡ some e) × (e.from_node ≡ u)
leaves_at [] u h = absurd (ground (arith, h))
leaves_at (e ∷ es) u h = elim (Bool-cases (e.from_node == u)) [
  | inl here ↦ (0, e, refl, ==→eq e.from_node u here)
  | inr other ↦
      let (i, f, at, same) = leaves_at es u (ground (arith, h, other)) in (suc i, f, at, same)
]

leaves_of_at :
    (es : List (IEdge ℕ)) (i : ℕ) (e : IEdge ℕ) (u : ℕ)
    → get_elem? es i ≡ some e
    → e.from_node ≡ u
    → leaves es u ≡ true
leaves_of_at [] i e u at same = cc
leaves_of_at (f ∷ es) zero e u at same =
    let here : f.from_node ≡ u = ground (arith, at, same) in rw (eq→== f.from_node u here) refl
leaves_of_at (f ∷ es) (suc i) e u at same = ground (arith, leaves_of_at es i e u at same)

exits_at :
    (exit node : ℕ) (marks : List Bool) (e : IEdge ℕ)
    → Among e (exits exit node marks)
    → (j : ℕ) × (u : ℕ) × (u ≡ node + j) × (get_elem? marks j ≡ some false) × (e ≡ synthetic u exit)
exits_at exit node [] e a = elim a [ ]
exits_at exit node (true ∷ marks) e a =
    let (j, u, same, at, is) = exits_at exit (node + 1) marks e a in
    (suc j, u, omega (arith, same), at, is)
exits_at exit node (false ∷ marks) e Among.first = (0, node, omega arith, refl, refl)
exits_at exit node (false ∷ marks) e (Among.later a) =
    let (j, u, same, at, is) = exits_at exit (node + 1) marks e a in
    (suc j, u, omega (arith, same), at, is)

exits_of_at :
    (exit node : ℕ) (marks : List Bool) (j u : ℕ)
    → u ≡ node + j
    → get_elem? marks j ≡ some false
    → Among (synthetic u exit) (exits exit node marks)
exits_of_at exit node [] j u same at = cc
exits_of_at exit node (true ∷ marks) zero u same at = cc
exits_of_at exit node (false ∷ marks) zero u same at = rw (the_same same) Among.first
  where
    the_same : u ≡ node + 0 → u ≡ node
    the_same e = omega (arith, e)
exits_of_at exit node (true ∷ marks) (suc j) u same at =
    exits_of_at exit (node + 1) marks j u (omega (arith, same)) at
exits_of_at exit node (false ∷ marks) (suc j) u same at =
    Among.later (exits_of_at exit (node + 1) marks j u (omega (arith, same)) at)

empty_or : {A : Type 0} (es : List A) → (es ≡ []) ⊎ ((e : A) × Among e es)
empty_or [] = inl refl
empty_or (e ∷ es) = inr (e, Among.first)

or_last-Among :
    (ids : List ℕ) (es : List (IEdge ℕ)) (e : IEdge ℕ) → Among e es → Among e (exits_or_last ids es)
or_last-Among ids [] e a = elim a [ ]
or_last-Among ids (f ∷ es) e a = a

or_last_empty :
    (ids : List ℕ) (es : List (IEdge ℕ)) (u : ℕ)
    → es ≡ []
    → suc u ≡ length ids
    → Among (synthetic u (length ids)) (exits_or_last ids es)
or_last_empty [] es u none_there last = absurd (omega (arith, last))
or_last_empty (id ∷ ids) es u none_there last =
    let same : u ≡ length (id ∷ ids) - 1 = omega (arith, last) in rw (none_there, same) Among.first

or_last_at :
    (ids : List ℕ) (es : List (IEdge ℕ)) (e : IEdge ℕ)
    → Among e (exits_or_last ids es)
    → Among e es ⊎ ((es ≡ []) × ((u : ℕ) × (suc u ≡ length ids) × (e ≡ synthetic u (length ids))))
or_last_at ids (f ∷ es) e a = inl a
or_last_at [] [] e a = elim a [ ]
or_last_at (id ∷ ids) [] e Among.first = inr (refl, (length (id ∷ ids) - 1, omega arith, refl))
or_last_at (id ∷ ids) [] e (Among.later a) = elim a [ ]

-- The edges to the exit in the order of their nodes.
abbrev pub source_before : IEdge ℕ → IEdge ℕ → Bool
source_before e f = ltb e.from_node f.from_node

exits-InOrder : (exit node : ℕ) (marks : List Bool) → InOrder source_before (exits exit node marks)
exits-InOrder exit node [] = tt
exits-InOrder exit node (true ∷ marks) = exits-InOrder exit (node + 1) marks
exits-InOrder exit node (false ∷ marks) = (
  λ e a.
      let (j, u, same, at, is) = exits_at exit (node + 1) marks e a in
      ground (arith, ap (λ f. f.from_node) is, same),
  exits-InOrder exit (node + 1) marks,
)

or_last-InOrder :
    (ids : List ℕ) (es : List (IEdge ℕ))
    → InOrder source_before es
    → InOrder source_before (exits_or_last ids es)
or_last-InOrder ids (e ∷ es) sorted = sorted
or_last-InOrder [] [] sorted = tt
or_last-InOrder (id ∷ ids) [] sorted = (λ e a. elim a [ ], tt)

get_elem?-append_right :
    {A : Type 0} (xs ys : List A) (i k : ℕ)
    → i ≡ length xs + k
    → get_elem? (xs ++ ys) i ≡ get_elem? ys k
get_elem?-append_right [] ys i k e = ap (get_elem? ys) (omega (arith, e))
get_elem?-append_right (x ∷ xs) ys zero k e = absurd (omega (arith, e))
get_elem?-append_right (x ∷ xs) ys (suc i) k e = get_elem?-append_right xs ys i k (omega (arith, e))

-- No two edges to the exit, of those behind `es`, start at the same node: they are in ascending order.
pub exits_once :
    (ids : List ℕ) (marks : List Bool) (es back : List (IEdge ℕ)) (i j : ℕ) (e f : IEdge ℕ)
    → ((g : IEdge ℕ) → Among g back → g.to_node < length ids)
    → length es ≤ i
    → i < j
    → get_elem? (es ++ (exits_or_last ids (exits (length ids) 0 marks) ++ back)) i ≡ some e
    → get_elem? (es ++ (exits_or_last ids (exits (length ids) 0 marks) ++ back)) j ≡ some f
    → f.to_node ≡ length ids
    → e.from_node < f.from_node
exits_once ids marks es back i j e f away low lt at at' to =
    let out = exits_or_last ids (exits (length ids) 0 marks) in
    let here : get_elem? (out ++ back) (i - length es) ≡ some e =
      sym (get_elem?-append_right es (out ++ back) i (i - length es) (omega (arith, low))) ∙ at in
    let there : get_elem? (out ++ back) (j - length es) ≡ some f =
      sym (get_elem?-append_right es (out ++ back) j (j - length es) (omega (arith, low, lt)))
      ∙ at' in
    elim (dec_lt (j - length es) (length out)) [
      | yes inside ↦
          let order =
            InOrder-at source_before out (i - length es) (j - length es) e f
              (or_last-InOrder ids (exits (length ids) 0 marks)
                (exits-InOrder (length ids) 0 marks))
              (omega (arith, low, lt))
              (sym (get_elem?-append_left out back (i - length es) (omega (arith, low, lt, inside)))
                ∙ here)
              (sym (get_elem?-append_left out back (j - length es) inside) ∙ there) in
          ground (arith, order)
      | no outside ↦ absurd (
          omega (
            arith,
            away f (Among_after out back (j - length es) (omega (arith, outside)) there),
            to,
          ))
    ]

-- The edges to the exit, when the first `count` edges among `edges` are those that were marked.
module _ (ids : List ℕ) (originals edges : List (IEdge ℕ)) (marks : List Bool)
    (marked : (u : ℕ) → u < length ids → get_elem? marks u ≡ some (leaves originals u))
    (size : length marks ≡ length ids)
    (prefix : (i : ℕ) → i < length originals → get_elem? edges i ≡ get_elem? originals i) where
  leaves-Departs : (u : ℕ) → leaves originals u ≡ true → Departs edges (length originals) u
  leaves-Departs u h =
      let (i, e, at, same) = leaves_at originals u h in
      let below = lt-length_of_get_elem? originals i at in (i, e, below, prefix i below ∙ at, same)

  leaves_of-Departs : (u : ℕ) → Departs edges (length originals) u → leaves originals u ≡ true
  leaves_of-Departs u (i, e, below, at, same) =
      leaves_of_at originals i e u (sym (prefix i below) ∙ at) same

  unmarked :
      (u : ℕ) → get_elem? marks u ≡ some false → (u < length ids) × (leaves originals u ≡ false)
  unmarked u at =
      let below : u < length ids = omega (arith, size, lt-length_of_get_elem? marks u at) in
      (below, ground (arith, at, marked u below))

  all_leave : exits (length ids) 0 marks ≡ [] → (v : ℕ) → v < length ids → leaves originals v ≡ true
  all_leave empty v h = elim (Bool-cases (leaves originals v)) [
    | inl yes_leaves ↦ yes_leaves
    | inr off ↦
        elim (subst (Among (synthetic v (length ids))) empty
          (exits_of_at (length ids) 0 marks v v (omega arith) (marked v h ∙ ap some off))) [ ]
  ]

  pub or_last-LeadsOut :
      (e : IEdge ℕ)
      → Among e (exits_or_last ids (exits (length ids) 0 marks))
      → (u : ℕ) × (e ≡ synthetic u (length ids)) × LeadsOut edges (length originals) (length ids) u
  or_last-LeadsOut e a = elim (or_last_at ids (exits (length ids) 0 marks) e a) [
    | inl one ↦
        let (j, u, same, at, is) = exits_at (length ids) 0 marks e one in
        let (below, off) = unmarked u (ap (get_elem? marks) (omega (arith, same)) ∙ at) in
        (u, is, (below, inl (λ departs. ground (arith, off, leaves_of-Departs u departs))))
    | inr (empty, (u, last, is)) ↦
        (u, is, (omega (arith, last), inr (last, λ v h. leaves-Departs v (all_leave empty v h))))
  ]

  pub LeadsOut-or_last :
      (u : ℕ)
      → LeadsOut edges (length originals) (length ids) u
      → Among (synthetic u (length ids)) (exits_or_last ids (exits (length ids) 0 marks))
  LeadsOut-or_last u (below, inl alone) = elim (Bool-cases (leaves originals u)) [
    | inl on ↦ absurd (alone (leaves-Departs u on))
    | inr off ↦
        or_last-Among ids (exits (length ids) 0 marks) (synthetic u (length ids))
          (exits_of_at (length ids) 0 marks u u (omega arith) (marked u below ∙ ap some off))
  ]
  LeadsOut-or_last u (below, inr (last, all)) = elim (empty_or (exits (length ids) 0 marks)) [
    | inl empty ↦ or_last_empty ids (exits (length ids) 0 marks) u empty last
    | inr (e, a) ↦
        let (j, v, same, at, is) = exits_at (length ids) 0 marks e a in
        let (low, off) = unmarked v (ap (get_elem? marks) (omega (arith, same)) ∙ at) in
        absurd (ground (arith, off, leaves_of-Departs v (all v low)))
  ]
