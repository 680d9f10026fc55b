-- ===== src/Sese/Walk.antt =====
-- The walks of the flowgraph that avoid one edge, forwards or backwards.
use jstd.Base.{
  ℕ, zero, suc, ◌+◌, ◌<◌, ◌≡◌, refl, subst, ◌↔◌, ◌⊎◌, ==→eq, inl, inr, Bool-cases, Bool, true,
  false, not, ◌&&◌, ◌||◌, Option, none, some, List, [], ◌∷◌, ◌==◌, get_elem?, arith,
}
use jstd.Sese.{IEdge, is_some_of, tail, head}

renumber :
    (skip : Option ℕ) (i j : ℕ) → i ≡ j → is_some_of skip i ≡ false → is_some_of skip j ≡ false
renumber skip i j e h = subst (λ k. is_some_of skip k ≡ false) e h

unskipped : (b c : Bool) → (not b && c) ≡ true → (b ≡ false) × (c ≡ true)
unskipped b c h = ground arith

module _ {E : Type 0} where
  -- Whether an edge of the list, which starts at index `i`, leads from `u` to `v` and is not skipped.
  abbrev pub links : Option ℕ → Bool → ℕ → List (IEdge E) → ℕ → ℕ → Bool
  links skip reverse i [] u v = false
  links skip reverse i (e ∷ es) u v =
      not (is_some_of skip i) && (tail reverse e == u && head reverse e == v)
      || links skip reverse (i + 1) es u v

  -- The edge of index `j` leads from `u` to `v` and is not skipped.
  pub record Link (edges : List (IEdge E)) (skip : Option ℕ) (reverse : Bool) (i j u v : ℕ)
      : Type 0 where
    pub edge : IEdge E
    pub at : get_elem? edges j ≡ some edge
    pub kept : is_some_of skip (i + j) ≡ false
    pub from : tail reverse edge ≡ u
    pub to : head reverse edge ≡ v

  -- The walks from `start` along the edges, in one direction, that never use the edge `skip`.
  pub data Walk (edges : List (IEdge E)) (skip : Option ℕ) (reverse : Bool) (start : ℕ)
      : ℕ → Type 0 where
    here : Walk edges skip reverse start start
    step :
        {u v : ℕ} (j : ℕ)
        → Walk edges skip reverse start u
        → Link edges skip reverse 0 j u v
        → Walk edges skip reverse start v

  -- The edges stay among the nodes below `n`.
  abbrev pub Within : ℕ → List (IEdge E) → Type 0
  Within n [] = Unit
  Within n (e ∷ es) = (e.from_node < n) × (e.to_node < n) × Within n es

  pub Within_at :
      (n : ℕ) (edges : List (IEdge E)) (i : ℕ) (e : IEdge E)
      → Within n edges
      → get_elem? edges i ≡ some e
      → (e.from_node < n) × (e.to_node < n)
  Within_at n [] i e w h = cc
  Within_at n (x ∷ es) zero e w h = ground (arith, h, w)
  Within_at n (x ∷ es) (suc i) e w h = Within_at n es i e w.2 h

  pub links_lt :
      (n : ℕ) (skip : Option ℕ) (reverse : Bool) (i : ℕ) (edges : List (IEdge E)) (u v : ℕ)
      → Within n edges
      → links skip reverse i edges u v ≡ true
      → v < n
  links_lt n skip reverse i [] u v w h = cc
  links_lt n skip reverse i (e ∷ es) u v w h =
      ground (arith, links_lt n skip reverse (i + 1) es u v w.2, w, h)

  pub links_find :
      (skip : Option ℕ) (reverse : Bool) (i : ℕ) (edges : List (IEdge E)) (u v : ℕ)
      → links skip reverse i edges u v ≡ true
      → (j : ℕ) × Link edges skip reverse i j u v
  links_find skip reverse i [] u v h = cc
  links_find skip reverse i (e ∷ es) u v h =
      elim (Bool-cases (not (is_some_of skip i) && (tail reverse e == u && head reverse e == v))) [
        | inl found ↦
            let (kept, ends) = unskipped (is_some_of skip i) _ found in
            (
              0,
              record {
                edge = e;
                at = refl;
                kept = renumber skip i (i + 0) (omega arith) kept;
                from = ground (arith, ends);
                to = ground (arith, ends);
              },
            )
        | inr other ↦
            let (j, l) = links_find skip reverse (i + 1) es u v (ground (arith, other, h)) in
            (
              suc j,
              record {
                edge = l.edge;
                at = l.at;
                kept = renumber skip (i + 1 + j) (i + suc j) (omega arith) l.kept;
                from = l.from;
                to = l.to;
              },
            )
      ]

  pub Link-links :
      (skip : Option ℕ) (reverse : Bool) (i j : ℕ) (edges : List (IEdge E)) (u v : ℕ)
      → Link edges skip reverse i j u v
      → links skip reverse i edges u v ≡ true
  Link-links skip reverse i j [] u v l = absurd (ground (arith, l.at))
  Link-links skip reverse i zero (e ∷ es) u v l =
      ground (arith, l.at, l.from, l.to, renumber skip (i + 0) i (omega arith) l.kept)
  Link-links skip reverse i (suc j) (e ∷ es) u v l = ground (
    arith,
    Link-links skip reverse (i + 1) j es u v (record {
      edge = l.edge;
      at = l.at;
      kept = renumber skip (i + suc j) (i + 1 + j) (omega arith) l.kept;
      from = l.from;
      to = l.to;
    }),
  )

  prepend :
      (edges : List (IEdge E)) (skip : Option ℕ) (reverse : Bool) (u v w j : ℕ)
      → Link edges skip reverse 0 j u v
      → Walk edges skip reverse v w
      → Walk edges skip reverse u w
  prepend edges skip reverse u v w j l here = step j here l
  prepend edges skip reverse u v w j l (step k path last) =
      step k (prepend edges skip reverse u v _ j l path) last

  turned :
      (edges : List (IEdge E)) (skip : Option ℕ) (reverse : Bool) (j u v : ℕ)
      → Link edges skip reverse 0 j u v
      → Link edges skip (not reverse) 0 j v u
  turned edges skip true j u v l = record {
    edge = l.edge;
    at = l.at;
    kept = l.kept;
    from = l.to;
    to = l.from;
  }
  turned edges skip false j u v l = record {
    edge = l.edge;
    at = l.at;
    kept = l.kept;
    from = l.to;
    to = l.from;
  }

  back :
      (edges : List (IEdge E)) (skip : Option ℕ) (reverse : Bool) (u v : ℕ)
      → Walk edges skip reverse u v
      → Walk edges skip (not reverse) v u
  back edges skip reverse u v here = here
  back edges skip reverse u v (step {u = m} j path l) =
      prepend edges skip (not reverse) v m u j (turned edges skip reverse j m v l)
        (back edges skip reverse u m path)

  -- A walk may be followed backwards.
  pub backwards :
      (edges : List (IEdge E)) (skip : Option ℕ) (u v : ℕ)
      → Walk edges skip true u v ↔ Walk edges skip false v u
  backwards edges skip u v = (back edges skip true u v, back edges skip false v u)

  -- A walk to the source of an edge can do without that edge: it has been there before.
  pub detour :
      (edges : List (IEdge E)) (a : ℕ) (e : IEdge E) (start v : ℕ)
      → get_elem? edges a ≡ some e
      → Walk edges none false start v
      → Walk edges (some a) false start v ⊎ Walk edges (some a) false start e.from_node
  detour edges a e start v at here = inl here
  detour edges a e start v at (step {u = u} j path l) = elim (detour edges a e start u at path) [
    | inr before ↦ inr before
    | inl before ↦ elim (Bool-cases (a == j)) [
      | inl same ↦ inr (
          subst (Walk edges (some a) false start) (ground (arith, ==→eq a j same, at, l.at, l.from))
            before)
      | inr other ↦ inl (
          step j before (record {
            edge = l.edge;
            at = l.at;
            kept = ground (arith, other);
            from = l.from;
            to = l.to;
          }))
    ]
  ]
