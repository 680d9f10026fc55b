-- ===== src/Sese/Jpp/Depth.antt =====
-- The depth-first search of `jpp_cycle_classes` ends without a panic: every call of `visit` numbers a
-- node that had no number.
use jstd.Base.{
  ℕ, zero, suc, ◌+◌, ◌≤◌, ◌<◌, ◌≡◌, refl, ◌∙◌, ap, ◌⊎◌, inl, inr, true, false, Bool-cases, ==→eq,
  ne→not-==, Option, none, some, List, [], ◌∷◌, ◌++◌, ◌==◌, if◌then◌else◌, done, Run, length,
  length-append, length-set, length-replicate, get_elem?, get_elem?_lt, get_elem?-set,
  get_elem?-replicate, lt-length_of_get_elem?, set, replicate, Among, Among-append, arith,
}
use jstd.Sese.{IEdge, is_some_of}
use jstd.Sese.Walk.{Within, Within_at}
use jstd.Sese.Jpp.Lists.{Below, Lists}
use jstd.Sese.Jpp.{max_index, Visit, other_end, visit_each, visit, unvisited}

-- The nodes that have no number.
abbrev pub unnumbered : List ℕ → ℕ
unnumbered [] = 0
unnumbered (x ∷ xs) = (if x == max_index then 1 else 0) + unnumbered xs

number_one :
    (xs : List ℕ) (i v : ℕ)
    → get_elem? xs i ≡ some max_index
    → (v == max_index) ≡ false
    → unnumbered (set xs i v) + 1 ≡ unnumbered xs
number_one [] i v at h = cc at
number_one (x ∷ xs) zero v at h = ground (arith, at, h)
number_one (x ∷ xs) (suc i) v at h = omega (arith, number_one xs i v at h)

module _ {E : Type 0} (edges : List (IEdge E)) (n : ℕ) where
  -- What the search keeps true of its arrays.
  pub record Sized (s : Visit) : Type 0 where
    pub parent : length s.parent ≡ n
    pub parent_edge : length s.parent_edge ≡ n
    pub number : length s.number ≡ n
    pub end_number : length s.end_number ≡ n
    pub tree : length s.tree ≡ length edges
    pub nodes : Below n s.preorder
    pub above : (v eid : ℕ) → get_elem? s.parent_edge v ≡ some (some eid) → eid < length edges
    pub numbered :
        (v k : ℕ) → get_elem? s.number v ≡ some k → (k ≡ max_index) ⊎ (k < length s.preorder)
    pub room : length s.preorder + unnumbered s.number ≤ n

  -- A call ends without a panic, and numbers nodes only.
  abbrev pub Returns : Run Visit → Visit → Type 0
  Returns run s =
      (s' : Visit) × (run ≡ done (some s'))
      × Sized s'
      × (unnumbered s'.number ≤ unnumbered s.number)

  -- Entering a node.
  enter-Sized :
      (s : Visit) (node : ℕ)
      → n < max_index
      → Sized s
      → get_elem? s.number node ≡ some max_index
      → Sized (record s {
        number = set s.number node (length s.preorder);
        preorder = s.preorder ++ (node ∷ []);
      })
  enter-Sized s node small inv at =
      let inside = lt-length_of_get_elem? s.number node at in
      let open_one =
        number_one s.number node (length s.preorder) at
          (ne→not-== _ _ (λ e. omega (arith, e, small, inv.room))) in
      record {
        parent = inv.parent;
        parent_edge = inv.parent_edge;
        number = length-set s.number node (length s.preorder) ∙ inv.number;
        end_number = inv.end_number;
        tree = inv.tree;
        nodes = λ x a. elim (Among-append s.preorder (node ∷ []) a) [
          | inl old ↦ inv.nodes x old
          | inr new ↦ last_one x new (omega (arith, inside, inv.number))
        ];
        above = inv.above;
        numbered = λ v k h. ground (
          arith,
          get_elem?-set s.number node (length s.preorder) v inside,
          h,
          inv.numbered v k,
          length-append s.preorder (node ∷ []),
        );
        room = omega (arith, inv.room, open_one, length-append s.preorder (node ∷ []));
      }
    where
      last_one : (x : ℕ) → Among x (node ∷ []) → node < n → x < n
      last_one x Among.first h = h
      last_one x (Among.later a) h = elim a [ ]

  -- Noting the way to a node.
  reach-Sized :
      (s : Visit) (node other eid : ℕ)
      → Sized s
      → eid < length edges
      → other < n
      → Sized (record s {
        parent = set s.parent other (some node);
        parent_edge = set s.parent_edge other (some eid);
      })
  reach-Sized s node other eid inv h below = record {
    parent = length-set s.parent other (some node) ∙ inv.parent;
    parent_edge = length-set s.parent_edge other (some eid) ∙ inv.parent_edge;
    number = inv.number;
    end_number = inv.end_number;
    tree = inv.tree;
    nodes = inv.nodes;
    above = λ v id found. elim (Bool-cases (other == v)) [
      | inl here ↦ ground (
        arith,
        get_elem?-set s.parent_edge other (some eid) v (omega (arith, inv.parent_edge, below)),
        here,
        found,
        h,
      )
      | inr there ↦ inv.above v id (
          ground (
            arith,
            get_elem?-set s.parent_edge other (some eid) v (omega (arith, inv.parent_edge, below)),
            there,
            found,
          ))
    ];
    numbered = inv.numbered;
    room = inv.room;
  }

  -- Marking an edge of the tree.
  mark-Sized : (s : Visit) (eid : ℕ) → Sized s → Sized (record s { tree = set s.tree eid true })
  mark-Sized s eid inv = record {
    parent = inv.parent;
    parent_edge = inv.parent_edge;
    number = inv.number;
    end_number = inv.end_number;
    tree = length-set s.tree eid true ∙ inv.tree;
    nodes = inv.nodes;
    above = inv.above;
    numbered = inv.numbered;
    room = inv.room;
  }

  -- Leaving a node.
  leave-Sized :
      (s : Visit) (node k : ℕ) → Sized s → Sized (record s { end_number = set s.end_number node k })
  leave-Sized s node k inv = record {
    parent = inv.parent;
    parent_edge = inv.parent_edge;
    number = inv.number;
    end_number = length-set s.end_number node k ∙ inv.end_number;
    tree = inv.tree;
    nodes = inv.nodes;
    above = inv.above;
    numbered = inv.numbered;
    room = inv.room;
  }

  module _ (incident : List (List ℕ)) (w : Within n edges) where
    -- Calls of `visit` on nodes without a number return, when no more than `bound` are left.
    abbrev pub Goes : (Visit → ℕ → Run Visit) → ℕ → Type 0
    Goes go bound =
        (s : Visit) (node : ℕ)
        → Sized s
        → get_elem? s.number node ≡ some max_index
        → unnumbered s.number ≤ bound
        → Returns (go s node) s

    other_lt : (eid node : ℕ) (e : IEdge E) → get_elem? edges eid ≡ some e → other_end e node < n
    other_lt eid node e at =
        let (from, to) = Within_at n edges eid e w at in ground (arith, from, to)

    each_done :
        (go : Visit → ℕ → Run Visit) (bound : ℕ)
        → Goes go bound
        → (node : ℕ) (s : Visit) (around : List ℕ) → node < n
        → Below (length edges) around
        → Sized s
        → unnumbered s.number ≤ bound
        → Returns (visit_each edges incident go node s around) s
    each_done go bound goes node s [] inside ids inv left = (s, refl, inv, omega arith)
    each_done go bound goes node s (eid ∷ rest) inside ids inv left =
        let (above, up) =
          get_elem?_lt s.parent_edge node (omega (arith, inv.parent_edge, inside)) in
        let (e, at) = get_elem?_lt edges eid (ids eid Among.first) in
        let other = other_end e node in
        let below = other_lt eid node e at in
        let (k, got) = get_elem?_lt s.number other (omega (arith, inv.number, below)) in
        let later = λ (s' : Visit).
          each_done go bound goes node s' rest inside (λ x a. ids x (Among.later a)) in
        elim (Bool-cases (is_some_of above eid)) [
          | inl back ↦
              let (s', ran, good, fewer) = later s inv left in
              (s', ground (arith, up, back, ran), good, fewer)
          | inr away ↦ elim (Bool-cases (k == max_index)) [
            | inr old ↦
                let (s', ran, good, fewer) = later s inv left in
                (s', ground (arith, up, away, at, got, old, ran), good, fewer)
            | inl new ↦
                let s1 : Visit = record s {
                  parent = set s.parent other (some node);
                  parent_edge = set s.parent_edge other (some eid);
                } in
                let (s2, went, good, fewer) =
                  goes s1 other (reach-Sized s node other eid inv (ids eid Among.first) below)
                    (got ∙ ap some (==→eq k max_index new)) left in
                let (s3, ran, best, least) =
                  later (record s2 { tree = set s2.tree eid true }) (mark-Sized s2 eid good)
                    (omega (arith, left, fewer)) in
                (
                  s3,
                  ground (
                    arith,
                    up,
                    away,
                    at,
                    got,
                    new,
                    inv.parent,
                    inv.parent_edge,
                    below,
                    went,
                    good.tree,
                    ids eid Among.first,
                    ran,
                  ),
                  best,
                  omega (arith, least, fewer),
                )
          ]
        ]

    unnumbered-some : (xs : List ℕ) (i : ℕ) → get_elem? xs i ≡ some max_index → 0 < unnumbered xs
    unnumbered-some [] i at = cc at
    unnumbered-some (x ∷ xs) zero at = ground (arith, at)
    unnumbered-some (x ∷ xs) (suc i) at = omega (arith, unnumbered-some xs i at)

    pub visit_done :
        n < max_index
        → Lists n (length edges) incident
        → (fuel : ℕ) → Goes (visit edges incident fuel) fuel
    unfolding visit
    visit_done small lists zero s node inv at left =
        absurd (omega (arith, left, unnumbered-some s.number node at))
    visit_done small lists (suc fuel) s node inv at left =
        let inside : node < n =
          omega (arith, inv.number, lt-length_of_get_elem? s.number node at) in
        let (around, near) = get_elem?_lt incident node (omega (arith, lists.size, inside)) in
        let open_one =
          number_one s.number node (length s.preorder) at
            (ne→not-== _ _ (λ e. omega (arith, e, small, inv.room))) in
        let s1 : Visit = record s {
          number = set s.number node (length s.preorder);
          preorder = s.preorder ++ (node ∷ []);
        } in
        let (s2, ran, good, fewer) =
          each_done (visit edges incident fuel) fuel (visit_done small lists fuel) node s1 around
            inside (lists.below node around near) (enter-Sized s node small inv at)
            (omega (arith, left, open_one)) in
        (
          record s2 { end_number = set s2.end_number node (length s2.preorder) },
          ground (arith, inv.number, inside, near, ran, good.end_number),
          leave-Sized s2 node (length s2.preorder) good,
          omega (arith, fewer, open_one),
        )

pub unnumbered_all : (n : ℕ) → unnumbered (replicate n max_index) ≡ n
unnumbered_all zero = refl
unnumbered_all (suc n) = ground (arith, unnumbered_all n)

module _ {E : Type 0} (edges : List (IEdge E)) (n : ℕ) where
  pub unvisited-Sized : (incident : List (List ℕ)) → Sized edges n (unvisited edges incident n)
  unvisited-Sized incident = record {
    parent = length-replicate {A = Option ℕ} n none;
    parent_edge = length-replicate {A = Option ℕ} n none;
    number = length-replicate n max_index;
    end_number = length-replicate n 0;
    tree = length-replicate (length edges) false;
    nodes = λ x a. elim a [ ];
    above = λ v eid h. absurd (ground (arith, get_elem?-replicate {A = Option ℕ} n none v, h));
    numbered = λ v k h. inl (ground (arith, get_elem?-replicate n max_index v, h));
    room = omega (arith, unnumbered_all n);
  }
