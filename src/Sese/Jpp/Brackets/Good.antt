-- ===== src/Sese/Jpp/Brackets/Good.antt =====
-- What the loop of `jpp_cycle_classes`, src/graph/analysis/sese.rs, keeps true of its vectors, and that its
-- inner loops do not panic.
use jstd.Base.{
  ℕ, ◌+◌, ◌≤◌, ◌<◌, ◌≡◌, refl, sym, ◌∙◌, subst, ◌⊎◌, inl, inr, Bool, false, Bool-cases, some, List,
  [], ◌∷◌, ◌++◌, ◌==◌, leb, ltb, Outcome, done, length, length-set, get_elem?, get_elem?_lt, set,
  index, Among, Among-append, arith,
}
use jstd.Sese.{IEdge}
use jstd.Sese.Jpp.{max_index, Visit, other_end}
use jstd.Sese.Jpp.Lists.{Below, Lists, set-Lists}
use jstd.Sese.Jpp.Depth.{Sized}
use jstd.Sese.Jpp.Brackets.{
  is_descendant, retain_other, drop_bracket, move_brackets, Marks, class_new, drop_ending,
}

cons-Below : (bound y : ℕ) (xs : List ℕ) → y < bound → Below bound xs → Below bound (y ∷ xs)
cons-Below bound y xs h low x Among.first = h
cons-Below bound y xs h low x (Among.later a) = low x a

retain-Below : (bound eid : ℕ) (xs : List ℕ) → Below bound xs → Below bound (retain_other eid xs)
retain-Below bound eid [] low = low
retain-Below bound eid (y ∷ ys) low =
    let rest = retain-Below bound eid ys (λ z b. low z (Among.later b)) in
    elim (Bool-cases (y == eid)) [
      | inl gone ↦ rw gone rest
      | inr kept ↦ rw kept (cons-Below bound y (retain_other eid ys) (low y Among.first) rest)
    ]

pub drop_bracket_done :
    {n bound : ℕ} {brackets : List (List ℕ)}
    → Lists n bound brackets
    → (node eid : ℕ) → node < n
    → (after : List (List ℕ)) × (drop_bracket brackets node eid ≡ done after) × Lists n bound after
drop_bracket_done {n} {bound} {brackets} l node eid h =
    let inside : node < length brackets = omega (arith, l.size, h) in
    let (list, at) = get_elem?_lt brackets node inside in
    (
      set brackets node (retain_other eid list),
      ground (arith, at, inside),
      set-Lists l node (retain_other eid list) h
          (retain-Below bound eid list (l.below node list at)),
    )

append-Below :
    (bound : ℕ) (xs ys : List ℕ) → Below bound xs → Below bound ys → Below bound (xs ++ ys)
append-Below bound xs ys low low' x a = elim (Among-append xs ys a) [
  | inl left ↦ low x left
  | inr right ↦ low' x right
]

pub move_brackets_done :
    {n bound : ℕ} (node : ℕ) (children : List ℕ) (brackets : List (List ℕ))
    → node < n
    → Below n children
    → Lists n bound brackets
    → (after : List (List ℕ)) × (move_brackets node children brackets ≡ done after)
      × Lists n bound after
move_brackets_done node [] brackets h low l = (brackets, refl, l)
move_brackets_done {n} {bound} node (child ∷ rest) brackets h low l =
    let below : child < n = low child Among.first in
    let (taken, at) = get_elem?_lt brackets child (omega (arith, l.size, below)) in
    let l1 = set-Lists l child [] below (λ x a. elim a [ ]) in
    let (list, at') = get_elem?_lt (set brackets child []) node (omega (arith, l1.size, h)) in
    let more = append-Below bound list taken (l1.below node list at') (l.below child taken at) in
    let (after, ran, l2) =
      move_brackets_done node rest (set (set brackets child []) node (list ++ taken)) h
        (λ x a. low x (Among.later a)) (set-Lists l1 node (list ++ taken) h more) in
    (after, ground (arith, at, at', l.size, l1.size, below, h, ran), l2)

-- The numbers of nodes, or no number.
abbrev pub Numbers : List ℕ → ℕ → Type 0
Numbers hi bound = (v k : ℕ) → get_elem? hi v ≡ some k → (k ≡ max_index) ⊎ (k < bound)

module _ {E : Type 0} (n count : ℕ) (s : Visit) where
  -- The invariant of the loop, on `count` edges at the start.
  pub record Good (m : Marks E) : Type 0 where
    pub grown : count ≤ length m.edges
    pub ends :
        (i : ℕ) (e : IEdge E) → get_elem? m.edges i ≡ some e → (e.from_node < n) × (e.to_node < n)
    pub incident : Lists n (length m.edges) m.incident
    pub tree : length m.tree ≡ length m.edges
    pub hi_size : length m.hi ≡ n
    pub hi_numbers : Numbers m.hi (length s.preorder)
    pub brackets : Lists n (length m.edges) m.brackets
    pub classes : length m.classes ≡ length m.edges
    pub recent_size : length m.recent_size ≡ length m.edges
    pub recent_class : length m.recent_class ≡ length m.edges
    pub capping : Below (length m.edges) m.capping

  -- A part of the loop body returns, and keeps the edges and what leads to them.
  pub record Keeps (run : Outcome (Marks E)) (m : Marks E) : Type 0 where
    pub after : Marks E
    pub ran : run ≡ done after
    pub good : Good after
    pub same_edges : after.edges ≡ m.edges

  pub with-brackets :
      (m : Marks E) (brackets : List (List ℕ))
      → Good m
      → Lists n (length m.edges) brackets
      → Good (record m { brackets = brackets })
  with-brackets m brackets g l = record {
    grown = g.grown;
    ends = g.ends;
    incident = g.incident;
    tree = g.tree;
    hi_size = g.hi_size;
    hi_numbers = g.hi_numbers;
    brackets = l;
    classes = g.classes;
    recent_size = g.recent_size;
    recent_class = g.recent_class;
    capping = g.capping;
  }

  module _ (edges : List (IEdge E)) (sized : Sized edges n s) where
    pub is_descendant_done : (a b : ℕ) → a < n → b < n → (r : Bool) × (is_descendant s a b ≡ done r)
    is_descendant_done a b ha hb =
        let (upper, at) = get_elem?_lt s.number b (omega (arith, sized.number, hb)) in
        let (lower, at') = get_elem?_lt s.number a (omega (arith, sized.number, ha)) in
        let (bound, at'') = get_elem?_lt s.end_number b (omega (arith, sized.end_number, hb)) in
        elim (Bool-cases (a == b)) [
          | inl same ↦ (false, ground (arith, same))
          | inr apart ↦ elim (Bool-cases (leb upper lower)) [
            | inl fits ↦ (ltb lower bound, ground (arith, apart, at, at', at'', fits))
            | inr above ↦ (false, ground (arith, apart, at, at', above))
          ]
        ]

    -- Reading an edge around a node.
    pub around_done :
        (m : Marks E) (eid : ℕ)
        → Good m
        → eid < length m.edges
        → (b : Bool) × (e : IEdge E) × (index m.tree eid ≡ done b)
          × (index m.edges eid ≡ done e)
          × ((node : ℕ) → other_end e node < n)
          × (e.from_node < n)
          × (e.to_node < n)
    around_done m eid g h =
        let (b, at) = get_elem?_lt m.tree eid (omega (arith, g.tree, h)) in
        let (e, at') = get_elem?_lt m.edges eid h in
        let (from, to) = g.ends eid e at' in
        (b, e, ground (arith, at), ground (arith, at'), λ node. ground (arith, from, to), from, to)

    class_new-Keeps :
        (m : Marks E) (eid : ℕ) → Good m → eid < length m.edges → Keeps (class_new s m eid) m
    class_new-Keeps m eid g h =
        let (class, at) = get_elem?_lt m.classes eid (omega (arith, g.classes, h)) in
        elim (Bool-cases (class == 0)) [
          | inr old ↦ record {
            after = m;
            ran = ground (arith, at, old);
            good = g;
            same_edges = refl;
          }
          | inl new ↦ record {
            after = record m {
              classes = set m.classes eid m.next_class;
              next_class = m.next_class + 1;
            };
            ran = ground (arith, at, new, g.classes, h);
            good = record {
              grown = g.grown;
              ends = g.ends;
              incident = g.incident;
              tree = g.tree;
              hi_size = g.hi_size;
              hi_numbers = g.hi_numbers;
              brackets = g.brackets;
              classes = length-set m.classes eid m.next_class ∙ g.classes;
              recent_size = g.recent_size;
              recent_class = g.recent_class;
              capping = g.capping;
            };
            same_edges = refl;
          }
        ]

    pub drop_ending-Keeps :
        (m : Marks E) (node : ℕ) (around : List ℕ)
        → Good m
        → node < n
        → Below (length m.edges) around
        → Keeps (drop_ending s m node around) m
    drop_ending-Keeps m node [] g h low = record {
      after = m;
      ran = refl;
      good = g;
      same_edges = refl;
    }
    drop_ending-Keeps m node (eid ∷ rest) g h low =
        let here = low eid Among.first in
        let (b, e, tree_at, edge_at, ends, _, _) = around_done m eid g here in
        let (r, tested) = is_descendant_done (other_end e node) node (ends node) h in
        let (brackets, dropped, l) = drop_bracket_done g.brackets node eid h in
        let c =
          class_new-Keeps (record m { brackets = brackets }) eid (with-brackets m brackets g l)
            here in
        let skipped = drop_ending-Keeps m node rest g h (λ x a. low x (Among.later a)) in
        let later =
          drop_ending-Keeps c.after node rest c.good h
            (λ x a. subst (λ es. x < length es) (sym c.same_edges) (low x (Among.later a))) in
        elim (Bool-cases b) [
          | inl in_tree ↦ record {
            after = skipped.after;
            ran = ground (arith, tree_at, in_tree, skipped.ran);
            good = skipped.good;
            same_edges = skipped.same_edges;
          }
          | inr not_tree ↦ elim (Bool-cases r) [
            | inr above ↦ record {
              after = skipped.after;
              ran = ground (arith, tree_at, not_tree, edge_at, tested, above, skipped.ran);
              good = skipped.good;
              same_edges = skipped.same_edges;
            }
            | inl below ↦ record {
              after = later.after;
              ran =
                  ground
                    (arith, tree_at, not_tree, edge_at, tested, below, dropped, c.ran, later.ran);
              good = later.good;
              same_edges = later.same_edges ∙ c.same_edges;
            }
          ]
        ]
