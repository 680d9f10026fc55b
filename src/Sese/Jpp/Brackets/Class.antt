-- ===== src/Sese/Jpp/Brackets/Class.antt =====
-- The last parts of a round of the loop of `jpp_cycle_classes`, src/graph/analysis/sese.rs, which add a
-- capping edge and class the tree edge, do not panic.
use jstd.Base.{
  ℕ, ◌+◌, ◌<◌, ◌≡◌, refl, sym, ◌∙◌, subst, inl, inr, false, Bool-cases, Option-cases, Option, none,
  some, List, [], ◌∷◌, ◌++◌, ◌==◌, ltb, Outcome, done, length, length-append, length-set,
  get_elem?_lt, get_elem?-concat, set, Among, Among-of_at, arith,
}
use jstd.Sese.{IEdge}
use jstd.Sese.Jpp.{max_index, Visit}
use jstd.Sese.Jpp.Lists.{Below, Lists, push_to_done, snoc-Below, raise-Lists}
use jstd.Sese.Jpp.Brackets.{last_of, Marks, cap, renew, class_tree}
use jstd.Sese.Jpp.Brackets.Good.{Good, Keeps}
use jstd.Sese.Jpp.Brackets.Round.{IsNumber}

last_of-Below :
    (bound : ℕ) (xs : List ℕ) (top : ℕ) → Below bound xs → last_of xs ≡ some top → top < bound
last_of-Below bound [] top low h = cc h
last_of-Below bound (x ∷ []) top low h = ground (arith, low x Among.first, h)
last_of-Below bound (x ∷ y ∷ xs) top low h =
    last_of-Below bound (y ∷ xs) top (λ z a. low z (Among.later a)) h

module _ {E : Type 0} (n count : ℕ) (s : Visit) where
  -- A part of the loop body returns, and the invariant holds again.
  pub record Goes (run : Outcome (Marks E)) : Type 0 where
    pub after : Marks E
    pub ran : run ≡ done after
    pub good : Good n count s after

  pub cap-Goes :
      (m : Marks E) (node hi0 hi2 : ℕ)
      → Good n count s m
      → node < n
      → Below n s.preorder
      → length s.preorder < max_index
      → IsNumber (length s.preorder) hi0
      → IsNumber (length s.preorder) hi2
      → Goes (cap s m node hi0 hi2)
  cap-Goes m node hi0 hi2 g h nodes small num0 num2 = elim (Bool-cases (ltb hi2 hi0)) [
    | inr enough ↦ record { after = m; ran = ground (arith, enough); good = g }
    | inl under ↦
        let low : hi2 < length s.preorder = ground (arith, under, num0, num2, small) in
        let (ancestor, at) = get_elem?_lt s.preorder hi2 low in
        let eid = length m.edges in
        let new : IEdge E = record { from_node = node; to_node = ancestor; original = none } in
        let more = m.edges ++ (new ∷ []) in
        let size = length-append m.edges (new ∷ []) in
        let up : ancestor < n = nodes ancestor (Among-of_at s.preorder hi2 at) in
        let raise = λ (lists : List (List ℕ)) (l : Lists n eid lists).
          raise-Lists {bound' = length more} l (omega (arith, size)) in
        let (one, pushed, l1) =
          push_to_done (raise m.incident g.incident) node eid h (omega (arith, size)) in
        let (two, pushed', l2) = push_to_done l1 ancestor eid up (omega (arith, size)) in
        let (brackets, pushed'', l3) =
          push_to_done (raise m.brackets g.brackets) node eid h (omega (arith, size)) in
        record {
          after = record m {
            edges = more;
            incident = two;
            tree = m.tree ++ (false ∷ []);
            classes = m.classes ++ (0 ∷ []);
            recent_size = m.recent_size ++ (0 ∷ []);
            recent_class = m.recent_class ++ (0 ∷ []);
            capping = m.capping ++ (eid ∷ []);
            brackets = brackets;
          };
          ran = ground (arith, under, at, pushed, pushed', pushed'');
          good = record {
            grown = omega (arith, size, g.grown);
            ends = λ i e got. elim (Bool-cases (eid == i)) [
              | inl last ↦ ground (arith, get_elem?-concat m.edges new i, last, got, h, up)
              | inr old ↦ g.ends i e (ground (arith, get_elem?-concat m.edges new i, old, got))
            ];
            incident = l2;
            tree = omega (arith, size, g.tree, length-append m.tree (false ∷ []));
            hi_size = g.hi_size;
            hi_numbers = g.hi_numbers;
            brackets = l3;
            classes = omega (arith, size, g.classes, length-append m.classes (0 ∷ []));
            recent_size = omega (arith, size, g.recent_size, length-append m.recent_size (0 ∷ []));
            recent_class =
                omega (arith, size, g.recent_class, length-append m.recent_class (0 ∷ []));
            capping =
                snoc-Below (length more) m.capping eid (λ x a. omega (arith, size, g.capping x a))
                  (omega (arith, size));
          };
        }
  ]

  with-classes :
      (m : Marks E) (classes recent_size recent_class : List ℕ) (next_class : ℕ)
      → Good n count s m
      → length classes ≡ length m.classes
      → length recent_size ≡ length m.recent_size
      → length recent_class ≡ length m.recent_class
      → Good n count s (record m {
        classes = classes;
        recent_size = recent_size;
        recent_class = recent_class;
        next_class = next_class;
      })
  with-classes m classes recent_size recent_class next_class g e e' e'' = record {
    grown = g.grown;
    ends = g.ends;
    incident = g.incident;
    tree = g.tree;
    hi_size = g.hi_size;
    hi_numbers = g.hi_numbers;
    brackets = g.brackets;
    classes = e ∙ g.classes;
    recent_size = e' ∙ g.recent_size;
    recent_class = e'' ∙ g.recent_class;
    capping = g.capping;
  }

  renew-Keeps :
      (m : Marks E) (top size : ℕ)
      → Good n count s m
      → top < length m.edges
      → Keeps n count s (renew s m top size) m
  renew-Keeps m top size g h =
      let (recent, at) = get_elem?_lt m.recent_size top (omega (arith, g.recent_size, h)) in
      elim (Bool-cases (recent == size)) [
        | inl same ↦ record {
          after = m;
          ran = ground (arith, at, same);
          good = g;
          same_edges = refl;
        }
        | inr other ↦ record {
          after = record m {
            recent_size = set m.recent_size top size;
            recent_class = set m.recent_class top m.next_class;
            next_class = m.next_class + 1;
          };
          ran = ground (arith, at, other, g.recent_size, g.recent_class, h);
          good =
              with-classes m m.classes (set m.recent_size top size)
                (set m.recent_class top m.next_class) (m.next_class + 1) g refl
                (length-set m.recent_size top size) (length-set m.recent_class top m.next_class);
          same_edges = refl;
        }
      ]

  -- A round goes on with the invariant, or gives way to the direct classes.
  abbrev pub Fine : Option (Marks E) → Type 0
  Fine none = Unit
  Fine (some m) = Good n count s m

  abbrev pub Ends : Outcome (Option (Marks E)) → Type 0
  Ends run = (next : Option (Marks E)) × (run ≡ done next) × Fine next

  pub class_tree_done :
      (m : Marks E) (node parent_eid : ℕ)
      → Good n count s m
      → node < n
      → parent_eid < length m.edges
      → Ends (class_tree s m node parent_eid)
  class_tree_done m node parent_eid g h low =
      let (list, at) = get_elem?_lt m.brackets node (omega (arith, g.brackets.size, h)) in
      elim (Option-cases (last_of list)) [
        | inl empty ↦ (none, ground (arith, at, empty), tt)
        | inr (top, last) ↦
            let below =
              last_of-Below (length m.edges) list top (g.brackets.below node list at) last in
            let r = renew-Keeps m top (length list) g below in
            let a = r.after in
            let inside : top < length a.edges =
              subst (λ es. top < length es) (sym r.same_edges) below in
            let inside' : parent_eid < length a.edges =
              subst (λ es. parent_eid < length es) (sym r.same_edges) low in
            let (class, class_at) =
              get_elem?_lt a.recent_class top (omega (arith, r.good.recent_class, inside)) in
            let (size, size_at) =
              get_elem?_lt a.recent_size top (omega (arith, r.good.recent_size, inside)) in
            let classes = set a.classes parent_eid class in
            let same = length-set a.classes parent_eid class in
            let (own, own_at) =
              get_elem?_lt classes parent_eid (omega (arith, r.good.classes, same, inside')) in
            elim (Bool-cases (size == 1)) [
              | inr more ↦ (
                some (record a { classes = classes }),
                ground (arith, at, last, r.ran, class_at, r.good.classes, inside', size_at, more),
                with-classes a classes a.recent_size a.recent_class a.next_class r.good same refl
                    refl,
              )
              | inl one ↦ (
                some (record a { classes = set classes top own }),
                ground (
                  arith, at, last, r.ran, class_at, r.good.classes, inside', inside, size_at, one,
                  own_at, same,
                ),
                with-classes a (set classes top own) a.recent_size a.recent_class a.next_class
                    r.good (length-set classes top own ∙ same) refl refl,
              )
            ]
      ]
