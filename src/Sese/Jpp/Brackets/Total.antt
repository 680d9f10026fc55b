-- ===== src/Sese/Jpp/Brackets/Total.antt =====
-- `jpp_cycle_classes` of src/graph/analysis/sese.rs as a whole: the bracket lists are computed without a
-- panic, and the classes that are returned are exact.
use jstd.Base.{
  ℕ, ◌≤◌, ◌<◌, ◌≡◌, refl, sym, ◌∙◌, ap, subst, Option, none, some, List, [], ◌∷◌, Outcome, done,
  ◌>>=◌, length, length-set, get_elem?, get_elem?_lt, set, index, set_at, Among, arith,
}
use jstd.Sese.{IEdge}
use jstd.Sese.Jpp.{max_index, Visit}
use jstd.Sese.Jpp.Lists.{Below}
use jstd.Sese.Jpp.Depth.{Sized}
use jstd.Sese.Jpp.Brackets.{
  least, children_in, his_of, without_first, move_brackets, Marks, ups, drop_capping, drop_ending,
  push_starting, cap, class_tree, round, rounds_over,
}
use jstd.Sese.Jpp.Brackets.Good.{move_brackets_done, Good, drop_ending-Keeps}
use jstd.Sese.Jpp.Brackets.Round.{
  IsNumber, set-Numbers, least-IsNumber, without-AllNumbers, children_done, his_done, ups_done,
  push_starting-Keeps, drop_capping-Keeps,
}
use jstd.Sese.Jpp.Brackets.Class.{cap-Goes, Fine, Ends, class_tree_done}

-- A part that returns, and what follows it.
bind :
    {A B : Type 0} {part : Outcome A} {a : A} {b : Outcome B} (rest : A → Outcome B)
    → part ≡ done a
    → rest a ≡ b
    → (part >>= rest) ≡ b
bind rest e h = ap (λ m. m >>= rest) e ∙ h

module _ {E : Type 0} (n count : ℕ) (s : Visit) (edges : List (IEdge E))
    (sized : Sized edges n s) where
  -- What the first part of a round computes.
  record Head (m : Marks E) (node : ℕ) : Type 0 where
    pub children : List ℕ
    pub around : List ℕ
    pub ks : List ℕ
    pub his : List ℕ
    pub hi : List ℕ
    pub his' : List ℕ
    pub brackets : List (List ℕ)
    pub children_at : children_in s.parent node s.preorder ≡ done children
    pub around_at : index m.incident node ≡ done around
    pub ks_at : ups s m node around ≡ done ks
    pub his_at : his_of m.hi children ≡ done his
    pub hi_at : set_at m.hi node (least (least ks ∷ least his ∷ [])) ≡ done hi
    pub his'_at : his_of hi children ≡ done his'
    pub brackets_at : move_brackets node children m.brackets ≡ done brackets
    pub low : Below (length m.edges) around
    pub num0 : IsNumber (length s.preorder) (least ks)
    pub num2 : IsNumber (length s.preorder) (least (without_first (least his) his'))
    pub good : Good n count s (record m { hi = hi; brackets = brackets })

  Head-done : (m : Marks E) (node : ℕ) → Good n count s m → node < n → Head m node
  Head-done m node g h =
      let bound = length s.preorder in
      let (children, among, low) =
        children_done n s.parent node s.preorder sized.parent sized.nodes in
      let (around, near) = get_elem?_lt m.incident node (omega (arith, g.incident.size, h)) in
      let around_low = g.incident.below node around near in
      let (ks, found, all) = ups_done n count s edges sized m node around g h around_low in
      let (his, his_at, his_all) = his_done n bound m.hi children g.hi_size g.hi_numbers low in
      let top = least (least ks ∷ least his ∷ []) in
      let num0 = least-IsNumber bound ks all in
      let hi_size = length-set m.hi node top ∙ g.hi_size in
      let hi_numbers = set-Numbers m.hi bound node top (omega (arith, g.hi_size, h)) g.hi_numbers (
        least-IsNumber bound (least ks ∷ least his ∷ [])
          (num0, (least-IsNumber bound his his_all, tt))) in
      let (his', his_at', his_all') =
        his_done n bound (set m.hi node top) children hi_size hi_numbers low in
      let (brackets, moved, l) = move_brackets_done node children m.brackets h low g.brackets in
      record {
        children = children;
        around = around;
        ks = ks;
        his = his;
        hi = set m.hi node top;
        his' = his';
        brackets = brackets;
        children_at = among;
        around_at = rw near refl;
        ks_at = found;
        his_at = his_at;
        hi_at = ground (arith, g.hi_size, h);
        his'_at = his_at';
        brackets_at = moved;
        low = around_low;
        num0 = num0;
        num2 =
            least-IsNumber bound (without_first (least his) his')
              (without-AllNumbers bound (least his) his' his_all');
        good = record {
          grown = g.grown;
          ends = g.ends;
          incident = g.incident;
          tree = g.tree;
          hi_size = hi_size;
          hi_numbers = hi_numbers;
          brackets = l;
          classes = g.classes;
          recent_size = g.recent_size;
          recent_class = g.recent_class;
          capping = g.capping;
        };
      }

  -- The loops over the capping edges and the edges around the node.
  record Middle (m : Marks E) (node : ℕ) (around : List ℕ) : Type 0 where
    pub capped : Marks E
    pub ended : Marks E
    pub started : Marks E
    pub capped_at : drop_capping s m node m.capping ≡ done capped
    pub ended_at : drop_ending s capped node around ≡ done ended
    pub started_at : push_starting s ended node around ≡ done started
    pub good : Good n count s started

  Middle-done :
      (m : Marks E) (node : ℕ) (around : List ℕ)
      → Good n count s m
      → node < n
      → Below (length m.edges) around
      → Middle m node around
  Middle-done m node around g h low =
      let r2 = drop_capping-Keeps n count s edges sized m node m.capping g h g.capping in
      let low2 : Below (length r2.after.edges) around =
        subst (λ es. Below (length es) around) (sym r2.same_edges) low in
      let r3 = drop_ending-Keeps n count s edges sized r2.after node around r2.good h low2 in
      let low3 : Below (length r3.after.edges) around =
        subst (λ es. Below (length es) around) (sym r3.same_edges) low2 in
      let r4 = push_starting-Keeps n count s edges sized r3.after node around r3.good h low3 in
      record {
        capped = r2.after;
        ended = r3.after;
        started = r4.after;
        capped_at = r2.ran;
        ended_at = r3.ran;
        started_at = r4.ran;
        good = r4.good;
      }

  -- The round in terms of its parts.
  round_run :
      (m : Marks E) (node : ℕ) (a : Head m node)
      (b : Middle (record m { hi = a.hi; brackets = a.brackets }) node a.around) (m5 : Marks E)
      (above : Option ℕ) (next : Option (Marks E))
      → cap s b.started node (least a.ks) (least (without_first (least a.his) a.his')) ≡ done m5
      → index s.parent_edge node ≡ done above
      → elim above [ none ↦ done (some m5) | some parent_eid ↦ class_tree s m5 node parent_eid ]
        ≡ done next
      → round s m node ≡ done next
  round_run m node a b m5 above next capped up last = bind _ a.children_at (
      bind _ a.around_at (
        bind _ a.ks_at (
          bind _ a.his_at (
            bind _ a.hi_at (
              bind _ a.his'_at (
                bind _ a.brackets_at (
                  bind _ b.capped_at (
                    bind _ b.ended_at (bind _ b.started_at (bind _ capped (bind _ up last)))))))))))

  round_done :
      (m : Marks E) (node : ℕ)
      → Good n count s m
      → node < n
      → length edges ≤ count
      → length s.preorder < max_index
      → Ends n count s (round s m node)
  round_done m node g h same small =
      let a = Head-done m node g h in
      let b =
        Middle-done (record m { hi = a.hi; brackets = a.brackets }) node a.around a.good h a.low in
      let r =
        cap-Goes n count s b.started node (least a.ks) (least (without_first (least a.his) a.his'))
          b.good h sized.nodes small a.num0 a.num2 in
      let (above, got) = get_elem?_lt s.parent_edge node (omega (arith, sized.parent_edge, h)) in
      class_or_not m node a b r.after r.good above got r.ran h same
    where
      class_or_not :
          (m : Marks E) (node : ℕ) (a : Head m node)
          (b : Middle (record m { hi = a.hi; brackets = a.brackets }) node a.around) (m5 : Marks E)
          → Good n count s m5
          → (above : Option ℕ) → get_elem? s.parent_edge node ≡ some above
          → cap s b.started node (least a.ks) (least (without_first (least a.his) a.his')) ≡ done m5
          → node < n
          → length edges ≤ count
          → Ends n count s (round s m node)
      class_or_not m node a b m5 good none got capped h same =
          (some m5, round_run m node a b m5 none (some m5) capped (rw got refl) refl, good)
      class_or_not m node a b m5 good (some eid) got capped h same =
          let (next, classed, fine) =
            class_tree_done n count s m5 node eid good h
              (omega (arith, sized.above node eid got, same, good.grown)) in
          (next, round_run m node a b m5 (some eid) next capped (rw got refl) classed, fine)

  pub rounds_done :
      (m : Marks E) (nodes : List ℕ)
      → Good n count s m
      → Below n nodes
      → length edges ≤ count
      → length s.preorder < max_index
      → Ends n count s (rounds_over s m nodes)
  rounds_done m [] g low same small = (some m, refl, g)
  rounds_done m (node ∷ rest) g low same small =
      let (next, ran, fine) = round_done m node g (low node Among.first) same small in
      go_on m node rest next ran fine
        (λ m' g'. rounds_done m' rest g' (λ x a. low x (Among.later a)) same small)
    where
      go_on :
          (m : Marks E) (node : ℕ) (rest : List ℕ) (next : Option (Marks E))
          → round s m node ≡ done next
          → Fine n count s next
          → ((m' : Marks E) → Good n count s m' → Ends n count s (rounds_over s m' rest))
          → Ends n count s (rounds_over s m (node ∷ rest))
      go_on m node rest none ran fine later = (none, bind _ ran refl, tt)
      go_on m node rest (some m') ran fine later =
          let (last, ran', fine') = later m' fine in (last, bind _ ran ran', fine')
