-- ===== src/Sese/Jpp/Brackets/Exact.antt =====
-- `jpp_cycle_classes` of src/graph/analysis/sese.rs from its start to its end.
use jstd.Base.{
  ℕ, ◌*◌, ◌≤◌, ◌<◌, ◌≡◌, refl, ◌∙◌, inl, Option, none, some, List, [], ◌∷◌, lt→ltb, done, length,
  length-take, length-replicate, get_elem?-replicate, take, replicate, Among, arith,
}
use jstd.Sese.{IEdge}
use jstd.Sese.Walk.{Within, Within_at}
use jstd.Sese.Jpp.{max_index, Visit, incident_from, visit, unvisited}
use jstd.Sese.Jpp.Lists.{Below, Lists, snoc-Below, replicate-Lists, incident_from_done}
use jstd.Sese.Jpp.Depth.{Sized, visit_done, unvisited-Sized, unnumbered_all}
use jstd.Sese.Jpp.Settle.{Classifies, settle_exact}
use jstd.Sese.Jpp.Brackets.{Marks, rounds_over, reversed, propose, jpp_cycle_classes}
use jstd.Sese.Jpp.Brackets.Good.{Good}
use jstd.Sese.Jpp.Brackets.Class.{Fine}
use jstd.Sese.Jpp.Brackets.Total.{rounds_done}

reversed-Below : (bound : ℕ) (xs : List ℕ) → Below bound xs → Below bound (reversed xs)
reversed-Below bound [] low = low
reversed-Below bound (x ∷ xs) low =
    snoc-Below bound (reversed xs) x (reversed-Below bound xs (λ z a. low z (Among.later a)))
      (low x Among.first)

module _ {E : Type 0} (edges : List (IEdge E)) (n : ℕ) (w : Within n edges) where
  -- The vectors before the loop.
  abbrev begun : Visit → List (List ℕ) → Marks E
  begun s incident = record {
    edges = edges;
    incident = incident;
    tree = s.tree;
    hi = replicate n max_index;
    brackets = replicate n [];
    classes = replicate (length edges) 0;
    recent_size = replicate (length edges) 0;
    recent_class = replicate (length edges) 0;
    capping = [];
    next_class = 1;
  }

  begun-Good :
      (s : Visit) (incident : List (List ℕ))
      → Sized edges n s
      → Lists n (length edges) incident
      → Good n (length edges) s (begun s incident)
  begun-Good s incident sized l = record {
    grown = omega arith;
    ends = λ i e at. Within_at n edges i e w at;
    incident = l;
    tree = sized.tree;
    hi_size = length-replicate n max_index;
    hi_numbers = λ v k at. inl (ground (arith, get_elem?-replicate n max_index v, at));
    brackets = replicate-Lists n (length edges);
    classes = length-replicate (length edges) 0;
    recent_size = length-replicate (length edges) 0;
    recent_class = length-replicate (length edges) 0;
    capping = λ x a. elim a [ ];
  }

  -- The classes that the loop leaves.
  abbrev left_by : Option (Marks E) → Option (List ℕ)
  left_by none = none
  left_by (some m) = some (take (length edges) m.classes)

  left_by_size :
      (s : Visit) (next : Option (Marks E)) (classes : List ℕ)
      → Fine n (length edges) s next
      → left_by next ≡ some classes
      → length classes ≡ length edges
  left_by_size s none classes fine e = cc e
  left_by_size s (some m) classes g e =
      let size = length-take (length edges) m.classes (omega (arith, g.grown, g.classes)) in
      ground (arith, e, size)

  propose_run :
      (fuel root : ℕ) (incident : List (List ℕ)) (s : Visit) (next : Option (Marks E))
      → incident_from 0 edges (replicate n []) ≡ done incident
      → visit edges incident fuel (unvisited edges incident n) root ≡ done (some s)
      → rounds_over s (begun s incident) (reversed s.preorder) ≡ done next
      → propose fuel edges n root ≡ done (some (left_by next))
  unfolding propose
  propose_run fuel root incident s none filled visited ran = rw filled (rw visited (rw ran refl))
  propose_run fuel root incident s (some m) filled visited ran =
      rw filled (rw visited (rw ran refl))

  -- The bracket lists are computed without a panic.
  propose_done :
      (fuel root : ℕ)
      → n < max_index
      → root < n
      → n ≤ fuel
      → (proposed : Option (List ℕ)) × (propose fuel edges n root ≡ done (some proposed))
        × ((classes : List ℕ) → proposed ≡ some classes → length classes ≡ length edges)
  unfolding propose
  propose_done fuel root small inside enough =
      let (incident, filled, l) =
        incident_from_done n (length edges) 0 edges (replicate n []) w (omega arith)
          (replicate-Lists n (length edges)) in
      let (s, visited, sized, _) =
        visit_done edges n incident w small l fuel (unvisited edges incident n) root
          (unvisited-Sized edges n incident)
          (get_elem?-replicate n max_index root ∙ rw (lt→ltb root n inside) refl)
          (omega (arith, unnumbered_all n, enough)) in
      let (next, ran, fine) =
        rounds_done n (length edges) s edges sized (begun s incident) (reversed s.preorder)
          (begun-Good s incident sized l) (reversed-Below n s.preorder sized.nodes) (omega arith)
          (omega (arith, sized.room, small)) in
      (
        left_by next,
        propose_run fuel root incident s next filled visited ran,
        λ classes e. left_by_size s next classes fine e,
      )

  -- On edges among the nodes below `n`, where `n` is below the largest index, with the root among the
  -- nodes and fuel for the nodes and for more than the square of the number of edges,
  -- `jpp_cycle_classes` ends without a panic in one class for each edge, and two edges have the same
  -- class exactly if a chain of pairs that `cycle_equivalent` accepts links them.
  pub jpp_cycle_classes_exact :
      (fuel root : ℕ)
      → n < max_index
      → root < n
      → n ≤ fuel
      → length edges * length edges < fuel
      → (classes : List ℕ) × (jpp_cycle_classes fuel edges n root ≡ done (some classes))
        × Classifies edges n classes
  unfolding jpp_cycle_classes
  jpp_cycle_classes_exact fuel root small inside enough enough' =
      let (proposed, found, sized) = propose_done fuel root small inside enough in
      let (classes, ran, exact) = settle_exact edges n w fuel proposed enough' sized in
      (classes, rw found ran, exact)
