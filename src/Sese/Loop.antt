-- ===== src/Sese/Loop.antt =====
-- The outer loop of `reachable`: it ends within the fuel, and sets exactly the flags of the nodes at
-- the end of a walk.
use jstd.Base.{
  ℕ, zero, suc, ◌+◌, ◌≤◌, ◌<◌, ◌≡◌, refl, ◌∙◌, subst, inl, inr, ◌↔◌, Bool, true, false, not, ◌&&◌,
  ◌||◌, Bool-cases, ==→eq, Option, List, [], ◌∷◌, List-cases, ◌==◌, done, length, set, replicate,
  member, length-set, length-replicate, arith,
}
use jstd.Sese.{IEdge, Search, scan, visit, search, rounds, reachable}
use jstd.Sese.Walk.{links, Walk, here, step, Within, links_lt, links_find, Link-links}
use jstd.Sese.Scan.{flag, index-flag, Scanned, scan_lem}
use jstd.Sese.Flags.{
  credit, credit-set, credit-replicate, flag-set, flag-replicate, popped, grown, either,
}

module _ {E : Type 0} (edges : List (IEdge E)) (n : ℕ) (start : ℕ) (skip : Option ℕ)
    (reverse : Bool) where
  -- A node that is seen, or waits on the stack.
  abbrev reached : Search → ℕ → Bool
  reached s v = flag s.seen v || member v s.stack

  record Invariant (s : Search) : Type 0 where
    size : length s.seen ≡ n
    below : (v : ℕ) → member v s.stack ≡ true → v < n
    begun : reached s start ≡ true
    sound : (v : ℕ) → reached s v ≡ true → Walk edges skip reverse start v
    closed :
        (u v : ℕ)
        → flag s.seen u ≡ true
        → links skip reverse 0 edges u v ≡ true
        → reached s v ≡ true

  abbrev work : Search → ℕ
  work s = credit (length edges + 1) s.seen + length s.stack

  visit_seen :
      (s : Search) (node : ℕ) (rest : List ℕ)
      → node < length s.seen
      → flag s.seen node ≡ true
      → visit edges skip reverse s node rest ≡ done (record s { stack = rest })
  unfolding visit
  visit_seen s node rest h f = ground (arith, index-flag s.seen node h, f)

  visit_new :
      (s : Search) (node : ℕ) (rest stack : List ℕ)
      → node < length s.seen
      → flag s.seen node ≡ false
      → scan (set s.seen node true) node skip reverse 0 edges rest ≡ done stack
      → visit edges skip reverse s node rest
        ≡ done (record { seen = set s.seen node true; stack = stack })
  unfolding visit
  visit_new s node rest stack h f scanned = ground (arith, index-flag s.seen node h, f, scanned)

  skip-Invariant :
      (s : Search) (node : ℕ) (rest : List ℕ)
      → Invariant s
      → s.stack ≡ node ∷ rest
      → flag s.seen node ≡ true
      → Invariant (record s { stack = rest })
  skip-Invariant s node rest v top f = record {
    size = v.size;
    below = λ x h. v.below x (ground (arith, top, h));
    begun = popped s.seen node start rest f (rw top at v.begun);
    sound = λ x h. v.sound x (ground (arith, top, h));
    closed = λ x y h l. popped s.seen node y rest f (rw top at (v.closed x y h l));
  }

  expand-Invariant :
      (s : Search) (node : ℕ) (rest stack : List ℕ)
      → Within n edges
      → Invariant s
      → s.stack ≡ node ∷ rest
      → node < n
      → Scanned edges skip reverse 0 (set s.seen node true) node rest stack
      → Invariant (record { seen = set s.seen node true; stack = stack })
  expand-Invariant s node rest stack w v top inside sc = record {
    size = omega (arith, v.size, length-set s.seen node true);
    below = λ x h.
        elim (either (member x rest)
          (links skip reverse 0 edges node x && not (flag (set s.seen node true) x))
          (rw (sc.on x) at h)) [
            | inl waits ↦ v.below x (ground (arith, top, waits))
            | inr l ↦ links_lt n skip reverse 0 edges node x w (ground (arith, l))
          ];
    begun = ground (arith, after start, v.begun, top);
    sound = λ x h.
        elim (either (reached s x) (links skip reverse 0 edges node x)
          (ground (arith, after x, h))) [
            | inl before ↦ v.sound x before
            | inr l ↦
                let (j, linked) = links_find skip reverse 0 edges node x l in
                step j (v.sound node (ground (arith, top))) linked
          ];
    closed = λ x y h l.
        elim (either (node == x) (flag s.seen x)
          (ground (arith, flag-set s.seen node x inside', h))) [
            | inl same ↦ ground (arith, after y, ==→eq node x same, l)
            | inr before ↦ ground (arith, after y, v.closed x y before l)
          ];
  }
    where
      inside' : node < length s.seen
      inside' = omega (arith, v.size)

      after :
          (x : ℕ)
          → reached (record { seen = set s.seen node true; stack = stack }) x
            ≡ (reached s x || links skip reverse 0 edges node x)
      after x =
          rw (sc.on x, flag-set s.seen node x inside', top)
            (grown x node (flag s.seen x) (member x rest) (links skip reverse 0 edges node x))

  -- At the end, where the stack is empty, the flags are closed under walks.
  seen_all :
      (t : Search)
      → Invariant t
      → t.stack ≡ []
      → (x : ℕ) → Walk edges skip reverse start x
      → flag t.seen x ≡ true
  seen_all t v empty x here = ground (arith, v.begun, empty)
  seen_all t v empty x (step {u = u} j path linked) = ground (
    arith,
    v.closed u x (seen_all t v empty u path) (Link-links skip reverse 0 j edges u x linked),
    empty,
  )

  search-visit :
      (fuel : ℕ) (s s' : Search) (node : ℕ) (rest : List ℕ)
      → s.stack ≡ node ∷ rest
      → visit edges skip reverse s node rest ≡ done s'
      → search edges skip reverse (suc fuel) s ≡ search edges skip reverse fuel s'
  unfolding search
  search-visit fuel s s' node rest top h = ground (arith, top, h)

  search_empty : (fuel : ℕ) (s : Search) → s.stack ≡ [] → search edges skip reverse fuel s ≡ done s
  unfolding search
  search_empty zero s top = refl
  search_empty (suc fuel) s top = ground (arith, top)

  -- One round keeps the invariant and pays with some of the credit.
  visit_lem :
      (s : Search) (node : ℕ) (rest : List ℕ)
      → Within n edges
      → Invariant s
      → s.stack ≡ node ∷ rest
      → (s' : Search) × (visit edges skip reverse s node rest ≡ done s')
        × Invariant s'
        × (work s' < work s)
  visit_lem s node rest w v top =
      let inside : node < n = v.below node (ground (arith, top)) in
      let inside' : node < length s.seen = omega (arith, v.size) in
      elim (Bool-cases (flag s.seen node)) [
        | inl f ↦ (
          record s { stack = rest },
          visit_seen s node rest inside' f,
          skip-Invariant s node rest v top f,
          rw top (omega arith),
        )
        | inr f ↦
            let (stack, scanned, sc) =
              scan_lem n (set s.seen node true) node skip reverse 0 edges rest w
                (omega (arith, length-set s.seen node true, v.size)) in
            (
              record { seen = set s.seen node true; stack = stack },
              visit_new s node rest stack inside' f scanned,
              expand-Invariant s node rest stack w v top inside sc,
              rw top (omega (arith, sc.short, credit-set (length edges + 1) s.seen node inside' f)),
            )
      ]

  search_lem :
      (fuel : ℕ) (s : Search)
      → Within n edges
      → Invariant s
      → work s ≤ fuel
      → (t : Search) × (search edges skip reverse fuel s ≡ done t) × Invariant t × (t.stack ≡ [])
  search_lem zero s w v h = elim (List-cases s.stack) [
    | inl top ↦ (s, search_empty zero s top, v, top)
    | inr (node, rest, top) ↦ let full = rw top at h in absurd (omega (arith, full))
  ]
  search_lem (suc fuel) s w v h = elim (List-cases s.stack) [
    | inl top ↦ (s, search_empty (suc fuel) s top, v, top)
    | inr (node, rest, top) ↦
        let (s', visited, v', less) = visit_lem s node rest w v top in
        let (t, searched, v'', empty) = search_lem fuel s' w v' (omega arith) in
        (t, search-visit fuel s s' node rest top visited ∙ searched, v'', empty)
  ]

  started : start < n → Invariant (record { seen = replicate n false; stack = start ∷ [] })
  started h = record {
    size = length-replicate n false;
    below = λ x m. ground (arith, ==→eq x start, m, h);
    begun = ground arith;
    sound = λ x m.
        subst (Walk edges skip reverse start) (ground (arith, ==→eq x start, m, flag-replicate n x))
          here;
    closed = λ x y f l. ground (arith, flag-replicate n x, f);
  }

  -- On edges among the nodes below `n`, from a start below `n`, `reachable` does not index out of
  -- range and its fuel suffices: it returns `n` flags, of which exactly those are set to which a walk
  -- leads from the start along edges other than `skip`, in the direction of the search.
  pub reachable-Walk :
      Within n edges
      → start < n
      → (seen : List Bool) × (reachable edges n start skip reverse ≡ done seen)
        × (length seen ≡ n)
        × ((v : ℕ) → (flag seen v ≡ true) ↔ Walk edges skip reverse start v)
  unfolding reachable
  reachable-Walk w h =
      let (t, searched, v, empty) =
        search_lem (rounds edges n) _ w (started h)
          (omega (arith, credit-replicate (length edges + 1) n)) in
      (
        t.seen,
        rw searched,
        v.size,
        λ x. (λ f. v.sound x (ground (arith, f)), λ path. seen_all t v empty x path),
      )
