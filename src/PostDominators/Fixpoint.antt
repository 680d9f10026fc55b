-- ===== src/PostDominators/Fixpoint.antt =====
-- The `while` loop ends, and its sets are the post-dominators.
use jstd.Base.{
  ℕ, zero, suc, ◌*◌, ◌<◌, ◌≡◌, refl, ◌∙◌, sym, subst, ap, inl, inr, Bool, true, false, ◌&&◌, Option,
  some, List, [], ◌∷◌, ◌==◌, ==→eq, Outcome, done, if◌then◌else◌, Bool-cases, member, length, arith,
  ◌↔◌, lookup, insert, lookup-insert,
}
use jstd.PostDominators.{inner, collect_set, start, sweep, iterate, compute_postdominators}
use jstd.PostDominators.Escape.{Escapes, exit, dead, onward}
use jstd.PostDominators.Tally.{tally, tally_bound, total_bound}
use jstd.PostDominators.Meet.{has, in_all, met, member-retain, member-collect_set}
use jstd.PostDominators.Sweep.{Approaches, size}
use jstd.PostDominators.Round.{Settled, sweep_done}

module _ (successors : ℕ → List ℕ) (nodes node_set exit_set : List ℕ) where
  -- The first set of a node.
  abbrev first : ℕ → List ℕ
  first n = if member n exit_set then n ∷ [] else collect_set nodes

  lookup-start :
      (ns : List ℕ) (pdom : List (ℕ × List ℕ)) (n : ℕ)
      → lookup n (start successors nodes node_set exit_set ns pdom)
        ≡ (if member n ns then some (first n) else lookup n pdom)
  unfolding start
  lookup-start [] pdom n = refl
  lookup-start (node ∷ rest) pdom n =
      lookup-start rest (insert node (first node) pdom) n ∙ elim (Bool-cases (n == node)) [
        | inl same ↦
            rw (lookup-insert node (first node) pdom n, same)
              (rw (==→eq n node same) (either (member node rest) (some (first node))))
        | inr other ↦ rw (lookup-insert node (first node) pdom n, other) refl
      ]
    where
      either : {A : Type 0} (b : Bool) (a : A) → (if b then a else a) ≡ a
      either true a = refl
      either false a = refl

  member-first :
      (n m : ℕ) → member m (first n) ≡ (if member n exit_set then m == n else member m nodes)
  member-first n m = elim (Bool-cases (member n exit_set)) [
    | inl on ↦ rw on (ground arith)
    | inr off ↦ rw off (member-collect_set nodes m)
  ]

  iterate_stop :
      (fuel : ℕ) (pdom pdom' : List (ℕ × List ℕ))
      → sweep successors nodes node_set exit_set nodes pdom false ≡ done (pdom', false)
      → iterate successors nodes node_set exit_set (suc fuel) pdom ≡ done (some pdom')
  unfolding iterate
  iterate_stop fuel pdom pdom' h = rw h refl

  iterate_more :
      (fuel : ℕ) (pdom pdom' : List (ℕ × List ℕ))
      → sweep successors nodes node_set exit_set nodes pdom false ≡ done (pdom', true)
      → iterate successors nodes node_set exit_set (suc fuel) pdom
        ≡ iterate successors nodes node_set exit_set fuel pdom'
  unfolding iterate
  iterate_more fuel pdom pdom' h = rw h refl

  module _ (listed : (n : ℕ) → member n node_set ≡ true → member n nodes ≡ true) where
    abbrev pub begin : List (ℕ × List ℕ)
    begin = start successors nodes node_set exit_set nodes []

    has-begin :
        (n m : ℕ)
        → has begin n m ≡ (member n nodes && (if member n exit_set then m == n else member m nodes))
    has-begin n m = elim (Bool-cases (member n nodes)) [
      | inl on ↦ rw (lookup-start nodes [] n, on) (member-first n m)
      | inr off ↦ rw (lookup-start nodes [] n, off) refl
    ]

    begin-bounded : (n m : ℕ) → has begin n m ≡ true → member m nodes ≡ true
    begin-bounded n m h = ground (arith, has-begin n m, h, ==→eq m n)

    met-bounded : (succs : List ℕ) (m : ℕ) → met begin succs m ≡ true → member m nodes ≡ true
    met-bounded [] m h = absurd (ground (arith, h))
    met-bounded (s ∷ succs) m h = begin-bounded s m (ground (arith, h))

    begin-Approaches : Approaches successors nodes node_set exit_set listed begin
    begin-Approaches = record {
      found = λ n h. rw (lookup-start nodes [] n, h) refl;
      bounded = begin-bounded;
      exits = λ n m h k. ground (arith, has-begin n m, h, k);
      sound = λ n m h k off. elim (Bool-cases (member n exit_set)) [
        | inl on ↦ exit on (ground (arith, has-begin n m, h, off, on))
        | inr none_left ↦ absurd (ground (arith, has-begin n m, h, k, off, none_left))
      ];
      shrinks = λ n m h k on.
          ground (
            arith,
            has-begin n m,
            h,
            k,
            on,
            ==→eq m n,
            met-bounded (inner successors node_set n) m,
          );
    }

    -- At a fixed point a set holds no node that is escaped.
    exact :
        (pdom : List (ℕ × List ℕ))
        → Approaches successors nodes node_set exit_set listed pdom
        → Settled successors nodes node_set exit_set listed pdom nodes
        → (m n : ℕ) → member n nodes ≡ true
        → Escapes successors node_set exit_set m n
        → has pdom n m ≡ false
    exact pdom a settled m n there (exit on apart) = a.exits n m there on ∙ apart
    exact pdom a settled m n there (dead off empty apart) =
        settled n m there off ∙ rw (apart, empty) refl
    exact pdom a settled m n there (onward {n = _} {s} off apart at path) =
        let within =
          listed s (ground (arith, sym (member-retain node_set (successors n) s) ∙ at)) in
        settled n m there off
        ∙ rw apart (unmet (inner successors node_set n) s at (exact pdom a settled m s within path))
      where
        unall :
            (succs : List ℕ) (s : ℕ)
            → member s succs ≡ true
            → has pdom s m ≡ false
            → in_all pdom succs m ≡ false
        unall [] s h off = absurd (ground (arith, h))
        unall (t ∷ succs) s h off = elim (Bool-cases (s == t)) [
          | inl same ↦ ground (arith, subst (λ x. has pdom x m ≡ false) (==→eq s t same) off)
          | inr other ↦ ground (arith, unall succs s (ground (arith, h, other)) off)
        ]

        unmet :
            (succs : List ℕ) (s : ℕ)
            → member s succs ≡ true
            → has pdom s m ≡ false
            → met pdom succs m ≡ false
        unmet [] s h off = refl
        unmet (t ∷ succs) s h off = unall (t ∷ succs) s h off

    -- The loop ends with sets that are settled.
    abbrev Ends : Outcome (Option (List (ℕ × List ℕ))) → Type 0
    Ends result =
        (pdom : List (ℕ × List ℕ)) × (result ≡ done (some pdom))
        × Approaches successors nodes node_set exit_set listed pdom
        × Settled successors nodes node_set exit_set listed pdom nodes

    iterate_done :
        (fuel : ℕ) (pdom : List (ℕ × List ℕ))
        → Approaches successors nodes node_set exit_set listed pdom
        → size successors nodes node_set exit_set listed pdom < fuel
        → Ends (iterate successors nodes node_set exit_set fuel pdom)
    unfolding iterate
    iterate_done zero pdom a enough = absurd (omega (arith, enough))
    iterate_done (suc fuel) pdom a enough =
        let (result, eq, (a', round)) =
          sweep_done successors nodes node_set exit_set listed nodes pdom false (λ n h. h) a in
        elim round [
          | inl (same, flag, settled) ↦ (
            result.0,
            iterate_stop fuel pdom result.0 (eq ∙ ap (λ b. done (result.0, b)) flag),
            a',
            subst (λ p. Settled successors nodes node_set exit_set listed p nodes) (sym same)
                settled,
          )
          | inr (flag, less) ↦
              let (pdom', found, fact, rest) =
                iterate_done fuel result.0 a' (omega (arith, enough, less)) in
              (
                pdom',
                iterate_more fuel pdom result.0 (eq ∙ ap (λ b. done (result.0, b)) flag) ∙ found,
                fact,
                rest,
              )
        ]

    -- If `node_set` is within `nodes`, fuel for one round more than the square of the number of nodes is
    -- enough for `compute_postdominators`, which does not panic. In its result, for two of the nodes,
    -- `m` is missing from the set of `n` exactly if a path that avoids `m` leads from `n` to an exit or
    -- to a node without successors in `node_set`.
    pub postdominators_exact :
        (fuel m n : ℕ)
        → length nodes * length nodes < fuel
        → member m nodes ≡ true
        → member n nodes ≡ true
        → (pdom : List (ℕ × List ℕ)) × (compute_postdominators successors nodes node_set exit_set
              fuel
            ≡ done (some pdom))
          × ((has pdom n m ≡ false) ↔ Escapes successors node_set exit_set m n)
    unfolding compute_postdominators
    postdominators_exact fuel m n enough hm hn =
        let small =
          total_bound (λ k. tally (has begin k) nodes) (length nodes) nodes
            (λ k. tally_bound (has begin k) nodes) in
        let (pdom, eq, a, settled) =
          iterate_done fuel begin begin-Approaches (omega (arith, enough, small)) in
        (pdom, eq, (a.sound n m hn hm, exact pdom a settled m n hn))
