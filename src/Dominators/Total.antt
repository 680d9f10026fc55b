-- ===== src/Dominators/Total.antt =====
-- The loop of `reachable_from_root` ends: every round takes a node off the stack, and the successors of
-- a node are pushed only when it is visited first.
use jstd.Base.{
  ℕ, zero, suc, ◌+◌, ◌≤◌, ◌≡◌, refl, ◌∙◌, sym, subst, inl, inr, Bool, true, false, some, List, [],
  ◌∷◌, ◌++◌, ◌==◌, ==→eq, if◌then◌else◌, Bool-cases, member, Distinct, length, member-add, add,
  arith, ◌↔◌,
}
use jstd.Dominators.{push_unvisited, search, reachable_from_root}
use jstd.Dominators.Path.{Reaches, here, step}
use jstd.Dominators.Reach.{Searching, skip-Searching, visit-Searching, member-push}

length-push :
    (visited succs stack : List ℕ)
    → length (push_unvisited visited succs stack) ≤ length succs + length stack
length-push visited [] stack = omega arith
length-push visited (s ∷ succs) stack = omega (
  arith,
  length-push visited succs (if member s visited then stack else s ∷ stack),
  longer (member s visited) s stack,
)
  where
    longer :
        (b : Bool) (s : ℕ) (stack : List ℕ)
        → length (if b then stack else s ∷ stack) ≤ 1 + length stack
    longer true s stack = omega arith
    longer false s stack = omega arith

module _ (successors : ℕ → List ℕ) where
  -- The nodes of `within` that are not visited, and their edges.
  abbrev pub weight : List ℕ → List ℕ → ℕ
  weight visited [] = 0
  weight visited (n ∷ within) =
      (if member n visited then 0 else 1 + length (successors n)) + weight visited within

  weight-shrinks :
      (visited within : List ℕ) (node : ℕ)
      → weight (add node visited) within ≤ weight visited within
  weight-shrinks visited [] node = omega arith
  weight-shrinks visited (n ∷ within) node = elim (Bool-cases (member n visited)) [
    | inl old ↦ ground (arith, old, member-add node n visited, weight-shrinks visited within node)
    | inr new ↦ ground (arith, new, member-add node n visited, weight-shrinks visited within node)
  ]

  pub weight-add :
      (visited within : List ℕ) (node : ℕ)
      → member node visited ≡ false
      → member node within ≡ true
      → weight (add node visited) within + (1 + length (successors node)) ≤ weight visited within
  weight-add visited [] node new there = absurd (ground (arith, there))
  weight-add visited (n ∷ within) node new there = elim (Bool-cases (node == n)) [
    | inl same ↦ ground (
      arith,
      ==→eq node n same,
      new,
      member-add node n visited,
      weight-shrinks visited within node,
    )
    | inr other ↦
        let rest = weight-add visited within node new (ground (arith, other, there)) in
        elim (Bool-cases (member n visited)) [
          | inl old ↦ ground (arith, old, member-add node n visited, rest)
          | inr fresh ↦ ground (arith, fresh, member-add node n visited, rest, other, ==→eq n node)
        ]
  ]

  -- `within` holds the successors of its nodes.
  abbrev pub IsClosed : List ℕ → Type 0
  IsClosed within =
      (m n : ℕ) → member m within ≡ true → member n (successors m) ≡ true → member n within ≡ true

  -- The nodes of the list are those that a path from the root leads to, each once.
  abbrev pub Finds : ℕ → List ℕ → Type 0
  Finds root order =
      Distinct order × ((n : ℕ) → (member n order ≡ true) ↔ Reaches successors root n)

  -- Once nothing is on the stack, every path stays in the visited nodes.
  visited_all :
      {root : ℕ} (visited order : List ℕ)
      → Searching successors root visited order []
      → {n : ℕ} → Reaches successors root n
      → member n visited ≡ true
  visited_all visited order inv here = ground (arith, inv.begun)
  visited_all visited order inv (step {m} {n} path edge) =
      ground (arith, inv.closed m n (visited_all visited order inv path) edge)

  pub Searching-Finds :
      (root : ℕ) (visited order : List ℕ)
      → Searching successors root visited order []
      → Finds root order
  Searching-Finds root visited order inv = (
    inv.once,
    λ n. (
      λ h. inv.sound n (ground (arith, inv.same n, h)),
      λ path. inv.same n ∙ visited_all visited order inv path,
    ),
  )

  search_old :
      (fuel : ℕ) (visited order stack : List ℕ) (node : ℕ)
      → member node visited ≡ true
      → search successors (suc fuel) visited order (node ∷ stack)
        ≡ search successors fuel visited order stack
  unfolding search
  search_old fuel visited order stack node old = rw (search, old) refl

  search_new :
      (fuel : ℕ) (visited order stack : List ℕ) (node : ℕ)
      → member node visited ≡ false
      → search successors (suc fuel) visited order (node ∷ stack)
        ≡ search successors fuel
            (add node visited)
            (order ++ (node ∷ []))
            (push_unvisited (add node visited) (successors node) stack)
  unfolding search
  search_new fuel visited order stack node new = rw (search, new) refl

  search_done :
      (root : ℕ) (within : List ℕ)
      → IsClosed within
      → (fuel : ℕ) (visited order stack : List ℕ) → Searching successors root visited order stack
      → ((n : ℕ) → member n stack ≡ true → member n within ≡ true)
      → length stack + weight visited within ≤ fuel
      → (result : List ℕ) × (search successors fuel visited order stack ≡ some result)
        × Finds root result
  unfolding search
  search_done root within shut zero visited order [] inv inside enough =
      (order, refl, Searching-Finds root visited order inv)
  search_done root within shut (suc fuel) visited order [] inv inside enough =
      (order, refl, Searching-Finds root visited order inv)
  search_done root within shut zero visited order (node ∷ stack) inv inside enough =
      absurd (omega (arith, enough))
  search_done root within shut (suc fuel) visited order (node ∷ stack) inv inside enough =
      elim (Bool-cases (member node visited)) [
        | inl old ↦
            let (result, found, fact) =
              search_done root within shut fuel visited order stack
                (skip-Searching successors root visited order stack node inv old)
                (λ n h. inside n (ground (arith, h))) (omega (arith, enough)) in
            (result, search_old fuel visited order stack node old ∙ found, fact)
        | inr new ↦
            let there = inside node (ground arith) in
            let (result, found, fact) =
              search_done root within shut fuel (add node visited) (order ++ (node ∷ []))
                (push_unvisited (add node visited) (successors node) stack)
                (visit-Searching successors root visited order stack node inv new)
                (λ n h. ground (
                  arith,
                  h,
                  member-push (add node visited) (successors node) stack n,
                  shut node n there,
                  inside n,
                ))
                (omega (
                  arith,
                  enough,
                  length-push (add node visited) (successors node) stack,
                  weight-add visited within node new there,
                )) in
            (result, search_new fuel visited order stack node new ∙ found, fact)
      ]

  -- Before the first round.
  pub root-Searching : (root : ℕ) → Searching successors root [] [] (root ∷ [])
  root-Searching root = record {
    same = λ n. refl;
    once = tt;
    sound = λ n h. subst (Reaches successors root) (sym (==→eq n root (ground (arith, h)))) here;
    closed = λ m n h k. absurd (ground (arith, h));
    begun = ground arith;
  }

  -- If all that the root leads to lies in the list `within`, fuel for each of its nodes, each of their
  -- edges and the root is enough for `reachable_from_root`, and it returns the nodes that a path from
  -- the root leads to, each once.
  pub reachable_from_root_exact :
      (root fuel : ℕ) (within : List ℕ)
      → IsClosed within
      → member root within ≡ true
      → 1 + weight [] within ≤ fuel
      → (order : List ℕ) × (reachable_from_root successors fuel root ≡ some order)
        × Finds root order
  unfolding reachable_from_root
  reachable_from_root_exact root fuel within shut there enough =
      search_done root within shut fuel [] [] (root ∷ []) (root-Searching root)
        (λ n h. subst (λ x. member x within ≡ true) (sym (==→eq n root (ground (arith, h)))) there)
        enough
