-- ===== src/Graph/Dfs/Exact.antt =====
-- `DfsIter` yields exactly the nodes that its mode leads to, each once, and then ends.
use jstd.Base.{
  ℕ, zero, suc, ◌<◌, ◌≡◌, refl, ◌∙◌, sym, subst, ap, ◌⊎◌, inl, inr, Bool, true, false, Option, none,
  some, List, [], ◌∷◌, ◌++◌, ==→eq, Outcome, done, if◌then◌else◌, Bool-cases, member, add, arith,
}
use jstd.Graph.{OwningGraph, EdgeItem, get_node, targets}
use jstd.Graph.Dfs.{push_items, nodes_of, tree_edge, next, collect}
use jstd.Dominators.{push_unvisited}
use jstd.Dominators.Reach.{Searching, skip-Searching, visit-Searching, member-push}
use jstd.Dominators.Total.{weight, weight-add, Finds, Searching-Finds, root-Searching}

nodes_of-push :
    (visited : List ℕ) (items : List EdgeItem) (stack : List (Option ℕ × ℕ))
    → nodes_of (push_items visited items stack)
      ≡ push_unvisited visited (targets items) (nodes_of stack)
nodes_of-push visited [] stack = refl
nodes_of-push visited (item ∷ items) stack =
    nodes_of-push visited items
      (if member item.node visited then stack else (some item.edge, item.node) ∷ stack)
    ∙ ap (push_unvisited visited (targets items)) (either (member item.node visited) item stack)
  where
    either :
        (b : Bool) (item : EdgeItem) (stack : List (Option ℕ × ℕ))
        → nodes_of (if b then stack else (some item.edge, item.node) ∷ stack)
          ≡ (if b then nodes_of stack else item.node ∷ nodes_of stack)
    either true item stack = refl
    either false item stack = refl

append_nil : (xs : List ℕ) → xs ≡ xs ++ []
append_nil [] = refl
append_nil (x ∷ xs) = ap (λ ys. x ∷ ys) (append_nil xs)

append_append : (xs ys zs : List ℕ) → (xs ++ ys) ++ zs ≡ xs ++ (ys ++ zs)
append_append [] ys zs = refl
append_append (x ∷ xs) ys zs = ap (λ ws. x ∷ ws) (append_append xs ys zs)

module _ {N E : Type 0} (explore : OwningGraph N E → ℕ → Outcome (List EdgeItem))
    (g : OwningGraph N E) (items : ℕ → List EdgeItem) (within : List ℕ)
    (explored : (n : ℕ)
      → member n within ≡ true
      → (get_node g n ≡ true) × (explore g n ≡ done (items n)))
    (shut : (m n : ℕ)
      → member m within ≡ true
      → member n (targets (items m)) ≡ true
      → member n within ≡ true)
    (root : ℕ) where
  abbrev successors : ℕ → List ℕ
  successors n = targets (items n)

  -- What `next` keeps true, with the nodes it has yielded so far.
  abbrev Going : List ℕ → List ℕ → List (Option ℕ × ℕ) → Type 0
  Going visited order stack =
      Searching successors root visited order (nodes_of stack)
      × ((n : ℕ) → member n (nodes_of stack) ≡ true → member n within ≡ true)

  -- `next` is at its end, or it yields one more node.
  abbrev Yields : List ℕ → List ℕ → List (Option ℕ × ℕ) → Type 0
  Yields visited order stack =
      ((next explore g visited stack ≡ done (none, visited, []))
        × Searching successors root visited order [])
      ⊎ ((edge : Option ℕ) × (node : ℕ) × (stack' : List (Option ℕ × ℕ)) × (next explore g visited
              stack
            ≡ done (some (edge, node), add node visited, stack'))
          × (member node visited ≡ false)
          × (member node within ≡ true)
          × Going (add node visited) (order ++ (node ∷ [])) stack')

  next_old :
      (visited : List ℕ) (stack : List (Option ℕ × ℕ)) (edge : Option ℕ) (node : ℕ)
      → member node visited ≡ true
      → next explore g visited ((edge, node) ∷ stack) ≡ next explore g visited stack
  unfolding next
  next_old visited stack edge node old = rw (next, old) refl

  next_new :
      (visited : List ℕ) (stack : List (Option ℕ × ℕ)) (edge : Option ℕ) (node : ℕ)
      → member node visited ≡ false
      → get_node g node ≡ true
      → (found : List EdgeItem) → explore g node ≡ done found
      → next explore g visited ((edge, node) ∷ stack)
        ≡ done (
          some (tree_edge explore g edge, node),
          add node visited,
          push_items (add node visited) found stack,
        )
  unfolding next
  next_new visited stack edge node new seen found eq = rw (next, new, seen, eq, new) refl

  next-Yields :
      (visited order : List ℕ) (stack : List (Option ℕ × ℕ))
      → Going visited order stack
      → Yields visited order stack
  unfolding next
  next-Yields visited order [] (inv, inside) = inl (refl, inv)
  next-Yields visited order ((edge, node) ∷ stack) (inv, inside) =
      elim (Bool-cases (member node visited)) [
        | inl old ↦
            elim (next-Yields visited order stack (
              skip-Searching successors root visited order (nodes_of stack) node inv old,
              λ n h. inside n (ground (arith, h)),
            )) [
              | inl (end, fact) ↦ inl (next_old visited stack edge node old ∙ end, fact)
              | inr (e, n, stack', eq, fresh, there, going) ↦
                  inr (e, n, stack', next_old visited stack edge node old ∙ eq, fresh, there, going)
            ]
        | inr new ↦
            let there = inside node (ground arith) in
            let (seen, eq) = explored node there in
            let same = nodes_of-push (add node visited) (items node) stack in
            inr (
              tree_edge explore g edge,
              node,
              push_items (add node visited) (items node) stack,
              next_new visited stack edge node new seen (items node) eq,
              new,
              there,
              (
                subst (Searching successors root (add node visited) (order ++ (node ∷ [])))
                    (sym same)
                    (visit-Searching successors root visited order (nodes_of stack) node inv new),
                λ n h. ground (
                  arith,
                  inside n,
                  shut node n there,
                  member-push (add node visited) (targets (items node)) (nodes_of stack) n,
                  sym (ap (member n) same) ∙ h,
                ),
              ),
            )
      ]

  -- The nodes of `within` that are not visited.
  abbrev left : List ℕ → ℕ
  left visited = weight (λ _. []) visited within

  -- `collect` yields the nodes of `more`, which end a search that has yielded `order`.
  abbrev Collects : List ℕ → Outcome (Option (List (Option ℕ × ℕ))) → Type 0
  Collects order result =
      (more : List (Option ℕ × ℕ)) × (result ≡ done (some more))
      × Finds successors root (order ++ nodes_of more)

  collect_done :
      (fuel : ℕ) (visited order : List ℕ) (stack : List (Option ℕ × ℕ))
      → Going visited order stack
      → left visited < fuel
      → Collects order (collect explore g fuel visited stack)
  unfolding collect
  collect_done zero visited order stack going enough = absurd (omega (arith, enough))
  collect_done (suc fuel) visited order stack going enough =
      elim (next-Yields visited order stack going) [
        | inl (end, inv) ↦ (
          [],
          rw end refl,
          subst (Finds successors root) (append_nil order)
              (Searching-Finds successors root visited order inv),
        )
        | inr (edge, node, stack', eq, fresh, there, going') ↦
            let (more, found, fact) =
              collect_done fuel (add node visited) (order ++ (node ∷ [])) stack' going'
                (omega (arith, enough, weight-add (λ _. []) visited within node fresh there)) in
            (
              (edge, node) ∷ more,
              rw (eq, found) refl,
              subst (Finds successors root) (append_append order (node ∷ []) (nodes_of more)) fact,
            )
      ]

  pub collect_exact :
      (fuel : ℕ)
      → member root within ≡ true
      → left [] < fuel
      → Collects [] (collect explore g fuel [] ((none, root) ∷ []))
  collect_exact fuel there enough =
      collect_done fuel [] [] ((none, root) ∷ [])
        (
          root-Searching successors root,
          λ n h. subst (λ x. member x within ≡ true) (sym (==→eq n root (ground (arith, h)))) there,
        )
        enough
