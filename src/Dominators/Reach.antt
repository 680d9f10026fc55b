-- ===== src/Dominators/Reach.antt =====
-- `reachable_from_root` lists exactly the nodes that a path from the root leads to, each once.
use jstd.Base.{
  ℕ, ◌≡◌, refl, ◌∙◌, subst, inl, inr, true, false, not, ◌&&◌, ◌||◌, List, [], ◌∷◌, ◌++◌, ◌==◌,
  ==→eq, if◌then◌else◌, Bool-cases, member, Distinct, member-add, add, arith,
}
use jstd.Dominators.{push_unvisited}
use jstd.Dominators.Path.{Reaches, step}

pub member-push :
    (visited succs stack : List ℕ) (n : ℕ)
    → member n (push_unvisited visited succs stack)
      ≡ ((not (member n visited) && member n succs) || member n stack)
member-push visited [] stack n = ground arith
member-push visited (s ∷ succs) stack n =
    member-push visited succs (if member s visited then stack else s ∷ stack) n
    ∙ elim (Bool-cases (n == s)) [
      | inl same ↦ elim (Bool-cases (member s visited)) [
        | inl seen ↦ ground (arith, same, ==→eq n s same, seen)
        | inr new ↦ ground (arith, same, ==→eq n s same, new)
      ]
      | inr other ↦ ground (arith, other)
    ]

pub member-append : (xs ys : List ℕ) (n : ℕ) → member n (xs ++ ys) ≡ (member n xs || member n ys)
member-append [] ys n = refl
member-append (x ∷ xs) ys n = ground (arith, member-append xs ys n)

pub snoc-Distinct :
    (xs : List ℕ) (n : ℕ) → Distinct xs → member n xs ≡ false → Distinct (xs ++ (n ∷ []))
snoc-Distinct [] n distinct new = (refl, tt)
snoc-Distinct (x ∷ xs) n (fresh, distinct) new = (
  ground (arith, member-append xs (n ∷ []) x, fresh, new, ==→eq x n),
  snoc-Distinct xs n distinct (ground (arith, new)),
)

module _ (successors : ℕ → List ℕ) (root : ℕ) where
  -- What the loop keeps true of its variables.
  pub record Searching (visited order stack : List ℕ) : Type 0 where
    pub same : (n : ℕ) → member n order ≡ member n visited
    pub once : Distinct order
    pub sound : (n : ℕ) → (member n visited || member n stack) ≡ true → Reaches successors root n
    pub closed :
        (m n : ℕ)
        → member m visited ≡ true
        → member n (successors m) ≡ true
        → (member n visited || member n stack) ≡ true
    pub begun : (member root visited || member root stack) ≡ true

  pub skip-Searching :
      (visited order stack : List ℕ) (node : ℕ)
      → Searching visited order (node ∷ stack)
      → member node visited ≡ true
      → Searching visited order stack
  skip-Searching visited order stack node inv old = record {
    same = inv.same;
    once = inv.once;
    sound = λ n h. inv.sound n (ground (arith, h));
    closed = λ m n h k. ground (arith, inv.closed m n h k, old, ==→eq n node);
    begun = ground (arith, inv.begun, old, ==→eq root node);
  }

  pub visit-Searching :
      (visited order stack : List ℕ) (node : ℕ)
      → Searching visited order (node ∷ stack)
      → member node visited ≡ false
      → Searching
          (add node visited)
          (order ++ (node ∷ []))
          (push_unvisited (add node visited) (successors node) stack)
  visit-Searching visited order stack node inv new = record {
    same = λ n.
        ground (arith, member-append order (node ∷ []) n, inv.same n, member-add node n visited);
    once = snoc-Distinct order node inv.once (inv.same node ∙ new);
    sound = λ n h. elim (Bool-cases (member n visited || (n == node || member n stack))) [
      | inl old ↦ inv.sound n old
      | inr other ↦ step (inv.sound node (ground arith)) (
          ground (
            arith,
            other,
            h,
            member-push (add node visited) (successors node) stack n,
            member-add node n visited,
          ))
    ];
    closed = λ m n h k. elim (Bool-cases (m == node)) [
      | inl same ↦ ground (
        arith,
        member-push (add node visited) (successors node) stack n,
        subst (λ x. member n (successors x) ≡ true) (==→eq m node same) k,
      )
      | inr other ↦ ground (
        arith,
        inv.closed m n (ground (arith, other, h, member-add node m visited)) k,
        member-push (add node visited) (successors node) stack n,
        member-add node n visited,
      )
    ];
    begun = ground (
      arith,
      inv.begun,
      member-push (add node visited) (successors node) stack root,
      member-add node root visited,
    );
  }
