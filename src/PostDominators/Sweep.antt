-- ===== src/PostDominators/Sweep.antt =====
-- One round over the nodes.
use jstd.Base.{
  ℕ, ◌<◌, ◌≡◌, refl, ◌∙◌, sym, subst, inl, inr, Bool, true, false, ◌||◌, some, List, [], ◌∷◌, ◌==◌,
  ==→eq, eq→==, if◌then◌else◌, Bool-cases, is_some, member, arith, lookup, insert, lookup-insert,
}
use jstd.PostDominators.{inner, set_eq}
use jstd.PostDominators.Escape.{Escapes, dead, onward}
use jstd.PostDominators.Tally.{tally, total, tally_le, tally_lt, total_lt}
use jstd.PostDominators.Meet.{has, in_all, met, member-retain, set_eq-lacks}

module _ (pdom pdom' : List (ℕ × List ℕ))
    (sub : (n m : ℕ) → has pdom' n m ≡ true → has pdom n m ≡ true) where
  in_all_le : (succs : List ℕ) (m : ℕ) → in_all pdom' succs m ≡ true → in_all pdom succs m ≡ true
  in_all_le [] m h = refl
  in_all_le (s ∷ succs) m h = ground (arith, sub s m, in_all_le succs m, h)

  met_le : (succs : List ℕ) (m : ℕ) → met pdom' succs m ≡ true → met pdom succs m ≡ true
  met_le [] m h = h
  met_le (s ∷ succs) m h = ground (arith, sub s m, in_all_le succs m, h)

not_in_all :
    (pdom : List (ℕ × List ℕ)) (succs : List ℕ) (m : ℕ)
    → in_all pdom succs m ≡ false
    → (s : ℕ) × (member s succs ≡ true) × (has pdom s m ≡ false)
not_in_all pdom [] m h = absurd (ground (arith, h))
not_in_all pdom (s ∷ succs) m h = elim (Bool-cases (has pdom s m)) [
  | inl on ↦
      let (t, at, off) = not_in_all pdom succs m (ground (arith, h, on)) in
      (t, ground (arith, at), off)
  | inr off ↦ (s, ground arith, off)
]

module _ (successors : ℕ → List ℕ) (nodes node_set exit_set : List ℕ)
    (listed : (n : ℕ) → member n node_set ≡ true → member n nodes ≡ true) where
  -- What the set of a node is set to.
  abbrev pub next : List (ℕ × List ℕ) → ℕ → ℕ → Bool
  next pdom n m = m == n || met pdom (inner successors node_set n) m

  pub record Approaches (pdom : List (ℕ × List ℕ)) : Type 0 where
    pub found : (n : ℕ) → member n nodes ≡ true → is_some (lookup n pdom) ≡ true
    pub bounded : (n m : ℕ) → has pdom n m ≡ true → member m nodes ≡ true
    pub exits :
        (n m : ℕ) → member n nodes ≡ true → member n exit_set ≡ true → has pdom n m ≡ (m == n)
    pub sound :
        (n m : ℕ)
        → member n nodes ≡ true
        → member m nodes ≡ true
        → has pdom n m ≡ false
        → Escapes successors node_set exit_set m n
    pub shrinks :
        (n m : ℕ)
        → member n nodes ≡ true
        → member n exit_set ≡ false
        → next pdom n m ≡ true
        → has pdom n m ≡ true

  abbrev pub size : List (ℕ × List ℕ) → ℕ
  size pdom = total (λ n. tally (has pdom n) nodes) nodes

  module _ (pdom : List (ℕ × List ℕ)) (a : Approaches pdom) (node : ℕ)
      (there : member node nodes ≡ true) (inside : member node exit_set ≡ false) (set : List ℕ)
      (updated : (m : ℕ) → member m set ≡ next pdom node m) where
    has-insert :
        (n m : ℕ)
        → has (insert node set pdom) n m ≡ (if n == node then next pdom node m else has pdom n m)
    has-insert n m = elim (Bool-cases (n == node)) [
      | inl same ↦ rw (lookup-insert node set pdom n, same) (updated m)
      | inr other ↦ rw (lookup-insert node set pdom n, other) refl
    ]

    insert-has : (n m : ℕ) → has (insert node set pdom) n m ≡ true → has pdom n m ≡ true
    insert-has n m h = elim (Bool-cases (n == node)) [
      | inl same ↦
          subst (λ k. has pdom k m ≡ true) (sym (==→eq n node same))
            (a.shrinks node m there inside (ground (arith, has-insert n m, h, same)))
      | inr other ↦ ground (arith, has-insert n m, h, other)
    ]

    -- An element that the new set lacks escapes.
    escape :
        (m : ℕ)
        → member m nodes ≡ true
        → next pdom node m ≡ false
        → Escapes successors node_set exit_set m node
    escape m at h = go (inner successors node_set node) refl (ground (arith, h))
      where
        go :
            (succs : List ℕ)
            → inner successors node_set node ≡ succs
            → met pdom succs m ≡ false
            → Escapes successors node_set exit_set m node
        go [] eq off = dead inside eq (ground (arith, h))
        go (s ∷ succs) eq off =
            let (t, on, lacks) = not_in_all pdom (s ∷ succs) m off in
            let one = subst (λ ss. member t ss ≡ true) (sym eq) on in
            onward inside (ground (arith, h)) one (
              a.sound t m
                (listed t (ground (arith, sym (member-retain node_set (successors node) t) ∙ one)))
                at lacks)

    next_le : (n m : ℕ) → next (insert node set pdom) n m ≡ true → next pdom n m ≡ true
    next_le n m h =
        ground
          (arith, h, met_le pdom (insert node set pdom) insert-has (inner successors node_set n) m)

    pub insert-Approaches : Approaches (insert node set pdom)
    insert-Approaches = record {
      found = λ n h. ground (arith, lookup-insert node set pdom n, a.found n h);
      bounded = λ n m h. a.bounded n m (insert-has n m h);
      exits = λ n m h k. ground (arith, has-insert n m, a.exits n m h k, k, inside, ==→eq n node);
      sound = λ n m h k off. elim (Bool-cases (n == node)) [
        | inl same ↦
            subst (Escapes successors node_set exit_set m) (sym (==→eq n node same))
              (escape m k (ground (arith, has-insert n m, off, same)))
        | inr other ↦ a.sound n m h k (ground (arith, has-insert n m, off, other))
      ];
      shrinks = λ n m h k on. elim (Bool-cases (n == node)) [
        | inl same ↦
            has-insert n m
            ∙ rw same (subst (λ k. next pdom k m ≡ true) (==→eq n node same) (next_le n m on))
        | inr other ↦ has-insert n m ∙ rw other (a.shrinks n m h k (next_le n m on))
      ];
    }

    -- A set that changed has lost an element.
    pub insert-size :
        (old : List ℕ)
        → lookup node pdom ≡ some old
        → set_eq set old ≡ false
        → size (insert node set pdom) < size pdom
    insert-size old h differs =
        let before : (m : ℕ) → has pdom node m ≡ member m old = λ m. rw h refl in
        let (m, was, off) =
          set_eq-lacks set old differs
            (λ x k. sym (before x) ∙ a.shrinks node x there inside (sym (updated x) ∙ k)) in
        total_lt (λ n. tally (has (insert node set pdom) n) nodes) (λ n. tally (has pdom n) nodes)
          nodes (λ n. tally_le (has (insert node set pdom) n) (has pdom n) nodes (insert-has n))
          node there
          (tally_lt (has (insert node set pdom) node) (has pdom node) nodes (insert-has node) m
            (a.bounded node m (before m ∙ was))
            (has-insert node m ∙ rw (eq→== node node refl) (sym (updated m) ∙ off))
            (before m ∙ was))
