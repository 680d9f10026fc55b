-- ===== src/PostDominators/Round.antt =====
-- One round of the `while` loop: it ends, and it settles or a set lost an element.
use jstd.Base.{
  ℕ, ◌<◌, ◌≡◌, refl, ◌∙◌, sym, subst, ap, ◌⊎◌, inl, inr, Bool, true, false, ◌||◌, Option, none,
  some, List, [], ◌∷◌, ◌==◌, ==→eq, Outcome, done, Bool-cases, is_some, member, member-add, add,
  arith, lookup, insert,
}
use jstd.PostDominators.{inner, meet, set_eq, sweep}
use jstd.PostDominators.Meet.{has, holds, member-retain, set_eq-member, meet_done}
use jstd.PostDominators.Sweep.{next, Approaches, size, insert-Approaches, insert-size}

the_set : (o : Option (List ℕ)) → is_some o ≡ true → (set : List ℕ) × (o ≡ some set)
the_set none h = absurd (ground (arith, h))
the_set (some set) h = (set, refl)

module _ (successors : ℕ → List ℕ) (nodes node_set exit_set : List ℕ) where
  sweep_exit :
      (node : ℕ) (rest : List ℕ) (pdom : List (ℕ × List ℕ)) (changed : Bool)
      → member node exit_set ≡ true
      → sweep successors nodes node_set exit_set (node ∷ rest) pdom changed
        ≡ sweep successors nodes node_set exit_set rest pdom changed
  unfolding sweep
  sweep_exit node rest pdom changed on = rw (sweep, on) refl

  -- The rest of the round, once the sets are compared.
  abbrev choose :
      (node : ℕ) (rest : List ℕ) (pdom : List (ℕ × List ℕ)) (changed : Bool) (found : List ℕ)
      → Bool
      → Outcome (List (ℕ × List ℕ) × Bool)
  choose node rest pdom changed found same = elim same [
    | true ↦ sweep successors nodes node_set exit_set rest pdom changed
    | false ↦ sweep successors nodes node_set exit_set rest (insert node (add node found) pdom) true
  ]

  sweep_same :
      (node : ℕ) (rest : List ℕ) (pdom : List (ℕ × List ℕ)) (changed : Bool) (found old : List ℕ)
      → member node exit_set ≡ false
      → meet pdom (inner successors node_set node) ≡ done found
      → lookup node pdom ≡ some old
      → set_eq (add node found) old ≡ true
      → sweep successors nodes node_set exit_set (node ∷ rest) pdom changed
        ≡ sweep successors nodes node_set exit_set rest pdom changed
  unfolding sweep
  sweep_same node rest pdom changed found old off eq at same =
      rw (sweep, off, eq, at) (ap (choose node rest pdom changed found) same)

  sweep_differs :
      (node : ℕ) (rest : List ℕ) (pdom : List (ℕ × List ℕ)) (changed : Bool) (found old : List ℕ)
      → member node exit_set ≡ false
      → meet pdom (inner successors node_set node) ≡ done found
      → lookup node pdom ≡ some old
      → set_eq (add node found) old ≡ false
      → sweep successors nodes node_set exit_set (node ∷ rest) pdom changed
        ≡ sweep successors nodes node_set exit_set rest (insert node (add node found) pdom) true
  unfolding sweep
  sweep_differs node rest pdom changed found old off eq at differs =
      rw (sweep, off, eq, at) (ap (choose node rest pdom changed found) differs)

module _ (successors : ℕ → List ℕ) (nodes node_set exit_set : List ℕ)
    (listed : (n : ℕ) → member n node_set ≡ true → member n nodes ≡ true) where
  -- The sets of the nodes of `rest` stand as they are.
  abbrev pub Settled : List (ℕ × List ℕ) → List ℕ → Type 0
  Settled pdom rest =
      (n m : ℕ)
      → member n rest ≡ true
      → member n exit_set ≡ false
      → has pdom n m ≡ next successors nodes node_set exit_set listed pdom n m

  -- A round from `pdom` ends with `pdom'` and the flag `changed'`.
  abbrev pub Round : List (ℕ × List ℕ) → Bool → List ℕ → List (ℕ × List ℕ) × Bool → Type 0
  Round pdom changed rest (pdom', changed') =
      Approaches successors nodes node_set exit_set listed pdom'
      × (((pdom' ≡ pdom) × (changed' ≡ changed) × Settled pdom rest)
          ⊎ ((changed' ≡ true)
              × (size successors nodes node_set exit_set listed pdom'
                  < size successors nodes node_set exit_set listed pdom)))

  -- A node that keeps its set.
  Round-same :
      (pdom : List (ℕ × List ℕ)) (changed : Bool) (node : ℕ) (rest : List ℕ)
      (result : List (ℕ × List ℕ) × Bool)
      → ((m : ℕ)
          → member node exit_set ≡ false
          → has pdom node m ≡ next successors nodes node_set exit_set listed pdom node m)
      → Round pdom changed rest result
      → Round pdom changed (node ∷ rest) result
  Round-same pdom changed node rest result stands (a, inl (same, flag, settled)) = (
    a,
    inl (
      same,
      flag,
      λ n m h k. elim (Bool-cases (n == node)) [
        | inl at ↦
            subst (λ x. has pdom x m ≡ next successors nodes node_set exit_set listed pdom x m)
              (sym (==→eq n node at))
              (stands m (subst (λ x. member x exit_set ≡ false) (==→eq n node at) k))
        | inr other ↦ settled n m (ground (arith, h, other)) k
      ],
    ),
  )
  Round-same pdom changed node rest result stands (a, inr less) = (a, inr less)

  -- A node that gets a smaller set.
  Round-less :
      (pdom pdom' : List (ℕ × List ℕ)) (changed : Bool) (node : ℕ) (rest : List ℕ)
      (result : List (ℕ × List ℕ) × Bool)
      → size successors nodes node_set exit_set listed pdom'
        < size successors nodes node_set exit_set listed pdom
      → Round pdom' true rest result
      → Round pdom changed (node ∷ rest) result
  Round-less pdom pdom' changed node rest result less (a, inl (same, flag, settled)) = (
    a,
    inr (
      flag,
      subst
          (λ p.
            size successors nodes node_set exit_set listed p
            < size successors nodes node_set exit_set listed pdom)
          (sym same) less,
    ),
  )
  Round-less pdom pdom' changed node rest result less (a, inr (flag, more)) =
      (a, inr (flag, omega (arith, less, more)))

  pub sweep_done :
      (rest : List ℕ) (pdom : List (ℕ × List ℕ)) (changed : Bool)
      → ((n : ℕ) → member n rest ≡ true → member n nodes ≡ true)
      → Approaches successors nodes node_set exit_set listed pdom
      → (result : List (ℕ × List ℕ) × Bool) × (sweep successors nodes node_set exit_set rest pdom
            changed
          ≡ done result)
        × Round pdom changed rest result
  unfolding sweep
  sweep_done [] pdom changed there a =
      ((pdom, changed), refl, (a, inl (refl, refl, λ n m h k. absurd (ground (arith, h)))))
  sweep_done (node ∷ rest) pdom changed there a = elim (Bool-cases (member node exit_set)) [
    | inl on ↦
        let (result, eq, round) =
          sweep_done rest pdom changed (λ n h. there n (ground (arith, h))) a in
        (
          result,
          sweep_exit successors nodes node_set exit_set node rest pdom changed on ∙ eq,
          Round-same pdom changed node rest result (λ m off. absurd (ground (arith, on, off)))
              round,
        )
    | inr off ↦
        let here = there node (ground arith) in
        let (found, eq, exact) = meet_done pdom (inner successors node_set node) (λ s h.
          a.found s
            (listed s (ground (arith, sym (member-retain node_set (successors node) s) ∙ h)))) in
        let (old, at) = the_set (lookup node pdom) (a.found node here) in
        let updated : (m : ℕ)
            → member m (add node found)
              ≡ next successors nodes node_set exit_set listed pdom node m =
          λ m. member-add node m found ∙ ap (λ b. m == node || b) (exact m) in
        elim (Bool-cases (set_eq (add node found) old)) [
          | inl same ↦
              let (result, looped, round) =
                sweep_done rest pdom changed (λ n h. there n (ground (arith, h))) a in
              (
                result,
                sweep_same successors nodes node_set exit_set node rest pdom changed found old off
                      eq at same
                    ∙ looped,
                Round-same pdom changed node rest result
                    (λ m _.
                      ap (λ o. holds o m) at
                      ∙ sym (set_eq-member (add node found) old same m)
                      ∙ updated m)
                    round,
              )
          | inr differs ↦
              let (result, looped, round) =
                sweep_done rest (insert node (add node found) pdom) true
                  (λ n h. there n (ground (arith, h)))
                  (insert-Approaches successors nodes node_set exit_set listed pdom a node here off
                    (add node found) updated) in
              (
                result,
                sweep_differs successors nodes node_set exit_set node rest pdom changed found old
                      off eq at differs
                    ∙ looped,
                Round-less pdom (insert node (add node found) pdom) changed node rest result
                    (insert-size successors nodes node_set exit_set listed pdom a node here off
                      (add node found) updated old at differs)
                    round,
              )
        ]
  ]
