-- ===== src/Dominators/Tree/Joins.antt =====
-- `dominator_frontier` visits the joins, the nodes with two predecessors or more.
use jstd.Base.{
  ℕ, ◌<◌, ◌≡◌, refl, ◌∙◌, sym, subst, ap, ◌⊎◌, inl, inr, true, false, none, some, List, [], ◌∷◌,
  ◌==◌, ==→eq, ltb, length, Bool-cases, Option-cases, member, arith, ◌↔◌, lookup,
}
use jstd.Dominators.Tree.{run_up, run_all, frontier_from}
use jstd.Dominators.Tree.Above.{IsRanked, some-inj}
use jstd.Dominators.Tree.Strip.{Strip}
use jstd.Dominators.Tree.Frontier.{Gains, Gains-both, Gains-map, run_done}

-- `p` is among the predecessors of `y`, which has at least two.
abbrev pub JoinsAt : ℕ → ℕ → List (ℕ × List ℕ) → Type 0
JoinsAt y p [] = ⊥
JoinsAt y p ((n, preds) ∷ rest) =
    ((y ≡ n) × (ltb (length preds) 2 ≡ false) × (member p preds ≡ true)) ⊎ JoinsAt y p rest

module _ (idom : List (ℕ × ℕ)) where
  -- What the loops add.
  abbrev pub Fringe : List (ℕ × List ℕ) → ℕ → ℕ → Type 0
  Fringe preds r y =
      (p : ℕ) × (q : ℕ) × JoinsAt y p preds × (lookup y idom ≡ some q) × Strip idom q r p

  Fringe-skip :
      (n : ℕ) (ps : List ℕ) (rest : List (ℕ × List ℕ))
      → ((y q : ℕ) → y ≡ n → ltb (length ps) 2 ≡ false → lookup y idom ≡ some q → ⊥)
      → (r y : ℕ) → Fringe rest r y ↔ Fringe ((n, ps) ∷ rest) r y
  Fringe-skip n ps rest skipped r y = (
    λ (p, q, joins, up, strip). (p, q, inr joins, up, strip),
    λ (p, q, joins, up, strip). elim joins [
      | inr later ↦ (p, q, later, up, strip)
      | inl (at, two, _) ↦ absurd (skipped y q at two up)
    ],
  )

  Fringe-take :
      (n stop : ℕ) (ps : List ℕ) (rest : List (ℕ × List ℕ))
      → lookup n idom ≡ some stop
      → ltb (length ps) 2 ≡ false
      → (r y : ℕ)
      → (((p : ℕ) × (member p ps ≡ true) × Strip idom stop r p × (y ≡ n)) ⊎ Fringe rest r y)
        ↔ Fringe ((n, ps) ∷ rest) r y
  Fringe-take n stop ps rest up two r y = (
    λ h. elim h [
      | inl (p, on, strip, at) ↦
          (p, stop, inl (at, two, on), ap (λ k. lookup k idom) at ∙ up, strip)
      | inr (p, q, joins, found, strip) ↦ (p, q, inr joins, found, strip)
    ],
    λ (p, q, joins, found, strip). elim joins [
      | inr later ↦ inr (p, q, later, found, strip)
      | inl (at, _, on) ↦ inl (
        p,
        on,
        subst (λ k. Strip idom k r p) (some-inj (sym found ∙ ap (λ k. lookup k idom) at ∙ up))
            strip,
        at,
      )
    ],
  )

  module _ (rank : ℕ → ℕ) (ranked : IsRanked idom rank) (fuel : ℕ)
      (enough : (n : ℕ) → rank n < fuel) where
    abbrev OneOf : ℕ → ℕ → List ℕ → ℕ → ℕ → Type 0
    OneOf stop n ps r y = (p : ℕ) × (member p ps ≡ true) × Strip idom stop r p × (y ≡ n)

    OneOf-next :
        (stop n p : ℕ) (ps : List ℕ) (r y : ℕ)
        → ((Strip idom stop r p × (y ≡ n)) ⊎ OneOf stop n ps r y) ↔ OneOf stop n (p ∷ ps) r y
    OneOf-next stop n p ps r y = (
      λ h. elim h [
        | inl (strip, at) ↦ (p, ground arith, strip, at)
        | inr (k, on, strip, at) ↦ (k, ground (arith, on), strip, at)
      ],
      λ (k, on, strip, at). elim (Bool-cases (k == p)) [
        | inl same ↦ inl (subst (Strip idom stop r) (==→eq k p same) strip, at)
        | inr other ↦ inr (k, ground (arith, on, other), strip, at)
      ],
    )

    all_next :
        (stop n p : ℕ) (ps : List ℕ) (frontier noted : List (ℕ × List ℕ))
        → run_up fuel idom stop n p frontier ≡ some noted
        → run_all fuel idom stop n (p ∷ ps) frontier ≡ run_all fuel idom stop n ps noted
    unfolding run_all
    all_next stop n p ps frontier noted eq = rw (run_all, eq) refl

    all_done :
        (stop n : ℕ) (ps : List ℕ) (frontier : List (ℕ × List ℕ))
        → (result : List (ℕ × List ℕ)) × (run_all fuel idom stop n ps frontier ≡ some result)
          × Gains frontier result (OneOf stop n ps)
    unfolding run_all
    all_done stop n [] frontier = (
      frontier,
      refl,
      λ r y. (
        λ h. inl h,
        λ h. elim h [ inl old ↦ old | inr (p, on, _, _) ↦ absurd (ground (arith, on)) ],
      ),
    )
    all_done stop n (p ∷ ps) frontier =
        let (noted, first, gains) = run_done idom rank ranked fuel stop n p frontier (enough p) in
        let (result, eq, more) = all_done stop n ps noted in
        (
          result,
          all_next stop n p ps frontier noted first ∙ eq,
          Gains-map frontier result (OneOf-next stop n p ps)
              (Gains-both frontier noted result gains more),
        )

    from_top :
        (n : ℕ) (ps : List ℕ) (rest frontier : List (ℕ × List ℕ))
        → lookup n idom ≡ none
        → frontier_from fuel idom ((n, ps) ∷ rest) frontier ≡ frontier_from fuel idom rest frontier
    unfolding frontier_from
    from_top n ps rest frontier top = rw (frontier_from, top) refl

    from_single :
        (n stop : ℕ) (ps : List ℕ) (rest frontier : List (ℕ × List ℕ))
        → lookup n idom ≡ some stop
        → ltb (length ps) 2 ≡ true
        → frontier_from fuel idom ((n, ps) ∷ rest) frontier ≡ frontier_from fuel idom rest frontier
    unfolding frontier_from
    from_single n stop ps rest frontier up one = rw (frontier_from, up, one) refl

    from_join :
        (n stop : ℕ) (ps : List ℕ) (rest frontier noted : List (ℕ × List ℕ))
        → lookup n idom ≡ some stop
        → ltb (length ps) 2 ≡ false
        → run_all fuel idom stop n ps frontier ≡ some noted
        → frontier_from fuel idom ((n, ps) ∷ rest) frontier ≡ frontier_from fuel idom rest noted
    unfolding frontier_from
    from_join n stop ps rest frontier noted up two eq = rw (frontier_from, up, two, eq) refl

    pub from_done :
        (preds frontier : List (ℕ × List ℕ))
        → (result : List (ℕ × List ℕ)) × (frontier_from fuel idom preds frontier ≡ some result)
          × Gains frontier result (Fringe preds)
    unfolding frontier_from
    from_done [] frontier = (
      frontier,
      refl,
      λ r y. (λ h. inl h, λ h. elim h [ inl old ↦ old | inr (p, q, joins, _, _) ↦ absurd joins ]),
    )
    from_done ((n, ps) ∷ rest) frontier = elim (Option-cases (lookup n idom)) [
      | inl top ↦
          let (result, eq, gains) = from_done rest frontier in
          (
            result,
            from_top n ps rest frontier top ∙ eq,
            Gains-map frontier result
                (Fringe-skip n ps rest
                  (λ y q at _ up. ground (arith, ap (λ k. lookup k idom) at, top, up)))
                gains,
          )
      | inr (stop, up) ↦ elim (Bool-cases (ltb (length ps) 2)) [
        | inl one ↦
            let (result, eq, gains) = from_done rest frontier in
            (
              result,
              from_single n stop ps rest frontier up one ∙ eq,
              Gains-map frontier result
                  (Fringe-skip n ps rest (λ y q _ two _. ground (arith, one, two))) gains,
            )
        | inr two ↦
            let (noted, first, gains) = all_done stop n ps frontier in
            let (result, eq, more) = from_done rest noted in
            (
              result,
              from_join n stop ps rest frontier noted up two first ∙ eq,
              Gains-map frontier result (Fringe-take n stop ps rest up two)
                  (Gains-both frontier noted result gains more),
            )
      ]
    ]
