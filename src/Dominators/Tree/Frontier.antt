-- ===== src/Dominators/Tree/Frontier.antt =====
-- `dominator_frontier` against the nodes above a predecessor.
use jstd.Base.{
  ℕ, zero, suc, ◌<◌, ◌≡◌, refl, ◌∙◌, sym, subst, ap, ◌⊎◌, inl, inr, Bool, true, false, ◌||◌, none,
  some, List, ◌==◌, ==→eq, eq→==, if◌then◌else◌, Bool-cases, Option-cases, member, member-add, add,
  arith, ◌↔◌, lookup, insert, lookup-insert,
}
use jstd.Dominators.Tree.{or_empty, entry, run_up}
use jstd.Dominators.Tree.Above.{IsRanked, some-inj}
use jstd.Dominators.Tree.Strip.{Strip, here, above}

-- Whether `y` is in the frontier of `r`.
abbrev pub in_frontier : List (ℕ × List ℕ) → ℕ → ℕ → Bool
in_frontier frontier r y = member y (entry r frontier)

-- `after` holds what `before` does and what `R` says, and no more.
abbrev pub Gains : List (ℕ × List ℕ) → List (ℕ × List ℕ) → (ℕ → ℕ → Type 0) → Type 0
Gains before after R =
    (r y : ℕ) → (in_frontier after r y ≡ true) ↔ ((in_frontier before r y ≡ true) ⊎ R r y)

pub Gains-both :
    (before between after : List (ℕ × List ℕ)) {R S : ℕ → ℕ → Type 0}
    → Gains before between R
    → Gains between after S
    → Gains before after (λ r y. R r y ⊎ S r y)
Gains-both before between after first second r y = (
  λ h. elim ((second r y).0 h) [
    | inr s ↦ inr (inr s)
    | inl old ↦ elim ((first r y).0 old) [ inl older ↦ inl older | inr f ↦ inr (inl f) ]
  ],
  λ h. elim h [
    | inl old ↦ (second r y).1 (inl ((first r y).1 (inl old)))
    | inr new ↦ elim new [
      | inl f ↦ (second r y).1 (inl ((first r y).1 (inr f)))
      | inr s ↦ (second r y).1 (inr s)
    ]
  ],
)

pub Gains-map :
    (before after : List (ℕ × List ℕ)) {R S : ℕ → ℕ → Type 0}
    → ((r y : ℕ) → R r y ↔ S r y)
    → Gains before after R
    → Gains before after S
Gains-map before after same gains r y = (
  λ h. elim ((gains r y).0 h) [ inl old ↦ inl old | inr new ↦ inr ((same r y).0 new) ],
  λ h. (gains r y).1 (elim h [ inl old ↦ inl old | inr new ↦ inr ((same r y).1 new) ]),
)

entry-insert :
    (k : ℕ) (set : List ℕ) (map : List (ℕ × List ℕ)) (q : ℕ)
    → entry q (insert k set map) ≡ (if q == k then set else entry q map)
entry-insert k set map q =
    ap or_empty (lookup-insert k set map q)
    ∙ elim (Bool-cases (q == k)) [ inl same ↦ rw same refl | inr other ↦ rw other refl ]

-- One insertion into one set.
note-Gains :
    (runner n : ℕ) (frontier : List (ℕ × List ℕ))
    → Gains frontier
        (insert runner (add n (entry runner frontier)) frontier)
        (λ r y. (r ≡ runner) × (y ≡ n))
note-Gains runner n frontier r y = elim (Bool-cases (r == runner)) [
  | inl same ↦
      let at = ==→eq r runner same in
      let now : in_frontier (insert runner (add n (entry runner frontier)) frontier) r y
          ≡ (y == n || in_frontier frontier r y) =
        ap (member y) (entry-insert runner (add n (entry runner frontier)) frontier r)
        ∙ rw same (
            member-add n y (entry runner frontier)
            ∙ ap (λ k. y == n || in_frontier frontier k y) (sym at)) in
      (
        λ h. elim (Bool-cases (y == n)) [
          | inl hit ↦ inr (at, ==→eq y n hit)
          | inr miss ↦ inl (ground (arith, now, h, miss))
        ],
        λ h. elim h [
          | inl old ↦ ground (arith, now, old)
          | inr (_, hit) ↦ ground (arith, now, eq→== y n hit)
        ],
      )
  | inr other ↦
      let now : in_frontier (insert runner (add n (entry runner frontier)) frontier) r y
          ≡ in_frontier frontier r y =
        ap (member y) (entry-insert runner (add n (entry runner frontier)) frontier r)
        ∙ rw other refl in
      (
        λ h. inl (sym now ∙ h),
        λ h. elim h [ inl old ↦ now ∙ old | inr (at, _) ↦ absurd (ground (arith, other, at)) ],
      )
]

module _ (idom : List (ℕ × ℕ)) (rank : ℕ → ℕ) (ranked : IsRanked idom rank) where
  run_stop :
      (fuel stop n runner : ℕ) (frontier : List (ℕ × List ℕ))
      → runner == stop ≡ true
      → run_up (suc fuel) idom stop n runner frontier ≡ some frontier
  unfolding run_up
  run_stop fuel stop n runner frontier same = rw (run_up, same) refl

  run_top :
      (fuel stop n runner : ℕ) (frontier : List (ℕ × List ℕ))
      → runner == stop ≡ false
      → lookup runner idom ≡ none
      → run_up (suc fuel) idom stop n runner frontier
        ≡ some (insert runner (add n (entry runner frontier)) frontier)
  unfolding run_up
  run_top fuel stop n runner frontier other top = rw (run_up, other, top) refl

  run_next :
      (fuel stop n runner p : ℕ) (frontier : List (ℕ × List ℕ))
      → runner == stop ≡ false
      → lookup runner idom ≡ some p
      → run_up (suc fuel) idom stop n runner frontier
        ≡ run_up fuel idom stop n p (insert runner (add n (entry runner frontier)) frontier)
  unfolding run_up
  run_next fuel stop n runner p frontier other up = rw (run_up, other, up) refl

  -- What one run adds.
  abbrev pub Passed : ℕ → ℕ → ℕ → ℕ → ℕ → Type 0
  Passed stop n runner r y = Strip idom stop r runner × (y ≡ n)

  Passed-stop : (stop n runner : ℕ) → runner == stop ≡ true → (r y : ℕ) → ¬ Passed stop n runner r y
  Passed-stop stop n runner same r y (here other, _) = ground (arith, same, other)
  Passed-stop stop n runner same r y (above other up rest, _) = ground (arith, same, other)

  Passed-top :
      (stop n runner : ℕ)
      → runner == stop ≡ false
      → lookup runner idom ≡ none
      → (r y : ℕ) → ((r ≡ runner) × (y ≡ n)) ↔ Passed stop n runner r y
  Passed-top stop n runner other top r y = (
    λ (at, hit). (subst (λ k. Strip idom stop k runner) (sym at) (here other), hit),
    λ (strip, hit). (alone runner refl strip, hit),
  )
    where
      alone : (m : ℕ) → m ≡ runner → Strip idom stop r m → r ≡ runner
      alone m at (here _) = at
      alone m at (above _ up _) =
          absurd (ground (arith, subst (λ k. lookup k idom ≡ none) (sym at) top, up))

  Passed-next :
      (stop n runner p : ℕ)
      → runner == stop ≡ false
      → lookup runner idom ≡ some p
      → (r y : ℕ) → (((r ≡ runner) × (y ≡ n)) ⊎ Passed stop n p r y) ↔ Passed stop n runner r y
  Passed-next stop n runner p other up r y = (
    λ h. elim h [
      | inl (at, hit) ↦ (subst (λ k. Strip idom stop k runner) (sym at) (here other), hit)
      | inr (strip, hit) ↦ (above other up strip, hit)
    ],
    λ (strip, hit). split runner refl hit strip,
  )
    where
      split :
          (m : ℕ)
          → m ≡ runner
          → y ≡ n
          → Strip idom stop r m
          → ((r ≡ runner) × (y ≡ n)) ⊎ Passed stop n p r y
      split m at hit (here _) = inl (at, hit)
      split m at hit (above {n = _} {p = q} _ step rest) = inr (
        subst (Strip idom stop r) (some-inj (sym step ∙ ap (λ k. lookup k idom) at ∙ up)) rest,
        hit,
      )

  pub run_done :
      (fuel stop n runner : ℕ) (frontier : List (ℕ × List ℕ))
      → rank runner < fuel
      → (result : List (ℕ × List ℕ)) × (run_up fuel idom stop n runner frontier ≡ some result)
        × Gains frontier result (Passed stop n runner)
  run_done zero stop n runner frontier enough = absurd (ground (arith, enough))
  run_done (suc fuel) stop n runner frontier enough = elim (Bool-cases (runner == stop)) [
    | inl same ↦ (
      frontier,
      run_stop fuel stop n runner frontier same,
      λ r y. (
        λ h. inl h,
        λ h. elim h [ inl old ↦ old | inr new ↦ absurd (Passed-stop stop n runner same r y new) ],
      ),
    )
    | inr other ↦
        let noted = insert runner (add n (entry runner frontier)) frontier in
        elim (Option-cases (lookup runner idom)) [
          | inl top ↦ (
            noted,
            run_top fuel stop n runner frontier other top,
            Gains-map frontier noted (Passed-top stop n runner other top)
                (note-Gains runner n frontier),
          )
          | inr (p, up) ↦
              let (result, eq, gains) =
                run_done fuel stop n p noted (ground (arith, enough, ranked runner p up)) in
              (
                result,
                run_next fuel stop n runner p frontier other up ∙ eq,
                Gains-map frontier result (Passed-next stop n runner p other up)
                    (Gains-both frontier noted result (note-Gains runner n frontier) gains),
              )
        ]
  ]
