-- ===== src/Dominators/Tree/Sets.antt =====
-- `dominates` decides whether a node is above another.
use jstd.Base.{
  ℕ, zero, suc, ◌<◌, ◌≡◌, refl, ◌∙◌, sym, subst, ap, ◌⊎◌, inl, inr, Bool, true, false, ◌||◌, Option,
  none, some, List, [], ◌∷◌, ◌==◌, ==→eq, eq→==, Bool-cases, Option-cases, is_some, member,
  member-add, add, arith, ◌↔◌, lookup, insert, lookup-insert, keys, member-keys,
}
use jstd.Dominators.Tree.{
  climb, sets_from, all_nodes, compute_dominator_sets, dominator_set, dominates,
}
use jstd.Dominators.Tree.Above.{Above, itself, higher, IsRanked, some-inj}

module _ (idom : List (ℕ × ℕ)) where
  -- The set holds what is above `n`, and the elements of `before`.
  abbrev pub Gathers : List ℕ → ℕ → List ℕ → Type 0
  Gathers before n set =
      ((d : ℕ) → member d set ≡ true → (member d before ≡ true) ⊎ Above idom d n)
      × ((d : ℕ) → (member d before ≡ true) ⊎ Above idom d n → member d set ≡ true)

  Gathers-top : (before : List ℕ) (n : ℕ) → lookup n idom ≡ none → Gathers before n (add n before)
  Gathers-top before n top = (forth, back)
    where
      forth : (d : ℕ) → member d (add n before) ≡ true → (member d before ≡ true) ⊎ Above idom d n
      forth d h = elim (Bool-cases (d == n)) [
        | inl same ↦ inr (subst (λ k. Above idom d k) (==→eq d n same) itself)
        | inr other ↦ inl (ground (arith, member-add n d before, h, other))
      ]

      alone : (d m : ℕ) → m ≡ n → Above idom d m → member d (add n before) ≡ true
      alone d m at itself = ground (arith, member-add n d before, at)
      alone d m at (higher up rest) =
          absurd (ground (arith, subst (λ k. lookup k idom ≡ none) (sym at) top, up))

      back : (d : ℕ) → (member d before ≡ true) ⊎ Above idom d n → member d (add n before) ≡ true
      back d (inl h) = ground (arith, member-add n d before, h)
      back d (inr path) = alone d n refl path

  Gathers-up :
      (before set : List ℕ) (n p : ℕ)
      → lookup n idom ≡ some p
      → Gathers (add n before) p set
      → Gathers before n set
  Gathers-up before set n p up (fwd, bwd) = (forth, back)
    where
      forth : (d : ℕ) → member d set ≡ true → (member d before ≡ true) ⊎ Above idom d n
      forth d h = elim (fwd d h) [
        | inr path ↦ inr (higher up path)
        | inl old ↦ elim (Bool-cases (d == n)) [
          | inl same ↦ inr (subst (λ k. Above idom d k) (==→eq d n same) itself)
          | inr other ↦ inl (ground (arith, member-add n d before, old, other))
        ]
      ]

      climbed : (d m : ℕ) → m ≡ n → Above idom d m → member d set ≡ true
      climbed d m at itself = bwd d (inl (ground (arith, member-add n d before, at)))
      climbed d m at (higher {n = _} {p = q} step rest) = bwd d (
          inr (
            subst (λ k. Above idom d k) (some-inj (sym step ∙ ap (λ k. lookup k idom) at ∙ up))
              rest))

      back : (d : ℕ) → (member d before ≡ true) ⊎ Above idom d n → member d set ≡ true
      back d (inl h) = bwd d (inl (ground (arith, member-add n d before, h)))
      back d (inr path) = climbed d n refl path

  climb_top :
      (fuel n : ℕ) (before : List ℕ)
      → lookup n idom ≡ none
      → climb (suc fuel) idom n before ≡ some (add n before)
  unfolding climb
  climb_top fuel n before top = rw (climb, top) refl

  climb_up :
      (fuel n p : ℕ) (before : List ℕ)
      → lookup n idom ≡ some p
      → climb (suc fuel) idom n before ≡ climb fuel idom p (add n before)
  unfolding climb
  climb_up fuel n p before up = rw (climb, up) refl

  sets_next :
      (fuel n : ℕ) (ns set : List ℕ) (out : List (ℕ × List ℕ))
      → climb fuel idom n [] ≡ some set
      → sets_from fuel idom (n ∷ ns) out ≡ sets_from fuel idom ns (insert n set out)
  unfolding sets_from
  sets_next fuel n ns set out climbed = rw (sets_from, climbed) refl

  abbrev holds : ℕ → Option (List ℕ) → Bool
  holds d found = elim found [ none ↦ false | some set ↦ member d set ]

  dominates_at :
      (fuel root : ℕ) (preds sets : List (ℕ × List ℕ)) (found : Option (List ℕ)) (d n : ℕ)
      → sets_from fuel idom (all_nodes idom root) [] ≡ some sets
      → lookup n sets ≡ found
      → dominates fuel (record { root = root; idom = idom; preds = preds }) d n
        ≡ some (holds d found)
  unfolding dominates dominator_set compute_dominator_sets
  dominates_at fuel root preds sets found d n eq at =
      rw (dominates, dominator_set, compute_dominator_sets, eq) (ap (λ o. some (holds d o)) at)

  module _ (rank : ℕ → ℕ) (ranked : IsRanked idom rank) where
    climb_done :
        (fuel n : ℕ) (before : List ℕ)
        → rank n < fuel
        → (set : List ℕ) × (climb fuel idom n before ≡ some set) × Gathers before n set
    unfolding climb
    climb_done zero n before enough = absurd (ground (arith, enough))
    climb_done (suc fuel) n before enough = elim (Option-cases (lookup n idom)) [
      | inl top ↦ (add n before, climb_top fuel n before top, Gathers-top before n top)
      | inr (p, up) ↦
          let (set, eq, fact) =
            climb_done fuel p (add n before) (ground (arith, enough, ranked n p up)) in
          (set, climb_up fuel n p before up ∙ eq, Gathers-up before set n p up fact)
    ]

    -- The entry of a node is the set of what is above it.
    abbrev Entry : Option (List ℕ) → ℕ → Type 0
    Entry found n = (set : List ℕ) × (found ≡ some set) × Gathers [] n set

    sets_done :
        (fuel : ℕ)
        → ((n : ℕ) → rank n < fuel)
        → (ns : List ℕ) (out : List (ℕ × List ℕ))
        → (result : List (ℕ × List ℕ)) × (sets_from fuel idom ns out ≡ some result)
          × ((q : ℕ) → member q ns ≡ true → Entry (lookup q result) q)
          × ((q : ℕ) → member q ns ≡ false → lookup q result ≡ lookup q out)
    unfolding sets_from
    sets_done fuel enough [] out = (out, refl, (λ q h. absurd (ground (arith, h))), λ q h. refl)
    sets_done fuel enough (n ∷ ns) out =
        let (set, climbed, fact) = climb_done fuel n [] (enough n) in
        let (result, eq, inside, outside) = sets_done fuel enough ns (insert n set out) in
        (
          result,
          sets_next fuel n ns set out climbed ∙ eq,
          (λ q h. elim (Bool-cases (member q ns)) [
            | inl again ↦ inside q again
            | inr fresh ↦
                let at = ==→eq q n (ground (arith, h, fresh)) in
                (
                  set,
                  outside q fresh ∙ lookup-insert n set out q ∙ rw (eq→== q n at) refl,
                  subst (λ k. Gathers [] k set) (sym at) fact,
                )
          ]),
          λ q h. outside q (ground (arith, h)) ∙ lookup-insert n set out q ∙ ground (arith, h),
        )

    -- If the immediate dominators have ranks below the fuel that fall from each node to the next,
    -- `dominates` returns. It returns true exactly if the node is the root or has an immediate
    -- dominator, and the immediate dominators lead from it to the dominator.
    pub dominates_exact :
        (fuel : ℕ)
        → ((n : ℕ) → rank n < fuel)
        → (root : ℕ) (preds : List (ℕ × List ℕ)) (d n : ℕ)
        → (answer : Bool) × (dominates fuel (record { root = root; idom = idom; preds = preds }) d n
            ≡ some answer)
          × ((answer ≡ true) ↔ (((n == root || is_some (lookup n idom)) ≡ true) × Above idom d n))
    dominates_exact fuel enough root preds d n =
        let (sets, eq, inside, outside) = sets_done fuel enough (all_nodes idom root) [] in
        elim (Bool-cases (member n (all_nodes idom root))) [
          | inl there ↦
              let (set, found, (forth, back)) = inside n there in
              (
                member d set,
                dominates_at fuel root preds sets (some set) d n eq found,
                (λ h. (listed n root ∙ there, only (forth d h)), λ (_, path). back d (inr path)),
              )
          | inr out ↦ (
            false,
            dominates_at fuel root preds sets none d n eq (outside n out),
            (
              λ h. absurd (ground (arith, h)),
              λ (h, path). absurd (ground (arith, listed n root, out, h)),
            ),
          )
        ]
      where
        listed :
            (n root : ℕ) → (n == root || is_some (lookup n idom)) ≡ member n (all_nodes idom root)
        listed n root = ground (arith, member-add root n (keys idom), member-keys idom n)

        only : {d n : ℕ} → (member d [] ≡ true) ⊎ Above idom d n → Above idom d n
        only (inl h) = absurd (ground (arith, h))
        only (inr path) = path
