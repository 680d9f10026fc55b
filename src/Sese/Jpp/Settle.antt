-- ===== src/Sese/Jpp/Settle.antt =====
-- The end of `jpp_cycle_classes`: whatever classes the bracket lists propose, those that are returned
-- are exact.
use jstd.Base.{
  ℕ, ◌*◌, ◌<◌, ◌≡◌, refl, sym, ◌∙◌, ap, ◌↔◌, inl, inr, done_inj, Bool-cases, ==→eq, eq→==, Option,
  none, some, List, ◌==◌, ltb, ltb→lt, subst, done, length, get_elem?, lt-length_of_get_elem?,
  arith,
}
use jstd.Sese.{IEdge}
use jstd.Sese.Walk.{Within}
use jstd.Sese.Classes.{class, Fair, valid_exact}
use jstd.Sese.Direct.Exact.{Linked, direct_exact}
use jstd.Sese.Jpp.{settle}

-- There is one class for each edge, and two edges have the same exactly if they are linked.
abbrev pub Classifies : {E : Type 0} → List (IEdge E) → ℕ → List ℕ → Type 0
Classifies edges n classes =
    (length classes ≡ length edges)
    × ((i j c d : ℕ)
        → get_elem? classes i ≡ some c
        → get_elem? classes j ≡ some d
        → (c ≡ d) ↔ Linked edges n i j)

module _ {E : Type 0} (edges : List (IEdge E)) (n : ℕ) (w : Within n edges) where
  -- Classes that pass the validation agree along a chain of pairs.
  Linked-class :
      (classes : List ℕ) (size : length classes ≡ length edges)
      → ((i j : ℕ) → i < length edges → j < length edges → Fair edges n w classes size i j)
      → {i j : ℕ} → Linked edges n i j
      → class classes i ≡ class classes j
  Linked-class classes size fair Linked.same = refl
  Linked-class classes size fair (Linked.pair {a} {b} lt h e) =
      ==→eq _ _ (done_inj (sym (fair a b (omega (arith, lt, h)) h) ∙ e))
  Linked-class classes size fair (Linked.back l) = sym (Linked-class classes size fair l)
  Linked-class classes size fair (Linked.chain l l') =
      Linked-class classes size fair l ∙ Linked-class classes size fair l'

  -- Edges of one class are a pair that `cycle_equivalent` accepts.
  class-Linked :
      (classes : List ℕ) (size : length classes ≡ length edges)
      → ((i j : ℕ) → i < length edges → j < length edges → Fair edges n w classes size i j)
      → (i j : ℕ) → i < length edges
      → j < length edges
      → class classes i ≡ class classes j
      → Linked edges n i j
  class-Linked classes size fair i j hi hj e = elim (Bool-cases (ltb i j)) [
    | inl up ↦ Linked.pair (ltb→lt i j up) hj (fair i j hi hj ∙ ap done (eq→== _ _ e))
    | inr not_up ↦ elim (Bool-cases (i == j)) [
      | inl equal ↦ subst (Linked edges n i) (==→eq i j equal) Linked.same
      | inr apart ↦ Linked.back (
          Linked.pair (ground (arith, not_up, apart)) hi
            (fair j i hj hi ∙ ap done (eq→== _ _ (sym e))))
    ]
  ]

  class_at : (classes : List ℕ) (i : ℕ) {c : ℕ} → get_elem? classes i ≡ some c → class classes i ≡ c
  class_at classes i at = rw (class, at) refl

  -- On edges among the nodes below `n`, with more fuel than the square of their number, whatever
  -- classes the bracket lists propose, one for each edge or none at all, the end of
  -- `jpp_cycle_classes` returns without a panic one class for each edge, and two edges have the same
  -- class exactly if a chain of pairs that `cycle_equivalent` accepts links them.
  pub settle_exact :
      (fuel : ℕ) (proposed : Option (List ℕ))
      → length edges * length edges < fuel
      → ((classes : List ℕ) → proposed ≡ some classes → length classes ≡ length edges)
      → (classes : List ℕ) × (settle fuel edges n proposed ≡ done (some classes))
        × Classifies edges n classes
  unfolding settle
  settle_exact fuel proposed enough sized =
      let (direct, ran, size, exact) = direct_exact edges n w fuel enough in
      let fallback : Classifies edges n direct =
        (size, λ i j c d at at'. (exact i j c d at at').1) in
      elim proposed
          as (λ x.
            x ≡ proposed
            → (classes : List ℕ) × (settle fuel edges n x ≡ done (some classes))
              × Classifies edges n classes) [
                | none ↦ λ e. (direct, ran, fallback)
                | some classes ↦ λ e.
                    let one_each = sized classes (sym e) in
                    let (kept, validated, (fair, _)) = valid_exact edges n w classes one_each in
                    elim (Bool-cases kept) [
                      | inr refused ↦ (direct, ground (arith, validated, refused, ran), fallback)
                      | inl passed ↦ (
                        classes,
                        ground (arith, validated, passed),
                        (
                          one_each,
                          λ i j c d at at'. (
                            λ same.
                                class-Linked classes one_each (fair passed) i j
                                  (omega (arith, lt-length_of_get_elem? classes i at, one_each))
                                  (omega (arith, lt-length_of_get_elem? classes j at', one_each))
                                  (class_at classes i at ∙ same ∙ sym (class_at classes j at')),
                            λ l.
                                sym (class_at classes i at)
                                ∙ Linked-class classes one_each (fair passed) l
                                ∙ class_at classes j at',
                          ),
                        ),
                      )
                    ]
              ]
        refl
