-- ===== src/Sese/Jpp/Tests.antt =====
-- Runs of `jpp_cycle_classes`, and the hypotheses of its theorem at one input.
use jstd.Base.{ℕ, ◌≡◌, refl, some, none, List, [], ◌∷◌, done, arith}
use jstd.Sese
use jstd.Sese.{IEdge}
use jstd.Sese.Walk.{Within}
use jstd.Sese.Direct
use jstd.Sese.Jpp
use jstd.Sese.Jpp.{settle}
use jstd.Sese.Jpp.Brackets.{propose, jpp_cycle_classes}
use jstd.Sese.Jpp.Settle.{Classifies}
use jstd.Sese.Jpp.Brackets.Exact.{jpp_cycle_classes_exact}

abbrev edge : ℕ → ℕ → IEdge ℕ
edge u v = record { from_node = u; to_node = v; original = none }

-- 0 → 1, 1 → 2, 1 → 2, 2 → 3, 3 → 0
abbrev doubled : List (IEdge ℕ)
doubled = edge 0 1 ∷ edge 1 2 ∷ edge 1 2 ∷ edge 2 3 ∷ edge 3 0 ∷ []

doubled-Within : Within 4 doubled
doubled-Within = (
  omega arith,
  omega arith,
  (
    omega arith,
    omega arith,
    (omega arith, omega arith, (omega arith, omega arith, (omega arith, omega arith, tt))),
  ),
)

propose-doubled : propose 26 doubled 4 0 ≡ done (some (some (1 ∷ 2 ∷ 3 ∷ 1 ∷ 1 ∷ [])))
unfolding propose Jpp.visit
propose-doubled = refl

jpp_doubled : jpp_cycle_classes 26 doubled 4 0 ≡ done (some (1 ∷ 2 ∷ 3 ∷ 1 ∷ 1 ∷ []))
unfolding jpp_cycle_classes propose Jpp.visit settle Sese.valid Sese.rows_valid Sese.pairs_valid
    Direct.direct_cycle_classes Direct.join_rows Direct.join_row Direct.join Direct.find
    Direct.label_from Sese.cycle_equivalent Sese.cycle_without Sese.reachable Sese.search Sese.visit
    Sese.scan Sese.offer
jpp_doubled = refl

jpp_cycle_classes_exact_example :
    (classes : List ℕ) × (jpp_cycle_classes 26 doubled 4 0 ≡ done (some classes))
    × Classifies doubled 4 classes
jpp_cycle_classes_exact_example =
    jpp_cycle_classes_exact doubled 4 doubled-Within 26 0 (omega arith) (omega arith) (omega arith)
      (omega arith)
