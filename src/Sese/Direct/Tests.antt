-- ===== src/Sese/Direct/Tests.antt =====
-- Runs of `direct_cycle_classes`, and the hypotheses of its theorem at one input.
use jstd.Base.{ℕ, ◌<◌, ◌≡◌, refl, ◌↔◌, some, none, List, [], ◌∷◌, done, length, get_elem?, arith}
use jstd.Sese
use jstd.Sese.{IEdge}
use jstd.Sese.Walk.{Within}
use jstd.Sese.Direct
use jstd.Sese.Direct.{direct_cycle_classes}
use jstd.Sese.Direct.Exact.{Linked, direct_exact}

abbrev edge : ℕ → ℕ → IEdge ℕ
edge u v = record { from_node = u; to_node = v; original = none }

-- 0 → 1, 1 → 2, 1 → 2, 2 → 3, 3 → 0
abbrev doubled : List (IEdge ℕ)
doubled = edge 0 1 ∷ edge 1 2 ∷ edge 1 2 ∷ edge 2 3 ∷ edge 3 0 ∷ []

doubled-Within : Within 4 doubled
doubled-Within = (
  omega arith,
  omega arith,
  (
    omega arith,
    omega arith,
    (omega arith, omega arith, (omega arith, omega arith, (omega arith, omega arith, tt))),
  ),
)

classes_doubled : direct_cycle_classes 26 doubled 4 ≡ done (some (1 ∷ 2 ∷ 3 ∷ 1 ∷ 1 ∷ []))
unfolding direct_cycle_classes Direct.join_rows Direct.join_row Direct.join Direct.find
    Direct.label_from Sese.cycle_equivalent Sese.cycle_without Sese.reachable Sese.search Sese.visit
    Sese.scan Sese.offer
classes_doubled = refl

direct_exact_example :
    (classes : List ℕ) × (direct_cycle_classes 26 doubled 4 ≡ done (some classes))
    × (length classes ≡ 5)
    × ((i j c d : ℕ)
        → get_elem? classes i ≡ some c
        → get_elem? classes j ≡ some d
        → (0 < c) × ((c ≡ d) ↔ Linked doubled 4 i j))
direct_exact_example = direct_exact doubled 4 doubled-Within 26 (omega arith)
