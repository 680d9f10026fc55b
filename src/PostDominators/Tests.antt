-- ===== src/PostDominators/Tests.antt =====
-- A diamond, and the theorem at it.
use jstd.Base.{ℕ, ◌≡◌, ◌↔◌, refl, false, some, List, [], ◌∷◌, ◌==◌, if◌then◌else◌, done, arith}
use jstd.PostDominators.{compute_postdominators}
use jstd.PostDominators.Escape.{Escapes}
use jstd.PostDominators.Meet.{has}
use jstd.PostDominators.Fixpoint.{postdominators_exact}

abbrev diamond : ℕ → List ℕ
diamond n = if n == 0 then 1 ∷ 2 ∷ [] else if n == 1 then 3 ∷ [] else if n == 2 then 3 ∷ [] else []

abbrev nodes : List ℕ
nodes = 0 ∷ 1 ∷ 2 ∷ 3 ∷ []

postdominators_exact_example :
    (pdom : List (ℕ × List ℕ)) × (compute_postdominators diamond nodes nodes (3 ∷ []) 17
      ≡ done (some pdom))
    × ((has pdom 0 1 ≡ false) ↔ Escapes diamond nodes (3 ∷ []) 1 0)
postdominators_exact_example =
    postdominators_exact diamond nodes nodes (3 ∷ []) (λ n h. h) 17 1 0 (ground arith) refl refl
