-- ===== src/Sese/Flowgraph/Tests.antt =====
-- The flowgraph of one graph, and the hypotheses of its theorem there.
use jstd.Base.{ℕ, ◌≡◌, refl, some, none, List, [], ◌∷◌, ◌==◌, if◌then◌else◌, done}
use jstd.Sese.Flowgraph.{Row, Flowgraph, breadth_first, reached_ids, flowgraph}

-- 7 → 2, 2 → 2, 2 → 5, 5 → 7, 9 → 2, and 5 → 3
abbrev rows : List Row
rows = (0, 7, 2) ∷ (1, 2, 2) ∷ (4, 2, 5) ∷ (3, 5, 7) ∷ (5, 9, 2) ∷ (6, 5, 3) ∷ []

abbrev successors : ℕ → List ℕ
successors n =
    if n == 7
    then 2 ∷ []
    else if n == 2
    then 2 ∷ 5 ∷ []
    else if n == 5
    then 7 ∷ 3 ∷ []
    else if n == 9
    then 2 ∷ []
    else []

reached_ids_rows : reached_ids successors 9 7 ≡ some (2 ∷ 3 ∷ 5 ∷ 7 ∷ [])
unfolding reached_ids breadth_first
reached_ids_rows = refl

flowgraph-rows :
    flowgraph (2 ∷ 3 ∷ 5 ∷ 7 ∷ []) rows 7
    ≡ done (record {
      ids = 2 ∷ 3 ∷ 5 ∷ 7 ∷ [];
      edges =
          record { from_node = 3; to_node = 0; original = some 0 }
          ∷ record { from_node = 2; to_node = 3; original = some 3 }
          ∷ record { from_node = 0; to_node = 2; original = some 4 }
          ∷ record { from_node = 2; to_node = 1; original = some 6 }
          ∷ record { from_node = 1; to_node = 4; original = none }
          ∷ record { from_node = 4; to_node = 3; original = none }
          ∷ [];
      n = 5;
      entry = 3;
      original_count = 4;
    })
unfolding flowgraph
flowgraph-rows = refl
