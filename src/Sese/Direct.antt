-- ===== src/Sese/Direct.antt =====
-- `direct_cycle_classes` of src/graph/analysis/sese.rs: the classes of the edges as a forest of parent
-- pointers, joined for each pair that `cycle_equivalent` accepts, and numbered from 1 in the order of
-- the edges. The loop of `find` runs on fuel, and `none` is that the fuel ran out.
pub mod Forest
pub mod Labels
pub mod Exact
pub mod Tests
use jstd.Base.{
  ℕ, zero, suc, ◌+◌, ◌-◌, ◌*◌, Bool, true, false, Option, none, some, List, [], ◌∷◌, ◌==◌, Outcome,
  done, ◌>>=◌, Run, ◌>=>◌, length, index, set_at, lookup, insert,
}
use jstd.Sese.{IEdge, cycle_equivalent}

-- `find`: the parents with the path halved, and the root
unfoldable pub find : ℕ → List ℕ → ℕ → Run (List ℕ × ℕ)
find zero parent node = done none
find (suc fuel) parent node = do
  up ← index parent node
  elim (up == node) [
    | true ↦ done (some (parent, node))
    | false ↦ do
      above ← index parent up
      parent ← set_at parent node above
      next ← index parent node
      find fuel parent next
  ]

-- `(from..to).collect()`, of `k` numbers
abbrev pub numbers_from : ℕ → ℕ → List ℕ
numbers_from i zero = []
numbers_from i (suc k) = i ∷ numbers_from (i + 1) k

-- The last loop, for the `k` edges from `edge` on.
unfoldable pub label_from : ℕ → List ℕ → (edge k : ℕ) → List (ℕ × ℕ) → ℕ → Run (List ℕ)
label_from fuel parent edge zero labels next = done (some [])
label_from fuel parent edge (suc k) labels next = find fuel parent edge >=> (λ (parent, root).
    elim (lookup root labels) [
      | some label ↦
          label_from fuel parent (edge + 1) k labels next
          >=> (λ classes. done (some (label ∷ classes)))
      | none ↦
          label_from fuel parent (edge + 1) k (insert root next labels) (next + 1)
          >=> (λ classes. done (some (next ∷ classes)))
    ])

module _ {E : Type 0} (fuel : ℕ) (edges : List (IEdge E)) (n : ℕ) where
  -- The body of the two loops.
  unfoldable pub join : ℕ → ℕ → List ℕ → Run (List ℕ)
  join a b parent = do
    equivalent ← cycle_equivalent edges n a b
    elim equivalent [
      | false ↦ done (some parent)
      | true ↦ find fuel parent a >=> (λ (parent, ra).
          find fuel parent b
          >=> (λ (parent, rb). do parent ← set_at parent rb ra; done (some parent)))
    ]

  -- The inner loop, over the `k` edges from `b` on.
  unfoldable pub join_row : (a b k : ℕ) → List ℕ → Run (List ℕ)
  join_row a b zero parent = done (some parent)
  join_row a b (suc k) parent = join a b parent >=> (λ parent. join_row a (b + 1) k parent)

  -- The outer loop, over the `k` edges from `a` on.
  unfoldable pub join_rows : (a k : ℕ) → List ℕ → Run (List ℕ)
  join_rows a zero parent = done (some parent)
  join_rows a (suc k) parent =
      join_row a (a + 1) k parent >=> (λ parent. join_rows (a + 1) k parent)

  unfoldable pub direct_cycle_classes : Run (List ℕ)
  direct_cycle_classes =
      join_rows 0 (length edges) (numbers_from 0 (length edges))
      >=> (λ parent. label_from fuel parent 0 (length edges) [] 1)
