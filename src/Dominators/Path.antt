-- ===== src/Dominators/Path.antt =====
-- Paths of a control-flow graph.
use jstd.Base.{ℕ, ◌≡◌, true, List, member}

-- `Reaches successors root n` holds if a path leads from `root` to `n`.
pub data Reaches (successors : ℕ → List ℕ) (root : ℕ) : ℕ → Type 0 where
  here : Reaches successors root root
  step :
      {m n : ℕ}
      → Reaches successors root m
      → member n (successors m) ≡ true
      → Reaches successors root n
