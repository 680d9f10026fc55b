-- ===== src/PostDominators/Escape.antt =====
-- The paths that a post-dominator blocks.
use jstd.Base.{ℕ, ◌≡◌, true, false, List, [], ◌==◌, member}
use jstd.PostDominators.{inner}

-- `Escapes successors node_set exit_set m n` holds if a path that avoids `m` leads from `n` along
-- successors in `node_set` to an exit, or to a node without such a successor. The path stops at the
-- first exit.
pub data Escapes (successors : ℕ → List ℕ) (node_set exit_set : List ℕ) (m : ℕ) : ℕ → Type 0 where
  exit :
      {n : ℕ} → member n exit_set ≡ true → m == n ≡ false → Escapes successors node_set exit_set m n
  dead :
      {n : ℕ}
      → member n exit_set ≡ false
      → inner successors node_set n ≡ []
      → m == n ≡ false
      → Escapes successors node_set exit_set m n
  onward :
      {n s : ℕ}
      → member n exit_set ≡ false
      → m == n ≡ false
      → member s (inner successors node_set n) ≡ true
      → Escapes successors node_set exit_set m s
      → Escapes successors node_set exit_set m n
