-- ===== src/Dominators/Tree/Above.antt =====
-- The nodes above a node in the dominator tree.
use jstd.Base.{ℕ, ◌≡◌, ◌<◌, ap, none, some, List, lookup}

-- `Above idom d n` holds if the immediate dominators lead from `n` to `d` in some number of steps.
pub data Above (idom : List (ℕ × ℕ)) (d : ℕ) : ℕ → Type 0 where
  itself : Above idom d d
  higher : {n p : ℕ} → lookup n idom ≡ some p → Above idom d p → Above idom d n

-- The immediate dominators lead to smaller and smaller ranks, and so to no cycle.
abbrev pub IsRanked : List (ℕ × ℕ) → (ℕ → ℕ) → Type 0
IsRanked idom rank = (n p : ℕ) → lookup n idom ≡ some p → rank p < rank n

pub some-inj : {a b : ℕ} → some a ≡ some b → a ≡ b
some-inj {a} {b} h = ap (λ o. elim o [ none ↦ a | some x ↦ x ]) h
