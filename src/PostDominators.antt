-- ===== src/PostDominators.antt =====
-- src/graph/analysis/post_dominator.rs: post-dominator sets by iteration to a fixed point. A `Cfg` is
-- its successor function. A set is a list, and two sets are compared by their elements. The `while`
-- loop runs on fuel, and `none` is that the fuel ran out.
pub mod Escape
pub mod Tally
pub mod Meet
pub mod Sweep
pub mod Round
pub mod Fixpoint
pub mod Tests
use jstd.Base.{
  ℕ, zero, suc, Bool, true, false, ◌&&◌, Option, none, some, List, [], ◌∷◌, if◌then◌else◌, member,
  add, Outcome, done, ◌>>=◌, unwrap, lookup, insert,
}

-- `HashSet::retain`, with the elements of `set`
abbrev pub retain : List ℕ → List ℕ → List ℕ
retain set [] = []
retain set (value ∷ acc) =
    let rest = retain set acc in if member value set then value ∷ rest else rest

-- The loop of `intersect_sets`.
abbrev pub intersect_rest : List ℕ → List (List ℕ) → List ℕ
intersect_rest acc [] = acc
intersect_rest acc (set ∷ sets) = intersect_rest (retain set acc) sets

abbrev pub intersect_sets : List (List ℕ) → List ℕ
intersect_sets [] = []
intersect_sets (first ∷ sets) = intersect_rest first sets

-- The equality of two sets.
abbrev pub subset : List ℕ → List ℕ → Bool
subset [] set = true
subset (value ∷ rest) set = member value set && subset rest set

pub set_eq : List ℕ → List ℕ → Bool
set_eq xs ys = subset xs ys && subset ys xs

-- `pdom[succ]` for each successor.
abbrev pub gather : List (ℕ × List ℕ) → List ℕ → Outcome (List (List ℕ))
gather pdom [] = done []
gather pdom (succ ∷ rest) = do
  set ← unwrap (lookup succ pdom)
  sets ← gather pdom rest
  done (set ∷ sets)

-- The intersection of the sets of the successors, empty if there is none.
abbrev pub meet : List (ℕ × List ℕ) → List ℕ → Outcome (List ℕ)
meet pdom [] = done []
meet pdom (succ ∷ rest) = do sets ← gather pdom (succ ∷ rest); done (intersect_sets sets)

-- `nodes.iter().copied().collect()`
abbrev pub collect_set : List ℕ → List ℕ
collect_set [] = []
collect_set (node ∷ rest) = add node (collect_set rest)

-- The successors that are in `node_set`.
abbrev pub inner : (ℕ → List ℕ) → List ℕ → ℕ → List ℕ
inner successors node_set node = retain node_set (successors node)

module _ (successors : ℕ → List ℕ) (nodes node_set exit_set : List ℕ) where
  -- The loop that sets the first sets.
  pub start : List ℕ → List (ℕ × List ℕ) → List (ℕ × List ℕ)
  start [] pdom = pdom
  start (node ∷ rest) pdom =
      start rest (insert node (if member node exit_set then node ∷ [] else collect_set nodes) pdom)

  -- The `for` loop of one round, and whether it changed a set.
  pub sweep : List ℕ → List (ℕ × List ℕ) → Bool → Outcome (List (ℕ × List ℕ) × Bool)
  sweep [] pdom changed = done (pdom, changed)
  sweep (node ∷ rest) pdom changed = elim (member node exit_set) [
    | true ↦ sweep rest pdom changed
    | false ↦ do
      found ← meet pdom (inner successors node_set node)
      old ← unwrap (lookup node pdom)
      elim (set_eq (add node found) old) [
        | true ↦ sweep rest pdom changed
        | false ↦ sweep rest (insert node (add node found) pdom) true
      ]
  ]

  -- The `while` loop.
  pub iterate : ℕ → List (ℕ × List ℕ) → Outcome (Option (List (ℕ × List ℕ)))
  iterate zero pdom = done none
  iterate (suc fuel) pdom = do
    (pdom, changed) ← sweep nodes pdom false
    elim changed [ true ↦ iterate fuel pdom | false ↦ done (some pdom) ]

  pub compute_postdominators : ℕ → Outcome (Option (List (ℕ × List ℕ)))
  compute_postdominators fuel = iterate fuel (start nodes [])
