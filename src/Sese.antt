-- ===== src/Sese.antt =====
-- src/graph/analysis/sese.rs: the edge tests on the internal flowgraph, over node indices below `n`
-- and edge indices. The last node is the synthetic exit. `panic` is an index out of range. The
-- stack of `reachable` has its top at the head of the list.
pub mod Walk
pub mod Scan
pub mod Flags
pub mod Loop
pub mod Boundary
pub mod Region
pub mod Classes
pub mod Direct
pub mod Flowgraph
pub mod Candidates
pub mod Regions
pub mod Jpp
pub mod Compute
pub mod Tests
use jstd.Base.{
  ℕ, zero, suc, ◌+◌, ◌-◌, ◌*◌, Bool, true, false, not, ◌&&◌, Option, none, some, List, [], ◌∷◌,
  ◌==◌, if◌then◌else◌, Outcome, done, ◌>>=◌, length, index, set, replicate,
}

pub record IEdge {ℓ} (E : Type ℓ) : Type ℓ where
  pub from_node : ℕ
  pub to_node : ℕ
  pub original : Option E

abbrev pub is_some_of : Option ℕ → ℕ → Bool
is_some_of none i = false
is_some_of (some j) i = j == i

pub record Search : Type 0 where
  pub seen : List Bool
  pub stack : List ℕ

-- `==` on `bool`
abbrev pub agree : Bool → Bool → Bool
agree true b = b
agree false b = not b

-- The nodes among the `k` from `node` on that both searches reach, ascending.
pub both_seen : List Bool → List Bool → ℕ → ℕ → Outcome (List ℕ)
both_seen forward backward node zero = done []
both_seen forward backward node (suc k) = do
  ahead ← index forward node
  behind ← elim ahead [ true ↦ index backward node | false ↦ done false ]
  rest ← both_seen forward backward (node + 1) k
  done (if behind then node ∷ rest else rest)

module _ {ℓ} {E : Type ℓ} where
  -- The ends of an edge in the direction of the search.
  abbrev pub tail : Bool → IEdge E → ℕ
  tail reverse e = if reverse then e.to_node else e.from_node

  abbrev pub head : Bool → IEdge E → ℕ
  head reverse e = if reverse then e.from_node else e.to_node

  -- One round of the inner loop, for the edge of index `i`.
  pub offer : List Bool → ℕ → Option ℕ → Bool → ℕ → IEdge E → List ℕ → Outcome (List ℕ)
  offer seen node skip reverse i e stack =
      if is_some_of skip i
      then done stack
      else if tail reverse e == node
      then (do
        visited ← index seen (head reverse e)
        done (if visited then stack else head reverse e ∷ stack))
      else done stack

  -- The inner loop over the edges from index `i` on.
  pub scan : List Bool → ℕ → Option ℕ → Bool → ℕ → List (IEdge E) → List ℕ → Outcome (List ℕ)
  scan seen node skip reverse i [] stack = done stack
  scan seen node skip reverse i (e ∷ es) stack = do
    stack' ← offer seen node skip reverse i e stack
    scan seen node skip reverse (i + 1) es stack'

  module _ (edges : List (IEdge E)) (skip : Option ℕ) (reverse : Bool) where
    -- One round of the outer loop, for a node that was popped.
    pub visit : Search → ℕ → List ℕ → Outcome Search
    visit s node rest = do
      visited ← index s.seen node
      if visited then done (record s { stack = rest }) else (do
        let seen = set s.seen node true
        stack ← scan seen node skip reverse 0 edges rest
        done (record { seen = seen; stack = stack }))

    -- The outer loop; the fuel bounds its rounds.
    pub search : ℕ → Search → Outcome Search
    search zero s = done s
    search (suc fuel) s = elim s.stack [
      | [] ↦ done s
      | node ∷ rest ↦ do s' ← visit s node rest; search fuel s'
    ]

  -- The rounds that suffice for `n` nodes.
  abbrev pub rounds : List (IEdge E) → ℕ → ℕ
  rounds edges n = n * (length edges + 1) + 1

  pub reachable : List (IEdge E) → ℕ → ℕ → Option ℕ → Bool → Outcome (List Bool)
  reachable edges n start skip reverse = do
    s ←
        search edges skip reverse (rounds edges n)
          (record { seen = replicate n false; stack = start ∷ [] })
    done s.seen

  pub edge_dominates : List (IEdge E) → ℕ → ℕ → ℕ → ℕ → Outcome Bool
  edge_dominates edges n root a b = do
    seen ← reachable edges n root (some a) false
    edge_b ← index edges b
    avoided ← index seen edge_b.from_node
    done (not avoided)

  pub edge_postdominates : List (IEdge E) → ℕ → ℕ → ℕ → ℕ → Outcome Bool
  edge_postdominates edges n exit b a = do
    seen ← reachable edges n exit (some b) true
    edge_a ← index edges a
    avoided ← index seen edge_a.to_node
    done (not avoided)

  -- Whether the edge `a` lies on a cycle that avoids the edge `b`.
  pub cycle_without : List (IEdge E) → ℕ → ℕ → ℕ → Outcome Bool
  cycle_without edges n a b = do
    edge_a ← index edges a
    seen ← reachable edges n edge_a.to_node (some b) false
    index seen edge_a.from_node

  pub cycle_equivalent : List (IEdge E) → ℕ → ℕ → ℕ → Outcome Bool
  cycle_equivalent edges n a b = do
    a_cycle_without_b ← cycle_without edges n a b
    b_cycle_without_a ← cycle_without edges n b a
    done (not a_cycle_without_b && not b_cycle_without_a)

  pub region_nodes : List (IEdge E) → ℕ → ℕ → ℕ → Outcome (List ℕ)
  region_nodes edges n entry exit = do
    entry_edge ← index edges entry
    forward ← reachable edges n entry_edge.to_node (some exit) false
    exit_edge ← index edges exit
    backward ← reachable edges n exit_edge.from_node (some entry) true
    both_seen forward backward 0 (n - 1)

  module _ (edges : List (IEdge E)) (n : ℕ) (classes : List ℕ) where
    -- The inner `all` of the validation of the classes, for the edge `a` and the `k` edges from `b` on.
    pub pairs_valid : ℕ → ℕ → ℕ → Outcome Bool
    pairs_valid a b zero = done true
    pairs_valid a b (suc k) = do
      class_a ← index classes a
      class_b ← index classes b
      equivalent ← cycle_equivalent edges n a b
      elim (agree (class_a == class_b) equivalent) [
        | true ↦ pairs_valid a (b + 1) k
        | false ↦ done false
      ]

    -- The outer `all`, for the `k` edges from `a` on.
    pub rows_valid : ℕ → ℕ → Outcome Bool
    rows_valid a zero = done true
    rows_valid a (suc k) = do
      row ← pairs_valid a 0 (length edges)
      elim row [ true ↦ rows_valid (a + 1) k | false ↦ done false ]

    -- Whether the bracket-list classes are kept.
    pub valid : Outcome Bool
    valid = rows_valid 0 (length edges)
