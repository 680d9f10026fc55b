-- ===== src/Dominators/Tarjan/Passes.antt =====
-- `run_lengauer_tarjan` and `compute_dominators` of src/graph/analysis/dominator.rs: the passes over the
-- numbered nodes. The loop down from the last index and the loop up to it are structural in the number
-- of rounds that are left.
pub mod Tests
use jstd.Base.{
  ℕ, zero, suc, ◌+◌, ◌-◌, Bool, true, false, Option, none, some, List, [], ◌∷◌, ◌++◌, ◌==◌, ltb,
  Outcome, done, ◌>>=◌, Run, ◌>=>◌, unwrap, insert, index, set_at,
}
use jstd.Dominators.{reachable_from_root}
use jstd.Dominators.Tree.{DominatorTree, entry}
use jstd.Dominators.Tarjan.{LtState, fresh, last_index, push_at, dfs, link, eval}

-- The loop over the predecessors of `w`.
abbrev pub lower_semi : ℕ → LtState → ℕ → List ℕ → Run LtState
lower_semi fuel state w [] = done (some state)
lower_semi fuel state w (v ∷ rest) = eval fuel state v >=> (λ (state, u). do
  semi_u ← index state.semi u
  semi_w ← index state.semi w
  elim (ltb semi_u semi_w) [
    | false ↦ lower_semi fuel state w rest
    | true ↦ do
      semi ← set_at state.semi w semi_u
      lower_semi fuel (record state { semi = semi }) w rest
  ])

-- The loop over the bucket of the parent.
abbrev pub empty_bucket : ℕ → LtState → ℕ → List ℕ → Run LtState
empty_bucket fuel state p [] = done (some state)
empty_bucket fuel state p (v ∷ rest) = eval fuel state v >=> (λ (state, u). do
  semi_u ← index state.semi u
  semi_v ← index state.semi v
  idom ← set_at state.idom v (elim (ltb semi_u semi_v) [ true ↦ u | false ↦ p ])
  empty_bucket fuel (record state { idom = idom }) p rest)

-- The body of the first loop.
abbrev pub semi_step : ℕ → LtState → ℕ → Run LtState
semi_step fuel state w = do
  preds ← index state.pred w
  lower_semi fuel state w preds >=> (λ state. do
    semi_w ← index state.semi w
    bucket ← push_at state.bucket semi_w w
    p ← index state.parent w
    state ← link (record state { bucket = bucket }) p w
    bucket_parent ← index state.bucket p
    bucket ← set_at state.bucket p []
    empty_bucket fuel (record state { bucket = bucket }) p bucket_parent)

-- The first loop, over `w + 1` down to 2.
abbrev pub semi_pass : ℕ → LtState → ℕ → Run LtState
semi_pass fuel state zero = done (some state)
semi_pass fuel state (suc w) =
    semi_step fuel state (suc (suc w)) >=> (λ state. semi_pass fuel state w)

-- The second loop, over `w` and the `rounds - 1` indices after it.
abbrev pub idom_pass : LtState → (w rounds : ℕ) → Outcome LtState
idom_pass state w zero = done state
idom_pass state w (suc rounds) = do
  idom_w ← index state.idom w
  semi_w ← index state.semi w
  elim (idom_w == semi_w) [
    | true ↦ idom_pass state (w + 1) rounds
    | false ↦ do
      above ← index state.idom idom_w
      idom ← set_at state.idom w above
      idom_pass (record state { idom = idom }) (w + 1) rounds
  ]

-- `state.vertex[idx].expect(…)`
abbrev pub node_at : LtState → ℕ → Outcome ℕ
node_at state idx = do slot ← index state.vertex idx; unwrap slot

abbrev pub nodes_at : LtState → List ℕ → Outcome (List ℕ)
nodes_at state [] = done []
nodes_at state (idx ∷ rest) = do
  node ← node_at state idx
  nodes ← nodes_at state rest
  done (node ∷ nodes)

-- `TarjanResult`: the immediate dominators and the predecessors
abbrev pub TarjanResult : Type 0
TarjanResult = List (ℕ × ℕ) × List (ℕ × List ℕ)

-- The last loop.
abbrev pub convert : LtState → (w rounds : ℕ) → TarjanResult → Outcome TarjanResult
convert state w zero result = done result
convert state w (suc rounds) (idom, preds) = do
  node ← node_at state w
  idom_idx ← index state.idom w
  idom_node ← node_at state idom_idx
  pred ← index state.pred w
  pred_nodes ← nodes_at state pred
  convert state (w + 1) rounds (insert node idom_node idom, insert node pred_nodes preds)

module _ (successors : ℕ → List ℕ) where
  pub run_lengauer_tarjan : ℕ → List ℕ → ℕ → Run TarjanResult
  run_lengauer_tarjan fuel node_set root = dfs successors node_set fuel fresh root 0 >=> (λ state.
      elim (last_index state == 0) [
        | true ↦ done (some ([], []))
        | false ↦ semi_pass fuel state (last_index state - 1) >=> (λ state. do
          state ← idom_pass state 2 (last_index state - 1)
          root_node ← node_at state 1
          result ← convert state 2 (last_index state - 1) ([], (root_node, []) ∷ [])
          done (some result))
      ])

  pub compute_dominators : ℕ → ℕ → Run DominatorTree
  compute_dominators fuel root = elim (reachable_from_root successors fuel root) [
    | none ↦ done none
    | some nodes ↦
        run_lengauer_tarjan fuel nodes root
        >=> (λ (idom, preds). done (some (record { root = root; idom = idom; preds = preds })))
  ]
