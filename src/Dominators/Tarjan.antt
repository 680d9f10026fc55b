-- ===== src/Dominators/Tarjan.antt =====
-- The Lengauer-Tarjan run of src/graph/analysis/dominator.rs. A vector read or written out of range
-- panics. The recursion of `dfs` and of `compress` runs on fuel, and `none` is that the fuel ran out.
pub mod Passes
use jstd.Base.{
  ℕ, zero, suc, ◌+◌, ◌-◌, Bool, true, false, not, ◌&&◌, ◌||◌, Option, none, some, List, [], ◌∷◌,
  ◌++◌, ◌==◌, ltb, if◌then◌else◌, is_some, Outcome, done, ◌>>=◌, Run, ◌>=>◌, unwrap, length, member,
  lookup, insert, index, set_at,
}
use jstd.Dominators.{reachable_from_root}
use jstd.Dominators.Tree.{DominatorTree, entry}

-- `LtState`, without the graph and the set of nodes
pub record LtState : Type 0 where
  pub number : List (ℕ × ℕ)
  pub vertex : List (Option ℕ)
  pub parent : List ℕ
  pub semi : List ℕ
  pub idom : List ℕ
  pub ancestor : List ℕ
  pub label : List ℕ
  pub bucket : List (List ℕ)
  pub pred : List (List ℕ)

-- `LtState::new`
abbrev pub fresh : LtState
fresh = record {
  number = [];
  vertex = none ∷ [];
  parent = 0 ∷ [];
  semi = 0 ∷ [];
  idom = 0 ∷ [];
  ancestor = 0 ∷ [];
  label = 0 ∷ [];
  bucket = [] ∷ [];
  pred = [] ∷ [];
}

abbrev pub last_index : LtState → ℕ
last_index state = length state.vertex - 1

abbrev pub push_vertex : LtState → ℕ → ℕ → LtState
push_vertex state node parent =
    let idx = length state.vertex in
    record {
      number = insert node idx state.number;
      vertex = state.vertex ++ (some node ∷ []);
      parent = state.parent ++ (parent ∷ []);
      semi = state.semi ++ (idx ∷ []);
      idom = state.idom ++ (0 ∷ []);
      ancestor = state.ancestor ++ (0 ∷ []);
      label = state.label ++ (idx ∷ []);
      bucket = state.bucket ++ ([] ∷ []);
      pred = state.pred ++ ([] ∷ []);
    }

-- `lists[i].push(v)`
abbrev pub push_at : List (List ℕ) → ℕ → ℕ → Outcome (List (List ℕ))
push_at lists i v = do list ← index lists i; set_at lists i (list ++ (v ∷ []))

module _ (successors : ℕ → List ℕ) (node_set : List ℕ) where
  -- `self.pred[succ_idx].push(node_idx)`, if the successor has a number
  abbrev pub note_pred : LtState → ℕ → ℕ → Run LtState
  note_pred state succ node_idx = elim (lookup succ state.number) [
    | none ↦ done (some state)
    | some succ_idx ↦ do
      pred ← push_at state.pred succ_idx node_idx
      done (some (record state { pred = pred }))
  ]

  -- The loop of `dfs`, which visits a successor by `visit`.
  abbrev pub dfs_each : (LtState → ℕ → ℕ → Run LtState) → ℕ → LtState → List ℕ → Run LtState
  dfs_each visit node_idx state [] = done (some state)
  dfs_each visit node_idx state (succ ∷ rest) = elim (member succ node_set) [
    | false ↦ dfs_each visit node_idx state rest
    | true ↦
        elim (is_some (lookup succ state.number)) [
          | true ↦ done (some state)
          | false ↦ visit state succ node_idx
        ]
        >=> (λ state. note_pred state succ node_idx)
        >=> (λ state. dfs_each visit node_idx state rest)
  ]

  -- `dfs`
  pub dfs : ℕ → LtState → ℕ → ℕ → Run LtState
  dfs zero state node parent = done none
  dfs (suc fuel) state node parent =
      elim (is_some (lookup node state.number) || not (member node node_set)) [
        | true ↦ done (some state)
        | false ↦
            dfs_each (dfs fuel) (length state.vertex) (push_vertex state node parent)
              (successors node)
      ]

-- `link`
abbrev pub link : LtState → ℕ → ℕ → Outcome LtState
link state parent child = do
  ancestor ← set_at state.ancestor child parent
  done (record state { ancestor = ancestor })

-- `if self.semi[self.label[a]] < self.semi[self.label[v]] { self.label[v] = self.label[a]; }`
abbrev pub relabel : LtState → ℕ → ℕ → Outcome LtState
relabel state a v = do
  label_a ← index state.label a
  semi_a ← index state.semi label_a
  label_v ← index state.label v
  semi_v ← index state.semi label_v
  elim (ltb semi_a semi_v) [
    | false ↦ done state
    | true ↦ do label ← set_at state.label v label_a; done (record state { label = label })
  ]

-- `compress`
pub compress : ℕ → LtState → ℕ → Run LtState
compress zero state v = done none
compress (suc fuel) state v = do
  a ← index state.ancestor v
  elim (a == 0) [
    | true ↦ done (some state)
    | false ↦ do
      above ← index state.ancestor a
      elim (above == 0) [
        | true ↦ done (some state)
        | false ↦ compress fuel state a >=> (λ state. do
          state ← relabel state a v
          above ← index state.ancestor a
          ancestor ← set_at state.ancestor v above
          done (some (record state { ancestor = ancestor })))
      ]
  ]

-- `eval`: the state and the label it returns
pub eval : ℕ → LtState → ℕ → Run (LtState × ℕ)
eval fuel state v = do
  a ← index state.ancestor v
  elim (a == 0) [
    | true ↦ do label ← index state.label v; done (some (state, label))
    | false ↦ compress fuel state v >=> (λ state. do
      a ← index state.ancestor v
      state ← elim (a == 0) [ true ↦ done state | false ↦ relabel state a v ]
      label ← index state.label v
      done (some (state, label)))
  ]
