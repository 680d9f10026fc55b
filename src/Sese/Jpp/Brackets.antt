-- ===== src/Sese/Jpp/Brackets.antt =====
-- The loop of `jpp_cycle_classes`, src/graph/analysis/sese.rs, over the nodes in reverse preorder: the
-- bracket lists, the capping edges and the classes. In a round, `none` is the return in favour of the
-- direct classes.
pub mod Good
pub mod Round
pub mod Class
pub mod Total
pub mod Exact
use jstd.Base.{
  ℕ, ◌+◌, Bool, true, false, Option, none, some, List, [], ◌∷◌, ◌++◌, ◌==◌, ltb, leb, if◌then◌else◌,
  Outcome, done, ◌>>=◌, Run, ◌>=>◌, length, index, set_at, replicate, take,
}
use jstd.Sese.{IEdge, is_some_of}
use jstd.Sese.Jpp.{max_index, Visit, push_to, other_end, incident_from, visit, unvisited, settle}

-- `min().unwrap_or(usize::MAX)`, of numbers of `usize`
abbrev pub least : List ℕ → ℕ
least [] = max_index
least (x ∷ xs) = let rest = least xs in if ltb rest x then rest else x

-- `is_descendant`
abbrev pub is_descendant : Visit → ℕ → ℕ → Outcome Bool
is_descendant s node ancestor = elim (node == ancestor) [
  | true ↦ done false
  | false ↦ do
    upper ← index s.number ancestor
    lower ← index s.number node
    elim (leb upper lower) [
      | false ↦ done false
      | true ↦ do bound ← index s.end_number ancestor; done (ltb lower bound)
    ]
]

-- `filter(|child| parent[*child] == Some(node))`
abbrev pub children_in : List (Option ℕ) → ℕ → List ℕ → Outcome (List ℕ)
children_in parent node [] = done []
children_in parent node (child ∷ rest) = do
  above ← index parent child
  more ← children_in parent node rest
  done (if is_some_of above node then child ∷ more else more)

-- `map(|child| hi[*child])`
abbrev pub his_of : List ℕ → List ℕ → Outcome (List ℕ)
his_of hi [] = done []
his_of hi (child ∷ rest) = do first ← index hi child; more ← his_of hi rest; done (first ∷ more)

-- All but the first that is `least`.
abbrev pub without_first : ℕ → List ℕ → List ℕ
without_first x [] = []
without_first x (y ∷ ys) = if y == x then ys else y ∷ without_first x ys

-- `retain(|candidate| *candidate != eid)`
abbrev pub retain_other : ℕ → List ℕ → List ℕ
retain_other eid [] = []
retain_other eid (x ∷ xs) = let rest = retain_other eid xs in if x == eid then rest else x ∷ rest

-- `brackets[node].retain(|candidate| *candidate != eid)`
abbrev pub drop_bracket : List (List ℕ) → ℕ → ℕ → Outcome (List (List ℕ))
drop_bracket brackets node eid = do
  list ← index brackets node
  set_at brackets node (retain_other eid list)

-- The loop that moves the brackets of the children.
abbrev pub move_brackets : ℕ → List ℕ → List (List ℕ) → Outcome (List (List ℕ))
move_brackets node [] brackets = done brackets
move_brackets node (child ∷ rest) brackets = do
  taken ← index brackets child
  brackets ← set_at brackets child []
  list ← index brackets node
  brackets ← set_at brackets node (list ++ taken)
  move_brackets node rest brackets

-- `list.last()`
abbrev pub last_of : List ℕ → Option ℕ
last_of [] = none
last_of (x ∷ []) = some x
last_of (x ∷ y ∷ xs) = last_of (y ∷ xs)

-- What the loop over the nodes changes.
pub record Marks (E : Type 0) : Type 0 where
  pub edges : List (IEdge E)
  pub incident : List (List ℕ)
  pub tree : List Bool
  pub hi : List ℕ
  pub brackets : List (List ℕ)
  pub classes : List ℕ
  pub recent_size : List ℕ
  pub recent_class : List ℕ
  pub capping : List ℕ
  pub next_class : ℕ

module _ {E : Type 0} (s : Visit) where
  -- The numbers of the ends of the back edges that lead up from the node.
  abbrev pub ups : Marks E → ℕ → List ℕ → Outcome (List ℕ)
  ups m node [] = done []
  ups m node (eid ∷ rest) = do
    in_tree ← index m.tree eid
    elim in_tree [
      | true ↦ ups m node rest
      | false ↦ do
        edge ← index m.edges eid
        below ← is_descendant s node (other_end edge node)
        elim below [
          | false ↦ ups m node rest
          | true ↦ do
            number ← index s.number (other_end edge node)
            more ← ups m node rest
            done (number ∷ more)
        ]
    ]

  -- The loop over the capping edges.
  abbrev pub drop_capping : Marks E → ℕ → List ℕ → Outcome (Marks E)
  drop_capping m node [] = done m
  drop_capping m node (eid ∷ rest) = do
    edge ← index m.edges eid
    below ← is_descendant s (if edge.to_node == node then edge.from_node else edge.to_node) node
    elim below [
      | false ↦ drop_capping m node rest
      | true ↦ do
        brackets ← drop_bracket m.brackets node eid
        drop_capping (record m { brackets = brackets }) node rest
    ]

  -- `if classes[eid] == 0 { classes[eid] = next_class; next_class += 1; }`
  abbrev pub class_new : Marks E → ℕ → Outcome (Marks E)
  class_new m eid = do
    class ← index m.classes eid
    elim (class == 0) [
      | false ↦ done m
      | true ↦ do
        classes ← set_at m.classes eid m.next_class
        done (record m { classes = classes; next_class = m.next_class + 1 })
    ]

  -- The loop over the back edges that end at the node.
  abbrev pub drop_ending : Marks E → ℕ → List ℕ → Outcome (Marks E)
  drop_ending m node [] = done m
  drop_ending m node (eid ∷ rest) = do
    in_tree ← index m.tree eid
    elim in_tree [
      | true ↦ drop_ending m node rest
      | false ↦ do
        edge ← index m.edges eid
        below ← is_descendant s (other_end edge node) node
        elim below [
          | false ↦ drop_ending m node rest
          | true ↦ do
            brackets ← drop_bracket m.brackets node eid
            m ← class_new (record m { brackets = brackets }) eid
            drop_ending m node rest
        ]
    ]

  -- The loop over the back edges that lead up from the node.
  abbrev pub push_starting : Marks E → ℕ → List ℕ → Outcome (Marks E)
  push_starting m node [] = done m
  push_starting m node (eid ∷ rest) = do
    in_tree ← index m.tree eid
    elim in_tree [
      | true ↦ push_starting m node rest
      | false ↦ do
        edge ← index m.edges eid
        below ← is_descendant s node (other_end edge node)
        elim below [
          | false ↦ push_starting m node rest
          | true ↦ do
            brackets ← push_to m.brackets node eid
            push_starting (record m { brackets = brackets }) node rest
        ]
    ]

  -- `if hi2 < hi0 { … }`
  abbrev pub cap : Marks E → ℕ → (hi0 hi2 : ℕ) → Outcome (Marks E)
  cap m node hi0 hi2 = elim (ltb hi2 hi0) [
    | false ↦ done m
    | true ↦ do
      let eid = length m.edges
      ancestor ← index s.preorder hi2
      incident ← push_to m.incident node eid
      incident ← push_to incident ancestor eid
      brackets ← push_to m.brackets node eid
      done (record m {
        edges = m.edges ++ (record { from_node = node; to_node = ancestor; original = none } ∷ []);
        incident = incident;
        tree = m.tree ++ (false ∷ []);
        classes = m.classes ++ (0 ∷ []);
        recent_size = m.recent_size ++ (0 ∷ []);
        recent_class = m.recent_class ++ (0 ∷ []);
        capping = m.capping ++ (eid ∷ []);
        brackets = brackets;
      })
  ]

  -- `if recent_size[top] != brackets[node].len() { … }`
  abbrev pub renew : Marks E → (top size : ℕ) → Outcome (Marks E)
  renew m top size = do
    recent ← index m.recent_size top
    elim (recent == size) [
      | true ↦ done m
      | false ↦ do
        recent_size ← set_at m.recent_size top size
        recent_class ← set_at m.recent_class top m.next_class
        done (record m {
          recent_size = recent_size;
          recent_class = recent_class;
          next_class = m.next_class + 1;
        })
    ]

  -- The class of the tree edge to the parent.
  abbrev pub class_tree : Marks E → (node parent_eid : ℕ) → Outcome (Option (Marks E))
  class_tree m node parent_eid = do
    list ← index m.brackets node
    elim (last_of list) [
      | none ↦ done none
      | some top ↦ do
        m ← renew m top (length list)
        class ← index m.recent_class top
        classes ← set_at m.classes parent_eid class
        size ← index m.recent_size top
        elim (size == 1) [
          | false ↦ done (some (record m { classes = classes }))
          | true ↦ do
            own ← index classes parent_eid
            classes ← set_at classes top own
            done (some (record m { classes = classes }))
        ]
    ]

  -- The body of the loop.
  abbrev pub round : Marks E → ℕ → Outcome (Option (Marks E))
  round m node = do
    children ← children_in s.parent node s.preorder
    around ← index m.incident node
    up_numbers ← ups m node around
    child_his ← his_of m.hi children
    let hi0 = least up_numbers
    let hi1 = least child_his
    hi ← set_at m.hi node (least (hi0 ∷ hi1 ∷ []))
    child_his ← his_of hi children
    let hi2 = least (without_first hi1 child_his)
    brackets ← move_brackets node children m.brackets
    m ← drop_capping (record m { hi = hi; brackets = brackets }) node m.capping
    m ← drop_ending m node around
    m ← push_starting m node around
    m ← cap m node hi0 hi2
    above ← index s.parent_edge node
    elim above [ none ↦ done (some m) | some parent_eid ↦ class_tree m node parent_eid ]

  -- The loop over the nodes that are left.
  abbrev pub rounds_over : Marks E → List ℕ → Outcome (Option (Marks E))
  rounds_over m [] = done (some m)
  rounds_over m (node ∷ rest) = do
    next ← round m node
    elim next [ none ↦ done none | some m ↦ rounds_over m rest ]

abbrev pub reversed : List ℕ → List ℕ
reversed [] = []
reversed (x ∷ xs) = reversed xs ++ (x ∷ [])

module _ {E : Type 0} (fuel : ℕ) (edges : List (IEdge E)) (n root : ℕ) where
  -- The classes of the bracket lists, if the flowgraph is proper.
  unfoldable pub propose : Run (Option (List ℕ))
  propose = do
    incident ← incident_from 0 edges (replicate n [])
    visit edges incident fuel (unvisited edges incident n) root >=> (λ s. do
      ended ←
          rounds_over s
            (record {
              edges = edges;
              incident = incident;
              tree = s.tree;
              hi = replicate n max_index;
              brackets = replicate n [];
              classes = replicate (length edges) 0;
              recent_size = replicate (length edges) 0;
              recent_class = replicate (length edges) 0;
              capping = [];
              next_class = 1;
            })
            (reversed s.preorder)
      elim ended [
        | none ↦ done (some none)
        | some m ↦ done (some (some (take (length edges) m.classes)))
      ])

  unfoldable pub jpp_cycle_classes : Run (List ℕ)
  jpp_cycle_classes = propose >=> settle fuel edges n
