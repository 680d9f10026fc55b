-- ===== src/Sese/Jpp/Brackets/Round.antt =====
-- One round of the loop of `jpp_cycle_classes`, src/graph/analysis/sese.rs, does not panic.
use jstd.Base.{
  ℕ, ◌<◌, ◌≡◌, refl, ◌⊎◌, inl, inr, Bool-cases, Option, List, [], ◌∷◌, ◌==◌, ltb, if◌then◌else◌,
  done, length, get_elem?_lt, get_elem?-set, set, Among, arith,
}
use jstd.Sese.{IEdge, is_some_of}
use jstd.Sese.Jpp.{max_index, Visit, other_end}
use jstd.Sese.Jpp.Lists.{Below, push_to_done}
use jstd.Sese.Jpp.Depth.{Sized}
use jstd.Sese.Jpp.Brackets.{
  least, children_in, his_of, without_first, Marks, ups, drop_capping, push_starting,
}
use jstd.Sese.Jpp.Brackets.Good.{
  drop_bracket_done, Numbers, Good, Keeps, with-brackets, is_descendant_done, around_done,
}

-- A number of a node below the bound, or no number.
abbrev pub IsNumber : ℕ → ℕ → Type 0
IsNumber bound k = (k ≡ max_index) ⊎ (k < bound)

abbrev pub AllNumbers : ℕ → List ℕ → Type 0
AllNumbers bound [] = Unit
AllNumbers bound (k ∷ ks) = IsNumber bound k × AllNumbers bound ks

pub least-IsNumber : (bound : ℕ) (ks : List ℕ) → AllNumbers bound ks → IsNumber bound (least ks)
least-IsNumber bound [] all = inl refl
least-IsNumber bound (k ∷ ks) (one, rest) = elim (Bool-cases (ltb (least ks) k)) [
  | inl lower ↦ rw lower (least-IsNumber bound ks rest)
  | inr upper ↦ rw upper one
]

pub without-AllNumbers :
    (bound x : ℕ) (ks : List ℕ) → AllNumbers bound ks → AllNumbers bound (without_first x ks)
without-AllNumbers bound x [] all = tt
without-AllNumbers bound x (k ∷ ks) (one, rest) = elim (Bool-cases (k == x)) [
  | inl same ↦ rw same rest
  | inr other ↦ rw other (one, without-AllNumbers bound x ks rest)
]

pub set-Numbers :
    (hi : List ℕ) (bound node k : ℕ)
    → node < length hi
    → Numbers hi bound
    → IsNumber bound k
    → Numbers (set hi node k) bound
set-Numbers hi bound node k h numbers num v j at = elim (Bool-cases (node == v)) [
  | inl here ↦ ground (arith, get_elem?-set hi node k v h, here, at, num)
  | inr there ↦ numbers v j (ground (arith, get_elem?-set hi node k v h, there, at))
]

pub children_done :
    (n : ℕ) (parent : List (Option ℕ)) (node : ℕ) (nodes : List ℕ)
    → length parent ≡ n
    → Below n nodes
    → (children : List ℕ) × (children_in parent node nodes ≡ done children) × Below n children
children_done n parent node [] size low = ([], refl, low)
children_done n parent node (child ∷ rest) size low =
    let below = low child Among.first in
    let (above, at) = get_elem?_lt parent child (omega (arith, size, below)) in
    let (more, found, low') =
      children_done n parent node rest size (λ x a. low x (Among.later a)) in
    elim (Bool-cases (is_some_of above node)) [
      | inl is_child ↦
          (child ∷ more, ground (arith, at, found, is_child), either child more below low')
      | inr other ↦ (more, ground (arith, at, found, other), low')
    ]
  where
    either : (child : ℕ) (more : List ℕ) → child < n → Below n more → Below n (child ∷ more)
    either child more h low x Among.first = h
    either child more h low x (Among.later a) = low x a

pub his_done :
    (n bound : ℕ) (hi children : List ℕ)
    → length hi ≡ n
    → Numbers hi bound
    → Below n children
    → (his : List ℕ) × (his_of hi children ≡ done his) × AllNumbers bound his
his_done n bound hi [] size numbers low = ([], refl, tt)
his_done n bound hi (child ∷ rest) size numbers low =
    let (k, at) = get_elem?_lt hi child (omega (arith, size, low child Among.first)) in
    let (more, found, all) = his_done n bound hi rest size numbers (λ x a. low x (Among.later a)) in
    (k ∷ more, ground (arith, at, found), (numbers child k at, all))

module _ {E : Type 0} (n count : ℕ) (s : Visit) (edges : List (IEdge E))
    (sized : Sized edges n s) where
  pub ups_done :
      (m : Marks E) (node : ℕ) (around : List ℕ)
      → Good n count s m
      → node < n
      → Below (length m.edges) around
      → (ks : List ℕ) × (ups s m node around ≡ done ks) × AllNumbers (length s.preorder) ks
  ups_done m node [] g h low = ([], refl, tt)
  ups_done m node (eid ∷ rest) g h low =
      let (b, e, tree_at, edge_at, ends, _, _) =
        around_done n count s edges sized m eid g (low eid Among.first) in
      let other = other_end e node in
      let (r, tested) = is_descendant_done n count s edges sized node other h (ends node) in
      let (k, at) = get_elem?_lt s.number other (omega (arith, sized.number, ends node)) in
      let (ks, found, all) = ups_done m node rest g h (λ x a. low x (Among.later a)) in
      elim (Bool-cases b) [
        | inl in_tree ↦ (ks, ground (arith, tree_at, in_tree, found), all)
        | inr not_tree ↦ elim (Bool-cases r) [
          | inr above ↦ (ks, ground (arith, tree_at, not_tree, edge_at, tested, above, found), all)
          | inl below ↦ (
            k ∷ ks,
            ground (arith, tree_at, not_tree, edge_at, tested, below, at, found),
            (sized.numbered other k at, all),
          )
        ]
      ]

  pub push_starting-Keeps :
      (m : Marks E) (node : ℕ) (around : List ℕ)
      → Good n count s m
      → node < n
      → Below (length m.edges) around
      → Keeps n count s (push_starting s m node around) m
  push_starting-Keeps m node [] g h low = record {
    after = m;
    ran = refl;
    good = g;
    same_edges = refl;
  }
  push_starting-Keeps m node (eid ∷ rest) g h low =
      let here = low eid Among.first in
      let (b, e, tree_at, edge_at, ends, _, _) = around_done n count s edges sized m eid g here in
      let (r, tested) =
        is_descendant_done n count s edges sized node (other_end e node) h (ends node) in
      let (brackets, pushed, l) = push_to_done g.brackets node eid h here in
      let skipped = push_starting-Keeps m node rest g h (λ x a. low x (Among.later a)) in
      let later =
        push_starting-Keeps (record m { brackets = brackets }) node rest
          (with-brackets n count s m brackets g l) h (λ x a. low x (Among.later a)) in
      elim (Bool-cases b) [
        | inl in_tree ↦ record {
          after = skipped.after;
          ran = ground (arith, tree_at, in_tree, skipped.ran);
          good = skipped.good;
          same_edges = skipped.same_edges;
        }
        | inr not_tree ↦ elim (Bool-cases r) [
          | inr above ↦ record {
            after = skipped.after;
            ran = ground (arith, tree_at, not_tree, edge_at, tested, above, skipped.ran);
            good = skipped.good;
            same_edges = skipped.same_edges;
          }
          | inl below ↦ record {
            after = later.after;
            ran = ground (arith, tree_at, not_tree, edge_at, tested, below, pushed, later.ran);
            good = later.good;
            same_edges = later.same_edges;
          }
        ]
      ]

  pub drop_capping-Keeps :
      (m : Marks E) (node : ℕ) (caps : List ℕ)
      → Good n count s m
      → node < n
      → Below (length m.edges) caps
      → Keeps n count s (drop_capping s m node caps) m
  drop_capping-Keeps m node [] g h low = record {
    after = m;
    ran = refl;
    good = g;
    same_edges = refl;
  }
  drop_capping-Keeps m node (eid ∷ rest) g h low =
      let here = low eid Among.first in
      let (b, e, tree_at, edge_at, ends, from, to) =
        around_done n count s edges sized m eid g here in
      let child = if e.to_node == node then e.from_node else e.to_node in
      let (r, tested) =
        is_descendant_done n count s edges sized child node (ground (arith, from, to)) h in
      let (brackets, dropped, l) = drop_bracket_done g.brackets node eid h in
      let skipped = drop_capping-Keeps m node rest g h (λ x a. low x (Among.later a)) in
      let later =
        drop_capping-Keeps (record m { brackets = brackets }) node rest
          (with-brackets n count s m brackets g l) h (λ x a. low x (Among.later a)) in
      elim (Bool-cases r) [
        | inr above ↦ record {
          after = skipped.after;
          ran = ground (arith, edge_at, tested, above, skipped.ran);
          good = skipped.good;
          same_edges = skipped.same_edges;
        }
        | inl below ↦ record {
          after = later.after;
          ran = ground (arith, edge_at, tested, below, dropped, later.ran);
          good = later.good;
          same_edges = later.same_edges;
        }
      ]
