-- ===== src/Sese/Jpp/Lists.antt =====
-- Vectors of lists of indices in `jpp_cycle_classes`, src/graph/analysis/sese.rs: what is pushed and
-- what is retained stays in range.
use jstd.Base.{
  ℕ, ◌+◌, ◌≤◌, ◌<◌, ◌≡◌, refl, ◌∙◌, subst, inl, inr, Bool-cases, some, List, [], ◌∷◌, ◌++◌, ◌==◌,
  done, length, length-set, length-replicate, get_elem?, get_elem?_lt, get_elem?-set,
  get_elem?-replicate, set, replicate, Among, Among-append, arith,
}
use jstd.Sese.{IEdge}
use jstd.Sese.Walk.{Within}
use jstd.Sese.Jpp.{push_to, incident_from}

-- All elements are below the bound.
abbrev pub Below : ℕ → List ℕ → Type 0
Below bound xs = (x : ℕ) → Among x xs → x < bound

-- A vector of lists of elements below the bound.
pub record Lists (n bound : ℕ) (lists : List (List ℕ)) : Type 0 where
  pub size : length lists ≡ n
  pub below : (v : ℕ) (list : List ℕ) → get_elem? lists v ≡ some list → Below bound list

pub raise-Lists :
    {n bound bound' : ℕ} {lists : List (List ℕ)}
    → Lists n bound lists
    → bound ≤ bound'
    → Lists n bound' lists
raise-Lists l h = record {
  size = l.size;
  below = λ v list at x a. omega (arith, h, l.below v list at x a);
}

pub snoc-Below :
    (bound : ℕ) (xs : List ℕ) (v : ℕ) → Below bound xs → v < bound → Below bound (xs ++ (v ∷ []))
snoc-Below bound xs v low h x a = elim (Among-append xs (v ∷ []) a) [
  | inl old ↦ low x old
  | inr new ↦ last_one x new
]
  where
    last_one : (x : ℕ) → Among x (v ∷ []) → x < bound
    last_one x Among.first = h
    last_one x (Among.later a) = elim a [ ]

pub set-Lists :
    {n bound : ℕ} {lists : List (List ℕ)}
    → Lists n bound lists
    → (i : ℕ) (list : List ℕ) → i < n
    → Below bound list
    → Lists n bound (set lists i list)
set-Lists {n} {bound} {lists} l i list h low =
    let inside : i < length lists = omega (arith, l.size, h) in
    record {
      size = length-set lists i list ∙ l.size;
      below = λ v found at. elim (Bool-cases (i == v)) [
        | inl here ↦
            subst (Below bound) (ground (arith, get_elem?-set lists i list v inside, here, at)) low
        | inr there ↦
            l.below v found (ground (arith, get_elem?-set lists i list v inside, there, at))
      ];
    }

pub push_to_done :
    {n bound : ℕ} {lists : List (List ℕ)}
    → Lists n bound lists
    → (i v : ℕ) → i < n
    → v < bound
    → (after : List (List ℕ)) × (push_to lists i v ≡ done after) × Lists n bound after
push_to_done {n} {bound} {lists} l i v h below =
    let inside : i < length lists = omega (arith, l.size, h) in
    let (list, at) = get_elem?_lt lists i inside in
    (
      set lists i (list ++ (v ∷ [])),
      ground (arith, at, inside),
      set-Lists l i (list ++ (v ∷ [])) h (snoc-Below bound list v (l.below i list at) below),
    )

pub replicate-Lists : (n bound : ℕ) → Lists n bound (replicate n [])
replicate-Lists n bound = record {
  size = length-replicate {A = List ℕ} n [];
  below = λ v list at x a. none_there v list at x a;
}
  where
    none_there :
        (v : ℕ) (list : List ℕ)
        → get_elem? (replicate n []) v ≡ some list
        → (x : ℕ) → Among x list
        → x < bound
    none_there v [] at x a = elim a [ ]
    none_there v (y ∷ list) at x a =
        absurd (ground (arith, get_elem?-replicate {A = List ℕ} n [] v, at))

-- The edges around each node.
pub incident_from_done :
    {E : Type 0} (n bound id : ℕ) (es : List (IEdge E)) (incident : List (List ℕ))
    → Within n es
    → id + length es ≤ bound
    → Lists n bound incident
    → (after : List (List ℕ)) × (incident_from id es incident ≡ done after) × Lists n bound after
incident_from_done n bound id [] incident w h l = (incident, refl, l)
incident_from_done n bound id (e ∷ es) incident (from, to, w) h l =
    let (one, pushed, l1) = push_to_done l e.from_node id from (omega (arith, h)) in
    let (two, pushed', l2) = push_to_done l1 e.to_node id to (omega (arith, h)) in
    let (after, ran, l3) = incident_from_done n bound (id + 1) es two w (omega (arith, h)) l2 in
    (after, ground (arith, pushed, pushed', ran), l3)
