-- ===== src/Sese/Regions/Owners.antt =====
-- The last loops of `compute_sese`, src/graph/analysis/sese.rs: the children are sorted, and every node is
-- given to one region.
use jstd.Base.{
  ℕ, zero, suc, ◌+◌, ◌<◌, ◌≡◌, refl, sym, ◌∙◌, ap, subst, inl, inr, Bool, true, false, ◌&&◌, ◌||◌,
  Bool-cases, ==→eq, eq→==, ne→not-==, none, some, List, [], ◌∷◌, ◌++◌, ◌==◌, leb, done, length,
  length-set, get_elem?, get_elem?_lt, get_elem?-set, lt-length_of_get_elem?, set, member, Distinct,
  member-sort, InOrder, sort_by-InOrder, map, arith,
}
use jstd.Dominators.Reach.{member-append}
use jstd.Sese.Regions.{SeseRegion, shortest, or_root, push_node, sort_children, own_nodes}
use jstd.Sese.Regions.Push.{
  field, parent_of, children_of, nodes_of, contained_of, entry_of, exit_of,
}

-- Only the nodes that the regions own differ.
pub record SameTree (regions after : List SeseRegion) : Type 0 where
  pub size : length after ≡ length regions
  pub parents : (i : ℕ) → parent_of after i ≡ parent_of regions i
  pub children : (i : ℕ) → children_of after i ≡ children_of regions i
  pub contained : (i : ℕ) → contained_of after i ≡ contained_of regions i
  pub entries : (i : ℕ) → entry_of after i ≡ entry_of regions i
  pub exits : (i : ℕ) → exit_of after i ≡ exit_of regions i

read_same :
    {B : Type 0} (g : SeseRegion → B) (d : B) (regions : List SeseRegion) (r updated : SeseRegion)
    (p i : ℕ)
    → get_elem? regions p ≡ some r
    → g updated ≡ g r
    → field g d (get_elem? (set regions p updated) i) ≡ field g d (get_elem? regions i)
read_same g d regions r updated p i at same =
    ap (field g d) (get_elem?-set regions p updated i (lt-length_of_get_elem? regions p at))
    ∙ elim (Bool-cases (p == i)) [
      | inl here ↦
          rw (here, same)
            (ap (field g d) (sym (ap (get_elem? regions) (sym (==→eq p i here)) ∙ at)))
      | inr there ↦ rw there refl
    ]

push_node_done :
    (regions : List SeseRegion) (owner node : ℕ)
    → owner < length regions
    → (after : List SeseRegion) × (push_node regions owner node ≡ done after)
      × SameTree regions after
      × ((u i : ℕ)
          → member u (nodes_of after i)
            ≡ (member u (nodes_of regions i) || ((node == u) && (owner == i))))
push_node_done regions owner node h =
    let (r, at) = get_elem?_lt regions owner h in
    let updated : SeseRegion = record r { nodes = r.nodes ++ (node ∷ []) } in
    (
      set regions owner updated,
      ground (arith, at, h),
      record {
        size = length-set regions owner updated;
        parents = λ i. read_same (λ r. r.parent) none regions r updated owner i at refl;
        children = λ i. read_same (λ r. r.children) [] regions r updated owner i at refl;
        contained = λ i. read_same (λ r. r.contained_nodes) [] regions r updated owner i at refl;
        entries = λ i. read_same (λ r. r.entry_edge) none regions r updated owner i at refl;
        exits = λ i. read_same (λ r. r.exit_edge) none regions r updated owner i at refl;
      },
      λ u i.
          ap (λ x. member u (field (λ r. r.nodes) [] x)) (get_elem?-set regions owner updated i h)
          ∙ elim (Bool-cases (owner == i)) [
            | inl here ↦
                rw (here, ap (get_elem? regions) (sym (==→eq owner i here)) ∙ at)
                  (ground (arith, member-append r.nodes (node ∷ []) u))
            | inr there ↦ rw there (ground arith)
          ],
    )

-- The position of the region that owns the node at `i`.
abbrev pub owner : List (List ℕ) → ℕ → ℕ
owner sets i = or_root (shortest (member i) 0 sets none)

-- Whether the region `r` is given the node `u` among the nodes from the position `i` on.
abbrev given : List (List ℕ) → (u r i : ℕ) → List ℕ → Bool
given sets u r i [] = false
given sets u r i (node ∷ rest) = ((node == u) && (owner sets i == r)) || given sets u r (i + 1) rest

given_none :
    (sets : List (List ℕ)) (u r i : ℕ) (nodes : List ℕ)
    → member u nodes ≡ false
    → given sets u r i nodes ≡ false
given_none sets u r i [] h = refl
given_none sets u r i (node ∷ rest) h = ground (arith, h, given_none sets u r (i + 1) rest)

or_false : (b : Bool) → (b || false) ≡ b
or_false true = refl
or_false false = refl

plus_zero : (i : ℕ) → i + 0 ≡ i
plus_zero i = omega arith

plus_suc : (i k : ℕ) → i + suc k ≡ i + 1 + k
plus_suc i k = omega arith

member_of_at : (xs : List ℕ) (k : ℕ) {u : ℕ} → get_elem? xs k ≡ some u → member u xs ≡ true
member_of_at [] k h = cc h
member_of_at (x ∷ xs) zero h = ground (arith, h)
member_of_at (x ∷ xs) (suc k) h = ground (arith, member_of_at xs k h)

pub given_at :
    (sets : List (List ℕ)) (u r i k : ℕ) (nodes : List ℕ)
    → Distinct nodes
    → get_elem? nodes k ≡ some u
    → given sets u r i nodes ≡ (owner sets (i + k) == r)
given_at sets u r i k [] d at = cc at
given_at sets u r i zero (node ∷ rest) d at =
    let e : node ≡ u = ground (arith, at) in
    rw
      (
        eq→== node u e,
        given_none sets u r (i + 1) rest (ap (λ x. member x rest) (sym e) ∙ d.0),
        ap (owner sets) (plus_zero i),
      )
      (or_false (owner sets i == r))
given_at sets u r i (suc k) (node ∷ rest) d at =
    let there : member u rest ≡ true = member_of_at rest k at in
    rw
      (
        ne→not-== node u (λ e. ground (arith, there, ap (λ x. member x rest) (sym e) ∙ d.0)),
        ap (owner sets) (plus_suc i k),
      )
      (given_at sets u r (i + 1) k rest d.1 at)

pub own_nodes_done :
    (i : ℕ) (nodes : List ℕ) (sets : List (List ℕ)) (regions : List SeseRegion)
    → ((k : ℕ) → k < length nodes → owner sets (i + k) < length regions)
    → (after : List SeseRegion) × (own_nodes i nodes sets regions ≡ done after)
      × SameTree regions after
      × ((u r : ℕ)
          → member u (nodes_of after r) ≡ (member u (nodes_of regions r) || given sets u r i nodes))
unfolding own_nodes
own_nodes_done i [] sets regions h = (
  regions,
  refl,
  record {
    size = refl;
    parents = λ i. refl;
    children = λ i. refl;
    contained = λ i. refl;
    entries = λ i. refl;
    exits = λ i. refl;
  },
  λ u r. ground arith,
)
own_nodes_done i (node ∷ rest) sets regions h =
    let (more, pushed, same, gained) =
      push_node_done regions (owner sets i) node
        (subst (λ x. owner sets x < length regions) (plus_zero i) (h 0 (omega arith))) in
    let (after, ran, same', gained') = own_nodes_done (i + 1) rest sets more (λ k lt. omega (
      arith,
      same.size,
      subst (λ x. owner sets x < length regions) (plus_suc i k) (h (suc k) (omega (arith, lt))),
    )) in
    (
      after,
      ground (arith, pushed, ran),
      record {
        size = same'.size ∙ same.size;
        parents = λ j. same'.parents j ∙ same.parents j;
        children = λ j. same'.children j ∙ same.children j;
        contained = λ j. same'.contained j ∙ same.contained j;
        entries = λ j. same'.entries j ∙ same.entries j;
        exits = λ j. same'.exits j ∙ same.exits j;
      },
      λ u r. ground (arith, gained u r, gained' u r),
    )

-- Sorting the children keeps all but their order.
pub read_sorted :
    {B : Type 0} (g : SeseRegion → B) (d : B)
    → ((r : SeseRegion) → g (sort_children r) ≡ g r)
    → (regions : List SeseRegion) (i : ℕ)
    → field g d (get_elem? (map sort_children regions) i) ≡ field g d (get_elem? regions i)
read_sorted g d same [] i = refl
read_sorted g d same (r ∷ regions) zero = same r
read_sorted g d same (r ∷ regions) (suc i) = read_sorted g d same regions i

pub member-children :
    (regions : List SeseRegion) (i j : ℕ)
    → member j (children_of (map sort_children regions) i) ≡ member j (children_of regions i)
member-children [] i j = refl
member-children (r ∷ regions) zero j = member-sort leb r.children j
member-children (r ∷ regions) (suc i) j = member-children regions i j

pub children-InOrder :
    (regions : List SeseRegion) (i : ℕ) → InOrder leb (children_of (map sort_children regions) i)
children-InOrder [] i = tt
children-InOrder (r ∷ regions) zero = sort_by-InOrder leb leb_trans leb_total r.children
  where
    leb_trans : (x y z : ℕ) → leb x y ≡ true → leb y z ≡ true → leb x z ≡ true
    leb_trans x y z h k = ground (arith, h, k)

    leb_total : (x y : ℕ) → leb x y ≡ false → leb y x ≡ true
    leb_total x y h = ground (arith, h)
children-InOrder (r ∷ regions) (suc i) = children-InOrder regions i

pub length-sorted :
    (regions : List SeseRegion) → length (map sort_children regions) ≡ length regions
length-sorted [] = refl
length-sorted (r ∷ regions) = ap suc (length-sorted regions)
