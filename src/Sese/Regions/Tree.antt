-- ===== src/Sese/Regions/Tree.antt =====
-- `region_tree` as a whole: the regions of `compute_sese`, src/graph/analysis/sese.rs, are a tree, and every
-- node is owned by one region.
use jstd.Base.{
  ℕ, zero, suc, ◌+◌, ◌≤◌, ◌<◌, ◌≡◌, refl, sym, ◌∙◌, ap, subst, true, none, some, List, [], ◌∷◌,
  ◌++◌, ◌==◌, is_some, done, length, get_elem?, lt-length_of_get_elem?, get_elem?-middle,
  length-append, member, Distinct, map, Among, InOrder, leb, arith,
}
use jstd.Sese.{IEdge, is_some_of}
use jstd.Sese.Candidates.{Candidate}
use jstd.Sese.Regions.{
  is_subset, selected, SeseRegion, ids_at, positions_from, root_region, sort_children, region_tree,
}
use jstd.Sese.Regions.Selection.{IsSelection, selected-IsSelection}
use jstd.Sese.Regions.Smallest.{set_of, shortest_exact}
use jstd.Sese.Regions.Push.{parent_of, children_of, nodes_of, contained_of}
use jstd.Sese.Regions.Parents.{member-positions, Nested}
use jstd.Sese.Regions.Made.{Fits, Made, add_regions-Nested}
use jstd.Sese.Regions.Owners.{
  owner, given_at, own_nodes_done, read_sorted, member-children, children-InOrder, length-sorted,
}

append_snoc : (xs : List ℕ) (x : ℕ) (ys : List ℕ) → (xs ++ (x ∷ [])) ++ ys ≡ xs ++ (x ∷ ys)
append_snoc [] x ys = refl
append_snoc (z ∷ xs) x ys = ap (λ l. z ∷ l) (append_snoc xs x ys)

ids_at-all :
    (before ids : List ℕ)
    → ids_at (before ++ ids) (positions_from (length before) (length ids)) ≡ done ids
ids_at-all before [] = refl
ids_at-all before (id ∷ ids) =
    let rest =
      subst (λ l. ids_at l (positions_from (length before + 1) (length ids)) ≡ done ids)
        (append_snoc before id ids)
        (subst
          (λ k. ids_at ((before ++ (id ∷ [])) ++ ids) (positions_from k (length ids)) ≡ done ids)
          (length-append before (id ∷ [])) (ids_at-all (before ++ (id ∷ [])) ids)) in
    ground (arith, get_elem?-middle before id ids, rest)

-- The regions are a tree that `sets` describes, and every node is owned once.
pub record IsRegionTree (ids : List ℕ) (edges : List (IEdge ℕ)) (chosen : List Candidate)
    (regions : List SeseRegion) : Type 0 where
  pub sets : List (List ℕ)
  pub size : length regions ≡ 1 + length chosen
  pub of_candidate :
      (i : ℕ) (c : Candidate) → get_elem? chosen i ≡ some c → Made ids edges c regions sets (1 + i)
  pub base : set_of sets 0 ≡ positions_from 0 (length ids)
  pub contents :
      (j : ℕ) → j < 1 + length chosen → ids_at ids (set_of sets j) ≡ done (contained_of regions j)
  pub mutual_ends :
      (i j : ℕ) → member j (children_of regions i) ≡ is_some_of (parent_of regions j) i
  pub ascending : (i : ℕ) → InOrder leb (children_of regions i)
  pub rooted : (j : ℕ) → 0 < j → j < 1 + length chosen → is_some (parent_of regions j) ≡ true
  pub climbs :
      (j p : ℕ)
      → parent_of regions j ≡ some p
      → (p < j) × (is_subset (set_of sets j) (set_of sets p) ≡ true)
  pub closest :
      (j p m : ℕ)
      → parent_of regions j ≡ some p
      → m < j
      → is_subset (set_of sets j) (set_of sets m) ≡ true
      → length (set_of sets p) ≤ length (set_of sets m)
  pub owned :
      (k u : ℕ)
      → get_elem? ids k ≡ some u
      → (r : ℕ) × (r < 1 + length chosen)
        × (member k (set_of sets r) ≡ true)
        × ((m : ℕ)
            → m < 1 + length chosen
            → member k (set_of sets m) ≡ true
            → length (set_of sets r) ≤ length (set_of sets m))
        × ((m : ℕ) → member u (nodes_of regions m) ≡ (r == m))

owner_zero : (sets : List (List ℕ)) (k : ℕ) → owner sets (0 + k) ≡ owner sets k
owner_zero sets k = ap (owner sets) (omega arith)

module _ (ids : List ℕ) where
  root_parent : (j : ℕ) → parent_of (root_region ids ∷ []) j ≡ none
  root_parent zero = refl
  root_parent (suc j) = refl

  root_children : (i : ℕ) → children_of (root_region ids ∷ []) i ≡ []
  root_children zero = refl
  root_children (suc i) = refl

  root_nodes : (i : ℕ) → nodes_of (root_region ids ∷ []) i ≡ []
  root_nodes zero = refl
  root_nodes (suc i) = refl

  root_contents :
      (j : ℕ)
      → j < 1
      → ids_at ids (set_of (positions_from 0 (length ids) ∷ []) j)
        ≡ done (contained_of (root_region ids ∷ []) j)
  root_contents zero h = ids_at-all [] ids
  root_contents (suc j) h = absurd (omega arith)

module _ (ids : List ℕ) (edges : List (IEdge ℕ)) where
  root-Nested : Nested ids (root_region ids ∷ []) (positions_from 0 (length ids) ∷ [])
  root-Nested = record {
    size = refl;
    filled = omega arith;
    base = refl;
    mutual_ends = λ i j. rw (root_children ids i, root_parent ids j) refl;
    climbs = λ j p h. absurd (ground (arith, h, root_parent ids j));
    closest = λ j p m h. absurd (ground (arith, h, root_parent ids j));
    rooted = λ j low high. absurd (omega (arith, low, high));
    unowned = root_nodes ids;
    contents = root_contents ids;
  }

  pub region_tree_exact :
      (found : List Candidate)
      → Distinct ids
      → ((c : Candidate) → Among c found → Fits ids edges c)
      → (regions : List SeseRegion) × (region_tree ids edges found ≡ done regions)
        × IsSelection found (selected found)
        × IsRegionTree ids edges (selected found) regions
  unfolding region_tree
  region_tree_exact found distinct fits =
      let selection = selected-IsSelection found in
      let (built, sets, ran, size, nested, _, made) =
        add_regions-Nested ids edges (selected found) (root_region ids ∷ [])
          (positions_from 0 (length ids) ∷ []) (λ c a. fits c (selection.there c a)) root-Nested in
      let sorted = map sort_children built in
      let count = 1 + length (selected found) in
      let same_size : length sets ≡ count = omega (arith, nested.size, size) in
      let own : (k : ℕ)
          → k < length ids
          → (owner sets k < length sets)
            × (member k (set_of sets (owner sets k)) ≡ true)
            × ((m : ℕ)
                → m < length sets
                → member k (set_of sets m) ≡ true
                → length (set_of sets (owner sets k)) ≤ length (set_of sets m)) =
        λ k h.
          shortest_exact (member k) sets 0 (omega (arith, same_size))
            (ap (member k) (nested.base) ∙ member-positions 0 (length ids) k ∙ ground (arith, h)) in
      let (after, ran', same, gained) =
        own_nodes_done 0 ids sets sorted (λ k h.
          omega (arith, length-sorted built, nested.size, owner_zero sets k, (own k h).0)) in
      let up_same : (j : ℕ) → parent_of after j ≡ parent_of built j =
        λ j. same.parents j ∙ read_sorted (λ r. r.parent) none (λ r. refl) built j in
      (
        after,
        ground (arith, ran, ran'),
        selection,
        record {
          sets = sets;
          size = omega (arith, same.size, length-sorted built, size);
          base = nested.base;
          of_candidate = λ i c at.
              let m = made i (1 + i) c at refl in
              record {
                entry_edge = m.entry_edge;
                exit_edge = m.exit_edge;
                entry_at = m.entry_at;
                exit_at = m.exit_at;
                named_entry =
                    same.entries (1 + i)
                    ∙ read_sorted (λ r. r.entry_edge) none (λ r. refl) built (1 + i)
                    ∙ m.named_entry;
                named_exit =
                    same.exits (1 + i)
                    ∙ read_sorted (λ r. r.exit_edge) none (λ r. refl) built (1 + i)
                    ∙ m.named_exit;
                held = m.held;
              };
          contents = λ j h.
              nested.contents j (omega (arith, h, size))
              ∙ ap done (
                  sym (
                    same.contained j
                    ∙ read_sorted (λ r. r.contained_nodes) [] (λ r. refl) built j));
          mutual_ends = λ i j.
              ap (member j) (same.children i)
              ∙ member-children built i j
              ∙ nested.mutual_ends i j
              ∙ ap (λ x. is_some_of x i) (sym (up_same j));
          ascending = λ i. subst (InOrder leb) (sym (same.children i)) (children-InOrder built i);
          rooted = λ j low high.
              ap is_some (up_same j) ∙ nested.rooted j low (omega (arith, high, size));
          climbs = λ j p h. nested.climbs j p (sym (up_same j) ∙ h);
          closest = λ j p m h. nested.closest j p m (sym (up_same j) ∙ h);
          owned = λ k u at.
              let h = lt-length_of_get_elem? ids k at in
              let (below, inside, least) = own k h in
              (
                owner sets k,
                omega (arith, below, same_size),
                inside,
                λ m lt here. least m (omega (arith, lt, same_size)) here,
                λ m.
                    gained u m
                    ∙ ground (
                      arith,
                      read_sorted (λ r. r.nodes) [] (λ r. refl) built m,
                      nested.unowned m,
                      given_at sets u m 0 k ids distinct at,
                      owner_zero sets k,
                    ),
              );
        },
      )
