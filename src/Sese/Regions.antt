-- ===== src/Sese/Regions.antt =====
-- The tree of canonical regions of `compute_sese`, src/graph/analysis/sese.rs: the candidates that are
-- selected, and the regions that are made of them. A set of nodes is a list of positions.
pub mod Smallest
pub mod Push
pub mod Parents
pub mod Made
pub mod Canonical
pub mod Selection
pub mod Owners
pub mod Tree
pub mod Tests
use jstd.Base.{
  ℕ, zero, suc, ◌+◌, Bool, true, false, not, ◌&&◌, ◌||◌, Option, none, some, List, [], ◌∷◌, ◌++◌,
  ◌==◌, ltb, leb, if◌then◌else◌, is_some, Outcome, done, ◌>>=◌, length, member, lookup, insert,
  index, set_at, sort, sort_by, map,
}
use jstd.Sese.{IEdge, is_some_of}
use jstd.Sese.Candidates.{Candidate}

abbrev pub is_subset : List ℕ → List ℕ → Bool
is_subset [] ys = true
is_subset (x ∷ xs) ys = member x ys && is_subset xs ys

-- `candidate.iter().any(|node| other.contains(node))`
abbrev pub intersects : List ℕ → List ℕ → Bool
intersects [] ys = false
intersects (x ∷ xs) ys = member x ys || intersects xs ys

-- The order of pairs of edges.
abbrev pub pair_before : (a b c d : ℕ) → Bool
pair_before a b c d = ltb a c || ((a == c) && leb b d)

-- The order of `sort_by_key(|(a, b, nodes)| (nodes.len(), *a, *b))`.
abbrev pub smaller_before : Candidate → Candidate → Bool
smaller_before (a, b, xs) (c, d, ys) =
    ltb (length xs) (length ys) || ((length xs == length ys) && pair_before a b c d)

-- The order of `sort_by_key(|(a, b, nodes)| (Reverse(nodes.len()), *a, *b))`.
abbrev pub larger_before : Candidate → Candidate → Bool
larger_before (a, b, xs) (c, d, ys) =
    ltb (length ys) (length xs) || ((length xs == length ys) && pair_before a b c d)

-- `map.entry(key).or_insert(value)`
abbrev pub or_insert : ℕ → ℕ → List (ℕ × ℕ) → List (ℕ × ℕ)
or_insert key value map = if is_some (lookup key map) then map else insert key value map

-- The smallest candidate of each boundary edge.
abbrev pub smallest_for : ℕ → List Candidate → List (ℕ × ℕ) → List (ℕ × ℕ)
smallest_for i [] map = map
smallest_for i ((a, b, nodes) ∷ rest) map =
    smallest_for (i + 1) rest (or_insert b i (or_insert a i map))

-- The candidates that are the smallest of a boundary edge.
abbrev pub canonical : ℕ → List (ℕ × ℕ) → List Candidate → List Candidate
canonical i smallest [] = []
canonical i smallest ((a, b, nodes) ∷ rest) =
    let more = canonical (i + 1) smallest rest in
    if is_some_of (lookup a smallest) i || is_some_of (lookup b smallest) i
    then (a, b, nodes) ∷ more
    else more

abbrev pub crosses_any : List ℕ → List Candidate → Bool
crosses_any nodes [] = false
crosses_any nodes ((_, _, other) ∷ rest) =
    (intersects nodes other && (not (is_subset nodes other) && not (is_subset other nodes)))
    || crosses_any nodes rest

abbrev pub laminar : List Candidate → List Candidate → List Candidate
laminar all [] = []
laminar all ((a, b, nodes) ∷ rest) =
    let more = laminar all rest in if crosses_any nodes all then more else (a, b, nodes) ∷ more

unfoldable pub selected : List Candidate → List Candidate
selected found =
    let sorted = sort_by smaller_before found in
    sort_by larger_before (laminar sorted (canonical 0 (smallest_for 0 sorted []) sorted))

-- `SeseRegion`
pub record SeseRegion : Type 0 where
  pub parent : Option ℕ
  pub children : List ℕ
  pub entry_edge : Option ℕ
  pub exit_edge : Option ℕ
  pub nodes : List ℕ
  pub contained_nodes : List ℕ

-- `min_by_key(|(_, set)| set.len())` over the sets that hold, from the position `i` on: the first of
-- the shortest, with its length.
abbrev pub shorter : ℕ → ℕ → Option (ℕ × ℕ) → Option (ℕ × ℕ)
shorter i size none = some (i, size)
shorter i size (some (j, least)) = if ltb size least then some (i, size) else some (j, least)

abbrev pub shortest : (List ℕ → Bool) → ℕ → List (List ℕ) → Option (ℕ × ℕ) → Option (ℕ × ℕ)
shortest holds i [] best = best
shortest holds i (set ∷ sets) best =
    shortest holds (i + 1) sets (if holds set then shorter i (length set) best else best)

-- `map(|(i, _)| i).unwrap_or(0)`
abbrev pub or_root : Option (ℕ × ℕ) → ℕ
or_root none = 0
or_root (some (i, _)) = i

-- `nodes.iter().map(|i| ids[*i]).collect()`
abbrev pub ids_at : List ℕ → List ℕ → Outcome (List ℕ)
ids_at ids [] = done []
ids_at ids (i ∷ is) = do id ← index ids i; rest ← ids_at ids is; done (id ∷ rest)

-- `regions[parent].children.push(id)`
abbrev pub push_child : List SeseRegion → ℕ → ℕ → Outcome (List SeseRegion)
push_child regions parent id = do
  region ← index regions parent
  set_at regions parent (record region { children = region.children ++ (id ∷ []) })

-- `regions[owner].nodes.push(node)`
abbrev pub push_node : List SeseRegion → ℕ → ℕ → Outcome (List SeseRegion)
push_node regions owner node = do
  region ← index regions owner
  set_at regions owner (record region { nodes = region.nodes ++ (node ∷ []) })

-- `0..len`
abbrev pub positions_from : ℕ → ℕ → List ℕ
positions_from i zero = []
positions_from i (suc k) = i ∷ positions_from (i + 1) k

abbrev pub sort_children : SeseRegion → SeseRegion
sort_children region = record region { children = sort region.children }

-- The loop over the nodes, from the position `i` on.
unfoldable pub own_nodes : ℕ → List ℕ → List (List ℕ) → List SeseRegion → Outcome (List SeseRegion)
own_nodes i [] sets regions = done regions
own_nodes i (node ∷ rest) sets regions = do
  let owner = or_root (shortest (member i) 0 sets none)
  regions ← push_node regions owner node
  own_nodes (i + 1) rest sets regions

abbrev pub root_region : List ℕ → SeseRegion
root_region ids = record {
  parent = none;
  children = [];
  entry_edge = none;
  exit_edge = none;
  nodes = [];
  contained_nodes = ids;
}

module _ (ids : List ℕ) (edges : List (IEdge ℕ)) where
  -- The region of one candidate.
  abbrev pub region_of : ℕ → Candidate → Outcome SeseRegion
  region_of parent (a, b, nodes) = do
    entry ← index edges a
    exit ← index edges b
    contained ← ids_at ids nodes
    done (record {
      parent = some parent;
      children = [];
      entry_edge = entry.original;
      exit_edge = exit.original;
      nodes = [];
      contained_nodes = contained;
    })

  -- The loop over the selected candidates.
  unfoldable pub add_regions :
      List Candidate → List SeseRegion → List (List ℕ) → Outcome (List SeseRegion × List (List ℕ))
  add_regions [] regions sets = done (regions, sets)
  add_regions (c ∷ rest) regions sets = do
    let parent = or_root (shortest (is_subset c.2) 0 sets none)
    region ← region_of parent c
    regions ← push_child (regions ++ (region ∷ [])) parent (length regions)
    add_regions rest regions (sets ++ (c.2 ∷ []))

  -- What `compute_sese` returns for the candidates that it found.
  unfoldable pub region_tree : List Candidate → Outcome (List SeseRegion)
  region_tree found = do
    (regions, sets) ←
        add_regions (selected found) (root_region ids ∷ []) (positions_from 0 (length ids) ∷ [])
    own_nodes 0 ids sets (map sort_children regions)
