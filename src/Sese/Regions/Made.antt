-- ===== src/Sese/Regions/Made.antt =====
-- `add_regions`, the loop that adds the regions of the selected candidates, src/graph/analysis/sese.rs: every
-- candidate has its region, with its edges and its nodes.
use jstd.Base.{
  ℕ, zero, suc, ◌+◌, ◌<◌, ◌≡◌, refl, ◌∙◌, true, none, some, List, [], ◌∷◌, ◌++◌, done, length,
  get_elem?, subst, get_elem?_lt, Among, arith,
}
use jstd.Sese.{IEdge}
use jstd.Sese.Candidates.{Candidate}
use jstd.Sese.Regions.{
  is_subset, SeseRegion, shortest, or_root, ids_at, positions_from, region_of, add_regions,
}
use jstd.Sese.Regions.Smallest.{set_of, shortest_exact}
use jstd.Sese.Regions.Push.{entry_of, exit_of, Pushed, push_child-Pushed}
use jstd.Sese.Regions.Parents.{member-positions, Nested, set_of-append, push-Nested}

is_subset_lt :
    (ids nodes : List ℕ)
    → is_subset nodes (positions_from 0 (length ids)) ≡ true
    → (contained : List ℕ) × (ids_at ids nodes ≡ done contained)
is_subset_lt ids [] h = ([], refl)
is_subset_lt ids (x ∷ nodes) h =
    let below : x < length ids = ground (arith, h, member-positions 0 (length ids) x) in
    let (id, at) = get_elem?_lt ids x below in
    let (rest, found) = is_subset_lt ids nodes (ground (arith, h)) in
    (id ∷ rest, ground (arith, at, found))

module _ (ids : List ℕ) (edges : List (IEdge ℕ)) where
  -- The candidate names edges and nodes of the flowgraph.
  pub record Fits (c : Candidate) : Type 0 where
    pub entry : c.0 < length edges
    pub exit : c.1 < length edges
    pub inside : is_subset c.2 (positions_from 0 (length ids)) ≡ true

  region_of_done :
      (p : ℕ) (c : Candidate)
      → Fits c
      → (new : SeseRegion) × (region_of ids edges p c ≡ done new)
        × (new.parent ≡ some p)
        × (new.children ≡ [])
        × (new.nodes ≡ [])
        × (ids_at ids c.2 ≡ done new.contained_nodes)
        × ((e : IEdge ℕ) × (get_elem? edges c.0 ≡ some e) × (new.entry_edge ≡ e.original))
        × ((f : IEdge ℕ) × (get_elem? edges c.1 ≡ some f) × (new.exit_edge ≡ f.original))
  region_of_done p c fits =
      let (e, at) = get_elem?_lt edges c.0 fits.entry in
      let (f, at') = get_elem?_lt edges c.1 fits.exit in
      let (contained, found) = is_subset_lt ids c.2 fits.inside in
      (
        record {
          parent = some p;
          children = [];
          entry_edge = e.original;
          exit_edge = f.original;
          nodes = [];
          contained_nodes = contained;
        },
        ground (arith, at, at', found),
        refl,
        refl,
        refl,
        found,
        (e, at, refl),
        (f, at', refl),
      )

  -- The region at the position is that of the candidate.
  pub record Made (c : Candidate) (regions : List SeseRegion) (sets : List (List ℕ)) (j : ℕ)
      : Type 0 where
    pub entry_edge : IEdge ℕ
    pub exit_edge : IEdge ℕ
    pub entry_at : get_elem? edges c.0 ≡ some entry_edge
    pub exit_at : get_elem? edges c.1 ≡ some exit_edge
    pub named_entry : entry_of regions j ≡ entry_edge.original
    pub named_exit : exit_of regions j ≡ exit_edge.original
    pub held : set_of sets j ≡ c.2

  -- The regions that are there keep their edges and their sets.
  pub record Extends (regions after : List SeseRegion) (sets sets' : List (List ℕ)) : Type 0 where
    entries : (j : ℕ) → j < length regions → entry_of after j ≡ entry_of regions j
    exits : (j : ℕ) → j < length regions → exit_of after j ≡ exit_of regions j
    held : (j : ℕ) → j < length regions → set_of sets' j ≡ set_of sets j

  Made-Extends :
      {c : Candidate} {regions after : List SeseRegion} {sets sets' : List (List ℕ)} (j : ℕ)
      → j < length regions
      → Extends regions after sets sets'
      → Made c regions sets j
      → Made c after sets' j
  Made-Extends j h more made = record {
    entry_edge = made.entry_edge;
    exit_edge = made.exit_edge;
    entry_at = made.entry_at;
    exit_at = made.exit_at;
    named_entry = more.entries j h ∙ made.named_entry;
    named_exit = more.exits j h ∙ made.named_exit;
    held = more.held j h ∙ made.held;
  }

  push-Extends :
      {regions after : List SeseRegion} {new : SeseRegion} (sets : List (List ℕ)) (s : List ℕ)
      (p : ℕ)
      → length sets ≡ length regions
      → Pushed regions p new after
      → Extends regions after sets (sets ++ (s ∷ []))
  push-Extends sets s p size pushed = record {
    entries = λ j h. ground (arith, pushed.entries j, h);
    exits = λ j h. ground (arith, pushed.exits j, h);
    held = λ j h. ground (arith, set_of-append sets s j, size, h);
  }

  -- The new region is that of its candidate.
  push-Made :
      {regions after : List SeseRegion} {new : SeseRegion} (sets : List (List ℕ)) (c : Candidate)
      (p : ℕ) (e f : IEdge ℕ)
      → length sets ≡ length regions
      → Pushed regions p new after
      → get_elem? edges c.0 ≡ some e
      → get_elem? edges c.1 ≡ some f
      → new.entry_edge ≡ e.original
      → new.exit_edge ≡ f.original
      → Made c after (sets ++ (c.2 ∷ [])) (length regions)
  push-Made {regions} sets c p e f size pushed at at' same same' = record {
    entry_edge = e;
    exit_edge = f;
    entry_at = at;
    exit_at = at';
    named_entry = ground (arith, pushed.entries (length regions), same);
    named_exit = ground (arith, pushed.exits (length regions), same');
    held = ground (arith, set_of-append sets c.2 (length regions), size);
  }

  Made-cons :
      (c : Candidate) (rest : List Candidate) (after : List SeseRegion) (sets : List (List ℕ))
      (size longer : ℕ)
      → longer ≡ size + 1
      → Made c after sets size
      → ((i j : ℕ) (d : Candidate)
          → get_elem? rest i ≡ some d
          → j ≡ longer + i
          → Made d after sets j)
      → (i j : ℕ) (d : Candidate) → get_elem? (c ∷ rest) i ≡ some d
      → j ≡ size + i
      → Made d after sets j
  Made-cons c rest after sets size longer grown own all zero j d at e =
      let same : c ≡ d = cc in
      subst (λ x. Made x after sets j) same (subst (Made c after sets) (omega (arith, e)) own)
  Made-cons c rest after sets size longer grown own all (suc i) j d at e =
      all i j d at (omega (arith, e, grown))

  -- The loop does not panic, the regions stay a tree, and there is one more for each candidate.
  pub add_regions-Nested :
      (cs : List Candidate) (regions : List SeseRegion) (sets : List (List ℕ))
      → ((c : Candidate) → Among c cs → Fits c)
      → Nested ids regions sets
      → (after : List SeseRegion) × (sets' : List (List ℕ)) × (add_regions ids edges cs regions sets
          ≡ done (after, sets'))
        × (length after ≡ length regions + length cs)
        × Nested ids after sets'
        × Extends regions after sets sets'
        × ((i j : ℕ) (c : Candidate)
            → get_elem? cs i ≡ some c
            → j ≡ length regions + i
            → Made c after sets' j)
  unfolding add_regions
  add_regions-Nested [] regions sets fits inv = (
    regions,
    sets,
    refl,
    omega arith,
    inv,
    record { entries = λ j h. refl; exits = λ j h. refl; held = λ j h. refl },
    λ i j c at e. cc,
  )
  add_regions-Nested (c ∷ rest) regions sets fits inv =
      let fit = fits c Among.first in
      let (below, sub, low) =
        shortest_exact (is_subset c.2) sets 0 (omega (arith, inv.size, inv.filled))
          (rw (inv.base) fit.inside) in
      let p = or_root (shortest (is_subset c.2) 0 sets none) in
      let h : p < length regions = omega (arith, below, inv.size) in
      let (new, made, parent, fresh, empty, content, (e, at, named), (f, at', named')) =
        region_of_done p c fit in
      let (after, pushed, facts) = push_child-Pushed regions p new h parent fresh empty in
      let (last, sets', ran, size, nested, more, all) =
        add_regions-Nested rest after (sets ++ (c.2 ∷ [])) (λ d a. fits d (Among.later a))
          (push-Nested inv p c.2 new after h sub low content facts) in
      let first = push-Extends sets c.2 p inv.size facts in
      let own =
        Made-Extends (length regions) (omega (arith, facts.longer)) more
          (push-Made sets c p e f inv.size facts at at' named named') in
      (
        last,
        sets',
        ground (arith, made, pushed, ran),
        omega (arith, size, facts.longer),
        nested,
        record {
          entries = λ j lt. more.entries j (omega (arith, lt, facts.longer)) ∙ first.entries j lt;
          exits = λ j lt. more.exits j (omega (arith, lt, facts.longer)) ∙ first.exits j lt;
          held = λ j lt. more.held j (omega (arith, lt, facts.longer)) ∙ first.held j lt;
        },
        Made-cons c rest last sets' (length regions) (length after) facts.longer own all,
      )
