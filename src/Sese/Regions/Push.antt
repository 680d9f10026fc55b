-- ===== src/Sese/Regions/Push.antt =====
-- The push of a region under its parent, `add_regions` of src/graph/analysis/sese.rs: what each region has after
-- it.
use jstd.Base.{
  ℕ, ◌+◌, ◌<◌, ◌≡◌, refl, sym, ◌∙◌, ap, inl, inr, Bool-cases, ==→eq, ne→not-==, Option, none, some,
  List, [], ◌∷◌, ◌++◌, ◌==◌, if◌then◌else◌, done, length, length-append, length-set, get_elem?,
  get_elem?_lt, get_elem?_ge, get_elem?-set, get_elem?-concat, set, arith,
}
use jstd.Sese.Regions.{SeseRegion, push_child}

-- A field of the region that was found.
abbrev pub field : {B : Type 0} → (SeseRegion → B) → B → Option SeseRegion → B
field g d none = d
field g d (some r) = g r

abbrev pub parent_of : List SeseRegion → ℕ → Option ℕ
parent_of regions j = field (λ r. r.parent) none (get_elem? regions j)

abbrev pub children_of : List SeseRegion → ℕ → List ℕ
children_of regions i = field (λ r. r.children) [] (get_elem? regions i)

abbrev pub nodes_of : List SeseRegion → ℕ → List ℕ
nodes_of regions i = field (λ r. r.nodes) [] (get_elem? regions i)

abbrev pub contained_of : List SeseRegion → ℕ → List ℕ
contained_of regions i = field (λ r. r.contained_nodes) [] (get_elem? regions i)

abbrev pub entry_of : List SeseRegion → ℕ → Option ℕ
entry_of regions i = field (λ r. r.entry_edge) none (get_elem? regions i)

abbrev pub exit_of : List SeseRegion → ℕ → Option ℕ
exit_of regions i = field (λ r. r.exit_edge) none (get_elem? regions i)

-- The new region is the last, and its parent has it as the last child.
pub record Pushed (regions : List SeseRegion) (p : ℕ) (new : SeseRegion) (after : List SeseRegion)
    : Type 0 where
  pub longer : length after ≡ length regions + 1
  pub parents :
      (j : ℕ) → parent_of after j ≡ (if length regions == j then some p else parent_of regions j)
  pub children :
      (i : ℕ)
      → children_of after i
        ≡ (if p == i then children_of regions i ++ (length regions ∷ []) else children_of regions i)
  pub nodes : (i : ℕ) → nodes_of after i ≡ nodes_of regions i
  pub contained :
      (i : ℕ)
      → contained_of after i
        ≡ (if length regions == i then new.contained_nodes else contained_of regions i)
  pub entries :
      (i : ℕ)
      → entry_of after i ≡ (if length regions == i then new.entry_edge else entry_of regions i)
  pub exits :
      (i : ℕ) → exit_of after i ≡ (if length regions == i then new.exit_edge else exit_of regions i)

-- A field and the children that are read at a position after the push.
read_field :
    {B : Type 0} (g : SeseRegion → B) (d : B) (found : Option SeseRegion) (r new : SeseRegion)
    (size p j : ℕ) (updated : SeseRegion)
    → p < size
    → (p ≡ j → found ≡ some r)
    → g updated ≡ g r
    → field g d (if p == j then some updated else if size == j then some new else found)
      ≡ (if size == j then g new else field g d found)
read_field g d found r new size p j updated h at same = elim (Bool-cases (p == j)) [
  | inl here ↦
      rw (here, at (==→eq p j here), ne→not-== size j (λ e. omega (arith, e, ==→eq p j here, h)))
        same
  | inr there ↦ elim (Bool-cases (size == j)) [
    | inl last ↦ rw (there, last) refl
    | inr old ↦ rw (there, old) refl
  ]
]

read_children :
    (found : Option SeseRegion) (r new : SeseRegion) (size p i : ℕ) (updated : SeseRegion)
    → p < size
    → (p ≡ i → found ≡ some r)
    → (size ≡ i → found ≡ none)
    → updated.children ≡ r.children ++ (size ∷ [])
    → new.children ≡ []
    → field
        (λ r. r.children)
        []
        (if p == i then some updated else if size == i then some new else found)
      ≡ (if p == i
          then field (λ r. r.children) [] found ++ (size ∷ [])
          else field (λ r. r.children) [] found)
read_children found r new size p i updated h at out same fresh = elim (Bool-cases (p == i)) [
  | inl here ↦ rw (here, at (==→eq p i here)) same
  | inr there ↦ elim (Bool-cases (size == i)) [
    | inl last ↦ rw (there, last, out (==→eq size i last)) fresh
    | inr old ↦ rw (there, old) refl
  ]
]

no_nodes :
    (regions : List SeseRegion) (new : SeseRegion) (i : ℕ)
    → new.nodes ≡ []
    → (if length regions == i then new.nodes else nodes_of regions i) ≡ nodes_of regions i
no_nodes regions new i empty = elim (Bool-cases (length regions == i)) [
  | inl last ↦
      rw (last, empty, get_elem?_ge regions i (omega (arith, ==→eq (length regions) i last))) refl
  | inr old ↦ rw old refl
]

pub push_child-Pushed :
    (regions : List SeseRegion) (p : ℕ) (new : SeseRegion)
    → p < length regions
    → new.parent ≡ some p
    → new.children ≡ []
    → new.nodes ≡ []
    → (after : List SeseRegion) × (push_child (regions ++ (new ∷ [])) p (length regions)
        ≡ done after)
      × Pushed regions p new after
push_child-Pushed regions p new h parent fresh empty =
    let (r, at) = get_elem?_lt regions p h in
    let more = regions ++ (new ∷ []) in
    let size = length-append regions (new ∷ []) in
    let updated : SeseRegion = record r { children = r.children ++ (length regions ∷ []) } in
    let find : (j : ℕ)
        → get_elem? (set more p updated) j ≡ (
            if p == j
            then some updated
            else if length regions == j
            then some new
            else get_elem? regions j) =
      λ j.
        get_elem?-set more p updated j (omega (arith, size, h))
        ∙ rw (get_elem?-concat regions new j) refl in
    let at_p : (j : ℕ) → p ≡ j → get_elem? regions j ≡ some r =
      λ j e. ap (get_elem? regions) (sym e) ∙ at in
    let at' : get_elem? more p ≡ some r = get_elem?-concat regions new p ∙ ground (arith, at, h) in
    (
      set more p updated,
      ground (arith, at', size, h),
      record {
        longer = length-set more p updated ∙ size;
        parents = λ j.
            ap (field (λ r. r.parent) none) (find j)
            ∙ read_field (λ r. r.parent) none (get_elem? regions j) r new (length regions) p j
                updated h (at_p j) refl
            ∙ rw parent refl;
        children = λ i.
            ap (field (λ r. r.children) []) (find i)
            ∙ read_children (get_elem? regions i) r new (length regions) p i updated h (at_p i)
                (λ e. get_elem?_ge regions i (omega (arith, e))) refl fresh;
        nodes = λ i.
            ap (field (λ r. r.nodes) []) (find i)
            ∙ read_field (λ r. r.nodes) [] (get_elem? regions i) r new (length regions) p i updated
                h (at_p i) refl
            ∙ no_nodes regions new i empty;
        contained = λ i.
            ap (field (λ r. r.contained_nodes) []) (find i)
            ∙ read_field (λ r. r.contained_nodes) [] (get_elem? regions i) r new (length regions) p
                i updated h (at_p i) refl;
        entries = λ i.
            ap (field (λ r. r.entry_edge) none) (find i)
            ∙ read_field (λ r. r.entry_edge) none (get_elem? regions i) r new (length regions) p i
                updated h (at_p i) refl;
        exits = λ i.
            ap (field (λ r. r.exit_edge) none) (find i)
            ∙ read_field (λ r. r.exit_edge) none (get_elem? regions i) r new (length regions) p i
                updated h (at_p i) refl;
      },
    )
