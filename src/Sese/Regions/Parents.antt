-- ===== src/Sese/Regions/Parents.antt =====
-- The loop that adds the regions of the selected candidates, src/graph/analysis/sese.rs: the regions are a
-- tree, and the set of a region lies in that of its parent.
use jstd.Base.{
  ℕ, zero, suc, ◌+◌, ◌≤◌, ◌<◌, ◌≡◌, refl, sym, ◌∙◌, ap, inl, inr, true, ◌&&◌, Bool-cases, ==→eq,
  dec_lt, ap₂, ne→not-==, none, some, List, [], ◌∷◌, ◌++◌, ◌==◌, ltb, leb, if◌then◌else◌, is_some,
  done, length, length-append, get_elem?_ge, member, arith,
}
use jstd.Dominators.Reach.{member-append}
use jstd.Sese.{is_some_of}
use jstd.Sese.Regions.{is_subset, SeseRegion, ids_at, positions_from}
use jstd.Sese.Regions.Smallest.{set_of}
use jstd.Sese.Regions.Push.{field, parent_of, children_of, nodes_of, contained_of, Pushed}

pub member-positions : (i k v : ℕ) → member v (positions_from i k) ≡ (leb i v && ltb v (i + k))
member-positions i zero v = ground arith
member-positions i (suc k) v = ground (arith, member-positions (i + 1) k v)

-- Every region but the first has a parent before it, the children of a region are those with it as their
-- parent, and a set lies in that of the parent.
pub record Nested (ids : List ℕ) (regions : List SeseRegion) (sets : List (List ℕ)) : Type 0 where
  pub size : length sets ≡ length regions
  pub filled : 0 < length regions
  pub base : set_of sets 0 ≡ positions_from 0 (length ids)
  pub mutual_ends :
      (i j : ℕ) → member j (children_of regions i) ≡ is_some_of (parent_of regions j) i
  pub climbs :
      (j p : ℕ)
      → parent_of regions j ≡ some p
      → (p < j) × (is_subset (set_of sets j) (set_of sets p) ≡ true)
  pub closest :
      (j p m : ℕ)
      → parent_of regions j ≡ some p
      → m < j
      → is_subset (set_of sets j) (set_of sets m) ≡ true
      → length (set_of sets p) ≤ length (set_of sets m)
  pub rooted : (j : ℕ) → 0 < j → j < length regions → is_some (parent_of regions j) ≡ true
  pub unowned : (i : ℕ) → nodes_of regions i ≡ []
  pub contents :
      (j : ℕ) → j < length regions → ids_at ids (set_of sets j) ≡ done (contained_of regions j)

pub set_of-append :
    (sets : List (List ℕ)) (s : List ℕ) (j : ℕ)
    → set_of (sets ++ (s ∷ [])) j ≡ (if length sets == j then s else set_of sets j)
set_of-append [] s zero = refl
set_of-append [] s (suc j) = ground arith
set_of-append (t ∷ sets) s zero = ground arith
set_of-append (t ∷ sets) s (suc j) = ground (arith, set_of-append sets s j)

no_parent : (regions : List SeseRegion) (j : ℕ) → length regions ≤ j → parent_of regions j ≡ none
no_parent regions j h = ap (field (λ r. r.parent) none) (get_elem?_ge regions j h)

parent_lt :
    (regions : List SeseRegion) (j p : ℕ) → parent_of regions j ≡ some p → j < length regions
parent_lt regions j p up = elim (dec_lt j (length regions)) [
  | yes inside ↦ inside
  | no outside ↦ absurd (ground (arith, up, no_parent regions j (omega (arith, outside))))
]

-- The parent of the new region is a smallest of the sets before that hold its set, as is every other parent.
push_least :
    {ids : List ℕ} {regions : List SeseRegion} {sets : List (List ℕ)}
    → Nested ids regions sets
    → (p : ℕ) (s : List ℕ) (new : SeseRegion) (after : List SeseRegion) → p < length regions
    → ((m : ℕ)
        → m < length sets
        → is_subset s (set_of sets m) ≡ true
        → length (set_of sets p) ≤ length (set_of sets m))
    → Pushed regions p new after
    → (j q m : ℕ) → parent_of after j ≡ some q
    → m < j
    → is_subset (set_of (sets ++ (s ∷ [])) j) (set_of (sets ++ (s ∷ [])) m) ≡ true
    → length (set_of (sets ++ (s ∷ [])) q) ≤ length (set_of (sets ++ (s ∷ [])) m)
push_least {ids} {regions} {sets} inv p s new after h low pushed j q m e before inside =
    let len = length regions in
    let grown : (j : ℕ) → set_of (sets ++ (s ∷ [])) j ≡ (if len == j then s else set_of sets j) =
      λ j. set_of-append sets s j ∙ rw (inv.size) refl in
    let kept : (i : ℕ) → i < len → set_of (sets ++ (s ∷ [])) i ≡ set_of sets i =
      λ i lt. grown i ∙ rw (ne→not-== len i (λ eq. omega (arith, eq, lt))) refl in
    elim (Bool-cases (len == j)) [
      | inl last ↦
          let same : p ≡ q = ground (arith, last, pushed.parents j, e) in
          let here : m < len = omega (arith, before, ==→eq len j last) in
          let own : set_of (sets ++ (s ∷ [])) j ≡ s = grown j ∙ rw last refl in
          rw (kept q (omega (arith, same, h)), kept m here, sym same)
            (low m (omega (arith, inv.size, here))
              (sym (ap₂ (λ x y. is_subset x y) own (kept m here)) ∙ inside))
      | inr old ↦
          let up : parent_of regions j ≡ some q = ground (arith, old, pushed.parents j, e) in
          let below = parent_lt regions j q up in
          let here : m < len = omega (arith, before, below) in
          let lower : q < len = omega (arith, (inv.climbs j q up).0, below) in
          rw (kept q lower, kept m here)
            (inv.closest j q m up before
              (sym (ap₂ (λ x y. is_subset x y) (kept j below) (kept m here)) ∙ inside))
    ]

-- Adding a region under a region whose set holds the new one keeps the tree.
pub push-Nested :
    {ids : List ℕ} {regions : List SeseRegion} {sets : List (List ℕ)}
    → Nested ids regions sets
    → (p : ℕ) (s : List ℕ) (new : SeseRegion) (after : List SeseRegion) → p < length regions
    → is_subset s (set_of sets p) ≡ true
    → ((m : ℕ)
        → m < length sets
        → is_subset s (set_of sets m) ≡ true
        → length (set_of sets p) ≤ length (set_of sets m))
    → ids_at ids s ≡ done new.contained_nodes
    → Pushed regions p new after
    → Nested ids after (sets ++ (s ∷ []))
push-Nested {ids} {regions} {sets} inv p s new after h sub low content_at pushed =
    let len = length regions in
    let grown : (j : ℕ) → set_of (sets ++ (s ∷ [])) j ≡ (if len == j then s else set_of sets j) =
      λ j. set_of-append sets s j ∙ rw (inv.size) refl in
    record {
      size = length-append sets (s ∷ []) ∙ omega (arith, inv.size, pushed.longer);
      filled = omega (arith, pushed.longer);
      base = grown 0 ∙ ground (arith, inv.filled, inv.base);
      mutual_ends = λ i j.
          rw (pushed.children i, pushed.parents j)
            (elim (Bool-cases (len == j)) [
              | inl last ↦ ground (
                arith,
                last,
                member-append (children_of regions i) (len ∷ []) j,
                inv.mutual_ends i j,
                no_parent regions j (ground (arith, last)),
              )
              | inr old ↦ ground (
                arith,
                old,
                member-append (children_of regions i) (len ∷ []) j,
                inv.mutual_ends i j,
              )
            ]);
      climbs = λ j q e. elim (Bool-cases (len == j)) [
        | inl last ↦
            let same : p ≡ q = ground (arith, last, pushed.parents j, e) in
            (
              ground (arith, last, same, h),
              rw (grown j, last, grown q, sym same, ne→not-== len p (λ eq. omega (arith, eq, h)))
                  sub,
            )
        | inr old ↦
            let up : parent_of regions j ≡ some q = ground (arith, old, pushed.parents j, e) in
            let (lower, inside) = inv.climbs j q up in
            (
              lower,
              rw
                  (
                    grown j,
                    old,
                    grown q,
                    ne→not-== len q
                        (λ eq. ground (arith, up, no_parent regions j (omega (arith, eq, lower)))),
                  )
                  inside,
            )
      ];
      closest = push_least inv p s new after h low pushed;
      rooted =
          λ j low high. ground (arith, pushed.parents j, pushed.longer, inv.rooted j low, high);
      unowned = λ i. pushed.nodes i ∙ inv.unowned i;
      contents = λ j below. elim (Bool-cases (len == j)) [
        | inl last ↦ rw (grown j, pushed.contained j, last) content_at
        | inr old ↦
            rw (grown j, pushed.contained j, old)
              (inv.contents j (ground (arith, old, below, pushed.longer)))
      ];
    }
