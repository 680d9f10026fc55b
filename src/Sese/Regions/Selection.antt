-- ===== src/Sese/Regions/Selection.antt =====
-- The selection of the canonical candidates in `compute_sese`, src/graph/analysis/sese.rs.
use jstd.Base.{
  ℕ, ◌≡◌, refl, sym, ◌∙◌, ap, subst, ◌⊎◌, inl, inr, true, false, Bool-cases, ==→eq, eq→==, dec_lt,
  Option, none, some, List, [], lookup, get_elem?, sort_by, Among, Among_at, Among-of_at,
  Among-sort_by, Among-of_sort, InOrder, InOrder-at, sort_by-InOrder, arith,
}
use jstd.Sese.{is_some_of}
use jstd.Sese.Candidates.{Candidate}
use jstd.Sese.Regions.{
  smaller_before, larger_before, smallest_for, canonical, crosses_any, laminar, selected,
}
use jstd.Sese.Regions.Canonical.{
  touches, first_touching, lookup-smallest_for, first_touching_at, first_touching_le, keeps,
  canonical_at, canonical_of_at, Apart, crosses_none, crosses_none_of, laminar_at, laminar_of,
  smaller_trans, smaller_total, larger_trans, larger_total,
}

-- The candidate is a smallest of those that the edge bounds, by the sizes and the edges.
abbrev pub IsLeast : List Candidate → Candidate → ℕ → Type 0
IsLeast found c x = (d : Candidate) → Among d found → touches d x ≡ true → smaller_before c d ≡ true

-- No other candidate that the edge bounds may stand in front of it.
abbrev pub IsOnly : List Candidate → Candidate → ℕ → Type 0
IsOnly found c x =
    (d : Candidate) → Among d found → touches d x ≡ true → (d ≡ c) ⊎ (smaller_before d c ≡ false)

-- What is selected, in its order: the smallest of a boundary edge that cross no other candidate.
pub record IsSelection (found chosen : List Candidate) : Type 0 where
  pub there : (c : Candidate) → Among c chosen → Among c found
  pub apart : (c d : Candidate) → Among c chosen → Among d found → Apart c.2 d.2
  pub canonical_for : (c : Candidate) → Among c chosen → IsLeast found c c.0 ⊎ IsLeast found c c.1
  pub all :
      (c : Candidate)
      → Among c found
      → ((d : Candidate) → Among d found → Apart c.2 d.2)
      → IsOnly found c c.0 ⊎ IsOnly found c c.1
      → Among c chosen
  pub ordered : InOrder larger_before chosen

some_of : (o : Option ℕ) (i : ℕ) → is_some_of o i ≡ true → o ≡ some i
some_of none i h = absurd (ground (arith, h))
some_of (some j) i h = ap some (==→eq j i (ground (arith, h)))

of_some : (o : Option ℕ) (i : ℕ) → o ≡ some i → is_some_of o i ≡ true
of_some o i e = rw e (eq→== i i refl)

touches_own : (c : Candidate) → (touches c c.0 ≡ true) × (touches c c.1 ≡ true)
touches_own (a, b, nodes) = (ground (arith, eq→== a a refl), ground (arith, eq→== b b refl))

smaller_refl : (c : Candidate) → smaller_before c c ≡ true
smaller_refl c = elim (Bool-cases (smaller_before c c)) [
  | inl yes_before ↦ yes_before
  | inr off ↦ smaller_total c c off
]

module _ (found : List Candidate) where
  abbrev sorted : List Candidate
  sorted = sort_by smaller_before found

  sorted-InOrder : InOrder smaller_before sorted
  sorted-InOrder = sort_by-InOrder smaller_before smaller_trans smaller_total found

  lookup_first : (x : ℕ) → lookup x (smallest_for 0 sorted []) ≡ first_touching x 0 sorted
  lookup_first x = lookup-smallest_for 0 sorted [] x

  first-IsLeast :
      (x m : ℕ) (c : Candidate)
      → get_elem? sorted m ≡ some c
      → first_touching x 0 sorted ≡ some m
      → IsLeast found c x
  first-IsLeast x m c at first d a on =
      let (k, h, at') = Among_at (Among-sort_by smaller_before a) in
      let (m', first', low) = first_touching_le x 0 sorted k d at' on in
      let same : m ≡ m' = cc in
      elim (dec_lt m k) [
        | yes before ↦ InOrder-at smaller_before sorted m k c d sorted-InOrder before at at'
        | no after ↦
            let here : m ≡ k = omega (arith, after, same, low) in
            let one : c ≡ d = cc in subst (λ e. smaller_before c e ≡ true) one (smaller_refl c)
      ]

  first_of-IsOnly :
      (x : ℕ) (c : Candidate)
      → Among c found
      → touches c x ≡ true
      → IsOnly found c x
      → (m : ℕ) × (get_elem? sorted m ≡ some c) × (first_touching x 0 sorted ≡ some m)
  first_of-IsOnly x c a on only =
      let (j, h, at) = Among_at (Among-sort_by smaller_before a) in
      let (m, first, low) = first_touching_le x 0 sorted j c at on in
      let f = first_touching_at x 0 sorted m first in
      let place : f.k ≡ m = omega (arith, f.place) in
      let here : get_elem? sorted m ≡ some f.c = ap (get_elem? sorted) (sym place) ∙ f.at in
      elim (dec_lt m j) [
        | yes before ↦
            elim (only f.c (Among-of_sort smaller_before found (Among-of_at sorted m here))
              f.bounds) [
                | inl same ↦ (m, here ∙ ap some same, first)
                | inr off ↦ absurd (
                    ground (
                      arith,
                      off,
                      InOrder-at smaller_before sorted m j f.c c sorted-InOrder before here at,
                    ))
              ]
        | no after ↦ (m, ap (get_elem? sorted) (omega (arith, after, low)) ∙ at, first)
      ]

  sorted-Apart :
      (c : Candidate)
      → crosses_any c.2 sorted ≡ false
      → (d : Candidate) → Among d found
      → Apart c.2 d.2
  sorted-Apart c off d a = crosses_none c.2 sorted d off (Among-sort_by smaller_before a)

  -- The candidates that are selected.
  pub selected-IsSelection : IsSelection found (selected found)
  unfolding selected
  selected-IsSelection =
      let smallest = smallest_for 0 sorted [] in
      let kept = canonical 0 smallest sorted in
      let back : (c : Candidate)
          → Among c (sort_by larger_before (laminar sorted kept))
          → Among c kept × (crosses_any c.2 sorted ≡ false) =
        λ c a. laminar_at sorted kept c (Among-of_sort larger_before (laminar sorted kept) a) in
      record {
        there = λ c a.
            let (k, m, e, at, on) = canonical_at 0 smallest sorted c (back c a).0 in
            Among-of_sort smaller_before found (Among-of_at sorted k at);
        apart = λ c d a b. sorted-Apart c (back c a).1 d b;
        canonical_for = λ c a.
            let (k, m, e, at, on) = canonical_at 0 smallest sorted c (back c a).0 in
            let here : get_elem? sorted m ≡ some c =
              ap (get_elem? sorted) (omega (arith, e)) ∙ at in
            elim (Bool-cases (is_some_of (lookup c.0 smallest) m)) [
              | inl left ↦ inl (
                  first-IsLeast c.0 m c here
                    (sym (lookup_first c.0) ∙ some_of (lookup c.0 smallest) m left))
              | inr off ↦ inr (
                  first-IsLeast c.1 m c here (
                    sym (lookup_first c.1)
                    ∙ some_of (lookup c.1 smallest) m (ground (arith, on, off))))
            ];
        all = λ c a apart only.
            let free =
              crosses_none_of c.2 sorted (λ d b. apart d (Among-of_sort smaller_before found b)) in
            let keep : (m : ℕ)
                → get_elem? sorted m ≡ some c
                → keeps smallest c m ≡ true
                → Among c (sort_by larger_before (laminar sorted kept)) =
              λ m at on. Among-sort_by larger_before (
                laminar_of sorted kept (canonical_of_at 0 smallest sorted m m c (omega arith) at on)
                  free) in
            elim only [
              | inl left ↦
                  let (m, at, first) = first_of-IsOnly c.0 c a (touches_own c).0 left in
                  keep m at
                    (ground (arith, of_some (lookup c.0 smallest) m (lookup_first c.0 ∙ first)))
              | inr right ↦
                  let (m, at, first) = first_of-IsOnly c.1 c a (touches_own c).1 right in
                  keep m at
                    (ground (arith, of_some (lookup c.1 smallest) m (lookup_first c.1 ∙ first)))
            ];
        ordered = sort_by-InOrder larger_before larger_trans larger_total (laminar sorted kept);
      }
