-- ===== src/PostDominators/Meet.antt =====
-- The sets of the successors, met.
use jstd.Base.{
  ℕ, ◌≡◌, refl, ◌∙◌, inl, inr, Bool, true, false, ◌&&◌, Option, none, some, List, [], ◌∷◌, ==→eq,
  done, Bool-cases, Option-cases, is_some, member, member-add, arith, lookup,
}
use jstd.PostDominators.{retain, intersect_rest, subset, set_eq, gather, meet, collect_set}

-- Whether `m` is in the set of `n`.
abbrev pub holds : Option (List ℕ) → ℕ → Bool
holds none m = false
holds (some set) m = member m set

abbrev pub has : List (ℕ × List ℕ) → ℕ → ℕ → Bool
has pdom n m = holds (lookup n pdom) m

-- Whether `m` is in the sets of all of `succs`.
abbrev pub in_all : List (ℕ × List ℕ) → List ℕ → ℕ → Bool
in_all pdom [] m = true
in_all pdom (s ∷ succs) m = has pdom s m && in_all pdom succs m

abbrev pub met : List (ℕ × List ℕ) → List ℕ → ℕ → Bool
met pdom [] m = false
met pdom (s ∷ succs) m = has pdom s m && in_all pdom succs m

pub member-retain :
    (set xs : List ℕ) (m : ℕ) → member m (retain set xs) ≡ (member m set && member m xs)
member-retain set [] m = ground arith
member-retain set (x ∷ xs) m = ground (arith, member-retain set xs m, ==→eq m x)

abbrev in_sets : List (List ℕ) → ℕ → Bool
in_sets [] m = true
in_sets (set ∷ sets) m = member m set && in_sets sets m

member-intersect :
    (acc : List ℕ) (sets : List (List ℕ)) (m : ℕ)
    → member m (intersect_rest acc sets) ≡ (member m acc && in_sets sets m)
member-intersect acc [] m = ground arith
member-intersect acc (set ∷ sets) m =
    ground (arith, member-intersect (retain set acc) sets m, member-retain set acc m)

pub member-collect_set : (xs : List ℕ) (m : ℕ) → member m (collect_set xs) ≡ member m xs
member-collect_set [] m = refl
member-collect_set (x ∷ xs) m =
    member-add x m (collect_set xs) ∙ ground (arith, member-collect_set xs m)

subset-member :
    (xs ys : List ℕ) (m : ℕ) → subset xs ys ≡ true → member m xs ≡ true → member m ys ≡ true
subset-member [] ys m h k = absurd (ground (arith, k))
subset-member (x ∷ xs) ys m h k = ground (arith, h, k, subset-member xs ys m, ==→eq m x)

not_subset :
    (xs ys : List ℕ) → subset xs ys ≡ false → (m : ℕ) × (member m xs ≡ true) × (member m ys ≡ false)
not_subset [] ys h = absurd (ground (arith, h))
not_subset (x ∷ xs) ys h = elim (Bool-cases (member x ys)) [
  | inl there ↦
      let (m, at, out) = not_subset xs ys (ground (arith, h, there)) in (m, ground (arith, at), out)
  | inr out ↦ (x, ground arith, out)
]

pub set_eq-member : (xs ys : List ℕ) → set_eq xs ys ≡ true → (m : ℕ) → member m xs ≡ member m ys
unfolding set_eq
set_eq-member xs ys h m = ground (arith, h, subset-member xs ys m, subset-member ys xs m)

all_subset :
    (xs ys : List ℕ) → ((m : ℕ) → member m xs ≡ true → member m ys ≡ true) → subset xs ys ≡ true
all_subset [] ys h = refl
all_subset (x ∷ xs) ys h = ground (arith, h x, all_subset xs ys (λ m k. h m (ground (arith, k))))

-- A set that is within another and not equal to it lacks an element.
pub set_eq-lacks :
    (xs ys : List ℕ)
    → set_eq xs ys ≡ false
    → ((m : ℕ) → member m xs ≡ true → member m ys ≡ true)
    → (m : ℕ) × (member m ys ≡ true) × (member m xs ≡ false)
unfolding set_eq
set_eq-lacks xs ys h sub = not_subset ys xs (ground (arith, h, all_subset xs ys sub))

module _ (pdom : List (ℕ × List ℕ)) where
  gather_done :
      (succs : List ℕ)
      → ((s : ℕ) → member s succs ≡ true → is_some (lookup s pdom) ≡ true)
      → (sets : List (List ℕ)) × (gather pdom succs ≡ done sets)
        × ((m : ℕ) → in_sets sets m ≡ in_all pdom succs m)
  gather_done [] there = ([], refl, λ m. refl)
  gather_done (s ∷ succs) there = elim (Option-cases (lookup s pdom)) [
    | inl missing ↦ absurd (ground (arith, there s, missing))
    | inr (set, found) ↦
        let (sets, eq, same) = gather_done succs (λ t h. there t (ground (arith, h))) in
        (set ∷ sets, rw (found, eq) refl, λ m. rw (found, same m) refl)
  ]

  pub meet_done :
      (succs : List ℕ)
      → ((s : ℕ) → member s succs ≡ true → is_some (lookup s pdom) ≡ true)
      → (found : List ℕ) × (meet pdom succs ≡ done found)
        × ((m : ℕ) → member m found ≡ met pdom succs m)
  meet_done [] there = ([], refl, λ m. refl)
  meet_done (s ∷ succs) there = elim (Option-cases (lookup s pdom)) [
    | inl missing ↦ absurd (ground (arith, there s, missing))
    | inr (set, found) ↦
        let (sets, eq, same) = gather_done succs (λ t h. there t (ground (arith, h))) in
        (
          intersect_rest set sets,
          rw (found, eq) refl,
          λ m. member-intersect set sets m ∙ rw (found, same m) refl,
        )
  ]
