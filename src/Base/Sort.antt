-- ===== src/Base/Sort.antt =====
-- `sort`, `sort_by_key` and `sort_unstable`: a stable insertion sort by the order `before`, where
-- `before x y` is that `x` may stand in front of `y`.
use Prim.Native.Nat.{ℕ, zero, suc, ◌≤◌, ◌<◌}
use mathlib.Core.Path.{◌≡◌, refl, ap, subst, ◌∙◌}
use mathlib.Core.Logic.{◌⊎◌, inl, inr}
use mathlib.Core.Bool.{Bool, true, false}
use mathlib.Core.Option.{some}
use mathlib.Core.List.{List, [], ◌∷◌, ◌++◌}
use native.Mathlib.Omega.{arith}
use jstd.Base.Tests.{leb, Bool-cases, if◌then◌else◌}
use jstd.Base.Lists.{member, length, get_elem?}
use jstd.Base.Maps.{Distinct}

-- Membership in a list.
pub data Among {A : Type 0} (x : A) : List A → Type 0 where
  first : {ys : List A} → Among x (x ∷ ys)
  later : {y : A} {ys : List A} → Among x ys → Among x (y ∷ ys)

module _ {A : Type 0} where
  pub Among-of_at : {x : A} (xs : List A) (i : ℕ) → get_elem? xs i ≡ some x → Among x xs
  Among-of_at [] i h = cc h
  Among-of_at (y ∷ xs) zero h = rw (some_inj h) Among.first
    where
      some_inj : {x y : A} → some x ≡ some y → y ≡ x
      some_inj e = cc
  Among-of_at (y ∷ xs) (suc i) h = Among.later (Among-of_at xs i h)

  pub Among_at :
      {x : A} {xs : List A} → Among x xs → (i : ℕ) × (i < length xs) × (get_elem? xs i ≡ some x)
  Among_at Among.first = (0, omega arith, refl)
  Among_at (Among.later a) = let (i, h, at) = Among_at a in (suc i, omega (arith, h), at)

  pub Among-append : {x : A} (xs ys : List A) → Among x (xs ++ ys) → Among x xs ⊎ Among x ys
  Among-append [] ys a = inr a
  Among-append (z ∷ xs) ys Among.first = inl Among.first
  Among-append (z ∷ xs) ys (Among.later a) = elim (Among-append xs ys a) [
    | inl left ↦ inl (Among.later left)
    | inr right ↦ inr right
  ]

  pub Among_right : {x : A} (xs : List A) {ys : List A} → Among x ys → Among x (xs ++ ys)
  Among_right [] a = a
  Among_right (z ∷ xs) a = Among.later (Among_right xs a)

  pub Among_left : {x : A} {xs : List A} (ys : List A) → Among x xs → Among x (xs ++ ys)
  Among_left ys Among.first = Among.first
  Among_left ys (Among.later a) = Among.later (Among_left ys a)

  pub get_elem?-append_left :
      (xs ys : List A) (i : ℕ) → i < length xs → get_elem? (xs ++ ys) i ≡ get_elem? xs i
  get_elem?-append_left [] ys i h = absurd (omega arith)
  get_elem?-append_left (x ∷ xs) ys zero h = refl
  get_elem?-append_left (x ∷ xs) ys (suc i) h = get_elem?-append_left xs ys i (omega arith)

  pub Among_after :
      {x : A} (xs ys : List A) (i : ℕ)
      → length xs ≤ i
      → get_elem? (xs ++ ys) i ≡ some x
      → Among x ys
  Among_after [] ys i h at = Among-of_at ys i at
  Among_after (z ∷ xs) ys zero h at = absurd (omega arith)
  Among_after (z ∷ xs) ys (suc i) h at = Among_after xs ys i (omega arith) at

module _ {A : Type 0} (before : A → A → Bool) where
  abbrev pub place : A → List A → List A
  place x [] = x ∷ []
  place x (y ∷ ys) = let rest = place x ys in if before x y then x ∷ y ∷ ys else y ∷ rest

  abbrev pub sort_by : List A → List A
  sort_by [] = []
  sort_by (x ∷ xs) = place x (sort_by xs)

  length-place : (x : A) (ys : List A) → length (place x ys) ≡ suc (length ys)
  length-place x [] = refl
  length-place x (y ∷ ys) = ground (arith, length-place x ys)

  pub length-sort : (xs : List A) → length (sort_by xs) ≡ length xs
  length-sort [] = refl
  length-sort (x ∷ xs) = length-place x (sort_by xs) ∙ ap suc (length-sort xs)

  Among-place_new : (x : A) (ys : List A) → Among x (place x ys)
  Among-place_new x [] = Among.first
  Among-place_new x (y ∷ ys) = elim (Bool-cases (before x y)) [
    | inl front ↦ rw front Among.first
    | inr behind ↦ rw behind (Among.later (Among-place_new x ys))
  ]

  Among-place_old : (x : A) {z : A} {ys : List A} → Among z ys → Among z (place x ys)
  Among-place_old x {z} Among.first = elim (Bool-cases (before x z)) [
    | inl front ↦ rw front (Among.later Among.first)
    | inr behind ↦ rw behind Among.first
  ]
  Among-place_old x (Among.later {y} {ys} a) = elim (Bool-cases (before x y)) [
    | inl front ↦ rw front (Among.later (Among.later a))
    | inr behind ↦ rw behind (Among.later (Among-place_old x a))
  ]

  Among-of_cons : {x z : A} {ys : List A} → Among z (x ∷ ys) → (z ≡ x) ⊎ Among z ys
  Among-of_cons Among.first = inl refl
  Among-of_cons (Among.later a) = inr a

  Among-of_place : (x : A) {z : A} (ys : List A) → Among z (place x ys) → (z ≡ x) ⊎ Among z ys
  Among-of_place x [] a = Among-of_cons a
  Among-of_place x {z} (y ∷ ys) a = elim (Bool-cases (before x y)) [
    | inl front ↦ Among-of_cons (rw front at a)
    | inr behind ↦ elim (Among-of_cons (rw behind at a)) [
      | inl e ↦ inr (rw e Among.first)
      | inr rest ↦ elim (Among-of_place x ys rest) [
        | inl e ↦ inl e
        | inr old ↦ inr (Among.later old)
      ]
    ]
  ]

  -- Sorting keeps the elements.
  pub Among-sort_by : {z : A} {xs : List A} → Among z xs → Among z (sort_by xs)
  Among-sort_by (Among.first {ys}) = Among-place_new _ (sort_by ys)
  Among-sort_by (Among.later {y} a) = Among-place_old y (Among-sort_by a)

  pub Among-of_sort : {z : A} (xs : List A) → Among z (sort_by xs) → Among z xs
  Among-of_sort [] a = elim a [ ]
  Among-of_sort (x ∷ xs) a = elim (Among-of_place x (sort_by xs) a) [
    | inl e ↦ rw e Among.first
    | inr rest ↦ Among.later (Among-of_sort xs rest)
  ]

-- `sort` of numbers
abbrev pub sort : List ℕ → List ℕ
sort = sort_by leb

module _ (before : ℕ → ℕ → Bool) where
  member-place : (x n : ℕ) (ys : List ℕ) → member n (place before x ys) ≡ member n (x ∷ ys)
  member-place x n [] = refl
  member-place x n (y ∷ ys) = ground (arith, member-place x n ys)

  pub member-sort : (xs : List ℕ) (n : ℕ) → member n (sort_by before xs) ≡ member n xs
  member-sort [] n = refl
  member-sort (x ∷ xs) n = ground (arith, member-place x n (sort_by before xs), member-sort xs n)

  place-Distinct :
      (x : ℕ) (ys : List ℕ) → member x ys ≡ false → Distinct ys → Distinct (place before x ys)
  place-Distinct x [] new d = (refl, tt)
  place-Distinct x (y ∷ ys) new d = ground (arith, new, d, place-Distinct x ys, member-place x y ys)

  pub sort-Distinct : (xs : List ℕ) → Distinct xs → Distinct (sort_by before xs)
  sort-Distinct [] d = tt
  sort-Distinct (x ∷ xs) d =
      place-Distinct x (sort_by before xs) (ground (arith, member-sort xs x, d))
        (sort-Distinct xs d.1)

-- Every element may stand in front of the later ones.
abbrev pub InOrder : {A : Type 0} → (A → A → Bool) → List A → Type 0
InOrder before [] = Unit
InOrder {A} before (x ∷ xs) = ((z : A) → Among z xs → before x z ≡ true) × InOrder before xs

module _ {A : Type 0} (before : A → A → Bool)
    (trans : (x y z : A) → before x y ≡ true → before y z ≡ true → before x z ≡ true)
    (total : (x y : A) → before x y ≡ false → before y x ≡ true) where
  place-InOrder : (x : A) (ys : List A) → InOrder before ys → InOrder before (place before x ys)
  place-InOrder x [] sorted = (λ z a. elim a [ ], tt)
  place-InOrder x (y ∷ ys) (low, sorted) =
      let rest = place-InOrder x ys sorted in
      elim (Bool-cases (before x y)) [
        | inl front ↦ rw front (
          λ z a. elim (Among-of_cons before a) [
            | inl same ↦ rw same front
            | inr behind ↦ trans x y z front (low z behind)
          ],
          (low, sorted),
        )
        | inr back ↦ rw back (
          λ z a. elim (Among-of_place before x ys a) [
            | inl same ↦ rw same (total x y back)
            | inr old ↦ low z old
          ],
          rest,
        )
      ]

  -- Sorting puts the elements in their order.
  pub sort_by-InOrder : (xs : List A) → InOrder before (sort_by before xs)
  sort_by-InOrder [] = tt
  sort_by-InOrder (x ∷ xs) = place-InOrder x (sort_by before xs) (sort_by-InOrder xs)

pub InOrder-at :
    {A : Type 0} (before : A → A → Bool) (xs : List A) (i j : ℕ) (x y : A)
    → InOrder before xs
    → i < j
    → get_elem? xs i ≡ some x
    → get_elem? xs j ≡ some y
    → before x y ≡ true
InOrder-at before [] i j x y sorted lt at at' = cc
InOrder-at before (z ∷ xs) i zero x y sorted lt at at' = absurd (omega (arith, lt))
InOrder-at before (z ∷ xs) zero (suc j) x y (low, sorted) lt at at' =
    let same : z ≡ x = cc in subst (λ w. before w y ≡ true) same (low y (Among-of_at xs j at'))
InOrder-at before (z ∷ xs) (suc i) (suc j) x y (low, sorted) lt at at' =
    InOrder-at before xs i j x y sorted (omega (arith, lt)) at at'
