-- ===== src/Sese/Regions/Canonical.antt =====
-- The loops that select the candidates in `compute_sese`, src/graph/analysis/sese.rs: the smallest of each
-- boundary edge, and those that cross no other.
use jstd.Base.{
  ℕ, zero, suc, ◌+◌, ◌≤◌, ◌≡◌, refl, sym, ◌∙◌, ap, subst, ◌⊎◌, inl, inr, Bool, true, false, ◌||◌,
  Bool-cases, ==→eq, Option, Option-cases, none, some, List, [], ◌∷◌, ◌==◌, if◌then◌else◌, lookup,
  lookup-insert, get_elem?, Among, arith,
}
use jstd.Sese.{is_some_of}
use jstd.Sese.Candidates.{Candidate}
use jstd.Sese.Regions.{
  is_subset, intersects, smaller_before, larger_before, or_insert, smallest_for, canonical,
  crosses_any, laminar,
}

-- The edge is a boundary of the candidate.
abbrev pub touches : Candidate → ℕ → Bool
touches (a, b, nodes) x = (x == a) || (x == b)

-- The first of the candidates, from the position `i` on, that the edge bounds.
abbrev pub first_touching : ℕ → ℕ → List Candidate → Option ℕ
first_touching x i [] = none
first_touching x i (c ∷ rest) =
    let later = first_touching x (i + 1) rest in if touches c x then some i else later

abbrev or_else : Option ℕ → Option ℕ → Option ℕ
or_else none o = o
or_else (some v) o = some v

lookup-or_insert :
    (key value : ℕ) (map : List (ℕ × ℕ)) (x : ℕ)
    → lookup x (or_insert key value map)
      ≡ or_else (lookup x map) (if x == key then some value else none)
lookup-or_insert key value map x = elim (Option-cases (lookup key map)) [
  | inl absent ↦ elim (Bool-cases (x == key)) [
    | inl same ↦
        let here : lookup x map ≡ none = ap (λ k. lookup k map) (==→eq x key same) ∙ absent in
        rw (absent, same, here) (lookup-insert key value map x ∙ rw same refl)
    | inr other ↦
        rw (absent, other) (lookup-insert key value map x ∙ rw other (sym (or_none (lookup x map))))
  ]
  | inr (v, there) ↦ elim (Bool-cases (x == key)) [
    | inl same ↦
        let here : lookup x map ≡ some v = ap (λ k. lookup k map) (==→eq x key same) ∙ there in
        rw (there, same, here) refl
    | inr other ↦ rw (there, other) (sym (or_none (lookup x map)))
  ]
]
  where
    or_none : (o : Option ℕ) → or_else o none ≡ o
    or_none none = refl
    or_none (some v) = refl

pub lookup-smallest_for :
    (i : ℕ) (cs : List Candidate) (map : List (ℕ × ℕ)) (x : ℕ)
    → lookup x (smallest_for i cs map) ≡ or_else (lookup x map) (first_touching x i cs)
lookup-smallest_for i [] map x = ground arith
lookup-smallest_for i ((a, b, nodes) ∷ rest) map x =
    lookup-smallest_for (i + 1) rest (or_insert b i (or_insert a i map)) x
    ∙ ground (arith, lookup-or_insert b i (or_insert a i map) x, lookup-or_insert a i map x)

-- The candidate at the position is the first that the edge bounds.
pub record IsFirst (x i : ℕ) (cs : List Candidate) (m : ℕ) : Type 0 where
  pub k : ℕ
  pub c : Candidate
  pub place : m ≡ i + k
  pub at : get_elem? cs k ≡ some c
  pub bounds : touches c x ≡ true

pub first_touching_at :
    (x i : ℕ) (cs : List Candidate) (m : ℕ) → first_touching x i cs ≡ some m → IsFirst x i cs m
first_touching_at x i [] m h = absurd (ground (arith, h))
first_touching_at x i (c ∷ rest) m h = elim (Bool-cases (touches c x)) [
  | inl here ↦ record { k = 0; c = c; place = ground (arith, h, here); at = refl; bounds = here }
  | inr off ↦
      let f = first_touching_at x (i + 1) rest m (rw off at h) in
      record { k = suc f.k; c = f.c; place = omega (arith, f.place); at = f.at; bounds = f.bounds }
]

-- No later than any candidate that the edge bounds.
pub first_touching_le :
    (x i : ℕ) (cs : List Candidate) (k : ℕ) (c : Candidate)
    → get_elem? cs k ≡ some c
    → touches c x ≡ true
    → (m : ℕ) × (first_touching x i cs ≡ some m) × (m ≤ i + k)
first_touching_le x i [] k c at on = cc
first_touching_le x i (d ∷ rest) zero c at on =
    let same : d ≡ c = cc in
    let here : touches d x ≡ true = ap (λ e. touches e x) same ∙ on in
    (i, rw here refl, omega arith)
first_touching_le x i (d ∷ rest) (suc k) c at on =
    let (m, found, low) = first_touching_le x (i + 1) rest k c at on in
    elim (Bool-cases (touches d x)) [
      | inl here ↦ (i, rw here refl, omega arith)
      | inr off ↦ (m, rw off found, omega (arith, low))
    ]

among_cons :
    {c first : Candidate} {rest : List Candidate}
    → Among c (first ∷ rest)
    → (c ≡ first) ⊎ Among c rest
among_cons Among.first = inl refl
among_cons (Among.later a) = inr a

abbrev pub keeps : List (ℕ × ℕ) → Candidate → ℕ → Bool
keeps smallest c i = is_some_of (lookup c.0 smallest) i || is_some_of (lookup c.1 smallest) i

pub canonical_at :
    (i : ℕ) (smallest : List (ℕ × ℕ)) (cs : List Candidate) (c : Candidate)
    → Among c (canonical i smallest cs)
    → (k : ℕ) × (m : ℕ) × (m ≡ i + k) × (get_elem? cs k ≡ some c) × (keeps smallest c m ≡ true)
canonical_at i smallest [] c a = elim a [ ]
canonical_at i smallest ((x, y, nodes) ∷ rest) c a =
    elim (Bool-cases (is_some_of (lookup x smallest) i || is_some_of (lookup y smallest) i)) [
      | inl kept ↦ elim (among_cons (rw kept at a)) [
        | inl same ↦ (
          0,
          i,
          omega arith,
          ap some (sym same),
          subst
              (λ d.
                (is_some_of (lookup d.0 smallest) i || is_some_of (lookup d.1 smallest) i) ≡ true)
              (sym same) kept,
        )
        | inr behind ↦
            let (k, m, e, at, on) = canonical_at (i + 1) smallest rest c behind in
            (suc k, m, omega (arith, e), at, on)
      ]
      | inr off ↦
          let (k, m, e, at, on) = canonical_at (i + 1) smallest rest c (rw off at a) in
          (suc k, m, omega (arith, e), at, on)
    ]

pub canonical_of_at :
    (i : ℕ) (smallest : List (ℕ × ℕ)) (cs : List Candidate) (k m : ℕ) (c : Candidate)
    → m ≡ i + k
    → get_elem? cs k ≡ some c
    → keeps smallest c m ≡ true
    → Among c (canonical i smallest cs)
canonical_of_at i smallest [] k m c e at on = cc
canonical_of_at i smallest ((x, y, nodes) ∷ rest) zero m c e at on =
    let same : (x, y, nodes) ≡ c = cc in
    let place : m ≡ i = omega (arith, e) in
    let kept : (is_some_of (lookup x smallest) i || is_some_of (lookup y smallest) i) ≡ true =
      subst (λ j. (is_some_of (lookup x smallest) j || is_some_of (lookup y smallest) j) ≡ true)
        place
        (ap (λ d. is_some_of (lookup d.0 smallest) m || is_some_of (lookup d.1 smallest) m) same
          ∙ on) in
    rw kept
      (subst (λ d. Among d ((x, y, nodes) ∷ canonical (i + 1) smallest rest)) same Among.first)
canonical_of_at i smallest ((x, y, nodes) ∷ rest) (suc k) m c e at on =
    let a = canonical_of_at (i + 1) smallest rest k m c (omega (arith, e)) at on in
    elim (Bool-cases (is_some_of (lookup x smallest) i || is_some_of (lookup y smallest) i)) [
      | inl kept ↦ rw kept (Among.later a)
      | inr off ↦ rw off a
    ]

-- The nodes of the two candidates lie one in the other, or have none in common.
abbrev pub Apart : List ℕ → List ℕ → Type 0
Apart xs ys = intersects xs ys ≡ true → (is_subset xs ys ≡ true) ⊎ (is_subset ys xs ≡ true)

pub crosses_none :
    (nodes : List ℕ) (all : List Candidate) (d : Candidate)
    → crosses_any nodes all ≡ false
    → Among d all
    → Apart nodes d.2
crosses_none nodes [] d off a = elim a [ ]
crosses_none nodes ((x, y, other) ∷ rest) d off Among.first = λ meet.
    elim (Bool-cases (is_subset nodes other)) [
      | inl inside ↦ inl inside
      | inr out ↦ elim (Bool-cases (is_subset other nodes)) [
        | inl inside ↦ inr inside
        | inr out' ↦ absurd (ground (arith, off, meet, out, out'))
      ]
    ]
crosses_none nodes ((x, y, other) ∷ rest) d off (Among.later a) =
    crosses_none nodes rest d (ground (arith, off)) a

pub crosses_none_of :
    (nodes : List ℕ) (all : List Candidate)
    → ((d : Candidate) → Among d all → Apart nodes d.2)
    → crosses_any nodes all ≡ false
crosses_none_of nodes [] apart = refl
crosses_none_of nodes ((x, y, other) ∷ rest) apart =
    let later = crosses_none_of nodes rest (λ d a. apart d (Among.later a)) in
    elim (Bool-cases (intersects nodes other)) [
      | inr off ↦ ground (arith, off, later)
      | inl meet ↦ elim (apart (x, y, other) Among.first meet) [
        | inl inside ↦ ground (arith, inside, later)
        | inr inside ↦ ground (arith, inside, later)
      ]
    ]

pub laminar_at :
    (all cs : List Candidate) (c : Candidate)
    → Among c (laminar all cs)
    → Among c cs × (crosses_any c.2 all ≡ false)
laminar_at all [] c a = elim a [ ]
laminar_at all ((x, y, nodes) ∷ rest) c a = elim (Bool-cases (crosses_any nodes all)) [
  | inl off ↦ let (there, apart) = laminar_at all rest c (rw off at a) in (Among.later there, apart)
  | inr kept ↦ elim (among_cons (rw kept at a)) [
    | inl same ↦ (
      subst (λ d. Among d ((x, y, nodes) ∷ rest)) (sym same) Among.first,
      subst (λ d. crosses_any d.2 all ≡ false) (sym same) kept,
    )
    | inr behind ↦ let (there, apart) = laminar_at all rest c behind in (Among.later there, apart)
  ]
]

pub laminar_of :
    (all cs : List Candidate) {c : Candidate}
    → Among c cs
    → crosses_any c.2 all ≡ false
    → Among c (laminar all cs)
laminar_of all [] a apart = elim a [ ]
laminar_of all ((x, y, nodes) ∷ rest) Among.first apart = rw apart Among.first
laminar_of all ((x, y, nodes) ∷ rest) (Among.later a) apart =
    let behind = laminar_of all rest a apart in
    elim (Bool-cases (crosses_any nodes all)) [
      | inl off ↦ rw off behind
      | inr kept ↦ rw kept (Among.later behind)
    ]

pub smaller_trans :
    (x y z : Candidate)
    → smaller_before x y ≡ true
    → smaller_before y z ≡ true
    → smaller_before x z ≡ true
smaller_trans (a, b, xs) (c, d, ys) (e, f, zs) h k = ground (arith, h, k)

pub smaller_total : (x y : Candidate) → smaller_before x y ≡ false → smaller_before y x ≡ true
smaller_total (a, b, xs) (c, d, ys) h = ground (arith, h)

pub larger_trans :
    (x y z : Candidate)
    → larger_before x y ≡ true
    → larger_before y z ≡ true
    → larger_before x z ≡ true
larger_trans (a, b, xs) (c, d, ys) (e, f, zs) h k = ground (arith, h, k)

pub larger_total : (x y : Candidate) → larger_before x y ≡ false → larger_before y x ≡ true
larger_total (a, b, xs) (c, d, ys) h = ground (arith, h)
