-- ===== src/Sese/Regions/Smallest.antt =====
-- `min_by_key` over the sets of the regions of src/graph/analysis/sese.rs: it finds a set that holds, and
-- none that holds is shorter.
use jstd.Base.{
  ℕ, zero, suc, ◌+◌, ◌≤◌, ◌<◌, ◌≡◌, refl, ◌∙◌, ap, inl, inr, Bool, true, false, Bool-cases, Option,
  none, some, List, [], ◌∷◌, ◌==◌, ==→eq, subst, ltb, length, arith,
}
use jstd.Sese.Regions.{shorter, shortest, or_root}

-- The set of a region, empty out of range.
abbrev pub set_of : List (List ℕ) → ℕ → List ℕ
set_of [] i = []
set_of (set ∷ sets) zero = set
set_of (set ∷ sets) (suc i) = set_of sets i

module _ (holds : List ℕ → Bool) (all : List (List ℕ)) where
  -- The best of the first `i` sets.
  abbrev pub Best : ℕ → Option (ℕ × ℕ) → Type 0
  Best i none = (m : ℕ) → m < i → holds (set_of all m) ≡ false
  Best i (some (k, least)) =
      (k < i)
      × (holds (set_of all k) ≡ true)
      × (least ≡ length (set_of all k))
      × ((m : ℕ)
          → m < i
          → holds (set_of all m) ≡ true
          → length (set_of all k) ≤ length (set_of all m))

  pass :
      (i : ℕ) (best : Option (ℕ × ℕ))
      → holds (set_of all i) ≡ false
      → Best i best
      → Best (i + 1) best
  pass i none off h = λ m lt. elim (Bool-cases (i == m)) [
    | inl e ↦ subst (λ x. holds (set_of all x) ≡ false) (==→eq i m e) off
    | inr e ↦ h m (ground (arith, e, lt))
  ]
  pass i (some (k, least)) off (lt, on, size, low) = (
    omega (arith, lt),
    on,
    size,
    λ m below here. elim (Bool-cases (i == m)) [
      | inl e ↦
          absurd (ground (arith, here, subst (λ x. holds (set_of all x) ≡ false) (==→eq i m e) off))
      | inr e ↦ low m (ground (arith, e, below)) here
    ],
  )

  -- The set at `i` is at least as short as all before it that hold.
  front :
      (i : ℕ)
      → holds (set_of all i) ≡ true
      → ((m : ℕ)
          → m < i
          → holds (set_of all m) ≡ true
          → length (set_of all i) ≤ length (set_of all m))
      → Best (i + 1) (some (i, length (set_of all i)))
  front i on low = (
    omega arith,
    on,
    refl,
    λ m below here. elim (Bool-cases (i == m)) [
      | inl e ↦
          subst (λ x. length (set_of all i) ≤ length (set_of all x)) (==→eq i m e) (omega arith)
      | inr e ↦ low m (ground (arith, e, below)) here
    ],
  )

  take_set :
      (i : ℕ) (best : Option (ℕ × ℕ))
      → holds (set_of all i) ≡ true
      → Best i best
      → Best (i + 1) (shorter i (length (set_of all i)) best)
  take_set i none on h = front i on (λ m below here. absurd (ground (arith, here, h m below)))
  take_set i (some (k, least)) on (lt, there, size, low) =
      elim (Bool-cases (ltb (length (set_of all i)) least)) [
        | inl less ↦
            rw less (front i on (λ m below here. ground (arith, less, size, low m below here)))
        | inr more ↦ rw more (
          omega (arith, lt),
          there,
          size,
          λ m below here. elim (Bool-cases (i == m)) [
            | inl e ↦
                subst (λ x. length (set_of all k) ≤ length (set_of all x)) (==→eq i m e)
                  (ground (arith, more, size))
            | inr e ↦ low m (ground (arith, e, below)) here
          ],
        )
      ]

  shortest_from :
      (i : ℕ) (sets : List (List ℕ)) (best : Option (ℕ × ℕ))
      → ((m : ℕ) → set_of all (i + m) ≡ set_of sets m)
      → length all ≡ i + length sets
      → Best i best
      → Best (length all) (shortest holds i sets best)
  shortest_from i [] best same size h = subst (λ x. Best x best) (omega (arith, size)) h
  shortest_from i (s ∷ sets) best same size h =
      let here : set_of all i ≡ s = ap (set_of all) (omega arith) ∙ same 0 in
      let later : (m : ℕ) → set_of all (i + 1 + m) ≡ set_of sets m =
        λ m. ap (set_of all) (omega arith) ∙ same (suc m) in
      elim (Bool-cases (holds s)) [
        | inl on ↦ rw on (
            shortest_from (i + 1) sets (shorter i (length s) best) later (omega (arith, size)) (
              subst (λ x. Best (i + 1) (shorter i (length x) best)) here
                (take_set i best (rw here on) h)))
        | inr off ↦ rw off (
            shortest_from (i + 1) sets best later (omega (arith, size))
              (pass i best (rw here off) h))
      ]

  -- If some set holds, the position found is that of a set that holds, and no set that holds is shorter.
  pub shortest_exact :
      (i : ℕ)
      → i < length all
      → holds (set_of all i) ≡ true
      → let k = or_root (shortest holds 0 all none) in
        (k < length all)
        × (holds (set_of all k) ≡ true)
        × ((m : ℕ)
            → m < length all
            → holds (set_of all m) ≡ true
            → length (set_of all k) ≤ length (set_of all m))
  shortest_exact i below on = found (shortest holds 0 all none) (
      shortest_from 0 all none (λ m. ap (set_of all) (omega arith)) (omega arith)
        (λ m h. absurd (omega (arith, h))))
    where
      found :
          (result : Option (ℕ × ℕ))
          → Best (length all) result
          → let k = or_root result in
            (k < length all)
            × (holds (set_of all k) ≡ true)
            × ((m : ℕ)
                → m < length all
                → holds (set_of all m) ≡ true
                → length (set_of all k) ≤ length (set_of all m))
      found none h = absurd (ground (arith, on, h i below))
      found (some (k, least)) (lt, there, _, low) = (lt, there, low)
