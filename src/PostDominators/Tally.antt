-- ===== src/PostDominators/Tally.antt =====
-- Counts over lists, which shrink when an element drops out.
use jstd.Base.{
  ℕ, ◌+◌, ◌*◌, ◌<◌, ◌≤◌, ◌≡◌, inl, inr, Bool, true, false, List, [], ◌∷◌, ◌==◌, ==→eq,
  if◌then◌else◌, Bool-cases, member, length, arith,
}

-- The number of places where `f` holds.
abbrev pub tally : (ℕ → Bool) → List ℕ → ℕ
tally f [] = 0
tally f (x ∷ xs) = (if f x then 1 else 0) + tally f xs

abbrev pub total : (ℕ → ℕ) → List ℕ → ℕ
total f [] = 0
total f (x ∷ xs) = f x + total f xs

pub tally_le :
    (f h : ℕ → Bool) (xs : List ℕ) → ((x : ℕ) → f x ≡ true → h x ≡ true) → tally f xs ≤ tally h xs
tally_le f h [] sub = omega arith
tally_le f h (x ∷ xs) sub = ground (arith, sub x, tally_le f h xs sub)

pub tally_lt :
    (f h : ℕ → Bool) (xs : List ℕ)
    → ((x : ℕ) → f x ≡ true → h x ≡ true)
    → (y : ℕ) → member y xs ≡ true
    → f y ≡ false
    → h y ≡ true
    → tally f xs < tally h xs
tally_lt f h [] sub y there out old = absurd (ground (arith, there))
tally_lt f h (x ∷ xs) sub y there out old = elim (Bool-cases (y == x)) [
  | inl same ↦ ground (arith, ==→eq y x same, out, old, tally_le f h xs sub)
  | inr other ↦ ground (arith, sub x, tally_lt f h xs sub y (ground (arith, there, other)) out old)
]

pub total_le : (f h : ℕ → ℕ) (xs : List ℕ) → ((x : ℕ) → f x ≤ h x) → total f xs ≤ total h xs
total_le f h [] sub = omega arith
total_le f h (x ∷ xs) sub = omega (arith, sub x, total_le f h xs sub)

pub total_lt :
    (f h : ℕ → ℕ) (xs : List ℕ)
    → ((x : ℕ) → f x ≤ h x)
    → (y : ℕ) → member y xs ≡ true
    → f y < h y
    → total f xs < total h xs
total_lt f h [] sub y there less = absurd (ground (arith, there))
total_lt f h (x ∷ xs) sub y there less = elim (Bool-cases (y == x)) [
  | inl same ↦ ground (arith, ==→eq y x same, less, total_le f h xs sub)
  | inr other ↦ omega (arith, sub x, total_lt f h xs sub y (ground (arith, there, other)) less)
]

pub tally_bound : (f : ℕ → Bool) (xs : List ℕ) → tally f xs ≤ length xs
tally_bound f [] = omega arith
tally_bound f (x ∷ xs) = ground (arith, tally_bound f xs)

pub total_bound :
    (f : ℕ → ℕ) (k : ℕ) (xs : List ℕ) → ((x : ℕ) → f x ≤ k) → total f xs ≤ length xs * k
total_bound f k [] below = omega arith
total_bound f k (x ∷ xs) below = grind (arith, below x, total_bound f k xs below)
