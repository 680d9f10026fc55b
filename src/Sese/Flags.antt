-- ===== src/Sese/Flags.antt =====
-- The flags of the nodes seen, and what a search may still cost.
use jstd.Base.{
  ℕ, zero, suc, ◌+◌, ◌*◌, ◌<◌, ◌≡◌, refl, inl, inr, ◌⊎◌, Bool, true, false, not, ◌&&◌, ◌||◌,
  Bool-cases, ==→eq, List, [], ◌∷◌, ◌==◌, if◌then◌else◌, length, set, replicate, member,
  get_elem?-set, arith,
}
use jstd.Sese.Scan.{flag}

-- What the nodes that are not yet seen may still cost, at `c` each.
abbrev pub credit : ℕ → List Bool → ℕ
credit c [] = 0
credit c (b ∷ seen) = (if b then 0 else c) + credit c seen

pub credit-set :
    (c : ℕ) (seen : List Bool) (v : ℕ)
    → v < length seen
    → flag seen v ≡ false
    → credit c (set seen v true) + c ≡ credit c seen
credit-set c [] v h f = absurd (omega arith)
credit-set c (b ∷ seen) zero h f = ground (arith, f)
credit-set c (b ∷ seen) (suc v) h f = omega (arith, credit-set c seen v (omega arith) f)

pub credit-replicate : (c n : ℕ) → credit c (replicate n false) ≡ n * c
credit-replicate c zero = omega arith
credit-replicate c (suc n) = omega (arith, credit-replicate c n)

pub flag-set :
    (seen : List Bool) (node v : ℕ)
    → node < length seen
    → flag (set seen node true) v ≡ (node == v || flag seen v)
flag-set seen node v h = ground (arith, get_elem?-set seen node true v h)

pub flag-replicate : (n v : ℕ) → flag (replicate n false) v ≡ false
flag-replicate zero v = refl
flag-replicate (suc n) zero = refl
flag-replicate (suc n) (suc v) = flag-replicate n v

-- A node that is popped although it was seen is reached all the same.
pub popped :
    (seen : List Bool) (node v : ℕ) (rest : List ℕ)
    → flag seen node ≡ true
    → (flag seen v || (v == node || member v rest)) ≡ true
    → (flag seen v || member v rest) ≡ true
popped seen node v rest f h = elim (Bool-cases (v == node)) [
  | inl same ↦ ground (arith, ==→eq v node same, f)
  | inr other ↦ ground (arith, other, h)
]

-- The nodes that are reached after an expansion.
pub grown :
    (v node : ℕ) (f m l : Bool)
    → ((node == v || f) || (m || l && not (node == v || f))) ≡ ((f || (v == node || m)) || l)
grown v node f m l = elim (Bool-cases (v == node)) [
  | inl same ↦ ground (arith, ==→eq v node same)
  | inr other ↦ ground (arith, other)
]

pub either : (a b : Bool) → (a || b) ≡ true → (a ≡ true) ⊎ (b ≡ true)
either true b h = inl refl
either false b h = inr h
