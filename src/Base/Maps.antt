-- ===== src/Base/Maps.antt =====
-- `HashMap` and `HashSet` over keys that are numbers, as lists in the order of insertion. The order
-- in which the program iterates over them is not specified, and no theorem depends on it.
use Prim.Native.Nat.{ℕ}
use mathlib.Core.Path.{◌≡◌, refl}
use mathlib.Core.Logic.{inl, inr}
use mathlib.Core.Bool.{Bool, true, false, not, ◌&&◌, ◌||◌}
use mathlib.Core.Option.{Option, none, some}
use mathlib.Core.List.{List, [], ◌∷◌}
use native.Mathlib.Omega.{arith}
use jstd.Base.Tests.{◌==◌, ==→eq, Bool-cases, if◌then◌else◌}
use jstd.Base.Lists.{member}

abbrev pub is_some {ℓ} : {A : Type ℓ} → Option A → Bool
is_some none = false
is_some (some a) = true

-- No number occurs twice.
abbrev pub Distinct : List ℕ → Type 0
Distinct [] = Unit
Distinct (x ∷ xs) = (member x xs ≡ false) × Distinct xs

-- `HashSet::insert`
abbrev pub add : ℕ → List ℕ → List ℕ
add x s = if member x s then s else x ∷ s

-- `HashSet::remove`
abbrev pub discard : ℕ → List ℕ → List ℕ
discard x [] = []
discard x (y ∷ s) = let rest = discard x s in if x == y then rest else y ∷ rest

pub member-add : (x y : ℕ) (s : List ℕ) → member y (add x s) ≡ (y == x || member y s)
member-add x y s = elim (Bool-cases (y == x)) [
  | inl same ↦ ground (arith, same, ==→eq y x same)
  | inr other ↦ ground (arith, other)
]

pub member-discard : (x y : ℕ) (s : List ℕ) → member y (discard x s) ≡ (not (y == x) && member y s)
member-discard x y [] = ground arith
member-discard x y (z ∷ s) = ground (arith, member-discard x y s)

pub add-Distinct : (x : ℕ) (s : List ℕ) → Distinct s → Distinct (add x s)
add-Distinct x s d = elim (Bool-cases (member x s)) [
  | inl there ↦ rw there d
  | inr new ↦ rw new (new, d)
]

pub discard-Distinct : (x : ℕ) (s : List ℕ) → Distinct s → Distinct (discard x s)
discard-Distinct x [] d = d
discard-Distinct x (y ∷ s) d = elim (Bool-cases (x == y)) [
  | inl same ↦ rw same (discard-Distinct x s d.1)
  | inr other ↦ rw other (ground (arith, member-discard x y s, d), discard-Distinct x s d.1)
]

module _ {ℓ} {V : Type ℓ} where
  -- `HashMap::get`
  abbrev pub lookup : ℕ → List (ℕ × V) → Option V
  lookup k [] = none
  lookup k ((j, v) ∷ m) = if k == j then some v else lookup k m

  -- `HashMap::remove`
  abbrev pub erase : ℕ → List (ℕ × V) → List (ℕ × V)
  erase k [] = []
  erase k ((j, v) ∷ m) = let rest = erase k m in if k == j then rest else (j, v) ∷ rest

  -- `HashMap::insert`
  abbrev pub insert : ℕ → V → List (ℕ × V) → List (ℕ × V)
  insert k v [] = (k, v) ∷ []
  insert k v ((j, w) ∷ m) = let rest = insert k v m in if k == j then (k, v) ∷ m else (j, w) ∷ rest

  -- `HashMap::keys`
  abbrev pub keys : List (ℕ × V) → List ℕ
  keys [] = []
  keys ((k, v) ∷ m) = k ∷ keys m

  pub lookup-insert :
      (k : ℕ) (v : V) (m : List (ℕ × V)) (q : ℕ)
      → lookup q (insert k v m) ≡ (if q == k then some v else lookup q m)
  lookup-insert k v [] q = refl
  lookup-insert k v ((j, w) ∷ m) q = ground (arith, lookup-insert k v m q)

  pub lookup-erase :
      (k : ℕ) (m : List (ℕ × V)) (q : ℕ)
      → lookup q (erase k m) ≡ (if q == k then none else lookup q m)
  lookup-erase k [] q = ground arith
  lookup-erase k ((j, w) ∷ m) q = ground (arith, lookup-erase k m q)

  pub member-keys : (m : List (ℕ × V)) (q : ℕ) → member q (keys m) ≡ is_some (lookup q m)
  member-keys [] q = refl
  member-keys ((j, w) ∷ m) q = ground (arith, member-keys m q)
