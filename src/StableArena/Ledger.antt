-- ===== src/StableArena/Ledger.antt =====
-- What `StableArena` promises: a ledger of ids issued in order, each live with its payload or gone
-- for good. Dense slots and the location table do not show.
use jstd.Base.{
  ℕ, ◌+◌, ◌≡◌, Bool, ◌&&◌, Option, none, some, ltb, ◌==◌, if◌then◌else◌, Outcome, done, panic,
  length,
}
use jstd.Identifier.{Identifier}
use jstd.StableArena.{StableArena, dead}
use jstd.StableArena.Valid.{view, IsValid}

pub record Ledger {ℓ} (T : Type ℓ) : Type ℓ where
  pub issued : ℕ
  pub entry : ℕ → Option T

module _ {ℓ} {T : Type ℓ} where
  abbrev pub void : Ledger T
  void = record { issued = 0; entry = λ _. none }

  abbrev pub enter : (ℕ → Option T) → ℕ → Option T → ℕ → Option T
  enter entry raw value r = if raw == r then value else entry r

  -- `fits` tells the numbers that the identifier type can hold.
  abbrev pub push : (ℕ → Bool) → Ledger T → T → Outcome (Ledger T × ℕ)
  push fits l value =
      if ltb l.issued dead && fits l.issued
      then done
          (record { issued = l.issued + 1; entry = enter l.entry l.issued (some value) }, l.issued)
      else panic

  abbrev pub remove : Ledger T → ℕ → Outcome (Ledger T × T)
  remove l raw = elim (l.entry raw) [
    | none ↦ panic
    | some value ↦ done (record l { entry = enter l.entry raw none }, value)
  ]

  abbrev pub set_entry : Ledger T → ℕ → T → Outcome (Ledger T)
  set_entry l raw value = elim (l.entry raw) [
    | none ↦ panic
    | some _ ↦ done (record l { entry = enter l.entry raw (some value) })
  ]

  abbrev pub truncate : Ledger T → ℕ → Ledger T
  truncate l n = record {
    issued = if ltb n l.issued then n else l.issued;
    entry = λ r. if ltb r n then l.entry r else none;
  }

module _ {ℓ} {Key : Type 0} {T : Type ℓ} where
  -- The ledger that an arena stands for.
  abbrev pub ledger : StableArena Key T → Ledger T
  ledger a = record { issued = length a.locations; entry = view a }

module _ {Key T B C : Type 0} ⦃I : Identifier Key⦄ where
  -- Both calls panic, or both succeed: the new arena is valid and stands for the new ledger, and
  -- the results agree.
  abbrev pub Agrees : (B → C) → Outcome (StableArena Key T × B) → Outcome (Ledger T × C) → Type 0
  Agrees f panic panic = Unit
  Agrees f (done (a, b)) (done (l, c)) = IsValid a × (ledger a ≡ l) × (f b ≡ c)
  Agrees f _ _ = ⊥

module _ {Key T : Type 0} ⦃I : Identifier Key⦄ where
  -- Both panic, or both go on: the arena is valid and stands for the ledger.
  abbrev pub Tracks : Outcome (StableArena Key T) → Outcome (Ledger T) → Type 0
  Tracks panic panic = Unit
  Tracks (done a) (done l) = IsValid a × (ledger a ≡ l)
  Tracks _ _ = ⊥

  pub Tracks-panic :
      (m : Outcome (StableArena Key T)) (n : Outcome (Ledger T))
      → m ≡ panic
      → n ≡ panic
      → Tracks m n
  Tracks-panic m n p q = rw (p, q) tt

  pub Tracks-done :
      (m : Outcome (StableArena Key T)) (n : Outcome (Ledger T)) (a : StableArena Key T)
      (l : Ledger T)
      → m ≡ done a
      → n ≡ done l
      → IsValid a
      → ledger a ≡ l
      → Tracks m n
  Tracks-done m n a l p q v e = rw (p, q) (v, e)
