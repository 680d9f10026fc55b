-- ===== src/Base/Panics.antt =====
-- What a call of the source may end in: a value, or a panic (a failed `assert!`, an index out of
-- range, `unwrap` of `None`).
use mathlib.Core.Path.{◌≡◌}
use mathlib.Core.Bool.{Bool, true, false}
use mathlib.Core.Option.{Option, none, some}

pub data Outcome {ℓ} (A : Type ℓ) : Type ℓ where
  done : A → Outcome A
  panic : Outcome A

infixl 5 ◌>>=◌ ◌>>◌
abbrev pub ◌>>=◌ {ℓ κ} : {A : Type ℓ} {B : Type κ} → Outcome A → (A → Outcome B) → Outcome B
done a >>= f = f a
panic >>= f = panic

abbrev pub ◌>>◌ {ℓ} : {B : Type ℓ} → Outcome (Unit {0}) → Outcome B → Outcome B
m >> k = m >>= λ _. k

-- A run that may panic or run out of fuel.
abbrev pub Run : Type 0 → Type 0
Run A = Outcome (Option A)

infixl 10 ◌>=>◌
abbrev pub ◌>=>◌ : {A B : Type 0} → Run A → (A → Run B) → Run B
run >=> next = do found ← run; elim found [ none ↦ done none | some a ↦ next a ]

-- `assert!`
abbrev pub assert : Bool → Outcome (Unit {0})
assert true = done tt
assert false = panic

-- `unwrap`, `expect`, `unwrap_or_else(|| panic!(…))`
abbrev pub unwrap {ℓ} : {A : Type ℓ} → Option A → Outcome A
unwrap none = panic
unwrap (some a) = done a

pub done_inj {ℓ} : {A : Type ℓ} {a b : A} → done a ≡ done b → a ≡ b
done_inj h = cc
