-- ===== src/Identifier/Derive.antt =====
-- derive/src/lib.rs: the code that `#[derive(Identifier)]` generates for the two backings.
pub mod Tests
use native.Mathlib.Bridge.{le_prop}
use mathlib.Core.HLevel.{Σ_prop_path}
use jstd.Base.{ℕ, ◌%◌, ◌^◌, ◌<◌, ◌≤◌, ◌≡◌, refl, ◌↔◌, arith}
use jstd.Identifier.{Identifier}

-- Which primitive integer backs an `Identifier` tuple struct.
pub data Backing : Type 0 where
  usize u32 : Backing

-- The values of the one field. A `usize` is any number here; a `u32` carries its bound.
abbrev pub Raw : Backing → Type 0
Raw usize = ℕ
Raw u32 = (n : ℕ) × (n < 2 ^ 32)

-- `value as u32` drops the high bits.
abbrev pub as_u32 : ℕ → Raw u32
as_u32 n = (n % 2 ^ 32, omega arith)

-- `From<usize>`, and the constructor `new`, which has the same body.
unfoldable pub from_usize : (b : Backing) → ℕ → Raw b
from_usize usize value = value
from_usize u32 value = as_u32 value

-- `From<Self> for usize`.
unfoldable pub into_usize : (b : Backing) → Raw b → ℕ
into_usize usize id = id
into_usize u32 id = id.0

-- `Serialize` writes the number as a `u64`.
unfoldable pub serialize : (b : Backing) → Raw b → ℕ
serialize usize id = id
serialize u32 id = id.0

-- `Deserialize` reads a `u64` and casts it to the backing.
unfoldable pub deserialize : (b : Backing) → ℕ → Raw b
deserialize usize id = id
deserialize u32 id = as_u32 id

-- The numbers that the backing can hold.
abbrev pub Fits : Backing → ℕ → Type 0
Fits usize n = Unit {0}
Fits u32 n = n < 2 ^ 32

raw_eq : (x y : Raw u32) → x.0 ≡ y.0 → x ≡ y
raw_eq x y h = Σ_prop_path (λ n. le_prop) h

pub from-into : (b : Backing) (id : Raw b) → from_usize b (into_usize b id) ≡ id
unfolding from_usize into_usize
from-into usize id = refl
from-into u32 (n, small) = raw_eq (as_u32 n) (n, small) (omega (arith, small))

-- Taking a number to an id and back loses nothing exactly when the backing can hold it.
pub into-from_iff : (b : Backing) (n : ℕ) → (into_usize b (from_usize b n) ≡ n) ↔ Fits b n
unfolding from_usize into_usize
into-from_iff usize n = (λ h. tt, λ h. refl)
into-from_iff u32 n = (λ h. omega (arith, h), λ h. omega (arith, h))

-- An id survives the conversion to `usize` and back, and the round through serde.
pub conversions_round :
    (b : Backing) (id : Raw b)
    → (from_usize b (into_usize b id) ≡ id) × (deserialize b (serialize b id) ≡ id)
unfolding serialize deserialize
conversions_round usize id = (from-into usize id, refl)
conversions_round u32 (n, small) =
    (from-into u32 (n, small), raw_eq (as_u32 n) (n, small) (omega (arith, small)))

pub fits-below :
    (b : Backing) (m n : ℕ)
    → m ≤ n
    → into_usize b (from_usize b n) ≡ n
    → into_usize b (from_usize b m) ≡ m
unfolding from_usize into_usize
fits-below usize m n le h = refl
fits-below u32 m n le h = omega (arith, le, h)

-- The derived types are identifiers.
abbrev pub derived : (b : Backing) → Identifier (Raw b)
derived b = record {
  from_usize = from_usize b;
  into_usize = into_usize b;
  from-into = from-into b;
  fits_below = fits-below b;
}
