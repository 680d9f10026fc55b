-- ===== src/Identifier.antt =====
-- src/registry.rs, `Identifier` and `Identified`, and derive/src/lib.rs, which implements
-- `Identifier` for a tuple struct over `usize` or `u32`.
pub mod Derive
use jstd.Base.{ℕ, ◌≤◌, ◌≡◌}

-- The trait `Identifier`: the conversions `From<usize>` and `Into<usize>`. The two laws say what
-- its documentation asks of an implementation, a light wrapper over `usize`: an id is determined
-- by its number, and the numbers that fit form an initial segment.
pub record Identifier (Key : Type 0) : Type 0 where
  pub from_usize : ℕ → Key
  pub into_usize : Key → ℕ
  pub from-into : (id : Key) → from_usize (into_usize id) ≡ id
  pub fits_below : (m n : ℕ) → m ≤ n → into_usize (from_usize n) ≡ n → into_usize (from_usize m) ≡ m

-- A value paired with its typed identifier.
pub record Identified {ℓ} (Key : Type 0) (T : Type ℓ) : Type ℓ where
  pub id : Key
  pub inner : T

-- A number taken to an id and back. Only the numbers that fit stay what they are.
abbrev pub cast : {Key : Type 0} → Identifier Key → ℕ → ℕ
cast I n = I.into_usize (I.from_usize n)
