-- ===== src/Intern.antt =====
-- src/intern.rs: the string pool. A `&'static str` that the pool hands out is the address of a leaked
-- string, and two of them are the same pointer if the addresses are equal. The strings are a type
-- with an exact Boolean equality. `HashSet` is a list of addresses that is searched by content.
pub mod Exact
pub mod Tests
use jstd.Base.{
  ℕ, ◌≡◌, ◌↔◌, Bool, Option, none, some, List, [], ◌∷◌, ◌++◌, length, get_elem?, if◌then◌else◌,
  true, false,
}

-- `Eq` on strings
pub record Equality (S : Type 0) : Type 0 where
  pub eq : S → S → Bool
  pub eq_exact : (x y : S) → (eq x y ≡ true) ↔ (x ≡ y)

pub record StringPool (S : Type 0) : Type 0 where
  pub leaked : List S
  pub members : List ℕ

module _ {S : Type 0} where
  pub empty : StringPool S
  empty = record { leaked = []; members = [] }

module _ {S : Type 0} ⦃E : Equality S⦄ where
  -- Whether the string at an address is `s`.
  abbrev pub holds : List S → ℕ → S → Bool
  holds leaked a s = elim (get_elem? leaked a) [ none ↦ false | some t ↦ E.eq t s ]

  -- `HashSet::get`
  pub find : List S → List ℕ → S → Option ℕ
  find leaked [] s = none
  find leaked (a ∷ rest) s = if holds leaked a s then some a else find leaked rest s

  pub intern : StringPool S → S → StringPool S × ℕ
  intern pool s = elim (find pool.leaked pool.members s) [
    | some existing ↦ (pool, existing)
    | none ↦ (
      record { leaked = pool.leaked ++ s ∷ []; members = length pool.leaked ∷ pool.members },
      length pool.leaked,
    )
  ]

  -- `Intern` for `Vec`
  pub intern_all : StringPool S → List S → StringPool S × List ℕ
  intern_all pool [] = (pool, [])
  intern_all pool (s ∷ rest) =
      let (pool', a) = intern pool s in
      let (pool'', later) = intern_all pool' rest in (pool'', a ∷ later)
