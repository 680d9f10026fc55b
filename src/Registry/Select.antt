-- ===== src/Registry/Select.antt =====
-- `select_mut` of src/registry.rs. A mutable reference is the element that it points to, as in `iter_mut`.
pub mod Wants
pub mod Refuse
pub mod Routed
pub mod Exact
use jstd.Base.{
  ℕ, ◌+◌, Option, none, some, Bool, not, List, [], ◌∷◌, ltb, is_some, Outcome, done, panic, ◌>>=◌,
  ◌>>◌, assert, length, replicate, set, set_at, lookup, insert,
}
use jstd.Identifier.{Identifier, Identified}
use jstd.Registry.{Registry, iter}

-- `slot.expect(..)` on every slot
abbrev pub expect_all : {T : Type 0} → List (Option T) → Outcome (List T)
expect_all [] = done []
expect_all (none ∷ rest) = panic
expect_all (some item ∷ rest) = do items ← expect_all rest; done (item ∷ items)

module _ {Key : Type 0} ⦃I : Identifier Key⦄ where
  -- The loop over `ids`, from a position on.
  pub want_from : ℕ → ℕ → List Key → List (ℕ × ℕ) → Outcome (List (ℕ × ℕ))
  want_from len pos [] want = done want
  want_from len pos (id ∷ rest) want = do
    let n = I.into_usize id
    assert (ltb n len)
    assert (not (is_some (lookup n want)))
    want_from len (pos + 1) rest (insert n pos want)

module _ {Key T : Type 0} ⦃I : Identifier Key⦄ where
  -- The pass over the items.
  pub route : List (ℕ × ℕ) → List (Identified Key T) → List (Option T) → Outcome (List (Option T))
  route want [] slots = done slots
  route want (item ∷ rest) slots = elim (lookup (I.into_usize item.id) want) [
    | none ↦ route want rest slots
    | some pos ↦ do slots ← set_at slots pos (some item.inner); route want rest slots
  ]

  pub select_mut : Registry Key T → List Key → Outcome (List T)
  select_mut r ids = do
    want ← want_from r.len 0 ids []
    slots ← route want (iter r) (replicate (length ids) none)
    expect_all slots
