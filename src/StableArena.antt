-- ===== src/StableArena.antt =====
-- src/stable_arena.rs: dense payload storage under stable identifiers that are never reused.
-- A method that mutates returns the new arena beside its result; `panic` is a failed assertion or
-- an index out of range. Capacities are not modelled, so `capacity`, `structural_bytes` and
-- `shrink_to_fit` have no counterpart, and the debug assertion of `remove` is
-- a consequence of `Valid.IsValid`.
pub mod Valid
pub mod Remove
pub mod Repair
pub mod Ledger
pub mod Refine
pub mod Truncate
pub mod Wire
pub mod History
pub mod Dense
pub mod Tests
use mathlib.Core.List.{zip}
use jstd.Base.{
  ℕ, zero, suc, ◌+◌, ◌-◌, ◌^◌, Bool, true, false, Option, none, some, List, [], ◌∷◌, ◌++◌, map, ltb,
  ◌==◌, if◌then◌else◌, Outcome, done, ◌>>=◌, ◌>>◌, assert, unwrap, length, get_elem?, index, set_at,
  swap_remove, take,
}
use jstd.Identifier.{Identifier, Identified}

-- `usize::MAX`
abbrev pub dead : ℕ
dead = 2 ^ 64 - 1

pub record StableArena {ℓ} (Key : Type 0) (T : Type ℓ) : Type ℓ where
  pub values : List T
  pub slot_ids : List Key
  pub locations : List ℕ

module _ {ℓ} {Key : Type 0} {T : Type ℓ} where
  pub empty : StableArena Key T
  empty = record { values = []; slot_ids = []; locations = [] }

  pub len : StableArena Key T → ℕ
  len a = length a.values

  pub issued_len : StableArena Key T → ℕ
  issued_len a = length a.locations

  pub is_empty : StableArena Key T → Bool
  is_empty a = length a.values == 0

  -- The vectors are emptied in place.
  pub clear : StableArena Key T → StableArena Key T
  clear a = record a { values = []; slot_ids = []; locations = [] }

  -- `iter`, `iter_mut` and `into_iter` zip the two dense vectors.
  pub iter : StableArena Key T → List (Identified Key T)
  iter a = map (λ (id, value). record { id = id; inner = value }) (zip a.slot_ids a.values)

module _ {ℓ} {Key : Type 0} {T : Type ℓ} ⦃I : Identifier Key⦄ where
  pub push : StableArena Key T → T → Outcome (StableArena Key T × Key)
  push a value = do
    let raw = length a.locations
    assert (ltb raw dead)
    let id = I.from_usize raw
    assert (I.into_usize id == raw)
    let slot = length a.values
    assert (ltb slot dead)
    done (
      record {
        values = a.values ++ value ∷ [];
        slot_ids = a.slot_ids ++ id ∷ [];
        locations = a.locations ++ slot ∷ [];
      },
      id,
    )

  pub live_slot : StableArena Key T → Key → Option ℕ
  live_slot a id = elim (get_elem? a.locations (I.into_usize id)) [
    | none ↦ none
    | some slot ↦ if slot == dead then none else some slot
  ]

  pub contains : StableArena Key T → Key → Bool
  contains a id = elim (live_slot a id) [ none ↦ false | some _ ↦ true ]

  pub get : StableArena Key T → Key → Outcome (Option (Identified Key T))
  get a id = elim (live_slot a id) [
    | none ↦ done none
    | some slot ↦ do value ← index a.values slot; done (some (record { id = id; inner = value }))
  ]

  -- A write through the reference that `get_mut` returns, `none` if there is no reference.
  pub get_mut : StableArena Key T → Key → T → Outcome (Option (StableArena Key T))
  get_mut a id value = elim (live_slot a id) [
    | none ↦ done none
    | some slot ↦ do values ← set_at a.values slot value; done (some (record a { values = values }))
  ]

  -- `arena[id]`
  pub at : StableArena Key T → Key → Outcome T
  unfolding get
  at a id = do entry ← get a id; entry ← unwrap entry; done entry.inner

  -- `arena[id] = value`
  pub set_entry : StableArena Key T → Key → T → Outcome (StableArena Key T)
  unfolding get_mut
  set_entry a id value = do written ← get_mut a id value; unwrap written

  -- The tail of `remove`: the id of the payload that moved into the slot is sent there.
  pub relocate : StableArena Key T → ℕ → Outcome (StableArena Key T)
  relocate a slot =
      if ltb slot (length a.values)
      then (do
        moved_id ← index a.slot_ids slot
        locations ← set_at a.locations (I.into_usize moved_id) slot
        done (record a { locations = locations }))
      else done a

  pub remove : StableArena Key T → Key → Outcome (StableArena Key T × T)
  remove a id = do
    slot ← unwrap (live_slot a id)
    locations ← set_at a.locations (I.into_usize id) dead
    (removed, values) ← swap_remove a.values slot
    (_, slot_ids) ← swap_remove a.slot_ids slot
    a' ← relocate (record { values = values; slot_ids = slot_ids; locations = locations }) slot
    done (a', removed)

  -- One round of the loop of `truncate_issued`.
  pub take_back : StableArena Key T → ℕ → Outcome (StableArena Key T)
  take_back a raw =
      let id = I.from_usize raw in
      if contains a id then (do (a', _) ← remove a id; done a') else done a

  -- `for raw in (issued..issued + n).rev()`
  pub take_back_range : StableArena Key T → ℕ → ℕ → Outcome (StableArena Key T)
  take_back_range a issued zero = done a
  take_back_range a issued (suc n) = do a' ← take_back a (issued + n); take_back_range a' issued n

  pub truncate_issued : StableArena Key T → ℕ → Outcome (StableArena Key T)
  truncate_issued a issued = do
    a' ← take_back_range a issued (length a.locations - issued)
    done (record a' { locations = take issued a'.locations })

  -- The loop of `from_iter`.
  pub push_all : StableArena Key T → List T → Outcome (StableArena Key T)
  push_all a [] = done a
  push_all a (value ∷ rest) = do (a', _) ← push a value; push_all a' rest

  pub from_iter : List T → Outcome (StableArena Key T)
  from_iter values = push_all empty values
