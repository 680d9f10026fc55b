-- ===== src/RecyclingArena.antt =====
-- src/recycling_arena.rs: slab storage whose removed slots are linked into an intrusive free list
-- and reused, the last removed first. `panic` is a failed assertion, an index out of range or an
-- `unreachable!`. Capacities are not modelled, so `shrink_to_fit` has no counterpart.
pub mod Pool
pub mod FreeList
pub mod Represents
pub mod Refine
pub mod History
pub mod Iterate
pub mod Write
pub mod Tests
use jstd.Base.{
  ℕ, zero, suc, ◌+◌, ◌-◌, Bool, true, false, Option, none, some, List, [], ◌∷◌, ◌++◌, ◌==◌, Outcome,
  done, panic, ◌>>=◌, ◌>>◌, assert, unwrap, length, get_elem?, index, set, set_at,
}
use jstd.Identifier.{Identifier, Identified}

-- One physical slot.
pub data Slot {ℓ} (Key : Type 0) (T : Type ℓ) : Type ℓ where
  live : T → Slot Key T
  free : Option Key → Slot Key T

pub record RecyclingArena {ℓ} (Key : Type 0) (T : Type ℓ) : Type ℓ where
  pub slots : List (Slot Key T)
  pub first_free : Option Key
  pub live_len : ℕ

module _ {ℓ} {Key : Type 0} {T : Type ℓ} where
  pub empty : RecyclingArena Key T
  empty = record { slots = []; first_free = none; live_len = 0 }

  pub len : RecyclingArena Key T → ℕ
  len a = a.live_len

  pub is_empty : RecyclingArena Key T → Bool
  is_empty a = a.live_len == 0

  pub clear : RecyclingArena Key T → RecyclingArena Key T
  clear a = record { slots = []; first_free = none; live_len = 0 }

module _ {ℓ} {Key : Type 0} {T : Type ℓ} ⦃I : Identifier Key⦄ where
  -- The head of the free list is taken off, and its slot is filled.
  pub reuse : RecyclingArena Key T → Key → T → Outcome (RecyclingArena Key T × Key)
  reuse a id value = do
    slot ← index a.slots (I.into_usize id)
    elim slot [
      | live _ ↦ panic
      | free next ↦ done (
        record {
          slots = set a.slots (I.into_usize id) (live value);
          first_free = next;
          live_len = a.live_len + 1;
        },
        id,
      )
    ]

  -- With no free slot a new one is added at the end.
  pub extend : RecyclingArena Key T → T → Outcome (RecyclingArena Key T × Key)
  extend a value = do
    let raw = length a.slots
    let id = I.from_usize raw
    assert (I.into_usize id == raw)
    done (record a { slots = a.slots ++ live value ∷ []; live_len = a.live_len + 1 }, id)

  pub push : RecyclingArena Key T → T → Outcome (RecyclingArena Key T × Key)
  push a value = elim a.first_free [ none ↦ extend a value | some id ↦ reuse a id value ]

  pub remove : RecyclingArena Key T → Key → Outcome (RecyclingArena Key T × T)
  remove a id = do
    slot ← index a.slots (I.into_usize id)
    elim slot [
      | free _ ↦ panic
      | live value ↦ done (
        record {
          slots = set a.slots (I.into_usize id) (free a.first_free);
          first_free = some id;
          live_len = a.live_len - 1;
        },
        value,
      )
    ]

  pub contains : RecyclingArena Key T → Key → Bool
  contains a id = elim (get_elem? a.slots (I.into_usize id)) [ some (live _) ↦ true | _ ↦ false ]

  pub get : RecyclingArena Key T → Key → Option (Identified Key T)
  get a id = elim (get_elem? a.slots (I.into_usize id)) [
    | some (live value) ↦ some (record { id = id; inner = value })
    | _ ↦ none
  ]

  -- A write through the reference that `get_mut` returns, `none` if there is no reference.
  pub get_mut : RecyclingArena Key T → Key → T → Option (RecyclingArena Key T)
  get_mut a id value = elim (get_elem? a.slots (I.into_usize id)) [
    | some (live _) ↦ some (record a { slots = set a.slots (I.into_usize id) (live value) })
    | _ ↦ none
  ]

  -- `arena[id]`
  pub at : RecyclingArena Key T → Key → Outcome T
  at a id = do entry ← unwrap (get a id); done entry.inner

  -- `arena[id] = value`
  pub set_entry : RecyclingArena Key T → Key → T → Outcome (RecyclingArena Key T)
  set_entry a id value = unwrap (get_mut a id value)

  -- The items of the slots from index `raw` on, in slot order.
  pub iter_from : ℕ → List (Slot Key T) → List (Identified Key T)
  iter_from raw [] = []
  iter_from raw (live value ∷ rest) =
      record { id = I.from_usize raw; inner = value } ∷ iter_from (raw + 1) rest
  iter_from raw (free _ ∷ rest) = iter_from (raw + 1) rest

  pub iter : RecyclingArena Key T → List (Identified Key T)
  iter a = iter_from 0 a.slots
