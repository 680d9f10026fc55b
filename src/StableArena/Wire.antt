-- ===== src/StableArena/Wire.antt =====
-- The `Serialize` and `Deserialize` implementations of `StableArena`. The wire value is what the
-- two implementations hand to serde and get from it; the encoding below it is serde's.
pub mod Load
pub mod Sound
pub mod RoundTrip
use mathlib.Core.List.{zip}
use jstd.Base.{
  ℕ, ◌+◌, ◌-◌, ◌≡◌, Bool, not, ◌&&◌, none, some, List, [], ◌∷◌, ◌++◌, map, ltb, leb, ◌==◌,
  if◌then◌else◌, length, get_elem?, set, replicate,
}
use jstd.Identifier.{Identifier}
use jstd.StableArena.{StableArena, dead}

pub record StableArenaWire {ℓ} (T : Type ℓ) : Type ℓ where
  pub next_id : ℕ
  pub entries : List (ℕ × T)

-- The five refusals of `deserialize`.
pub data DecodeError : Type 0 where
  next_id_exhausts : DecodeError
  next_id_exceeds live_id_outside id_does_not_fit duplicate_live_id : ℕ → DecodeError

pub data Decoded {ℓ} (A : Type ℓ) : Type ℓ where
  ok : A → Decoded A
  err : DecodeError → Decoded A
  panic : Decoded A

module _ {ℓ} {Key : Type 0} {T : Type ℓ} ⦃I : Identifier Key⦄ where
  unfoldable pub serialize : StableArena Key T → StableArenaWire T
  serialize a = record {
    next_id = length a.locations;
    entries = zip (map I.into_usize a.slot_ids) a.values;
  }

  -- The arena after an entry that passed the checks.
  abbrev pub placed : StableArena Key T → ℕ → T → StableArena Key T
  placed arena raw value = record {
    values = arena.values ++ value ∷ [];
    slot_ids = arena.slot_ids ++ I.from_usize raw ∷ [];
    locations = set arena.locations raw (length arena.values);
  }

  -- The loop over the entries.
  unfoldable pub load : ℕ → StableArena Key T → List (ℕ × T) → Decoded (StableArena Key T)
  load next_id arena [] = ok arena
  load next_id arena ((raw, value) ∷ rest) =
      let loaded = load next_id (placed arena raw value) rest in
      if leb next_id raw
      then err (live_id_outside raw)
      else if not (I.into_usize (I.from_usize raw) == raw)
      then err (id_does_not_fit raw)
      else elim (get_elem? arena.locations raw) [
        | none ↦ panic
        | some location ↦ if not (location == dead) then err (duplicate_live_id raw) else loaded
      ]

  -- `next_id.checked_sub(1)` is `None` at 0, where nothing is checked.
  unfoldable pub deserialize : StableArenaWire T → Decoded (StableArena Key T)
  deserialize w =
      if w.next_id == dead
      then err next_id_exhausts
      else if ltb 0 w.next_id && not (I.into_usize (I.from_usize (w.next_id - 1)) == w.next_id - 1)
      then err (next_id_exceeds w.next_id)
      else load w.next_id
          (record { values = []; slot_ids = []; locations = replicate w.next_id dead }) w.entries
