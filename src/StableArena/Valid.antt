-- ===== src/StableArena/Valid.antt =====
-- The representation invariant of `StableArena`, and that every operation keeps it.
use jstd.Base.{
  ℕ, zero, suc, ◌+◌, ◌≤◌, ◌<◌, ◌≡◌, refl, ◌≢◌, Option, none, some, List, [], ◌∷◌, ◌++◌, ◌==◌,
  if◌then◌else◌, done, length, get_elem?, set, length-append, get_elem?-concat,
  lt-length_of_get_elem?, arith,
}
use jstd.Identifier.{Identifier}
use jstd.StableArena.{StableArena, dead, empty, push}

-- The locations that name a slot.
abbrev pub live_count : List ℕ → ℕ
live_count [] = 0
live_count (slot ∷ rest) = (if slot == dead then 0 else 1) + live_count rest

pub live_count-le : (ls : List ℕ) → live_count ls ≤ length ls
live_count-le [] = omega arith
live_count-le (slot ∷ rest) = ground (arith, live_count-le rest)

pub live_count-concat :
    (ls : List ℕ) (slot : ℕ)
    → live_count (ls ++ slot ∷ []) ≡ live_count ls + (if slot == dead then 0 else 1)
live_count-concat [] slot = omega arith
live_count-concat (s ∷ rest) slot = omega (arith, live_count-concat rest slot)

pub live_count-set :
    (ls : List ℕ) (i old new : ℕ)
    → get_elem? ls i ≡ some old
    → live_count (set ls i new) + (if old == dead then 0 else 1)
      ≡ live_count ls + (if new == dead then 0 else 1)
live_count-set [] i old new h = cc
live_count-set (s ∷ rest) zero old new h = ground arith
live_count-set (s ∷ rest) (suc i) old new h = omega (arith, live_count-set rest i old new h)

module _ {ℓ} {Key : Type 0} {T : Type ℓ} where
  -- The payload of a raw id, as the three vectors give it.
  abbrev pub view : StableArena Key T → ℕ → Option T
  view a raw = elim (get_elem? a.locations raw) [
    | none ↦ none
    | some slot ↦ if slot == dead then none else get_elem? a.values slot
  ]

module _ {ℓ} {Key : Type 0} {T : Type ℓ} ⦃I : Identifier Key⦄ where
  -- The dense vectors run in parallel, `locations` and `slot_ids` are inverse to each other on the
  -- live ids, and every issued number fits its identifier.
  pub record IsValid (a : StableArena Key T) : Type 0 where
    pub parallel : length a.slot_ids ≡ length a.values
    pub issued_le : length a.locations ≤ dead
    pub counted : live_count a.locations ≡ length a.values
    pub located :
        (slot : ℕ) (id : Key)
        → get_elem? a.slot_ids slot ≡ some id
        → get_elem? a.locations (I.into_usize id) ≡ some slot
    pub named :
        (raw slot : ℕ)
        → get_elem? a.locations raw ≡ some slot
        → slot ≢ dead
        → get_elem? a.slot_ids slot ≡ some (I.from_usize raw)
    pub fits : (raw : ℕ) → raw < length a.locations → I.into_usize (I.from_usize raw) ≡ raw

  pub empty-IsValid : IsValid (empty {T = T})
  unfolding empty
  empty-IsValid = record {
    parallel = refl;
    issued_le = omega arith;
    counted = refl;
    located = λ slot id h. cc;
    named = λ raw slot h live. cc;
    fits = λ raw h. absurd (omega arith);
  }

  -- The new arena of a push that succeeds.
  abbrev pub pushed : StableArena Key T → T → StableArena Key T
  pushed a value = record {
    values = a.values ++ value ∷ [];
    slot_ids = a.slot_ids ++ I.from_usize (length a.locations) ∷ [];
    locations = a.locations ++ length a.values ∷ [];
  }

  pub push_done :
      (a : StableArena Key T) (value : T)
      → IsValid a
      → length a.locations < dead
      → I.into_usize (I.from_usize (length a.locations)) ≡ length a.locations
      → push a value ≡ done (pushed a value, I.from_usize (length a.locations))
  unfolding push
  push_done a value v room fit = ground (arith, live_count-le a.locations)

  pub pushed-IsValid :
      (a : StableArena Key T) (value : T)
      → IsValid a
      → length a.locations < dead
      → I.into_usize (I.from_usize (length a.locations)) ≡ length a.locations
      → IsValid (pushed a value)
  pushed-IsValid a value v room fit = record {
    parallel =
        omega (arith, length-append a.values (value ∷ []), length-append a.slot_ids (new ∷ []));
    issued_le = omega (arith, length-append a.locations (length a.values ∷ []));
    counted = ground (
      arith,
      live_count-concat a.locations (length a.values),
      length-append a.values (value ∷ []),
      live_count-le a.locations,
    );
    located = λ slot id h. ground (
      arith,
      get_elem?-concat a.slot_ids new slot,
      get_elem?-concat a.locations (length a.values) (I.into_usize id),
      v.located slot id,
      lt-length_of_get_elem? a.locations (I.into_usize id) {x = slot},
    );
    named = λ raw slot h live. ground (
      arith,
      get_elem?-concat a.slot_ids new slot,
      get_elem?-concat a.locations (length a.values) raw,
      v.named raw slot,
      lt-length_of_get_elem? a.slot_ids slot {x = I.from_usize raw},
    );
    fits = λ raw h. ground (arith, v.fits raw, length-append a.locations (length a.values ∷ []));
  }
    where
      new : Key
      new = I.from_usize (length a.locations)
