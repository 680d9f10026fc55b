-- ===== src/StableArena/Remove.antt =====
-- `StableArena::remove`: the payload goes, the last payload takes its slot, and the location table
-- is repaired.
use jstd.Base.{
  ℕ, ◌+◌, ◌-◌, ◌≤◌, ◌<◌, ◌≡◌, ◌≢◌, some, List, ltb, ◌==◌, if◌then◌else◌, Bool-cases, inl, inr,
  ltb→lt, lt→ltb, done, length, get_elem?, set, swap_remove, SwapRemoved, swap_remove_lem,
  length-set, get_elem?-set, get_elem?_lt, lt-length_of_get_elem?, arith,
}
use jstd.Identifier.{Identifier}
use jstd.StableArena.{StableArena, dead, live_slot, relocate, remove}
use jstd.StableArena.Valid.{live_count, live_count-le, live_count-set, IsValid}

module _ {ℓ} {Key : Type 0} {T : Type ℓ} ⦃I : Identifier Key⦄ where
  -- What `remove` leaves, in terms of what it found.
  pub record Removed (a : StableArena Key T) (id : Key) (slot : ℕ) (x : T) (a' : StableArena Key T)
      : Type ℓ where
    pub values : SwapRemoved a.values slot x a'.values
    pub slot_ids : SwapRemoved a.slot_ids slot id a'.slot_ids
    pub size : length a'.locations ≡ length a.locations
    pub live : live_count a'.locations + 1 ≡ live_count a.locations
    pub locations :
        (r t : ℕ)
        → get_elem? a.locations r ≡ some t
        → get_elem? a'.locations r ≡ (
            if I.into_usize id == r
            then some dead
            else if t == length a.values - 1
            then some slot
            else some t)

  module _ (a : StableArena Key T) (v : IsValid a) (id : Key) (slot : ℕ) (x : T) where
    module _ (values : List T) (slot_ids : List Key)
        (found : get_elem? a.locations (I.into_usize id) ≡ some slot) (live : slot ≢ dead)
        (sv : SwapRemoved a.values slot x values)
        (si : SwapRemoved a.slot_ids slot id slot_ids) where
      abbrev cleared : List ℕ
      cleared = set a.locations (I.into_usize id) dead

      abbrev vacated : StableArena Key T
      vacated = record { values = values; slot_ids = slot_ids; locations = cleared }

      live_count-cleared : live_count cleared + 1 ≡ live_count a.locations
      live_count-cleared =
          ground (arith, live_count-set a.locations (I.into_usize id) slot dead found)

      -- An issued location that names the last slot belongs to the last id.
      last_unique :
          (last : Key) (r t : ℕ)
          → get_elem? a.slot_ids (length a.values - 1) ≡ some last
          → get_elem? a.locations r ≡ some t
          → t ≡ length a.values - 1
          → t ≢ dead
          → r ≡ I.into_usize last
      last_unique last r t end at e alive =
          ground
            (arith, v.named r t at alive, v.fits r, lt-length_of_get_elem? a.locations r {x = t})

      -- Fewer payloads than the sentinel.
      short : length a.values ≤ dead
      short = omega (arith, live_count-le a.locations, v.counted, v.issued_le)

      id_lt : I.into_usize id < length a.locations
      id_lt = lt-length_of_get_elem? a.locations (I.into_usize id) found

      -- Nothing moves when the removed payload was the last.
      relocate_last :
          length values ≤ slot
          → (relocate vacated slot ≡ done vacated) × Removed a id slot x vacated
      unfolding relocate
      relocate_last h = (
        ground arith,
        record {
          values = sv;
          slot_ids = si;
          size = length-set a.locations (I.into_usize id) dead;
          live = live_count-cleared;
          locations = λ r t at. ground (
            arith,
            get_elem?-set a.locations (I.into_usize id) dead r id_lt,
            last_unique id r t,
            sv.shorter,
            si.removed,
            lt-length_of_get_elem? a.values slot sv.removed,
          );
        },
      )

      module _ (last : Key) (h : slot < length values)
          (end : get_elem? a.slot_ids (length a.values - 1) ≡ some last) where
        last_found : get_elem? a.locations (I.into_usize last) ≡ some (length a.values - 1)
        last_found = v.located (length a.values - 1) last end

        last_lt : I.into_usize last < length cleared
        last_lt = omega (
          arith,
          lt-length_of_get_elem? a.locations (I.into_usize last) last_found,
          length-set a.locations (I.into_usize id) dead,
        )

        last_ne : I.into_usize id ≢ I.into_usize last
        last_ne = λ e. ground (arith, sv.shorter, last_found, found)

        last_cleared : get_elem? cleared (I.into_usize last) ≡ some (length a.values - 1)
        last_cleared = ground (
          arith,
          get_elem?-set a.locations (I.into_usize id) dead (I.into_usize last) id_lt,
          last_ne,
          last_found,
        )

        abbrev repaired : StableArena Key T
        repaired = record vacated { locations = set cleared (I.into_usize last) slot }

        -- The last id is sent to the slot that its payload took.
        relocate_moved : (relocate vacated slot ≡ done repaired) × Removed a id slot x repaired
        unfolding relocate
        relocate_moved = (
          ground (arith, si.kept slot, si.shorter, sv.shorter, v.parallel, last_lt, end),
          record {
            values = sv;
            slot_ids = si;
            size = omega (
              arith,
              length-set cleared (I.into_usize last) slot,
              length-set a.locations (I.into_usize id) dead,
            );
            live = ground (
              arith,
              live_count-set cleared (I.into_usize last) (length a.values - 1) slot last_cleared,
              live_count-cleared,
              short,
              sv.shorter,
            );
            locations = λ r t at. ground (
              arith,
              get_elem?-set cleared (I.into_usize last) slot r last_lt,
              get_elem?-set a.locations (I.into_usize id) dead r id_lt,
              last_unique last r t end at,
              last_ne,
              last_found,
              short,
              sv.shorter,
            );
          },
        )

      relocated :
          (a' : StableArena Key T) × (relocate vacated slot ≡ done a') × Removed a id slot x a'
      relocated = elim (Bool-cases (ltb slot (length values))) [
        | inl h ↦
            let h' = ltb→lt slot (length values) h in
            let (last, end) =
              get_elem?_lt a.slot_ids (length a.values - 1)
                (omega (arith, sv.shorter, v.parallel)) in
            let (done_, removed) = relocate_moved last h' end in
            (repaired last h' end, done_, removed)
        | inr h ↦ let (done_, removed) = relocate_last (ground arith) in (vacated, done_, removed)
      ]

  pub live_slot_live :
      (a : StableArena Key T) (id : Key) (slot : ℕ)
      → get_elem? a.locations (I.into_usize id) ≡ some slot
      → slot ≢ dead
      → live_slot a id ≡ some slot
  unfolding live_slot
  live_slot_live a id slot found live = ground arith

  remove_steps :
      (a : StableArena Key T) (id : Key) (slot : ℕ) (x : T) (values : List T) (slot_ids : List Key)
      (a' : StableArena Key T)
      → get_elem? a.locations (I.into_usize id) ≡ some slot
      → slot ≢ dead
      → swap_remove a.values slot ≡ done (x, values)
      → swap_remove a.slot_ids slot ≡ done (id, slot_ids)
      → relocate
          (record {
            values = values;
            slot_ids = slot_ids;
            locations = set a.locations (I.into_usize id) dead;
          })
          slot
        ≡ done a'
      → remove a id ≡ done (a', x)
  unfolding remove
  remove_steps a id slot x values slot_ids a' found live ev ei moved = rw (
    live_slot_live a id slot found live,
    lt→ltb _ _ (lt-length_of_get_elem? a.locations (I.into_usize id) found),
    ev,
    ei,
    moved,
  )

  -- A live id is removed, with the effect that `Removed` states.
  pub remove_lem :
      (a : StableArena Key T) (id : Key) (slot : ℕ)
      → IsValid a
      → get_elem? a.locations (I.into_usize id) ≡ some slot
      → slot ≢ dead
      → (x : T) × (a' : StableArena Key T) × (remove a id ≡ done (a', x)) × Removed a id slot x a'
  remove_lem a id slot v found live =
      let named = rw (I.from-into id) at (v.named (I.into_usize id) slot found live) in
      let (x, got) =
        get_elem?_lt a.values slot
          (omega (arith, v.parallel, lt-length_of_get_elem? a.slot_ids slot named)) in
      let (values, ev, sv) = swap_remove_lem a.values slot x got in
      let (slot_ids, ei, si) = swap_remove_lem a.slot_ids slot id named in
      let (a', moved, removed) = relocated a v id slot x values slot_ids found live sv si in
      (x, a', remove_steps a id slot x values slot_ids a' found live ev ei moved, removed)
