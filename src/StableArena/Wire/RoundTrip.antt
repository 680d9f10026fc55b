-- ===== src/StableArena/Wire/RoundTrip.antt =====
-- What `serialize` writes is read back.
use mathlib.Core.List.{zip, append_assoc, append-nil}
use jstd.Base.{
  ℕ, ◌-◌, ◌<◌, ◌≡◌, refl, ap, ◌∙◌, inl, inr, some, List, [], ◌∷◌, ◌++◌, map, ltb, if◌then◌else◌,
  Option-cases, length, get_elem?, List-ext, length-append, length-set, length-replicate,
  get_elem?-set, get_elem?-replicate, get_elem?-middle, get_elem?_ge, ge_of_get_elem?-none, sym,
  lt-length_of_get_elem?, arith,
}
use jstd.Identifier.{Identifier}
use jstd.StableArena.{StableArena, dead}
use jstd.StableArena.Valid.{live_count-le, IsValid}
use jstd.StableArena.Wire.{ok, serialize, placed, load, deserialize}
use jstd.StableArena.Wire.Sound.{blank}

module _ {Key T : Type 0} ⦃I : Identifier Key⦄ where
  -- The state of the loop when the entries of `ids` and `values` are still to come.
  record Loading (a s : StableArena Key T) (ids : List Key) (values : List T) : Type 0 where
    dense_ids : s.slot_ids ++ ids ≡ a.slot_ids
    dense_values : s.values ++ values ≡ a.values
    parallel : length s.slot_ids ≡ length s.values
    size : length s.locations ≡ length a.locations
    found :
        (r t : ℕ)
        → get_elem? a.locations r ≡ some t
        → get_elem? s.locations r ≡ some (if ltb t (length s.values) then t else dead)

  load_step :
      (n : ℕ) (s : StableArena Key T) (raw : ℕ) (value : T) (rest : List (ℕ × T))
      → raw < n
      → I.into_usize (I.from_usize raw) ≡ raw
      → get_elem? s.locations raw ≡ some dead
      → load n s ((raw, value) ∷ rest) ≡ load n (placed s raw value) rest
  unfolding load
  load_step n s raw value rest inside fits free = ground arith

  module _ (a s : StableArena Key T) (v : IsValid a) where
    -- At the end of the list the loop has rebuilt all three vectors.
    Loading-done : Loading a s [] [] → s ≡ a
    Loading-done l =
        let ids : s.slot_ids ≡ a.slot_ids = sym (append-nil _) ∙ l.dense_ids in
        let values : s.values ≡ a.values = sym (append-nil _) ∙ l.dense_values in
        let locations : s.locations ≡ a.locations =
          List-ext s.locations a.locations (λ r. same r (ap length values) l) in
        λ i. record { values = values i; slot_ids = ids i; locations = locations i }
      where
        same :
            (r : ℕ)
            → length s.values ≡ length a.values
            → Loading a s [] []
            → get_elem? s.locations r ≡ get_elem? a.locations r
        same r n l = elim (Option-cases (get_elem? a.locations r)) [
          | inl missing ↦ rw missing (
              get_elem?_ge s.locations r
                (omega (arith, l.size, ge_of_get_elem?-none a.locations r missing)))
          | inr (t, at) ↦ ground (
            arith,
            l.found r t at,
            at,
            n,
            v.named r t at,
            v.parallel,
            lt-length_of_get_elem? a.slot_ids t {x = I.from_usize r},
          )
        ]

    module _ (id : Key) (ids : List Key) (x : T) (values : List T)
        (l : Loading a s (id ∷ ids) (x ∷ values)) where
      next_id : get_elem? a.slot_ids (length s.values) ≡ some id
      next_id = rw (← l.dense_ids, ← l.parallel) (get_elem?-middle s.slot_ids id ids)

      next_at : get_elem? a.locations (I.into_usize id) ≡ some (length s.values)
      next_at = v.located (length s.values) id next_id

      next_free : get_elem? s.locations (I.into_usize id) ≡ some dead
      next_free = ground (arith, l.found (I.into_usize id) (length s.values) next_at)

      Loading-placed : Loading a (placed s (I.into_usize id) x) ids values
      Loading-placed = record {
        dense_ids = rw (I.from-into id) (append_assoc s.slot_ids (id ∷ []) ids ∙ l.dense_ids);
        dense_values = append_assoc s.values (x ∷ []) values ∙ l.dense_values;
        parallel = omega (
          arith,
          l.parallel,
          length-append s.values (x ∷ []),
          length-append s.slot_ids (I.from_usize (I.into_usize id) ∷ []),
        );
        size = length-set s.locations (I.into_usize id) (length s.values) ∙ l.size;
        found = λ r t at. ground (
          arith,
          at,
          next_at,
          next_id,
          l.found r t at,
          get_elem?-set s.locations (I.into_usize id) (length s.values) r
              (lt-length_of_get_elem? s.locations (I.into_usize id) next_free),
          length-append s.values (x ∷ []),
          v.named r t at,
          v.fits r (lt-length_of_get_elem? a.locations r at),
          lt-length_of_get_elem? a.slot_ids (length s.values) next_id,
          v.parallel,
          live_count-le a.locations,
        );
      }

  load_complete :
      (a s : StableArena Key T) (ids : List Key) (values : List T)
      → IsValid a
      → Loading a s ids values
      → load (length a.locations) s (zip (map I.into_usize ids) values) ≡ ok a
  unfolding load zip
  load_complete a s [] [] v l = ap ok (Loading-done a s v l)
  load_complete a s [] (x ∷ values) v l = absurd (
      omega (
        arith,
        l.parallel,
        v.parallel,
        ap length l.dense_ids,
        ap length l.dense_values,
        length-append s.slot_ids [],
        length-append s.values (x ∷ values),
      ))
  load_complete a s (id ∷ ids) [] v l = absurd (
      omega (
        arith,
        l.parallel,
        v.parallel,
        ap length l.dense_ids,
        ap length l.dense_values,
        length-append s.slot_ids (id ∷ ids),
        length-append s.values [],
      ))
  load_complete a s (id ∷ ids) (x ∷ values) v l =
      let at = next_at a s v id ids x values l in
      let inside = lt-length_of_get_elem? a.locations (I.into_usize id) at in
      load_step (length a.locations) s (I.into_usize id) x (zip (map I.into_usize ids) values)
        inside (v.fits (I.into_usize id) inside) (next_free a s v id ids x values l)
      ∙ load_complete a (placed s (I.into_usize id) x) ids values v
          (Loading-placed a s v id ids x values l)

  started :
      (a : StableArena Key T)
      → IsValid a
      → Loading a (blank (length a.locations)) a.slot_ids a.values
  started a v = record {
    dense_ids = refl;
    dense_values = refl;
    parallel = refl;
    size = length-replicate (length a.locations) dead;
    found = λ r t at. ground (
      arith,
      get_elem?-replicate (length a.locations) dead r,
      lt-length_of_get_elem? a.locations r at,
    );
  }

  fits_last :
      (a : StableArena Key T)
      → IsValid a
      → 0 < length a.locations
      → I.into_usize (I.from_usize (length a.locations - 1)) ≡ length a.locations - 1
  fits_last a v h = v.fits (length a.locations - 1) (omega arith)

  -- A valid arena that has issued fewer than `dead` ids is read back from its own wire value
  -- exactly: the same payloads and ids in the same dense order, and the same locations.
  pub deserialize-serialize :
      (a : StableArena Key T)
      → IsValid a
      → length a.locations < dead
      → deserialize (serialize a) ≡ ok a
  unfolding deserialize serialize
  deserialize-serialize a v room =
      ground
        (arith, fits_last a v, load_complete a (blank (length a.locations)) _ _ v (started a v))
