-- ===== src/StableArena/Wire/Sound.antt =====
-- What `deserialize` accepts.
use mathlib.Core.List.{zip, append_assoc, append-nil}
use jstd.Base.{
  ℕ, ◌-◌, ◌≤◌, ◌<◌, ◌≡◌, some, List, [], ◌∷◌, ◌++◌, length, get_elem?, replicate, length-set,
  length-replicate, subst, sym, arith,
}
use jstd.Identifier.{Identifier}
use jstd.StableArena.{StableArena, dead}
use jstd.StableArena.Valid.{IsValid}
use jstd.StableArena.Wire.{StableArenaWire, ok, serialize, placed, load, deserialize}
use jstd.StableArena.Wire.Load.{blank-IsValid, placed-IsValid, entries-placed}

module _ {Key T : Type 0} ⦃I : Identifier Key⦄ where
  ok_inj : {a b : StableArena Key T} → ok a ≡ ok b → a ≡ b
  ok_inj h = cc

  -- What the loop has checked when it accepts an entry.
  load-cons :
      (n : ℕ) (a b : StableArena Key T) (raw : ℕ) (value : T) (rest : List (ℕ × T))
      → load n a ((raw, value) ∷ rest) ≡ ok b
      → (raw < n)
        × (get_elem? a.locations raw ≡ some dead)
        × (load n (placed a raw value) rest ≡ ok b)
  unfolding load
  load-cons n a b raw value rest h = ground arith

  load_sound :
      (n : ℕ) (a b : StableArena Key T) (rest : List (ℕ × T))
      → n < dead
      → IsValid a
      → length a.locations ≡ n
      → load n a rest ≡ ok b
      → IsValid b
        × (length b.locations ≡ n)
        × ((serialize b).entries ≡ (serialize a).entries ++ rest)
  unfolding load
  load_sound n a b [] short v size h =
      subst
        (λ c.
          IsValid c
          × (length c.locations ≡ n)
          × ((serialize c).entries ≡ (serialize a).entries ++ []))
        (ok_inj h) (v, size, sym (append-nil _))
  load_sound n a b ((raw, value) ∷ rest) short v size h =
      let (inside, free, later) = load-cons n a b raw value rest h in
      let (valid, size', entries) =
        load_sound n (placed a raw value) b rest short
          (placed-IsValid a raw value v (omega arith) free)
          (omega (arith, length-set a.locations raw (length a.values))) later in
      (
        valid,
        size',
        rw (entries, entries-placed a raw value v (omega arith))
            (append_assoc (serialize a).entries ((raw, value) ∷ []) rest),
      )

  abbrev pub blank : ℕ → StableArena Key T
  blank n = record { values = []; slot_ids = []; locations = replicate n dead }

  -- The check of the last issued id covers all below it.
  fit :
      (w : StableArenaWire T) (a : StableArena Key T)
      → w.next_id ≤ dead
      → deserialize w ≡ ok a
      → (raw : ℕ) → raw < w.next_id
      → I.into_usize (I.from_usize raw) ≡ raw
  unfolding deserialize
  fit w a h e raw lt =
      let last : I.into_usize (I.from_usize (w.next_id - 1)) ≡ w.next_id - 1 = ground arith in
      I.fits_below raw (w.next_id - 1) (omega arith) last

  -- A wire value that is accepted, with a next id of at most `dead`, gives a valid arena that
  -- serializes to the same wire value.
  pub deserialize_sound :
      (w : StableArenaWire T) (a : StableArena Key T)
      → w.next_id ≤ dead
      → deserialize w ≡ ok a
      → IsValid a × (serialize a ≡ w)
  unfolding deserialize serialize zip
  deserialize_sound w a h e =
      let short : w.next_id < dead = ground arith in
      let started : load w.next_id (blank w.next_id) w.entries ≡ ok a = ground arith in
      let (valid, size, entries) =
        load_sound w.next_id (blank w.next_id) a w.entries short
          (blank-IsValid w.next_id h (λ raw lt. fit w a h e raw lt))
          (length-replicate w.next_id dead) started in
      (valid, λ i. record { next_id = size i; entries = entries i })
