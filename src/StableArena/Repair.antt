-- ===== src/StableArena/Repair.antt =====
-- The location table after `StableArena::remove` is again the inverse of the dense ids, and every
-- other id still finds its payload.
use jstd.Base.{
  ℕ, ◌-◌, ◌≤◌, ◌<◌, ◌≡◌, ◌≢◌, inl, inr, none, some, ◌==◌, if◌then◌else◌, Option-cases, length,
  get_elem?, ge_of_get_elem?-none, get_elem?_ge, lt-length_of_get_elem?, arith,
}
use jstd.Identifier.{Identifier}
use jstd.StableArena.{StableArena, dead}
use jstd.StableArena.Valid.{view, live_count-le, IsValid}
use jstd.StableArena.Remove.{Removed}

module _ {Key T : Type 0} ⦃I : Identifier Key⦄ (a a' : StableArena Key T) (id : Key) (slot : ℕ)
    (x : T) (v : IsValid a) (found : get_elem? a.locations (I.into_usize id) ≡ some slot)
    (live : slot ≢ dead) (r : Removed a id slot x a') where
  -- A live location names its own slot.
  own_slot : (raw t : ℕ) → get_elem? a.locations raw ≡ some t → t ≡ slot → raw ≡ I.into_usize id
  own_slot raw t at e = ground (
    arith,
    v.named raw t at,
    v.named (I.into_usize id) slot found live,
    v.fits raw (lt-length_of_get_elem? a.locations raw at),
    I.from-into id,
  )

  slot_lt : slot < length a.values
  slot_lt = lt-length_of_get_elem? a.values slot r.values.removed

  short : length a.values ≤ dead
  short = omega (arith, live_count-le a.locations, v.counted, v.issued_le)

  in_range : (raw t : ℕ) → get_elem? a.locations raw ≡ some t → t ≢ dead → t < length a.values
  in_range raw t at alive =
      omega (arith, v.parallel, lt-length_of_get_elem? a.slot_ids t (v.named raw t at alive))

  pub view-Removed : (raw : ℕ) → view a' raw ≡ (if I.into_usize id == raw then none else view a raw)
  view-Removed raw = elim (Option-cases (get_elem? a.locations raw)) [
    | inl missing ↦
        let out : length a.locations ≤ raw = ge_of_get_elem?-none a.locations raw missing in
        ground (arith, missing, get_elem?_ge a'.locations raw (omega (arith, r.size)))
    | inr (t, at) ↦ ground (
      arith,
      r.locations raw t at,
      own_slot raw t at,
      in_range raw t at,
      slot_lt,
      short,
      r.values.kept slot,
      r.values.kept t,
      at,
    )
  ]

  Removed-located :
      (s : ℕ) (other : Key)
      → get_elem? a'.slot_ids s ≡ some other
      → get_elem? a'.locations (I.into_usize other) ≡ some s
  Removed-located s other h = ground (
    arith,
    h,
    r.slot_ids.kept s,
    v.parallel,
    v.located s other,
    v.located (length a.values - 1) other,
    r.locations (I.into_usize other) s,
    r.locations (I.into_usize other) (length a.values - 1),
  )

  Removed-named :
      (raw s : ℕ)
      → get_elem? a'.locations raw ≡ some s
      → s ≢ dead
      → get_elem? a'.slot_ids s ≡ some (I.from_usize raw)
  Removed-named raw s h alive = elim (Option-cases (get_elem? a.locations raw)) [
    | inl missing ↦ absurd (
        omega (
          arith,
          ge_of_get_elem?-none a.locations raw missing,
          lt-length_of_get_elem? a'.locations raw h,
          r.size,
        ))
    | inr (t, at) ↦ ground (
      arith,
      r.locations raw t at,
      own_slot raw t at,
      in_range raw t at,
      slot_lt,
      short,
      v.parallel,
      v.named raw t at,
      r.slot_ids.kept slot,
      r.slot_ids.kept t,
      h,
    )
  ]

  pub Removed-IsValid : IsValid a'
  Removed-IsValid = record {
    parallel = omega (arith, r.values.shorter, r.slot_ids.shorter, v.parallel);
    issued_le = omega (arith, r.size, v.issued_le);
    counted = omega (arith, r.live, r.values.shorter, v.counted);
    located = Removed-located;
    named = Removed-named;
    fits = λ raw h. v.fits raw (omega (arith, r.size));
  }
