-- ===== src/StableArena/Dense.antt =====
-- The dense side of `StableArena`: iteration, and writes through `get_mut` or `arena[id]`.
use mathlib.Core.List.{zip}
use jstd.Base.{
  ℕ, zero, suc, ◌≡◌, refl, ◌≢◌, inl, inr, ◌↔◌, none, some, List, [], ◌∷◌, map, ltb, lt→ltb,
  Option-cases, true, done, panic, length, get_elem?, set, length-set, get_elem?-set,
  lt-length_of_get_elem?, arith,
}
use jstd.Identifier.{Identifier, Identified}
use jstd.StableArena.{StableArena, dead, iter, live_slot, get_mut, set_entry}
use jstd.StableArena.Valid.{view, live_count-le, IsValid}
use jstd.StableArena.Remove.{live_slot_live}
use jstd.StableArena.Ledger.{Ledger, ledger, enter, Tracks, Tracks-panic, Tracks-done}
use jstd.StableArena.Ledger
use jstd.StableArena.Refine.{view-cases, ledger-eq}

abbrev pub entry : {Key T : Type 0} → Key → T → Identified Key T
entry id x = record { id = id; inner = x }

module _ {Key T : Type 0} where
  -- An item of the zipped vectors comes from the same index of both.
  zip_at :
      (ids : List Key) (values : List T) (s : ℕ) (id : Key) (x : T)
      → length ids ≡ length values
      → (get_elem? (map (λ (i, v). entry i v) (zip ids values)) s ≡ some (entry id x))
        ↔ ((get_elem? ids s ≡ some id) × (get_elem? values s ≡ some x))
  unfolding zip
  zip_at [] [] s id x h = (λ e. cc, λ (p, q). cc)
  zip_at [] (v ∷ values) s id x h = absurd (omega arith)
  zip_at (i ∷ ids) [] s id x h = absurd (omega arith)
  zip_at (i ∷ ids) (v ∷ values) zero id x h = (λ e. (cc, cc), λ (p, q). cc)
  zip_at (i ∷ ids) (v ∷ values) (suc s) id x h = zip_at ids values s id x (omega arith)

module _ {Key T : Type 0} ⦃I : Identifier Key⦄ where
  live_at :
      (a : StableArena Key T) (id : Key) (x : T)
      → IsValid a
      → view a (I.into_usize id) ≡ some x
      → (s : ℕ) × (get_elem? a.slot_ids s ≡ some id) × (get_elem? a.values s ≡ some x)
  live_at a id x v h = elim (view-cases a id v) [
    | inl (unknown, _) ↦ absurd (ground (arith, unknown, h))
    | inr (slot, y, viewed, at, live, got) ↦ (
      slot,
      ground (arith, v.named (I.into_usize id) slot at live, I.from-into id),
      ground (arith, got, viewed, h),
    )
  ]

  slot_live :
      (a : StableArena Key T) (id : Key) (x : T) (s : ℕ)
      → IsValid a
      → get_elem? a.slot_ids s ≡ some id
      → get_elem? a.values s ≡ some x
      → view a (I.into_usize id) ≡ some x
  slot_live a id x s v p q =
      ground
        (arith, v.located s id p, q, lt-length_of_get_elem? a.values s q, live_count-le a.locations)

  -- Iteration over a valid arena yields an id with a payload exactly when the id is live with it.
  pub iter-view :
      (a : StableArena Key T) (id : Key) (x : T)
      → IsValid a
      → ((s : ℕ) × (get_elem? (iter a) s ≡ some (entry id x))) ↔ (view a (I.into_usize id) ≡ some x)
  unfolding iter
  iter-view a id x v = (
    λ (s, e).
        let (p, q) = (zip_at a.slot_ids a.values s id x v.parallel).0 e in slot_live a id x s v p q,
    λ h.
        let (s, p, q) = live_at a id x v h in
        (s, (zip_at a.slot_ids a.values s id x v.parallel).1 (p, q)),
  )

  module _ (a : StableArena Key T) (id : Key) (slot : ℕ) (value : T) (v : IsValid a)
      (at : get_elem? a.locations (I.into_usize id) ≡ some slot) (live : slot ≢ dead) where
    abbrev written : StableArena Key T
    written = record a { values = set a.values slot value }

    written-IsValid : IsValid written
    written-IsValid = record {
      parallel = omega (arith, v.parallel, length-set a.values slot value);
      issued_le = v.issued_le;
      counted = omega (arith, v.counted, length-set a.values slot value);
      located = v.located;
      named = v.named;
      fits = v.fits;
    }

    view-written : (r : ℕ) → view written r ≡ enter (view a) (I.into_usize id) (some value) r
    view-written r = elim (Option-cases (get_elem? a.locations r)) [
      | inl missing ↦ ground (arith, missing, at)
      | inr (t, found) ↦ ground (
        arith,
        found,
        at,
        get_elem?-set a.values slot value t,
        v.named r t found,
        v.named (I.into_usize id) slot at live,
        lt-length_of_get_elem? a.slot_ids slot {x = I.from_usize (I.into_usize id)},
        v.parallel,
        v.fits r (lt-length_of_get_elem? a.locations r found),
        I.from-into id,
      )
    ]

  set_entry_at :
      (a : StableArena Key T) (id : Key) (slot : ℕ) (value : T)
      → live_slot a id ≡ some slot
      → ltb slot (length a.values) ≡ true
      → set_entry a id value ≡ done (record a { values = set a.values slot value })
  unfolding set_entry get_mut
  set_entry_at a id slot value found inside = ground (arith, found, inside)

  set_entry_dead :
      (a : StableArena Key T) (id : Key) (value : T)
      → live_slot a id ≡ none
      → set_entry a id value ≡ panic
  unfolding set_entry get_mut
  set_entry_dead a id value gone = ground (arith, gone)

  -- On a valid arena, a write through a live id replaces its payload and no other, and the arena
  -- stays valid; through any other id it panics.
  pub set_entry_refines :
      (a : StableArena Key T) (id : Key) (value : T)
      → IsValid a
      → Tracks (set_entry a id value) (Ledger.set_entry (ledger a) (I.into_usize id) value)
  set_entry_refines a id value v = elim (view-cases a id v) [
    | inl (unknown, gone) ↦
        Tracks-panic _ _ (set_entry_dead a id value gone) (ground (arith, unknown))
    | inr (slot, x, viewed, at, live, got) ↦
        Tracks-done _ _ (written a id slot value v at live)
          (record (ledger a) { entry = enter (view a) (I.into_usize id) (some value) })
          (set_entry_at a id slot value (live_slot_live a id slot at live)
            (lt→ltb _ _ (lt-length_of_get_elem? a.values slot got)))
          (ground (arith, viewed)) (written-IsValid a id slot value v at live)
          (ledger-eq (written a id slot value v at live) _ refl
            (view-written a id slot value v at live))
  ]
