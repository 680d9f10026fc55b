-- ===== src/StableArena/Truncate.antt =====
-- `StableArena::truncate_issued`: the newest ids are taken back, and may be issued again.
use jstd.Base.{
  ℕ, zero, suc, ◌+◌, ◌-◌, ◌≤◌, ◌<◌, ◌≡◌, refl, ◌∙◌, ◌≢◌, inl, inr, none, some, List, [], ◌∷◌, ◌==◌,
  ==→eq, dec_lt, Bool-cases, done, length, get_elem?, take, length-take_min, get_elem?-take,
  get_elem?_lt, get_elem?_ge, lt-length_of_get_elem?, arith,
}
use jstd.Identifier.{Identifier}
use jstd.StableArena.{
  StableArena, dead, live_slot, contains, remove, take_back, take_back_range, truncate_issued,
}
use jstd.StableArena.Valid.{view, live_count, live_count-le, IsValid}
use jstd.StableArena.Remove.{remove_lem, live_slot_live}
use jstd.StableArena.Repair.{view-Removed, Removed-IsValid}
use jstd.StableArena.Ledger.{Ledger, ledger}
use jstd.StableArena.Ledger
use jstd.StableArena.Refine.{view-cases, ledger-eq}

live_count-take :
    (n : ℕ) (ls : List ℕ)
    → ((r t : ℕ) → n ≤ r → get_elem? ls r ≡ some t → t ≡ dead)
    → live_count (take n ls) ≡ live_count ls
live_count-take zero [] h = refl
live_count-take zero (s ∷ ls) h =
    ground (arith, h 0 s, live_count-take zero ls (λ r t le at. h (suc r) t (omega arith) at))
live_count-take (suc n) [] h = refl
live_count-take (suc n) (s ∷ ls) h =
    omega (arith, live_count-take n ls (λ r t le at. h (suc r) t (omega arith) at))

module _ {Key T : Type 0} ⦃I : Identifier Key⦄ where
  -- One round empties the id that it is about, and touches no other.
  record TakenBack (a : StableArena Key T) (low high : ℕ) (a' : StableArena Key T) : Type 0 where
    valid : IsValid a'
    size : length a'.locations ≡ length a.locations
    kept : (r : ℕ) → r < low → view a' r ≡ view a r
    gone : (r : ℕ) → low ≤ r → r < high → view a' r ≡ none
    above : (r : ℕ) → high ≤ r → view a' r ≡ view a r

  take_back_live :
      (a a' : StableArena Key T) (raw slot : ℕ) (x : T)
      → live_slot a (I.from_usize raw) ≡ some slot
      → remove a (I.from_usize raw) ≡ done (a', x)
      → take_back a raw ≡ done a'
  unfolding take_back contains
  take_back_live a a' raw slot x found removed = ground (arith, found, removed)

  take_back_dead :
      (a : StableArena Key T) (raw : ℕ)
      → live_slot a (I.from_usize raw) ≡ none
      → take_back a raw ≡ done a
  unfolding take_back contains
  take_back_dead a raw gone = ground (arith, gone)

  take_back_lem :
      (a : StableArena Key T) (raw : ℕ)
      → IsValid a
      → raw < length a.locations
      → (a' : StableArena Key T) × (take_back a raw ≡ done a') × TakenBack a raw (suc raw) a'
  take_back_lem a raw v h = elim (view-cases a (I.from_usize raw) v) [
    | inl (unknown, gone) ↦ (
      a,
      take_back_dead a raw gone,
      record {
        valid = v;
        size = refl;
        kept = λ r low. refl;
        gone = λ r low high. ground (arith, v.fits raw h, unknown);
        above = λ r high. refl;
      },
    )
    | inr (slot, x, viewed, at, live, got) ↦
        let (y, a', removed, r) = remove_lem a (I.from_usize raw) slot v at live in
        let change = view-Removed a a' (I.from_usize raw) slot y v at live r in
        (
          a',
          take_back_live a a' raw slot y (live_slot_live a _ slot at live) removed,
          record {
            valid = Removed-IsValid a a' (I.from_usize raw) slot y v at live r;
            size = r.size;
            kept = λ q low. ground (arith, change q, v.fits raw h);
            gone = λ q low high. ground (arith, change q, v.fits raw h);
            above = λ q high. ground (arith, change q, v.fits raw h);
          },
        )
  ]

  take_back_range_lem :
      (a : StableArena Key T) (issued n : ℕ)
      → IsValid a
      → issued + n ≤ length a.locations
      → (a' : StableArena Key T) × (take_back_range a issued n ≡ done a')
        × TakenBack a issued (issued + n) a'
  unfolding take_back_range
  take_back_range_lem a issued zero v h = (
    a,
    refl,
    record {
      valid = v;
      size = refl;
      kept = λ r low. refl;
      gone = λ r low high. absurd (omega arith);
      above = λ r high. refl;
    },
  )
  take_back_range_lem a issued (suc n) v h =
      let (b, first, s) = take_back_lem a (issued + n) v (omega arith) in
      let (c, rest, t) = take_back_range_lem b issued n s.valid (omega (arith, s.size)) in
      (
        c,
        rw (first, rest) refl,
        record {
          valid = t.valid;
          size = omega (arith, s.size, t.size);
          kept = λ r low. t.kept r low ∙ s.kept r (omega arith);
          gone = λ r low high. elim (dec_lt r (issued + n)) [
            | yes inner ↦ t.gone r low inner
            | no outer ↦ t.above r (omega arith) ∙ s.gone r (omega arith) (omega arith)
          ];
          above = λ r high. t.above r (omega arith) ∙ s.above r (omega arith);
        },
      )

  -- Cutting off locations that are all dead changes no payload.
  cut-IsValid :
      (a : StableArena Key T) (n : ℕ)
      → IsValid a
      → ((r : ℕ) → n ≤ r → view a r ≡ none)
      → IsValid (record a { locations = take n a.locations })
  cut-IsValid a n v gone = record {
    parallel = v.parallel;
    issued_le = ground (arith, length-take_min n a.locations);
    counted = live_count-take n a.locations all_dead ∙ v.counted;
    located = λ slot id h. ground (
      arith,
      get_elem?-take n a.locations (I.into_usize id),
      v.located slot id h,
      all_dead (I.into_usize id) slot,
      lt-length_of_get_elem? a.slot_ids slot h,
      live_count-le a.locations,
    );
    named = λ raw slot h live.
        v.named raw slot (ground (arith, get_elem?-take n a.locations raw, h)) live;
    fits = λ raw h. v.fits raw (ground (arith, length-take_min n a.locations, h));
  }
    where
      all_dead : (r t : ℕ) → n ≤ r → get_elem? a.locations r ≡ some t → t ≡ dead
      all_dead r t le at = elim (Bool-cases (t == dead)) [
        | inl e ↦ ==→eq t dead e
        | inr e ↦
            let live : t ≢ dead = ground arith in
            let (x, got) = get_elem?_lt a.values t (
              omega
                (arith, v.parallel, lt-length_of_get_elem? a.slot_ids t (v.named r t at live))) in
            absurd (ground (arith, gone r le, at, got))
      ]

  view_beyond : (a : StableArena Key T) (r : ℕ) → length a.locations ≤ r → view a r ≡ none
  view_beyond a r h = ground (arith, get_elem?_ge a.locations r h)

  -- The loop as a whole: every id from `issued` on is gone.
  taken_back :
      (a : StableArena Key T) (issued : ℕ)
      → IsValid a
      → (b : StableArena Key T) × (take_back_range a issued (length a.locations - issued) ≡ done b)
        × IsValid b
        × (length b.locations ≡ length a.locations)
        × ((r : ℕ) → r < issued → view b r ≡ view a r)
        × ((r : ℕ) → issued ≤ r → view b r ≡ none)
  unfolding take_back_range
  taken_back a issued v = elim (dec_lt issued (length a.locations)) [
    | yes inside ↦
        let (b, looped, t) =
          take_back_range_lem a issued (length a.locations - issued) v (omega arith) in
        (
          b,
          looped,
          t.valid,
          t.size,
          t.kept,
          λ r le. elim (dec_lt r (length a.locations)) [
            | yes low ↦ t.gone r le (omega arith)
            | no high ↦ view_beyond b r (omega (arith, t.size))
          ],
        )
    | no outside ↦
        let nothing : length a.locations - issued ≡ 0 = omega arith in
        (a, rw nothing refl, v, refl, λ r low. refl, λ r le. view_beyond a r (omega arith))
  ]

  -- On a valid arena `truncate_issued` does not panic: it forgets every id from `issued` on, live
  -- or not, keeps all payloads below, lowers the count of issued ids to `issued` if it was
  -- larger, and the arena stays valid.
  pub truncate_refines :
      (a : StableArena Key T) (issued : ℕ)
      → IsValid a
      → (a' : StableArena Key T) × (truncate_issued a issued ≡ done a')
        × IsValid a'
        × (ledger a' ≡ Ledger.truncate (ledger a) issued)
  unfolding truncate_issued
  truncate_refines a issued v =
      let (b, looped, valid, size, kept, gone) = taken_back a issued v in
      (
        record b { locations = take issued b.locations },
        rw looped,
        cut-IsValid b issued valid gone,
        ledger-eq (record b { locations = take issued b.locations })
            (Ledger.truncate (ledger a) issued)
            (ground (arith, length-take_min issued b.locations, size))
            λ r. ground (arith, get_elem?-take issued b.locations r, kept r, gone r),
      )
