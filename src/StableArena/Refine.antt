-- ===== src/StableArena/Refine.antt =====
-- Every operation of a valid `StableArena` does what the ledger does, panics included.
use jstd.Base.{
  ℕ, ◌+◌, ◌<◌, ◌≡◌, refl, ◌≢◌, ◌⊎◌, inl, inr, none, some, ltb, ◌==◌, Bool-cases, Option-cases,
  Outcome, done, panic, length, length-append, get_elem?, get_elem?_lt, get_elem?-concat,
  lt-length_of_get_elem?, ge_of_get_elem?-none, arith, [], ◌∷◌, ◌&&◌, false,
}
use jstd.Identifier.{Identifier}
use jstd.StableArena.{StableArena, dead, push, remove, live_slot, get}
use jstd.StableArena.Valid.{view, live_count-le, IsValid, pushed, push_done, pushed-IsValid}
use jstd.StableArena.Remove.{remove_lem, live_slot_live}
use jstd.StableArena.Repair.{view-Removed, Removed-IsValid}
use jstd.StableArena.Ledger.{Ledger, ledger, Agrees, enter}
use jstd.StableArena.Ledger

module _ {Key T : Type 0} ⦃I : Identifier Key⦄ where
  -- A live raw id has a slot; a dead or unknown one has none.
  pub view-cases :
      (a : StableArena Key T) (id : Key)
      → IsValid a
      → ((view a (I.into_usize id) ≡ none) × (live_slot a id ≡ none))
        ⊎ ((slot : ℕ) × (x : T) × (view a (I.into_usize id) ≡ some x)
            × (get_elem? a.locations (I.into_usize id) ≡ some slot)
            × (slot ≢ dead)
            × (get_elem? a.values slot ≡ some x))
  unfolding live_slot
  view-cases a id v = elim (Option-cases (get_elem? a.locations (I.into_usize id))) [
    | inl missing ↦ inl (ground arith)
    | inr (slot, at) ↦ elim (Bool-cases (slot == dead)) [
      | inl gone ↦ inl (ground arith)
      | inr kept ↦
          let live : slot ≢ dead = ground arith in
          let (x, got) = get_elem?_lt a.values slot (
            omega (
              arith,
              v.parallel,
              lt-length_of_get_elem? a.slot_ids slot (v.named (I.into_usize id) slot at live),
            )) in
          inr (slot, x, ground (arith, at, got), at, live, got)
    ]
  ]

  pub ledger-eq :
      (a : StableArena Key T) (l : Ledger T)
      → length a.locations ≡ l.issued
      → ((r : ℕ) → view a r ≡ l.entry r)
      → ledger a ≡ l
  ledger-eq a l n h = λ i. record { issued = n i; entry = λ r. h r i }

  Agrees-panic :
      {B C : Type 0} (f : B → C) (m : Outcome (StableArena Key T × B)) (n : Outcome (Ledger T × C))
      → m ≡ panic
      → n ≡ panic
      → Agrees f m n
  Agrees-panic f m n p q = rw (p, q) tt

  Agrees-done :
      {B C : Type 0} (f : B → C) (m : Outcome (StableArena Key T × B)) (n : Outcome (Ledger T × C))
      (a : StableArena Key T) (b : B) (l : Ledger T) (c : C)
      → m ≡ done (a, b)
      → n ≡ done (l, c)
      → IsValid a
      → ledger a ≡ l
      → f b ≡ c
      → Agrees f m n
  Agrees-done f m n a b l c p q v e h = rw (p, q) (v, e, h)

  remove_dead : (a : StableArena Key T) (id : Key) → live_slot a id ≡ none → remove a id ≡ panic
  unfolding remove
  remove_dead a id h = rw h

  -- On a valid arena, removing through a live id returns its payload and takes it out of the
  -- ledger and nothing else, and the arena stays valid; through any other id it panics.
  pub remove_refines :
      (a : StableArena Key T) (id : Key)
      → IsValid a
      → Agrees (λ x. x) (remove a id) (Ledger.remove (ledger a) (I.into_usize id))
  remove_refines a id v = elim (view-cases a id v) [
    | inl (unknown, gone) ↦ Agrees-panic _ _ _ (remove_dead a id gone) (ground arith)
    | inr (slot, x, viewed, at, live, got) ↦
        let (y, a', removed, r) = remove_lem a id slot v at live in
        Agrees-done _ _ _ a' y
          (record { issued = length a.locations; entry = enter (view a) (I.into_usize id) none }) y
          removed (ground (arith, viewed, got, r.values.removed))
          (Removed-IsValid a a' id slot y v at live r)
          (ledger-eq a' _ r.size (view-Removed a a' id slot y v at live r)) refl
  ]

  push_full :
      (a : StableArena Key T) (value : T)
      → (ltb (length a.locations) dead
          && I.into_usize (I.from_usize (length a.locations)) == length a.locations)
        ≡ false
      → push a value ≡ panic
  unfolding push
  push_full a value full = ground arith

  view-pushed :
      (a : StableArena Key T) (value : T)
      → IsValid a
      → length a.locations < dead
      → (r : ℕ) → view (pushed a value) r ≡ enter (view a) (length a.locations) (some value) r
  view-pushed a value v room r = elim (Option-cases (get_elem? a.locations r)) [
    | inl missing ↦ ground (
      arith,
      missing,
      get_elem?-concat a.locations (length a.values) r,
      get_elem?-concat a.values value (length a.values),
      live_count-le a.locations,
      v.counted,
      v.issued_le,
      ge_of_get_elem?-none a.locations r missing,
    )
    | inr (slot, at) ↦ ground (
      arith,
      at,
      get_elem?-concat a.locations (length a.values) r,
      get_elem?-concat a.values value slot,
      v.named r slot at,
      v.parallel,
      lt-length_of_get_elem? a.slot_ids slot {x = I.from_usize r},
      lt-length_of_get_elem? a.locations r at,
    )
  ]

  -- On a valid arena, a push succeeds exactly when the next number is below `dead` and fits the
  -- id type: it issues that number, enters the payload under it, and the arena stays valid;
  -- otherwise it panics.
  pub push_refines :
      (a : StableArena Key T) (value : T)
      → IsValid a
      → Agrees I.into_usize
          (push a value)
          (Ledger.push (λ n. I.into_usize (I.from_usize n) == n) (ledger a) value)
  push_refines a value v =
      elim (Bool-cases (ltb raw dead && I.into_usize (I.from_usize raw) == raw)) [
        | inl room ↦
            let below : raw < dead = ground arith in
            let fit : I.into_usize (I.from_usize raw) ≡ raw = ground arith in
            Agrees-done _ _ _ (pushed a value) (I.from_usize raw)
              (record { issued = raw + 1; entry = enter (view a) raw (some value) }) raw
              (push_done a value v below fit) (ground (arith, room))
              (pushed-IsValid a value v below fit)
              (ledger-eq (pushed a value) _
                (omega (arith, length-append a.locations (length a.values ∷ [])))
                (view-pushed a value v below))
              fit
        | inr full ↦ Agrees-panic _ _ _ (push_full a value full) (ground (arith, full))
      ]
    where
      raw : ℕ
      raw = length a.locations

  -- On a valid arena, `get` finds the live payload of an id, reports every other id as absent,
  -- and never panics.
  pub get-view :
      (a : StableArena Key T) (id : Key)
      → IsValid a
      → get a id
        ≡ done (elim (view a (I.into_usize id)) [
          | none ↦ none
          | some x ↦ some (record { id = id; inner = x })
        ])
  unfolding get
  get-view a id v = elim (view-cases a id v) [
    | inl (unknown, gone) ↦ ground (arith, gone, unknown)
    | inr (slot, x, viewed, at, live, got) ↦
        ground (arith, live_slot_live a id slot at live, got, viewed)
  ]
