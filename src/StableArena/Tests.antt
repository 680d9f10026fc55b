-- ===== src/StableArena/Tests.antt =====
-- Arenas of small shape, through which the theorems on `StableArena` are applied.
use jstd.Base.{ℕ, ◌≡◌, refl, ◌↔◌, some, [], ◌∷◌, done, get_elem?, arith}
use jstd.Identifier.{Identifier, cast}
use jstd.Identifier.Derive.{usize, derived, from_usize, into_usize}
use jstd.StableArena.{StableArena, dead, empty, remove, relocate, live_slot, truncate_issued, iter}
use jstd.StableArena.Valid.{view, IsValid, empty-IsValid, pushed-IsValid}
use jstd.StableArena.Ledger.{Ledger, ledger, void, Agrees, Tracks}
use jstd.StableArena.Ledger
use jstd.StableArena.Refine.{remove_refines}
use jstd.StableArena.Truncate.{truncate_refines}
use jstd.StableArena.Dense.{entry, iter-view}
use jstd.StableArena.Wire.{StableArenaWire, serialize, deserialize, load, ok}
use jstd.StableArena.Wire.Sound.{deserialize_sound}
use jstd.StableArena.Wire.RoundTrip.{deserialize-serialize}
use jstd.StableArena.History.{pushes, removes, truncates, clears, run, ledger_run, run_refines}

instance abbrev usize_id : Identifier ℕ
usize_id = derived usize

abbrev three : StableArena ℕ ℕ
three = record { values = 10 ∷ 20 ∷ 30 ∷ []; slot_ids = 0 ∷ 1 ∷ 2 ∷ []; locations = 0 ∷ 1 ∷ 2 ∷ [] }

three-IsValid : IsValid three
unfolding empty from_usize into_usize
three-IsValid =
    pushed-IsValid _ 30
      (pushed-IsValid _ 20 (pushed-IsValid empty 10 empty-IsValid (omega arith) refl) (omega arith)
        refl)
      (omega arith) refl

-- The first payload was removed, and the last one moved into its place.
abbrev holed : StableArena ℕ ℕ
holed = record { values = 30 ∷ 20 ∷ []; slot_ids = 2 ∷ 1 ∷ []; locations = dead ∷ 1 ∷ 0 ∷ [] }

remove_moves : remove three 0 ≡ done (holed, 10)
unfolding remove relocate live_slot from_usize into_usize
remove_moves = refl

holed-IsValid : IsValid holed
unfolding remove relocate live_slot from_usize into_usize
holed-IsValid = (remove_refines three 0 three-IsValid).0

remove_refines_example : Agrees (λ x. x) (remove holed 2) (Ledger.remove (ledger holed) 2)
unfolding into_usize from_usize
remove_refines_example = remove_refines holed 2 holed-IsValid

truncate_refines_example :
    (a : StableArena ℕ ℕ) × (truncate_issued holed 2 ≡ done a)
    × IsValid a
    × (ledger a ≡ Ledger.truncate (ledger holed) 2)
unfolding into_usize from_usize
truncate_refines_example = truncate_refines holed 2 holed-IsValid

iter-view_example :
    ((s : ℕ) × (get_elem? (iter holed) s ≡ some (entry 2 30))) ↔ (view holed 2 ≡ some 30)
unfolding into_usize from_usize
iter-view_example = iter-view holed 2 30 holed-IsValid

deserialize-serialize_example : deserialize (serialize holed) ≡ ok holed
deserialize-serialize_example = deserialize-serialize holed holed-IsValid (omega arith)

abbrev holed_wire : StableArenaWire ℕ
holed_wire = record { next_id = 3; entries = (2, 30) ∷ (1, 20) ∷ [] }

deserialize_sound_example : IsValid holed × (serialize holed ≡ holed_wire)
unfolding deserialize load serialize from_usize into_usize
deserialize_sound_example = deserialize_sound holed_wire holed (omega arith) refl

run_refines_example :
    Tracks
      (run {Key = ℕ} {T = ℕ} empty
        (pushes 10 ∷ pushes 20 ∷ removes 0 ∷ truncates 1 ∷ pushes 30 ∷ clears ∷ []))
      (ledger_run
        (cast usize_id)
        void
        (pushes 10 ∷ pushes 20 ∷ removes 0 ∷ truncates 1 ∷ pushes 30 ∷ clears ∷ []))
unfolding into_usize from_usize
run_refines_example =
    run_refines ℕ (pushes 10 ∷ pushes 20 ∷ removes 0 ∷ truncates 1 ∷ pushes 30 ∷ clears ∷ [])
