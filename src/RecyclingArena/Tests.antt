-- ===== src/RecyclingArena/Tests.antt =====
-- Arenas of small shape, through which the theorems on `RecyclingArena` are applied.
use jstd.Base.{ℕ, ◌≡◌, refl, none, some, List, [], ◌∷◌, Outcome, done, panic}
use jstd.Identifier.{Identifier, cast}
use jstd.Identifier.Derive.{usize, derived, from_usize, into_usize}
use jstd.RecyclingArena.{RecyclingArena, live, free, empty, push, remove, reuse, extend, iter}
use jstd.RecyclingArena.Pool.{Pool, void, fill}
use jstd.RecyclingArena.Represents.{
  Represents, empty-Represents, extended-Represents, removed-Represents,
}
use jstd.RecyclingArena.Refine.{Agrees}
use jstd.RecyclingArena.Iterate.{filled, iter-filled}
use jstd.RecyclingArena.History.{
  Reply, pushes, removes, clears, issued, payload, run, step, pool_run, pool_run_refines,
}

instance abbrev usize_id : Identifier ℕ
usize_id = derived usize

-- Two payloads were pushed and the first was removed.
abbrev holed : RecyclingArena ℕ ℕ
holed = record { slots = free none ∷ live 20 ∷ []; first_free = some 0; live_len = 1 }

abbrev one_cell : Pool ℕ
one_cell = record { cells = fill void.cells 0 (some 10); free = []; next = 1 }

abbrev two_cells : Pool ℕ
two_cells = record { cells = fill one_cell.cells 1 (some 20); free = []; next = 2 }

abbrev holed_pool : Pool ℕ
holed_pool = record { cells = fill two_cells.cells 0 none; free = 0 ∷ []; next = 2 }

holed-Represents : Represents holed holed_pool
unfolding empty from_usize into_usize
holed-Represents =
    removed-Represents _ two_cells
      (extended-Represents _ one_cell (extended-Represents empty void empty-Represents 10 refl refl)
        20 refl refl)
      0 10 refl

-- The replies of a run.
abbrev replies : Outcome (RecyclingArena ℕ ℕ × List (Reply ℕ)) → Outcome (List (Reply ℕ))
replies (done (_, rs)) = done rs
replies panic = panic

run_reuses :
    replies (run empty (pushes 10 ∷ pushes 20 ∷ removes 0 ∷ pushes 30 ∷ pushes 40 ∷ []))
    ≡ done (issued 0 ∷ issued 1 ∷ payload 10 ∷ issued 0 ∷ issued 2 ∷ [])
unfolding run step push remove reuse extend empty from_usize into_usize
run_reuses = refl

iter-filled_example : iter holed ≡ filled (λ n. n) holed_pool.cells 0 2
unfolding into_usize from_usize
iter-filled_example = iter-filled holed holed_pool holed-Represents

pool_run_refines_example :
    Agrees {Key = ℕ} {T = ℕ} {B = List (Reply ℕ)}
      (λ rs. rs)
      (run empty (pushes 10 ∷ pushes 20 ∷ removes 0 ∷ pushes 30 ∷ clears ∷ []))
      (pool_run (cast usize_id) void (pushes 10 ∷ pushes 20 ∷ removes 0 ∷ pushes 30 ∷ clears ∷ []))
unfolding into_usize from_usize
pool_run_refines_example =
    pool_run_refines ℕ (pushes 10 ∷ pushes 20 ∷ removes 0 ∷ pushes 30 ∷ clears ∷ [])
