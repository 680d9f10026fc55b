-- ===== src/StableArena/History.antt =====
-- Whole histories of a `StableArena`: a client that starts with an empty arena cannot tell it from
-- a ledger.
use jstd.Base.{ℕ, refl, List, [], ◌∷◌, ◌==◌, Outcome, done, panic, ◌>>=◌}
use jstd.Identifier.{Identifier, cast}
use jstd.StableArena.{StableArena, empty, clear, push, remove, truncate_issued}
use jstd.StableArena.Valid.{IsValid, empty-IsValid}
use jstd.StableArena.Ledger.{Ledger, ledger, void, Agrees, Tracks}
use jstd.StableArena.Ledger
use jstd.StableArena.Refine.{push_refines, remove_refines}
use jstd.StableArena.Truncate.{truncate_refines}

-- The calls that change the arena. Ids are the numbers that earlier pushes returned.
pub data Call (T : Type 0) : Type 0 where
  pushes : T → Call T
  removes truncates : ℕ → Call T
  clears : Call T

-- `round` takes a number to an id of the client's type and back.
module _ {T : Type 0} (round : ℕ → ℕ) where
  -- The same call on a ledger. The id type may drop high bits of the number.
  pub ledger_step : Ledger T → Call T → Outcome (Ledger T)
  ledger_step l (pushes value) = do (l', _) ← Ledger.push (λ n. round n == n) l value; done l'
  ledger_step l (removes raw) = do (l', _) ← Ledger.remove l (round raw); done l'
  ledger_step l (truncates issued) = done (Ledger.truncate l issued)
  ledger_step l clears = done void

  pub ledger_run : Ledger T → List (Call T) → Outcome (Ledger T)
  ledger_run l [] = done l
  ledger_run l (c ∷ cs) = do l' ← ledger_step l c; ledger_run l' cs

module _ {Key T : Type 0} ⦃I : Identifier Key⦄ where
  unfoldable pub step : StableArena Key T → Call T → Outcome (StableArena Key T)
  step a (pushes value) = do (a', _) ← push a value; done a'
  step a (removes raw) = do (a', _) ← remove a (I.from_usize raw); done a'
  step a (truncates issued) = truncate_issued a issued
  step a clears = done (clear a)

  unfoldable pub run : StableArena Key T → List (Call T) → Outcome (StableArena Key T)
  run a [] = done a
  run a (c ∷ cs) = do a' ← step a c; run a' cs

  Agrees-Tracks :
      {B C : Type 0} (f : B → C) (m : Outcome (StableArena Key T × B)) (n : Outcome (Ledger T × C))
      → Agrees f m n
      → Tracks (m >>= λ r. done r.0) (n >>= λ r. done r.0)
  Agrees-Tracks f (done m) (done n) h = (h.0, h.1)
  Agrees-Tracks f (done m) panic h = h
  Agrees-Tracks f panic (done n) h = h
  Agrees-Tracks f panic panic h = h

  clear-Tracks : (a : StableArena Key T) → Tracks (done (clear a)) (done void)
  unfolding clear empty
  clear-Tracks a = (empty-IsValid, refl)

  step-Tracks :
      (a : StableArena Key T) (c : Call T)
      → IsValid a
      → Tracks (step a c) (ledger_step (cast I) (ledger a) c)
  unfolding step ledger_step
  step-Tracks a (pushes value) v = Agrees-Tracks I.into_usize _ _ (push_refines a value v)
  step-Tracks a (removes raw) v = Agrees-Tracks (λ x. x) _ _ (remove_refines a (I.from_usize raw) v)
  step-Tracks a (truncates issued) v =
      let (a', e, valid, same) = truncate_refines a issued v in rw e (valid, same)
  step-Tracks a clears v = clear-Tracks a

  run_cons :
      (m : Outcome (StableArena Key T)) (n : Outcome (Ledger T)) (cs : List (Call T))
      → ((a : StableArena Key T)
          → IsValid a
          → Tracks (run a cs) (ledger_run (cast I) (ledger a) cs))
      → Tracks m n
      → Tracks (m >>= λ a. run a cs) (n >>= λ l. ledger_run (cast I) l cs)
  run_cons (done a) (done l) cs rest t = rw (← t.1) (rest a t.0)
  run_cons (done a) panic cs rest t = absurd t
  run_cons panic (done l) cs rest t = absurd t
  run_cons panic panic cs rest t = t

  run-Tracks :
      (cs : List (Call T)) (a : StableArena Key T)
      → IsValid a
      → Tracks (run a cs) (ledger_run (cast I) (ledger a) cs)
  unfolding run ledger_run
  run-Tracks [] a v = (v, refl)
  run-Tracks (c ∷ cs) a v = run_cons _ _ cs (run-Tracks cs) (step-Tracks a c v)

module _ (Key : Type 0) {T : Type 0} ⦃I : Identifier Key⦄ where
  -- After any sequence of pushes, removals, truncations and clears from the empty arena, the arena
  -- and the ledger have panicked at the same call, or the arena is valid and stands for the ledger.
  pub run_refines :
      (cs : List (Call T))
      → Tracks (run (empty {Key = Key} {T = T}) cs) (ledger_run (cast I) void cs)
  unfolding empty
  run_refines cs = run-Tracks cs empty empty-IsValid
