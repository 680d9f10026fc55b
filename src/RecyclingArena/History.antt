-- ===== src/RecyclingArena/History.antt =====
-- Whole histories of a `RecyclingArena`, seen as the pool of cells.
use jstd.Base.{ℕ, ◌≡◌, refl, ap, ◌∙◌, List, [], ◌∷◌, ◌==◌, Outcome, done, panic, ◌>>=◌}
use jstd.Identifier.{Identifier, cast}
use jstd.RecyclingArena.{RecyclingArena, empty, clear, push, remove}
use jstd.RecyclingArena.Pool.{Pool, void}
use jstd.RecyclingArena.Pool
use jstd.RecyclingArena.Represents.{Represents, empty-Represents}
use jstd.RecyclingArena.Refine.{Agrees, pool_push_refines, pool_remove_refines}

-- The calls that change the arena. Ids are the numbers that earlier pushes returned.
pub data Call (T : Type 0) : Type 0 where
  pushes : T → Call T
  removes : ℕ → Call T
  clears : Call T

-- What a call returns: an id as its number, a payload, or nothing.
pub data Reply (T : Type 0) : Type 0 where
  issued : ℕ → Reply T
  payload : T → Reply T
  cleared : Reply T

module _ {Key T : Type 0} ⦃I : Identifier Key⦄ where
  unfoldable pub step : RecyclingArena Key T → Call T → Outcome (RecyclingArena Key T × Reply T)
  step a (pushes value) = do (a', id) ← push a value; done (a', issued (I.into_usize id))
  step a (removes raw) = do (a', value) ← remove a (I.from_usize raw); done (a', payload value)
  step a clears = done (clear a, cleared)

  unfoldable pub run :
      RecyclingArena Key T → List (Call T) → Outcome (RecyclingArena Key T × List (Reply T))
  run a [] = done (a, [])
  run a (c ∷ cs) = do
    (a', reply) ← step a c
    (a'', replies) ← run a' cs
    done (a'', reply ∷ replies)

-- The same calls on a pool. `round` takes a number to an id of the client's type and back.
module _ {T : Type 0} (round : ℕ → ℕ) where
  pub pool_step : Pool T → Call T → Outcome (Pool T × Reply T)
  pool_step p (pushes value) = do
    (p', raw) ← Pool.push (λ n. round n == n) p value
    done (p', issued raw)
  pool_step p (removes raw) = do (p', value) ← Pool.remove p (round raw); done (p', payload value)
  pool_step p clears = done (void, cleared)

  pub pool_run : Pool T → List (Call T) → Outcome (Pool T × List (Reply T))
  pool_run p [] = done (p, [])
  pool_run p (c ∷ cs) = do
    (p', reply) ← pool_step p c
    (p'', replies) ← pool_run p' cs
    done (p'', reply ∷ replies)

module _ {Key T : Type 0} ⦃I : Identifier Key⦄ where
  -- The results of two calls that agree may be renamed on both sides.
  Agrees-map :
      {B C : Type 0} {D : Type 0} (f : B → C) (g : B → D) (h : C → D)
      (m : Outcome (RecyclingArena Key T × B)) (n : Outcome (Pool T × C))
      → ((b : B) → g b ≡ h (f b))
      → Agrees f m n
      → Agrees (λ (d : D). d) (m >>= λ r. done (r.0, g r.1)) (n >>= λ r. done (r.0, h r.1))
  Agrees-map f g h (done (a, b)) (done (p, c)) e (s, same) = (s, e b ∙ ap h same)
  Agrees-map f g h (done m) panic e t = t
  Agrees-map f g h panic (done n) e t = t
  Agrees-map f g h panic panic e t = t

  step-Agrees :
      (a : RecyclingArena Key T) (p : Pool T) (c : Call T)
      → Represents a p
      → Agrees (λ (r : Reply T). r) (step a c) (pool_step (cast I) p c)
  unfolding step pool_step clear empty
  step-Agrees a p (pushes value) s =
      Agrees-map I.into_usize (λ id. issued (I.into_usize id)) issued _ _ (λ b. refl)
        (pool_push_refines a p value s)
  step-Agrees a p (removes raw) s =
      Agrees-map (λ x. x) payload payload _ _ (λ b. refl)
        (pool_remove_refines a p (I.from_usize raw) s)
  step-Agrees a p clears s = (empty-Represents, refl)

  run_cons :
      (m : Outcome (RecyclingArena Key T × Reply T)) (n : Outcome (Pool T × Reply T))
      (cs : List (Call T))
      → ((a : RecyclingArena Key T) (p : Pool T)
          → Represents a p
          → Agrees (λ (r : List (Reply T)). r) (run a cs) (pool_run (cast I) p cs))
      → Agrees (λ (r : Reply T). r) m n
      → Agrees
          (λ (r : List (Reply T)). r)
          (m >>= λ r. run r.0 cs >>= λ q. done (q.0, r.1 ∷ q.1))
          (n >>= λ r. pool_run (cast I) r.0 cs >>= λ q. done (q.0, r.1 ∷ q.1))
  run_cons (done (a, b)) (done (p, c)) cs rest (s, same) =
      Agrees-map (λ r. r) (λ q. b ∷ q) (λ q. c ∷ q) _ _ (λ q. ap (λ x. x ∷ q) same) (rest a p s)
  run_cons (done m) panic cs rest t = absurd t
  run_cons panic (done n) cs rest t = absurd t
  run_cons panic panic cs rest t = t

  run-Agrees :
      (cs : List (Call T)) (a : RecyclingArena Key T) (p : Pool T)
      → Represents a p
      → Agrees (λ (r : List (Reply T)). r) (run a cs) (pool_run (cast I) p cs)
  unfolding run pool_run
  run-Agrees [] a p s = (s, refl)
  run-Agrees (c ∷ cs) a p s = run_cons _ _ cs (run-Agrees cs) (step-Agrees a p c s)

module _ (Key : Type 0) {T : Type 0} ⦃I : Identifier Key⦄ where
  -- After any sequence of pushes, removals and clears from the empty arena, the arena and the pool
  -- have panicked at the same call, or they have returned the same replies, ids included, and the
  -- arena represents the pool.
  pub pool_run_refines :
      (cs : List (Call T))
      → Agrees
          (λ (r : List (Reply T)). r)
          (run (empty {Key = Key} {T = T}) cs)
          (pool_run (cast I) void cs)
  pool_run_refines cs = run-Agrees cs empty void empty-Represents
