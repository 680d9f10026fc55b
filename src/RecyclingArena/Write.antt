-- ===== src/RecyclingArena/Write.antt =====
-- Writes of a `RecyclingArena` through `get_mut` or `arena[id]`.
use jstd.Base.{
  ℕ, ◌<◌, ◌≡◌, inl, inr, none, some, Outcome, done, panic, length, get_elem?, set, length-set,
  get_elem?-set, lt-length_of_get_elem?, member, false, arith,
}
use jstd.Identifier.{Identifier}
use jstd.RecyclingArena.{RecyclingArena, live, get_mut, set_entry}
use jstd.RecyclingArena.FreeList.{live_count-set, live_not_member, Chain-set}
use jstd.RecyclingArena.Pool.{Pool, fill}
use jstd.RecyclingArena.Pool
use jstd.RecyclingArena.Represents.{payload, Represents}
use jstd.RecyclingArena.Refine.{payload-cases}

module _ {Key T : Type 0} ⦃I : Identifier Key⦄ where
  module _ (a : RecyclingArena Key T) (p : Pool T) (s : Represents a p) (raw : ℕ) (x value : T)
      (at : get_elem? a.slots raw ≡ some (live x)) where
    abbrev written : RecyclingArena Key T
    written = record a { slots = set a.slots raw (live value) }

    written-Represents : Represents written (record p { cells = fill p.cells raw (some value) })
    written-Represents = record {
      size = ground (arith, length-set a.slots raw (live value), s.size);
      cells = λ r. ground (arith, get_elem?-set a.slots raw (live value) r inside, s.cells r);
      chain = Chain-set a.slots a.first_free p.free raw (live value) inside out s.chain;
      distinct = s.distinct;
      complete = λ r next h.
          ground (arith, get_elem?-set a.slots raw (live value) r inside, s.complete r next, h);
      counted = ground (arith, live_count-set a.slots raw (live x) (live value) at, s.counted);
      fits = λ r h. s.fits r (omega (arith, length-set a.slots raw (live value)));
    }
      where
        inside : raw < length a.slots
        inside = lt-length_of_get_elem? a.slots raw at

        out : member raw p.free ≡ false
        out = live_not_member a.slots a.first_free p.free raw x at s.chain

  -- Both panic, or both go on: the arena represents the pool.
  abbrev pub Stores : Outcome (RecyclingArena Key T) → Outcome (Pool T) → Type 0
  Stores panic panic = Unit
  Stores (done a) (done p) = Represents a p
  Stores _ _ = ⊥

  Stores-panic :
      (m : Outcome (RecyclingArena Key T)) (n : Outcome (Pool T))
      → m ≡ panic
      → n ≡ panic
      → Stores m n
  Stores-panic m n p q = rw (p, q) tt

  Stores-done :
      (m : Outcome (RecyclingArena Key T)) (n : Outcome (Pool T)) (a : RecyclingArena Key T)
      (p : Pool T)
      → m ≡ done a
      → n ≡ done p
      → Represents a p
      → Stores m n
  Stores-done m n a p e f s = rw (e, f) s

  set_entry_live :
      (a : RecyclingArena Key T) (id : Key) (x value : T)
      → get_elem? a.slots (I.into_usize id) ≡ some (live x)
      → set_entry a id value
        ≡ done (record a { slots = set a.slots (I.into_usize id) (live value) })
  unfolding set_entry get_mut
  set_entry_live a id x value h = ground (arith, h)

  set_entry_dead :
      (a : RecyclingArena Key T) (id : Key) (value : T)
      → payload (get_elem? a.slots (I.into_usize id)) ≡ none
      → set_entry a id value ≡ panic
  unfolding set_entry get_mut
  set_entry_dead a id value h = ground (arith, h)

  -- On an arena that represents a pool, a write through the id of a filled cell replaces its
  -- payload and nothing else; a write through a free or unknown id panics.
  pub pool_set_entry_refines :
      (a : RecyclingArena Key T) (p : Pool T) (id : Key) (value : T)
      → Represents a p
      → Stores (set_entry a id value) (Pool.set_entry p (I.into_usize id) value)
  pool_set_entry_refines a p id value s =
      elim (payload-cases (get_elem? a.slots (I.into_usize id))) [
        | inl gone ↦
            Stores-panic _ _ (set_entry_dead a id value gone)
              (ground (arith, gone, s.cells (I.into_usize id)))
        | inr (x, at) ↦
            Stores-done _ _ (written a p s (I.into_usize id) x value at)
              (record p { cells = fill p.cells (I.into_usize id) (some value) })
              (set_entry_live a id x value at) (ground (arith, at, s.cells (I.into_usize id)))
              (written-Represents a p s (I.into_usize id) x value at)
      ]
