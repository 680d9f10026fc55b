-- ===== src/RecyclingArena/Represents.antt =====
-- What it means that a `RecyclingArena` stores a pool of cells, and that the three ways of writing a
-- slot keep it so.
use jstd.Base.{
  Distinct, member, subst, ℕ, ◌+◌, ◌-◌, ◌<◌, ◌≡◌, refl, true, false, Option, none, some, List, [],
  ◌∷◌, ◌++◌, done, length, get_elem?, set, length-set, length-append, get_elem?-set,
  get_elem?-concat, lt-length_of_get_elem?, arith,
}
use jstd.Identifier.{Identifier, cast}
use jstd.RecyclingArena.{RecyclingArena, Slot, live, free, empty, reuse}
use jstd.RecyclingArena.FreeList.{
  live_count, live_count-set, live_count-concat, Chain, live_not_member, Chain-set, Chain-concat,
}
use jstd.RecyclingArena.Pool.{Pool, void, fill}

module _ {Key T : Type 0} where
  -- The payload that a slot shows; `none` stands for an index out of range.
  abbrev pub payload : Option (Slot Key T) → Option T
  payload none = none
  payload (some (live x)) = some x
  payload (some (free _)) = none

module _ {Key T : Type 0} ⦃I : Identifier Key⦄ where
  -- The arena stores the cells of the pool, and its links run through the free cells in the order of
  -- the stack, through each once and through all of them.
  pub record Represents (a : RecyclingArena Key T) (p : Pool T) : Type 0 where
    pub size : length a.slots ≡ p.next
    pub cells : (r : ℕ) → payload (get_elem? a.slots r) ≡ p.cells r
    pub chain : Chain a.slots a.first_free p.free
    pub distinct : Distinct p.free
    pub complete :
        (r : ℕ) (next : Option Key)
        → get_elem? a.slots r ≡ some (free next)
        → member r p.free ≡ true
    pub counted : live_count a.slots ≡ a.live_len
    pub fits : (r : ℕ) → r < length a.slots → cast I r ≡ r

  pub empty-Represents : Represents empty void
  unfolding empty
  empty-Represents = record {
    size = refl;
    cells = λ r. refl;
    chain = refl;
    distinct = tt;
    complete = λ r next h. cc;
    counted = refl;
    fits = λ r h. absurd (omega arith);
  }

  module _ (a : RecyclingArena Key T) (p : Pool T) (s : Represents a p) (raw : ℕ) (x : T)
      (at : get_elem? a.slots raw ≡ some (live x)) where
    pub raw_lt : raw < length a.slots
    raw_lt = lt-length_of_get_elem? a.slots raw at

    abbrev pub removed : RecyclingArena Key T
    removed = record {
      slots = set a.slots raw (free a.first_free);
      first_free = some (I.from_usize raw);
      live_len = a.live_len - 1;
    }

    pub removed-Represents :
        Represents removed (record p { cells = fill p.cells raw none; free = raw ∷ p.free })
    removed-Represents = record {
      size = ground (arith, length-set a.slots raw (free a.first_free), s.size);
      cells =
          λ r. ground (arith, get_elem?-set a.slots raw (free a.first_free) r raw_lt, s.cells r);
      chain = (
        refl,
        s.fits raw raw_lt,
        (
          a.first_free,
          ground (arith, get_elem?-set a.slots raw (free a.first_free) raw raw_lt),
          Chain-set a.slots a.first_free p.free raw (free a.first_free) raw_lt out s.chain,
        ),
      );
      distinct = (out, s.distinct);
      complete = λ r next h.
          ground
            (arith, get_elem?-set a.slots raw (free a.first_free) r raw_lt, s.complete r next, h);
      counted =
          ground (arith, live_count-set a.slots raw (live x) (free a.first_free) at, s.counted);
      fits = λ r h. s.fits r (omega (arith, length-set a.slots raw (free a.first_free)));
    }
      where
        out : member raw p.free ≡ false
        out = live_not_member a.slots a.first_free p.free raw x at s.chain

  reuse_free :
      (a : RecyclingArena Key T) (id : Key) (next : Option Key) (value : T)
      → get_elem? a.slots (I.into_usize id) ≡ some (free next)
      → reuse a id value
        ≡ done (
          record {
            slots = set a.slots (I.into_usize id) (live value);
            first_free = next;
            live_len = a.live_len + 1;
          },
          id,
        )
  unfolding reuse
  reuse_free a id next value h = rw h

  module _ (a : RecyclingArena Key T) (p : Pool T) (s : Represents a p) (raw : ℕ) (rest : List ℕ)
      (next : Option Key) (value : T) (top : p.free ≡ raw ∷ rest)
      (at : get_elem? a.slots raw ≡ some (free next)) (links : Chain a.slots next rest) where
    free_lt : raw < length a.slots
    free_lt = lt-length_of_get_elem? a.slots raw at

    abbrev pub reused : RecyclingArena Key T
    reused = record {
      slots = set a.slots raw (live value);
      first_free = next;
      live_len = a.live_len + 1;
    }

    pub reused-Represents :
        Represents reused (record p { cells = fill p.cells raw (some value); free = rest })
    reused-Represents = record {
      size = ground (arith, length-set a.slots raw (live value), s.size);
      cells = λ r. ground (arith, get_elem?-set a.slots raw (live value) r free_lt, s.cells r);
      chain = Chain-set a.slots next rest raw (live value) free_lt once.0 links;
      distinct = once.1;
      complete = λ r after h.
          ground
            (arith, get_elem?-set a.slots raw (live value) r free_lt, s.complete r after, h, top);
      counted = ground (arith, live_count-set a.slots raw (free next) (live value) at, s.counted);
      fits = λ r h. s.fits r (omega (arith, length-set a.slots raw (live value)));
    }
      where
        once : Distinct (raw ∷ rest)
        once = subst Distinct top s.distinct

    pub reuse_done :
        cast I raw ≡ raw → reuse a (I.from_usize raw) value ≡ done (reused, I.from_usize raw)
    reuse_done fit = rw fit at (reuse_free a (I.from_usize raw) next value (rw fit (at)))

  module _ (a : RecyclingArena Key T) (p : Pool T) (s : Represents a p) (value : T)
      (top : p.free ≡ []) (fit : cast I (length a.slots) ≡ length a.slots) where
    abbrev pub extended : RecyclingArena Key T
    extended = record a { slots = a.slots ++ live value ∷ []; live_len = a.live_len + 1 }

    pub extended-Represents :
        Represents extended
          (record p { cells = fill p.cells p.next (some value); next = p.next + 1 })
    extended-Represents = record {
      size = omega (arith, length-append a.slots (live value ∷ []), s.size);
      cells = λ r. ground (arith, get_elem?-concat a.slots (live value) r, s.cells r, s.size);
      chain = Chain-concat a.slots a.first_free p.free (live value) s.chain;
      distinct = s.distinct;
      complete = λ r after h.
          ground (arith, get_elem?-concat a.slots (live value) r, s.complete r after, h);
      counted = omega (arith, live_count-concat a.slots value, s.counted);
      fits = λ r h. ground (arith, length-append a.slots (live value ∷ []), s.fits r, fit, h);
    }
