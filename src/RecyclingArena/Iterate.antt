-- ===== src/RecyclingArena/Iterate.antt =====
-- Reads, writes and iteration of a `RecyclingArena`.
use jstd.Base.{
  is_some, ℕ, zero, suc, ◌+◌, ◌≡◌, refl, sym, ap, ◌∙◌, Option, none, some, List, [], ◌∷◌, length,
  get_elem?, arith, subst,
}
use jstd.Identifier.{Identifier, Identified}
use jstd.RecyclingArena.{RecyclingArena, Slot, live, free, get, contains, iter, iter_from}
use jstd.RecyclingArena.Pool.{Pool}
use jstd.RecyclingArena.Represents.{payload, Represents}

abbrev pub entry : {Key T : Type 0} → Key → Option T → Option (Identified Key T)
entry id none = none
entry id (some x) = some (record { id = id; inner = x })

-- The filled cells among the `n` from `raw` on, in ascending order.
abbrev pub filled : {Key T : Type 0} → (ℕ → Key) → (ℕ → Option T) → ℕ → ℕ → List (Identified Key T)
filled id cells raw zero = []
filled id cells raw (suc n) =
    let rest = filled id cells (raw + 1) n in
    elim (cells raw) [ none ↦ rest | some x ↦ record { id = id raw; inner = x } ∷ rest ]

first :
    {T : Type 0} (raw : ℕ) (cells : ℕ → Option T) (o : Option T)
    → o ≡ cells (raw + 0)
    → cells raw ≡ o
first raw cells o h = sym (h ∙ ap cells (omega arith))

module _ {Key T : Type 0} ⦃I : Identifier Key⦄ where
  -- On an arena that represents a pool, `get` and `contains` read the cell of an id: a payload if
  -- it is filled, nothing if it is free or was never issued.
  pub get-cells :
      (a : RecyclingArena Key T) (p : Pool T) (id : Key)
      → Represents a p
      → (get a id ≡ entry id (p.cells (I.into_usize id)))
        × (contains a id ≡ is_some (p.cells (I.into_usize id)))
  unfolding get contains
  get-cells a p id s = ground (arith, s.cells (I.into_usize id))

  iter_from-filled :
      (raw : ℕ) (slots : List (Slot Key T)) (cells : ℕ → Option T)
      → ((i : ℕ) → payload (get_elem? slots i) ≡ cells (raw + i))
      → iter_from raw slots ≡ filled I.from_usize cells raw (length slots)
  unfolding iter_from
  iter_from-filled raw [] cells h = refl
  iter_from-filled raw (live x ∷ rest) cells h = ground (
    arith,
    first raw cells (some x) (h 0),
    iter_from-filled (raw + 1) rest cells (λ i. h (suc i) ∙ ap cells (omega arith)),
  )
  iter_from-filled raw (free x ∷ rest) cells h = ground (
    arith,
    first raw cells none (h 0),
    iter_from-filled (raw + 1) rest cells (λ i. h (suc i) ∙ ap cells (omega arith)),
  )

  -- On an arena that represents a pool, iteration yields the filled cells in ascending order of
  -- their ids, each with its payload.
  pub iter-filled :
      (a : RecyclingArena Key T) (p : Pool T)
      → Represents a p
      → iter a ≡ filled I.from_usize p.cells 0 p.next
  unfolding iter
  iter-filled a p s =
      subst (λ n. iter_from 0 a.slots ≡ filled I.from_usize p.cells 0 n) s.size
        (iter_from-filled 0 a.slots p.cells (λ i. s.cells i ∙ ap p.cells (omega arith)))
