-- ===== src/RecyclingArena/Refine.antt =====
-- Every operation of a `RecyclingArena` does what the pool of cells does, panics included.
use jstd.Base.{
  subst, ◌∙◌, List-cases, ◌+◌, ◌-◌, ◌≡◌, refl, inl, inr, ◌⊎◌, false, Option, none, some, [], ◌∷◌,
  ◌++◌, ◌==◌, Bool-cases, Outcome, done, panic, length, get_elem?, set, arith,
}
use jstd.Identifier.{Identifier, cast}
use jstd.RecyclingArena.{RecyclingArena, Slot, live, free, reuse, extend, push, remove}
use jstd.RecyclingArena.FreeList.{Chain}
use jstd.RecyclingArena.Pool.{Pool, void, fill}
use jstd.RecyclingArena.Pool
use jstd.RecyclingArena.Represents.{
  payload, Represents, removed, removed-Represents, reused, reused-Represents, reuse_done, extended,
  extended-Represents,
}

module _ {Key T : Type 0} ⦃I : Identifier Key⦄ where
  -- Both calls panic, or both succeed: the new arena represents the new pool, and the results agree.
  abbrev pub Agrees :
      {B C : Type 0} → (B → C) → Outcome (RecyclingArena Key T × B) → Outcome (Pool T × C) → Type 0
  Agrees f panic panic = Unit
  Agrees f (done (a, b)) (done (p, c)) = Represents a p × (f b ≡ c)
  Agrees f _ _ = ⊥

  Agrees-panic :
      {B C : Type 0} (f : B → C) (m : Outcome (RecyclingArena Key T × B)) (n : Outcome (Pool T × C))
      → m ≡ panic
      → n ≡ panic
      → Agrees f m n
  Agrees-panic f m n p q = rw (p, q) tt

  Agrees-done :
      {B C : Type 0} (f : B → C) (m : Outcome (RecyclingArena Key T × B)) (n : Outcome (Pool T × C))
      (a : RecyclingArena Key T) (b : B) (l : Pool T) (c : C)
      → m ≡ done (a, b)
      → n ≡ done (l, c)
      → Represents a l
      → f b ≡ c
      → Agrees f m n
  Agrees-done f m n a b l c p q s h = rw (p, q) (s, h)

  remove_live :
      (a : RecyclingArena Key T) (id : Key) (x : T)
      → get_elem? a.slots (I.into_usize id) ≡ some (live x)
      → remove a id
        ≡ done (
          record {
            slots = set a.slots (I.into_usize id) (free a.first_free);
            first_free = some id;
            live_len = a.live_len - 1;
          },
          x,
        )
  unfolding remove
  remove_live a id x at = rw at

  remove_dead :
      (a : RecyclingArena Key T) (id : Key)
      → payload (get_elem? a.slots (I.into_usize id)) ≡ none
      → remove a id ≡ panic
  unfolding remove
  remove_dead a id h = ground (arith, h)

  pub payload-cases :
      (o : Option (Slot Key T)) → (payload o ≡ none) ⊎ ((x : T) × (o ≡ some (live x)))
  payload-cases none = inl refl
  payload-cases (some (live x)) = inr (x, refl)
  payload-cases (some (free _)) = inl refl

  -- On an arena that represents a pool, removing a filled cell returns its payload, empties the
  -- cell and puts it on top of the free stack, and the new arena represents the new pool;
  -- removing a free or unknown cell panics.
  pub pool_remove_refines :
      (a : RecyclingArena Key T) (p : Pool T) (id : Key)
      → Represents a p
      → Agrees (λ x. x) (remove a id) (Pool.remove p (I.into_usize id))
  pool_remove_refines a p id s = elim (payload-cases (get_elem? a.slots (I.into_usize id))) [
    | inl gone ↦
        Agrees-panic _ _ _ (remove_dead a id gone) (ground (arith, gone, s.cells (I.into_usize id)))
    | inr (x, at) ↦
        Agrees-done _ _ _ (removed a p s (I.into_usize id) x at) x
          (record p {
            cells = fill p.cells (I.into_usize id) none;
            free = I.into_usize id ∷ p.free;
          })
          x (rw (I.from-into id) (remove_live a id x at))
          (ground (arith, at, s.cells (I.into_usize id)))
          (removed-Represents a p s (I.into_usize id) x at) refl
  ]

  push_new :
      (a : RecyclingArena Key T) (value : T)
      → a.first_free ≡ none
      → cast I (length a.slots) ≡ length a.slots
      → push a value
        ≡ done (
          record a { slots = a.slots ++ live value ∷ []; live_len = a.live_len + 1 },
          I.from_usize (length a.slots),
        )
  unfolding push extend
  push_new a value h fit = ground (arith, h, fit)

  push_full :
      (a : RecyclingArena Key T) (value : T)
      → a.first_free ≡ none
      → (cast I (length a.slots) == length a.slots) ≡ false
      → push a value ≡ panic
  unfolding push extend
  push_full a value h full = ground (arith, h, full)

  push-reuse :
      (a : RecyclingArena Key T) (value : T) (id : Key)
      → a.first_free ≡ some id
      → push a value ≡ reuse a id value
  unfolding push
  push-reuse a value id h = ground (arith, h)

  -- On an arena that represents a pool, a push takes the cell on top of the free stack; with no
  -- free cell it takes the next new one, and panics if the id type cannot hold its number. The
  -- new arena represents the new pool.
  pub pool_push_refines :
      (a : RecyclingArena Key T) (p : Pool T) (value : T)
      → Represents a p
      → Agrees I.into_usize (push a value) (Pool.push (λ n. cast I n == n) p value)
  pool_push_refines a p value s = elim (List-cases p.free) [
    | inl top ↦
        let none_free : a.first_free ≡ none = subst (Chain a.slots a.first_free) top s.chain in
        elim (Bool-cases (cast I p.next == p.next)) [
          | inl room ↦
              let fit : cast I (length a.slots) ≡ length a.slots = ground (arith, s.size) in
              Agrees-done _ _ _ (extended a p s value top fit) (I.from_usize (length a.slots))
                (record p { cells = fill p.cells p.next (some value); next = p.next + 1 }) p.next
                (push_new a value none_free fit) (ground (arith, top, room))
                (extended-Represents a p s value top fit) (fit ∙ s.size)
          | inr full ↦
              Agrees-panic _ _ _ (push_full a value none_free (ground (arith, full, s.size)))
                (ground (arith, top, full))
        ]
    | inr (raw, rest, top) ↦
        let (head, fit, (next, at, links)) = subst (Chain a.slots a.first_free) top s.chain in
        Agrees-done _ _ _ (reused a p s raw rest next value top at links) (I.from_usize raw)
          (record p { cells = fill p.cells raw (some value); free = rest }) raw
          (push-reuse a value (I.from_usize raw) head
            ∙ reuse_done a p s raw rest next value top at links fit)
          (ground (arith, top)) (reused-Represents a p s raw rest next value top at links) fit
  ]
