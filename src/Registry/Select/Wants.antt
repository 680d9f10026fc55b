-- ===== src/Registry/Select/Wants.antt =====
-- The loop over `ids` in `select_mut`, src/registry.rs.
use jstd.Base.{
  ℕ, zero, suc, ◌+◌, ◌<◌, ◌≡◌, ◌≢◌, refl, sym, ◌∙◌, ap, subst, inl, inr, Bool-cases, none, some,
  List, [], ◌∷◌, ◌==◌, ==→eq, done, get_elem?, lookup, insert, lookup-insert, arith, ◌⊎◌,
}
use jstd.Identifier.{Identifier}
use jstd.Registry.Select.{want_from}

module _ {Key : Type 0} ⦃I : Identifier Key⦄ where
  -- The map sends the index of every id to its position, and no other index to one.
  pub record Wants (pos : ℕ) (ids : List Key) (before after : List (ℕ × ℕ)) : Type 0 where
    pub kept : (n p : ℕ) → lookup n before ≡ some p → lookup n after ≡ some p
    pub entered :
        (q p : ℕ) (id : Key)
        → get_elem? ids q ≡ some id
        → p ≡ pos + q
        → lookup (I.into_usize id) after ≡ some p
    pub only :
        (n p : ℕ)
        → lookup n after ≡ some p
        → (lookup n before ≡ some p)
          ⊎ ((q : ℕ) × (id : Key) × (p ≡ pos + q)
              × (get_elem? ids q ≡ some id)
              × (I.into_usize id ≡ n))

  -- The ids are in bounds, none of them is in the map, and no two are the same.
  pub record Fresh (len : ℕ) (ids : List Key) (want : List (ℕ × ℕ)) : Type 0 where
    pub bounded : (q : ℕ) (id : Key) → get_elem? ids q ≡ some id → I.into_usize id < len
    pub absent :
        (q : ℕ) (id : Key) → get_elem? ids q ≡ some id → lookup (I.into_usize id) want ≡ none
    pub distinct :
        (p q : ℕ) (id other : Key)
        → get_elem? ids p ≡ some id
        → get_elem? ids q ≡ some other
        → I.into_usize id ≡ I.into_usize other
        → p ≡ q

  Fresh-tail :
      (len pos : ℕ) (id : Key) (rest : List Key) (want : List (ℕ × ℕ))
      → Fresh len (id ∷ rest) want
      → Fresh len rest (insert (I.into_usize id) pos want)
  Fresh-tail len pos id rest want fresh = record {
    bounded = λ q other at. fresh.bounded (suc q) other at;
    absent = λ q other at.
        let differ : I.into_usize other ≢ I.into_usize id =
          λ same. absurd (omega (arith, fresh.distinct (suc q) 0 other id at refl same)) in
        ground (
          arith,
          lookup-insert (I.into_usize id) pos want (I.into_usize other),
          differ,
          fresh.absent (suc q) other at,
        );
    distinct = λ p q one other at at' same.
        omega (arith, fresh.distinct (suc p) (suc q) one other at at' same);
  }

  Wants-cons :
      (len pos : ℕ) (id : Key) (rest : List Key) (want after : List (ℕ × ℕ))
      → lookup (I.into_usize id) want ≡ none
      → Wants (pos + 1) rest (insert (I.into_usize id) pos want) after
      → Wants pos (id ∷ rest) want after
  Wants-cons len pos id rest want after new wants = record {
    kept = λ m p h.
        wants.kept m p (ground (arith, lookup-insert (I.into_usize id) pos want m, h, new));
    entered = λ q p other at e. enter q p other at e;
    only = λ m p h. elim (wants.only m p h) [
      | inl before ↦ elim (Bool-cases (m == I.into_usize id)) [
        | inl same ↦ inr (
          0,
          id,
          ground (arith, lookup-insert (I.into_usize id) pos want m, before, same),
          refl,
          sym (==→eq m (I.into_usize id) same),
        )
        | inr differ ↦
            inl (ground (arith, lookup-insert (I.into_usize id) pos want m, before, differ))
      ]
      | inr (q, other, e, at, same) ↦ inr (suc q, other, omega (arith, e), at, same)
    ];
  }
    where
      enter :
          (q p : ℕ) (other : Key)
          → get_elem? (id ∷ rest) q ≡ some other
          → p ≡ pos + q
          → lookup (I.into_usize other) after ≡ some p
      enter zero p other at e =
          let same : id ≡ other = cc in
          let own : lookup (I.into_usize id) (insert (I.into_usize id) pos want) ≡ some p =
            ground (arith, lookup-insert (I.into_usize id) pos want (I.into_usize id), e) in
          subst (λ k. lookup (I.into_usize k) after ≡ some p) same
            (wants.kept (I.into_usize id) p own)
      enter (suc q) p other at e = wants.entered q p other at (omega (arith, e))

  pub want_from_done :
      (len pos : ℕ) (ids : List Key) (want : List (ℕ × ℕ))
      → Fresh len ids want
      → (after : List (ℕ × ℕ)) × (want_from len pos ids want ≡ done after)
        × Wants pos ids want after
  unfolding want_from
  want_from_done len pos [] want fresh =
      (want, refl, record { kept = λ n p h. h; entered = λ q p id at e. cc; only = λ n p h. inl h })
  want_from_done len pos (id ∷ rest) want fresh =
      let n = I.into_usize id in
      let (after, eq, wants) =
        want_from_done len (pos + 1) rest (insert n pos want)
          (Fresh-tail len pos id rest want fresh) in
      (
        after,
        ground (arith, eq, fresh.bounded 0 id refl, fresh.absent 0 id refl),
        Wants-cons len pos id rest want after (fresh.absent 0 id refl) wants,
      )

  pub Fresh-start :
      (len : ℕ) (ids : List Key)
      → ((q : ℕ) (id : Key) → get_elem? ids q ≡ some id → I.into_usize id < len)
      → ((p q : ℕ) (id : Key) → get_elem? ids p ≡ some id → get_elem? ids q ≡ some id → p ≡ q)
      → Fresh len ids []
  Fresh-start len ids bounded distinct = record {
    bounded = bounded;
    absent = λ q id at. refl;
    distinct = λ p q id other at at' same.
        let equal : id ≡ other = sym (I.from-into id) ∙ ap I.from_usize same ∙ I.from-into other in
        distinct p q other (at ∙ ap some equal) at';
  }
