-- ===== src/Registry/Select/Refuse.antt =====
-- The assertions of `select_mut`, src/registry.rs.
use jstd.Base.{
  ℕ, zero, suc, ◌+◌, ◌≤◌, ◌<◌, ◌≡◌, inl, inr, true, some, List, [], ◌∷◌, is_some, panic, get_elem?,
  lookup, insert, lookup-insert, arith, ◌⊎◌,
}
use jstd.Identifier.{Identifier}
use jstd.Registry.{Registry}
use jstd.Registry.Select.{want_from, select_mut}

module _ {Key : Type 0} ⦃I : Identifier Key⦄ where
  -- An id is out of bounds, or its index is in the map already.
  bad_id :
      (len pos q : ℕ) (id : Key) (ids : List Key) (want : List (ℕ × ℕ))
      → get_elem? ids q ≡ some id
      → (len ≤ I.into_usize id) ⊎ (is_some (lookup (I.into_usize id) want) ≡ true)
      → want_from len pos ids want ≡ panic
  unfolding want_from
  bad_id len pos q id [] want at bad = cc
  bad_id len pos zero id (head ∷ rest) want at (inl outside) = ground (arith, at, outside)
  bad_id len pos zero id (head ∷ rest) want at (inr there) = ground (arith, at, there)
  bad_id len pos (suc q) id (head ∷ rest) want at (inl outside) =
      ground (
        arith,
        bad_id len (pos + 1) q id rest (insert (I.into_usize head) pos want) at (inl outside),
      )
  bad_id len pos (suc q) id (head ∷ rest) want at (inr there) =
      let still : is_some (lookup (I.into_usize id) (insert (I.into_usize head) pos want)) ≡ true =
        ground (arith, lookup-insert (I.into_usize head) pos want (I.into_usize id), there) in
      ground
        (arith, bad_id len (pos + 1) q id rest (insert (I.into_usize head) pos want) at (inr still))

  twice :
      (len pos p q : ℕ) (id : Key) (ids : List Key) (want : List (ℕ × ℕ))
      → p < q
      → get_elem? ids p ≡ some id
      → get_elem? ids q ≡ some id
      → want_from len pos ids want ≡ panic
  unfolding want_from
  twice len pos p q id [] want lt at at' = cc
  twice len pos p zero id (head ∷ rest) want lt at at' = absurd (omega (arith, lt))
  twice len pos zero (suc q) id (head ∷ rest) want lt at at' =
      let same : head ≡ id = cc in
      let there : is_some (lookup (I.into_usize id) (insert (I.into_usize head) pos want)) ≡ true =
        ground (arith, lookup-insert (I.into_usize head) pos want (I.into_usize id), same) in
      ground (
        arith,
        bad_id len (pos + 1) q id rest (insert (I.into_usize head) pos want) at' (inr there),
      )
  twice len pos (suc p) (suc q) id (head ∷ rest) want lt at at' = ground (
    arith,
    twice len (pos + 1) p q id rest (insert (I.into_usize head) pos want) (omega (arith, lt)) at
        at',
  )

module _ {Key T : Type 0} ⦃I : Identifier Key⦄ where
  -- `select_mut` panics when an id at some position is out of bounds, or is at an earlier position too.
  pub select_mut_refuses :
      (r : Registry Key T) (ids : List Key) (q : ℕ) (id : Key)
      → get_elem? ids q ≡ some id
      → (r.len ≤ I.into_usize id) ⊎ ((p : ℕ) × (p < q) × (get_elem? ids p ≡ some id))
      → select_mut r ids ≡ panic
  unfolding select_mut
  select_mut_refuses r ids q id at (inl outside) =
      ground (arith, bad_id r.len 0 q id ids [] at (inl outside))
  select_mut_refuses r ids q id at (inr (p, lt, earlier)) =
      ground (arith, twice r.len 0 p q id ids [] lt earlier at)
