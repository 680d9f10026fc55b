-- ===== src/Registry/Select/Exact.antt =====
-- `select_mut` of src/registry.rs on a registry that holds a list.
use jstd.Base.{
  ℕ, zero, suc, ◌-◌, ◌<◌, ◌≡◌, refl, dec_lt, sym, ◌∙◌, subst, Option, none, some, List, [], ◌∷◌,
  done, length, replicate, get_elem?, length-replicate, get_elem?_lt, get_elem?_ge, arith,
}
use jstd.Identifier.{Identifier, cast}
use jstd.Registry.{Registry}
use jstd.Registry.Holds.{Holds}
use jstd.Registry.Iterate.{iter-number}
use jstd.Registry.Select.{expect_all, select_mut}
use jstd.Registry.Select.Wants.{want_from_done, Fresh-start}
use jstd.Registry.Select.Routed.{Slotted, Slotted-start, route_done}

read_cons :
    {T : Type 0} (item : T) (rest : List (Option T)) (refs : List T)
    → ((p : ℕ) (x : T) → get_elem? rest p ≡ some (some x) → get_elem? refs p ≡ some x)
    → (p : ℕ) (x : T) → get_elem? (some item ∷ rest) p ≡ some (some x)
    → get_elem? (item ∷ refs) p ≡ some x
read_cons item rest refs read zero x at = cc
read_cons item rest refs read (suc p) x at = read p x at

-- When every slot is filled, the slots are read out in their order.
expect_all_done :
    {T : Type 0} (slots : List (Option T))
    → ((p : ℕ) → p < length slots → (x : T) × (get_elem? slots p ≡ some (some x)))
    → (refs : List T) × (expect_all slots ≡ done refs)
      × (length refs ≡ length slots)
      × ((p : ℕ) (x : T) → get_elem? slots p ≡ some (some x) → get_elem? refs p ≡ some x)
expect_all_done [] full = ([], refl, refl, λ p x at. cc)
expect_all_done (none ∷ rest) full =
    let (x, at) = full 0 (omega arith) in absurd (ground (arith, at))
expect_all_done (some item ∷ rest) full =
    let (refs, eq, size, read) = expect_all_done rest (λ p lt. full (suc p) (omega (arith, lt))) in
    (item ∷ refs, ground (arith, eq), omega (arith, size), read_cons item rest refs read)

module _ {Key T : Type 0} ⦃I : Identifier Key⦄ where
  -- The element of `xs` under the id at a position.
  abbrev pub wanted : List T → List Key → ℕ → Option T
  wanted xs ids p = elim (get_elem? ids p) [
    | none ↦ none
    | some id ↦ get_elem? xs (I.into_usize id)
  ]

  -- On a registry that holds a list, whose last index fits an id, and for ids that are in bounds and no two
  -- of which are the same, `select_mut` returns, without a panic, one element for each id, in the order of
  -- the ids: the element of the list at the id's index.
  pub select_mut-get_elem? :
      (r : Registry Key T) (xs : List T) (ids : List Key)
      → Holds r xs
      → cast I (r.len - 1) ≡ r.len - 1
      → ((q : ℕ) (id : Key) → get_elem? ids q ≡ some id → I.into_usize id < r.len)
      → ((p q : ℕ) (id : Key) → get_elem? ids p ≡ some id → get_elem? ids q ≡ some id → p ≡ q)
      → (refs : List T) × (select_mut r ids ≡ done refs)
        × ((p : ℕ) → get_elem? refs p ≡ wanted xs ids p)
  unfolding select_mut
  select_mut-get_elem? r xs ids h fits bounded distinct =
      let (want, made, wants) =
        want_from_done r.len 0 ids [] (Fresh-start r.len ids bounded distinct) in
      let slotted = Slotted-start ids want wants in
      let blank = length-replicate (length ids) none in
      let (slots, routed, result) =
        route_done Key want 0 xs (replicate (length ids) none)
          (λ n lt. I.fits_below n (r.len - 1) (omega (arith, lt, h.size)) fits)
          (subst (Slotted want) (sym blank) slotted) in
      let fill : (p : ℕ)
          → p < length ids
          → (id : Key) × (x : T) × (get_elem? ids p ≡ some id)
            × (get_elem? xs (I.into_usize id) ≡ some x)
            × (get_elem? slots p ≡ some (some x)) =
        λ p lt.
          let (id, at) = get_elem?_lt ids p lt in
          let (x, there) =
            get_elem?_lt xs (I.into_usize id) (omega (arith, bounded p id at, h.size)) in
          (
            id,
            x,
            at,
            there,
            result.filled (I.into_usize id) (I.into_usize id) p x (omega arith) there
                (wants.entered p p id at (omega arith)),
          ) in
      let (refs, eq, size, read) = expect_all_done slots λ p lt.
        let (id, x, at, there, e) = fill p (omega (arith, lt, result.size, blank)) in (x, e) in
      (
        refs,
        ground (arith, made, iter-number r xs h, routed, eq),
        λ p. elim (dec_lt p (length ids)) [
          | yes lt ↦ let (id, x, at, there, e) = fill p lt in read p x e ∙ ground (arith, at, there)
          | no outside ↦
              get_elem?_ge refs p (omega (arith, outside, size, result.size, blank))
              ∙ ground (arith, get_elem?_ge ids p (omega (arith, outside)))
        ],
      )
