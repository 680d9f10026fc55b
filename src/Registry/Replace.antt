-- ===== src/Registry/Replace.antt =====
-- `replace` on a registry that holds a list.
use jstd.Base.{
  ℕ, ◌+◌, ◌-◌, ◌^◌, ◌≤◌, ◌<◌, ◌≡◌, ◌≢◌, refl, ap, ◌∙◌, dec_lt, ℕ_discrete, some, List, done, length,
  get_elem?, set, length-set, get_elem?-set, lt-length_of_get_elem?, arith,
}
use jstd.Identifier.{Identifier}
use jstd.Registry.{Registry, locate, replace_at, replace}
use jstd.Registry.Locate.{pow_pos, pow_gap, locate_lem}
use jstd.Registry.Holds.{filled, Holds, found}

-- Where two chunks' elements lie in the list.
apart :
    (i j k n len : ℕ)
    → j < filled i len
    → i ≢ k
    → 2 ^ k ≤ n + 1
    → n + 1 < 2 ^ k + 2 ^ k
    → 2 ^ i + j - 1 ≢ n
apart i j k n len lt other low high = elim (dec_lt i k) [
  | yes below ↦ λ e. ground (arith, pow_gap i k below, pow_pos i, lt, low, high, e)
  | no above ↦
      λ e. ground (arith, pow_gap k i (ground (arith, above, other)), pow_pos i, lt, low, high, e)
]

module _ {Key T : Type 0} where
  module _ (r : Registry Key T) (xs : List T) (n k : ℕ) (c : List T) (value : T) (h : Holds r xs)
      (there : n < r.len) (low : 2 ^ k ≤ n + 1) (high : n + 1 < 2 ^ k + 2 ^ k)
      (at : get_elem? r.chunks k ≡ some c) where
    abbrev replaced : Registry Key T
    replaced = record r { chunks = set r.chunks k (set c (n + 1 - 2 ^ k) value) }

    replaced-Holds : Holds replaced (set xs n value)
    replaced-Holds = record {
      size = omega (arith, length-set xs n value, h.size);
      sized = sized;
      entry = entry;
      covered = rw (length-set r.chunks k (set c (n + 1 - 2 ^ k) value)) h.covered;
    }
      where
        inside : k < length r.chunks
        inside = lt-length_of_get_elem? r.chunks k at

        offset : n + 1 - 2 ^ k < length c
        offset = ground (arith, h.sized k c at, low, high, there)

        was :
            (i : ℕ) (d : List T)
            → i ≢ k
            → get_elem? replaced.chunks i ≡ some d
            → get_elem? r.chunks i ≡ some d
        was i d other at' =
            ground
              (arith, get_elem?-set r.chunks k (set c (n + 1 - 2 ^ k) value) i inside, at', other)

        now :
            (i : ℕ) (d : List T)
            → i ≡ k
            → get_elem? replaced.chunks i ≡ some d
            → set c (n + 1 - 2 ^ k) value ≡ d
        now i d same at' =
            ground
              (arith, get_elem?-set r.chunks k (set c (n + 1 - 2 ^ k) value) i inside, at', same)

        sized :
            (i : ℕ) (d : List T) → get_elem? replaced.chunks i ≡ some d → length d ≡ filled i r.len
        sized i d at' = elim (ℕ_discrete i k) [
          | yes same ↦
              rw (← now i d same at', same) (length-set c (n + 1 - 2 ^ k) value ∙ h.sized k c at)
          | no other ↦ h.sized i d (was i d other at')
        ]

        own :
            (j : ℕ)
            → j < length c
            → get_elem? (set c (n + 1 - 2 ^ k) value) j ≡ get_elem? (set xs n value) (2 ^ k + j - 1)
        own j lt = ground (
          arith,
          get_elem?-set c (n + 1 - 2 ^ k) value j offset,
          get_elem?-set xs n value (2 ^ k + j - 1),
          h.entry k j c at lt,
          h.size,
          there,
          pow_pos k,
          low,
        )

        entry :
            (i j : ℕ) (d : List T)
            → get_elem? replaced.chunks i ≡ some d
            → j < length d
            → get_elem? d j ≡ get_elem? (set xs n value) (2 ^ i + j - 1)
        entry i j d at' lt = elim (ℕ_discrete i k) [
          | yes same ↦
              rw (← now i d same at', same)
                (own j (
                  omega
                    (arith, lt, length-set c (n + 1 - 2 ^ k) value, ap length (now i d same at'))))
          | no other ↦ ground (
            arith,
            get_elem?-set xs n value (2 ^ i + j - 1),
            h.entry i j d (was i d other at') lt,
            h.size,
            there,
            apart i j k n r.len (omega (arith, lt, sized i d at')) other low high,
          )
        ]

  replace_found :
      (r : Registry Key T) (n k : ℕ) (c : List T) (x value : T)
      → locate n ≡ done (k, n + 1 - 2 ^ k)
      → get_elem? r.chunks k ≡ some c
      → get_elem? c (n + 1 - 2 ^ k) ≡ some x
      → replace_at r n value
        ≡ done (record r { chunks = set r.chunks k (set c (n + 1 - 2 ^ k) value) }, x)
  unfolding replace_at
  replace_found r n k c x value l p q = rw (l, p, q) refl

module _ {Key T : Type 0} ⦃I : Identifier Key⦄ where
  -- On a registry that holds a list, `replace` through the id of an element of the list returns that
  -- element and puts the new one in its place, and nothing else changes; it does not panic.
  pub replace-set :
      (r : Registry Key T) (xs : List T) (id : Key) (x value : T)
      → Holds r xs
      → r.len < 2 ^ 64
      → get_elem? xs (I.into_usize id) ≡ some x
      → (r' : Registry Key T) × (replace r id value ≡ done (r', x))
        × Holds r' (set xs (I.into_usize id) value)
  unfolding replace
  replace-set r xs id x value h room e =
      let n : ℕ = I.into_usize id in
      let there : n < r.len = omega (arith, h.size, lt-length_of_get_elem? xs n e) in
      let (k, l, low, high) = locate_lem n (omega (arith, there, room)) in
      let (c, y, at, got, same) = found r xs n k h there low high in
      (
        replaced r xs n k c value h there low high at,
        replace_found r n k c x value l at (ground (arith, got, same, e)),
        replaced-Holds r xs n k c value h there low high at,
      )
