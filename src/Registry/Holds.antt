-- ===== src/Registry/Holds.antt =====
-- A registry holds a flat list: growth, reads and writes.
use jstd.Base.{
  ℕ, ◌+◌, ◌-◌, ◌^◌, ◌≤◌, ◌<◌, ◌≡◌, refl, inl, inr, Bool-cases, Option-cases, leb, ◌==◌, ==→eq,
  if◌then◌else◌, dec_lt, none, some, List, [], done, panic, unwrap, length, get_elem?, get_elem?_lt,
  get_elem?_ge, arith,
}
use jstd.Registry.{Registry, empty, locate, at}
use jstd.Registry.Locate.{pow_pos, pow_gap, locate_lem}

-- The elements in the chunk `k` of a registry of `len` elements.
abbrev pub filled : ℕ → ℕ → ℕ
filled k len = if leb (2 ^ k + 2 ^ k) (len + 1) then 2 ^ k else len + 1 - 2 ^ k

module _ {Key T : Type 0} where
  -- The chunks, read one after the other, are the list, and there is a chunk for every element.
  pub record Holds (r : Registry Key T) (xs : List T) : Type 0 where
    pub size : length xs ≡ r.len
    pub sized : (k : ℕ) (c : List T) → get_elem? r.chunks k ≡ some c → length c ≡ filled k r.len
    pub entry :
        (k j : ℕ) (c : List T)
        → get_elem? r.chunks k ≡ some c
        → j < length c
        → get_elem? c j ≡ get_elem? xs (2 ^ k + j - 1)
    pub covered : r.len < 2 ^ length r.chunks

  pub empty-Holds : Holds empty []
  unfolding empty
  empty-Holds = record {
    size = refl;
    sized = λ k c at. cc;
    entry = λ k j c at lt. cc;
    covered = omega arith;
  }

  -- The chunk of an element that is there, or of the next one, exists once there is one more chunk
  -- than full ones.
  chunk_lt :
      (r : Registry Key T) (xs : List T) (k : ℕ) → Holds r xs → 2 ^ k ≤ r.len → k < length r.chunks
  chunk_lt r xs k h low = elim (dec_lt k (length r.chunks)) [
    | yes inside ↦ inside
    | no outside ↦ elim (Bool-cases (length r.chunks == k)) [
      | inl same ↦ ground (arith, ==→eq (length r.chunks) k same, h.covered)
      | inr other ↦ absurd (
          omega
            (arith, h.covered, low, pow_gap (length r.chunks) k (ground (arith, other, outside))))
    ]
  ]

  -- Reading an element that the list has.
  pub found :
      (r : Registry Key T) (xs : List T) (n k : ℕ)
      → Holds r xs
      → n < r.len
      → 2 ^ k ≤ n + 1
      → n + 1 < 2 ^ k + 2 ^ k
      → (c : List T) × (x : T) × (get_elem? r.chunks k ≡ some c)
        × (get_elem? c (n + 1 - 2 ^ k) ≡ some x)
        × (get_elem? xs n ≡ some x)
  found r xs n k h inside low high =
      let (c, at) = get_elem?_lt r.chunks k (chunk_lt r xs k h (omega arith)) in
      let offset : n + 1 - 2 ^ k < length c = ground (arith, h.sized k c at) in
      let (x, got) = get_elem?_lt c (n + 1 - 2 ^ k) offset in
      let back : 2 ^ k + (n + 1 - 2 ^ k) - 1 ≡ n = omega (arith, pow_pos k) in
      (c, x, at, got, ground (arith, h.entry k (n + 1 - 2 ^ k) c at offset, back, got))

  at_found :
      (r : Registry Key T) (n k : ℕ) (c : List T) (x : T)
      → locate n ≡ done (k, n + 1 - 2 ^ k)
      → get_elem? r.chunks k ≡ some c
      → get_elem? c (n + 1 - 2 ^ k) ≡ some x
      → at r n ≡ done x
  unfolding at
  at_found r n k c x l p q = rw (l, p, q) refl

  at_missing :
      (r : Registry Key T) (xs : List T) (n k : ℕ)
      → Holds r xs
      → r.len ≤ n
      → 2 ^ k ≤ n + 1
      → n + 1 < 2 ^ k + 2 ^ k
      → locate n ≡ done (k, n + 1 - 2 ^ k)
      → at r n ≡ panic
  unfolding at
  at_missing r xs n k h out low high l = elim (Option-cases (get_elem? r.chunks k)) [
    | inl missing ↦ rw (l, missing) refl
    | inr (c, at) ↦
        let short : get_elem? c (n + 1 - 2 ^ k) ≡ none =
          get_elem?_ge c (n + 1 - 2 ^ k) (ground (arith, h.sized k c at)) in
        rw (l, at, short) refl
  ]

  -- On a registry that holds a list, an index below the largest `usize` reads the element of the
  -- list, and panics where the list has none.
  pub at-get_elem? :
      (r : Registry Key T) (xs : List T) (n : ℕ)
      → Holds r xs
      → n + 1 < 2 ^ 64
      → at r n ≡ unwrap (get_elem? xs n)
  at-get_elem? r xs n h small =
      let (k, l, low, high) = locate_lem n small in
      elim (dec_lt n r.len) [
        | yes inside ↦
            let (c, x, p, q, e) = found r xs n k h inside low high in
            ground (arith, at_found r n k c x l p q, e)
        | no outside ↦ ground (
          arith,
          at_missing r xs n k h (omega (arith, outside)) low high l,
          get_elem?_ge xs n (omega (arith, outside, h.size)),
        )
      ]
