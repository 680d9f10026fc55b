-- ===== src/Registry/Shrink.antt =====
-- `truncate` on a registry that holds a list.
use jstd.Base.{
  ℕ, zero, suc, ◌+◌, ◌-◌, ◌^◌, ◌≤◌, ◌<◌, ◌≡◌, ◌≢◌, refl, ap, sym, subst, ◌∙◌, dec_lt, ℕ_discrete,
  some, List, [], ◌∷◌, done, length, get_elem?, set, take, length-take, length-take_min,
  get_elem?-take, length-set, get_elem?-set, lt-length_of_get_elem?, arith,
}
use jstd.Registry.{Registry, locate, drop_last, truncate}
use jstd.Registry.Locate.{pow_pos, locate_lem}
use jstd.Registry.Holds.{filled, Holds, found}
use jstd.Registry.Push.{filled_other}

module _ {ℓ} {A : Type ℓ} where
  take-take : (m n : ℕ) (xs : List A) → m ≤ n → take m (take n xs) ≡ take m xs
  take-take zero n xs h = refl
  take-take (suc m) zero xs h = absurd (omega arith)
  take-take (suc m) (suc n) [] h = refl
  take-take (suc m) (suc n) (x ∷ xs) h = ap (◌∷◌ x) (take-take m n xs (omega arith))

  take_all : (n : ℕ) (xs : List A) → length xs ≤ n → take n xs ≡ xs
  take_all zero [] h = refl
  take_all zero (x ∷ xs) h = absurd (omega arith)
  take_all (suc n) [] h = refl
  take_all (suc n) (x ∷ xs) h = ap (◌∷◌ x) (take_all n xs (omega arith))

module _ {Key T : Type 0} where
  module _ (r : Registry Key T) (xs : List T) (n k : ℕ) (c : List T) (h : Holds r xs)
      (some_left : r.len ≡ n + 1) (low : 2 ^ k ≤ n + 1) (high : n + 1 < 2 ^ k + 2 ^ k)
      (at : get_elem? r.chunks k ≡ some c) where
    abbrev shrunk : Registry Key T
    shrunk = record { chunks = set r.chunks k (take (n + 1 - 2 ^ k) c); len = n }

    shrunk-Holds : Holds shrunk (take n xs)
    shrunk-Holds = record {
      size = length-take n xs (omega (arith, some_left, h.size));
      sized = sized;
      entry = entry;
      covered = omega (
        arith,
        h.covered,
        some_left,
        length-set r.chunks k (take (n + 1 - 2 ^ k) c),
        ap (λ n. 2 ^ n) (length-set r.chunks k (take (n + 1 - 2 ^ k) c)),
      );
    }
      where
        inside : k < length r.chunks
        inside = lt-length_of_get_elem? r.chunks k at

        was :
            (i : ℕ) (d : List T)
            → i ≢ k
            → get_elem? shrunk.chunks i ≡ some d
            → get_elem? r.chunks i ≡ some d
        was i d other at' =
            ground (arith, get_elem?-set r.chunks k (take (n + 1 - 2 ^ k) c) i inside, at', other)

        now :
            (i : ℕ) (d : List T)
            → i ≡ k
            → get_elem? shrunk.chunks i ≡ some d
            → take (n + 1 - 2 ^ k) c ≡ d
        now i d same at' =
            ground (arith, get_elem?-set r.chunks k (take (n + 1 - 2 ^ k) c) i inside, at', same)

        before : (i : ℕ) → filled i r.len ≡ filled i (n + 1)
        before i = ap (filled i) some_left

        sized : (i : ℕ) (d : List T) → get_elem? shrunk.chunks i ≡ some d → length d ≡ filled i n
        sized i d at' = elim (ℕ_discrete i k) [
          | yes same ↦
              rw (← now i d same at', same)
                (ground
                  (arith, h.sized k c at, before k, length-take_min (n + 1 - 2 ^ k) c, low, high))
          | no other ↦
              h.sized i d (was i d other at') ∙ before i ∙ filled_other i k n low high other
        ]

        last :
            (j : ℕ)
            → j < n + 1 - 2 ^ k
            → get_elem? (take (n + 1 - 2 ^ k) c) j ≡ get_elem? (take n xs) (2 ^ k + j - 1)
        last j lt = ground (
          arith,
          get_elem?-take (n + 1 - 2 ^ k) c j,
          get_elem?-take n xs (2 ^ k + j - 1),
          h.entry k j c at,
          h.sized k c at,
          before k,
          pow_pos k,
          lt,
          low,
          high,
        )

        entry :
            (i j : ℕ) (d : List T)
            → get_elem? shrunk.chunks i ≡ some d
            → j < length d
            → get_elem? d j ≡ get_elem? (take n xs) (2 ^ i + j - 1)
        entry i j d at' lt = elim (ℕ_discrete i k) [
          | yes same ↦
              rw (← now i d same at', same)
                (last j (
                  ground
                    (arith, lt, length-take_min (n + 1 - 2 ^ k) c, ap length (now i d same at'))))
          | no other ↦ ground (
            arith,
            get_elem?-take n xs (2 ^ i + j - 1),
            h.entry i j d (was i d other at') lt,
            sized i d at',
            pow_pos i,
            lt,
          )
        ]

  drop_last_step :
      (r : Registry Key T) (n m k : ℕ) (c : List T)
      → r.len ≡ n + 1
      → locate n ≡ done (k, n + 1 - 2 ^ k)
      → get_elem? r.chunks k ≡ some c
      → drop_last r (suc m)
        ≡ drop_last (record { chunks = set r.chunks k (take (n + 1 - 2 ^ k) c); len = n }) m
  unfolding drop_last
  drop_last_step r n m k c e l at =
      let pred : r.len - 1 ≡ n = omega (arith, e) in rw (pred, l, at) refl

  drop_last_lem :
      (m n : ℕ) (r : Registry Key T) (xs : List T)
      → Holds r xs
      → r.len ≡ n + m
      → r.len < 2 ^ 64
      → (r' : Registry Key T) × (drop_last r m ≡ done r') × Holds r' (take n xs)
  unfolding drop_last
  drop_last_lem zero n r xs h e room =
      (r, refl, subst (Holds r) (sym (take_all n xs (omega (arith, h.size, e)))) h)
  drop_last_lem (suc m) n r xs h e room =
      let (k, l, low, high) = locate_lem (n + m) (omega (arith, e, room)) in
      let left : r.len ≡ n + m + 1 = omega (arith, e) in
      let (c, x, at, _, _) = found r xs (n + m) k h (omega (arith, e)) low high in
      let (r', dropped, h') =
        drop_last_lem m n (shrunk r xs (n + m) k c h left low high at) (take (n + m) xs)
          (shrunk-Holds r xs (n + m) k c h left low high at) refl (omega (arith, e, room)) in
      (
        r',
        drop_last_step r (n + m) m k c left l at ∙ dropped,
        subst (Holds r') (take-take n (n + m) xs (omega arith)) h',
      )

  -- On a registry that holds a list of fewer than `2 ^ 64` elements, `truncate` does not panic and
  -- cuts the list to the given length, or leaves it if it is shorter.
  pub truncate-take :
      (r : Registry Key T) (xs : List T) (len : ℕ)
      → Holds r xs
      → r.len < 2 ^ 64
      → (r' : Registry Key T) × (truncate r len ≡ done r') × Holds r' (take len xs)
  unfolding truncate
  truncate-take r xs len h room = elim (dec_lt len r.len) [
    | yes shorter ↦ drop_last_lem (r.len - len) len r xs h (omega (arith, shorter)) room
    | no longer ↦
        let (r', dropped, h') = drop_last_lem 0 r.len r xs h (omega arith) room in
        let nothing : r.len - len ≡ 0 = omega (arith, longer) in
        (
          r',
          rw nothing dropped,
          subst (Holds r')
              (take_all r.len xs (omega (arith, h.size))
                ∙ sym (take_all len xs (omega (arith, h.size, longer))))
              h',
        )
  ]
