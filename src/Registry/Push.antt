-- ===== src/Registry/Push.antt =====
-- A push on a registry that holds a list.
use jstd.Base.{
  ℕ, suc, ◌+◌, ◌-◌, ◌^◌, ◌≤◌, ◌<◌, ◌≡◌, ◌≢◌, refl, ap, sym, subst, ◌∙◌, inl, inr, Bool-cases, false,
  ◌&&◌, ◌==◌, ==→eq, dec_lt, ℕ_discrete, some, List, [], ◌∷◌, ◌++◌, done, length, get_elem?, set,
  length-append, length-set, get_elem?-concat, get_elem?-set, get_elem?_lt, lt-length_of_get_elem?,
  arith,
}
use jstd.Identifier.{Identifier}
use jstd.Registry.{Registry, empty, push_all, from_iter, locate, grow, push}
use jstd.Registry.Locate.{pow_pos, pow_gap, locate_lem}
use native.Mathlib.Nat.{two-pow-succ}
use jstd.Registry.Holds.{filled, Holds, empty-Holds}

append_nil {ℓ} : {A : Type ℓ} (xs : List A) → xs ++ [] ≡ xs
append_nil [] = refl
append_nil (x ∷ xs) = ap (◌∷◌ x) (append_nil xs)

append_cons {ℓ} :
    {A : Type ℓ} (xs : List A) (y : A) (ys : List A) → (xs ++ y ∷ []) ++ ys ≡ xs ++ y ∷ ys
append_cons [] y ys = refl
append_cons (x ∷ xs) y ys = ap (◌∷◌ x) (append_cons xs y ys)

-- One more element changes the size of its own chunk only.
pub filled_other :
    (i k len : ℕ)
    → 2 ^ k ≤ len + 1
    → len + 1 < 2 ^ k + 2 ^ k
    → i ≢ k
    → filled i (len + 1) ≡ filled i len
filled_other i k len low high other = elim (dec_lt i k) [
  | yes below ↦ ground (arith, pow_gap i k below, pow_pos k)
  | no above ↦ ground (arith, pow_gap k i (ground (arith, above, other)), pow_pos i)
]

module _ {Key T : Type 0} where
  -- A fresh chunk holds nothing yet.
  fresh-Holds :
      (r : Registry Key T) (xs : List T)
      → Holds r xs
      → 2 ^ length r.chunks ≡ r.len + 1
      → Holds (record r { chunks = r.chunks ++ [] ∷ [] }) xs
  fresh-Holds r xs h full = record {
    size = h.size;
    sized = λ k c at.
        ground
          (arith, get_elem?-concat r.chunks [] k, h.sized k c, at, full, pow_pos (length r.chunks));
    entry = λ k j c at low. ground (arith, get_elem?-concat r.chunks [] k, h.entry k j c, at, low);
    covered =
        omega (
          arith,
          length-append r.chunks ([] ∷ []),
          two-pow-succ (length r.chunks),
          h.covered,
          more,
        );
  }
    where
      more : 2 ^ length (r.chunks ++ [] ∷ []) ≡ 2 ^ suc (length r.chunks)
      more = ap (λ n. 2 ^ n) (omega (arith, length-append r.chunks ([] ∷ [])))

  -- After `grow` the chunk of the next element exists.
  grown :
      (r : Registry Key T) (xs : List T) (k : ℕ)
      → Holds r xs
      → 2 ^ k ≤ r.len + 1
      → Holds (record r { chunks = grow r k (r.len + 1 - 2 ^ k) }) xs
        × (k < length (grow r k (r.len + 1 - 2 ^ k)))
  unfolding grow
  grown r xs k h low = elim (Bool-cases (r.len + 1 - 2 ^ k == 0 && length r.chunks == k)) [
    | inl fresh ↦
        let same : length r.chunks ≡ k = ground (arith, fresh) in
        let full : 2 ^ k ≡ r.len + 1 = ground (arith, fresh, low) in
        rw fresh (
          fresh-Holds r xs h (ap (λ n. 2 ^ n) same ∙ full),
          ground (arith, length-append r.chunks ([] ∷ []), same),
        )
    | inr there ↦ rw there (h, inside there)
  ]
    where
      inside : (r.len + 1 - 2 ^ k == 0 && length r.chunks == k) ≡ false → k < length r.chunks
      inside there = elim (dec_lt k (length r.chunks)) [
        | yes lt ↦ lt
        | no ge ↦ elim (Bool-cases (length r.chunks == k)) [
          | inl same ↦ absurd (
              ground (
                arith,
                same,
                there,
                low,
                h.covered,
                ap (λ n. 2 ^ n) (==→eq (length r.chunks) k same),
              ))
          | inr other ↦ absurd (
              omega (
                arith,
                h.covered,
                low,
                pow_pos (length r.chunks),
                pow_gap (length r.chunks) k (ground (arith, other, ge)),
              ))
        ]
      ]

  module _ (r : Registry Key T) (xs : List T) (k : ℕ) (c : List T) (e : T) (h : Holds r xs)
      (low : 2 ^ k ≤ r.len + 1) (high : r.len + 1 < 2 ^ k + 2 ^ k)
      (at : get_elem? r.chunks k ≡ some c) where
    abbrev pushed : Registry Key T
    pushed = record { chunks = set r.chunks k (c ++ e ∷ []); len = r.len + 1 }

    pushed-Holds : Holds pushed (xs ++ e ∷ [])
    pushed-Holds = record {
      size = omega (arith, h.size, length-append xs (e ∷ []));
      sized = sized;
      entry = entry;
      covered = omega (
        arith,
        high,
        pow_gap k (length r.chunks) inside,
        length-set r.chunks k (c ++ e ∷ []),
        ap (λ n. 2 ^ n) (length-set r.chunks k (c ++ e ∷ [])),
      );
    }
      where
        inside : k < length r.chunks
        inside = lt-length_of_get_elem? r.chunks k at

        was :
            (i : ℕ) (d : List T)
            → i ≢ k
            → get_elem? pushed.chunks i ≡ some d
            → get_elem? r.chunks i ≡ some d
        was i d other at' =
            ground (arith, get_elem?-set r.chunks k (c ++ e ∷ []) i inside, at', other)

        now : (i : ℕ) (d : List T) → i ≡ k → get_elem? pushed.chunks i ≡ some d → c ++ e ∷ [] ≡ d
        now i d same at' =
            ground (arith, get_elem?-set r.chunks k (c ++ e ∷ []) i inside, at', same)

        sized :
            (i : ℕ) (d : List T)
            → get_elem? pushed.chunks i ≡ some d
            → length d ≡ filled i pushed.len
        sized i d at' = elim (ℕ_discrete i k) [
          | yes same ↦
              rw (← now i d same at', same)
                (ground (arith, h.sized k c at, length-append c (e ∷ []), low, high))
          | no other ↦ h.sized i d (was i d other at') ∙ sym (filled_other i k r.len low high other)
        ]

        last :
            (j : ℕ)
            → j < length c + 1
            → get_elem? (c ++ e ∷ []) j ≡ get_elem? (xs ++ e ∷ []) (2 ^ k + j - 1)
        last j lt = ground (
          arith,
          get_elem?-concat c e j,
          get_elem?-concat xs e (2 ^ k + j - 1),
          h.entry k j c at,
          h.sized k c at,
          h.size,
          pow_pos k,
        )

        entry :
            (i j : ℕ) (d : List T)
            → get_elem? pushed.chunks i ≡ some d
            → j < length d
            → get_elem? d j ≡ get_elem? (xs ++ e ∷ []) (2 ^ i + j - 1)
        entry i j d at' lt = elim (ℕ_discrete i k) [
          | yes same ↦
              rw (← now i d same at', same)
                (last j (omega (arith, lt, length-append c (e ∷ []), ap length (now i d same at'))))
          | no other ↦ ground (
            arith,
            get_elem?-concat xs e (2 ^ i + j - 1),
            h.entry i j d (was i d other at') lt,
            h.sized i d (was i d other at'),
            h.size,
            pow_pos i,
            lt,
          )
        ]

module _ {Key T : Type 0} ⦃I : Identifier Key⦄ where
  push_at :
      (r : Registry Key T) (e : T) (k : ℕ) (c : List T)
      → locate r.len ≡ done (k, r.len + 1 - 2 ^ k)
      → get_elem? (grow r k (r.len + 1 - 2 ^ k)) k ≡ some c
      → push r e
        ≡ done (
          record { chunks = set (grow r k (r.len + 1 - 2 ^ k)) k (c ++ e ∷ []); len = r.len + 1 },
          I.from_usize r.len,
        )
  unfolding push
  push_at r e k c l p = rw (l, p) refl

  -- On a registry that holds a list and has room for one more index, a push appends the element to
  -- the list and returns the old length as the id; it does not panic.
  pub push-append :
      (r : Registry Key T) (xs : List T) (e : T)
      → Holds r xs
      → r.len + 1 < 2 ^ 64
      → (r' : Registry Key T) × (push r e ≡ done (r', I.from_usize (length xs)))
        × Holds r' (xs ++ e ∷ [])
  push-append r xs e h room =
      let (k, l, low, high) = locate_lem r.len room in
      let (h', inside) = grown r xs k h low in
      let (c, at) = get_elem?_lt (grow r k (r.len + 1 - 2 ^ k)) k inside in
      (
        pushed (record r { chunks = grow r k (r.len + 1 - 2 ^ k) }) xs k c e h' low high at,
        rw h.size (push_at r e k c l at),
        pushed-Holds (record r { chunks = grow r k (r.len + 1 - 2 ^ k) }) xs k c e h' low high at,
      )

  push_all-append :
      (r : Registry Key T) (xs ys : List T)
      → Holds r xs
      → r.len + length ys < 2 ^ 64
      → (r' : Registry Key T) × (push_all r ys ≡ done r') × Holds r' (xs ++ ys)
  unfolding push_all
  push_all-append r xs [] h room = (r, refl, subst (Holds r) (sym (append_nil xs)) h)
  push_all-append r xs (y ∷ ys) h room =
      let (s, pushed, hs) = push-append r xs y h (omega (arith, room)) in
      let (t, rest, ht) =
        push_all-append s (xs ++ y ∷ []) ys hs
          (omega (arith, room, hs.size, h.size, length-append xs (y ∷ []))) in
      (t, rw pushed rest, subst (Holds t) (append_cons xs y ys) ht)

  -- A registry that is collected from fewer than `2 ^ 64` elements holds exactly these, in their
  -- order; the collection does not panic.
  pub from_iter-Holds :
      (elements : List T)
      → length elements < 2 ^ 64
      → (r : Registry Key T) × (from_iter elements ≡ done r) × Holds r elements
  unfolding from_iter empty
  from_iter-Holds elements room =
      push_all-append empty [] elements empty-Holds (omega (arith, room))
