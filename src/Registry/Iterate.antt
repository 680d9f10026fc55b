-- ===== src/Registry/Iterate.antt =====
-- Iteration over a registry that holds a list.
use native.Mathlib.Nat.{two-pow-succ, pow-le-pow_right}
use jstd.Base.{
  ℕ, zero, suc, ◌+◌, ◌-◌, ◌^◌, ◌≤◌, ◌<◌, ◌≡◌, refl, ap, subst, sym, ap₂, ◌∙◌, some, List, [], ◌∷◌,
  ◌++◌, dec_lt, length, get_elem?, take, length-take_min, get_elem?-take, get_elem?_ge, List-ext,
  arith,
}
use jstd.Identifier.{Identifier}
use jstd.Registry.{Registry, flatten, number, iter}
use jstd.Registry.Holds.{filled, Holds}

module _ {ℓ} {A : Type ℓ} where
  abbrev drop : ℕ → List A → List A
  drop zero xs = xs
  drop (suc n) [] = []
  drop (suc n) (x ∷ xs) = drop n xs

  take-drop : (n : ℕ) (xs : List A) → take n xs ++ drop n xs ≡ xs
  take-drop zero xs = refl
  take-drop (suc n) [] = refl
  take-drop (suc n) (x ∷ xs) = ap (◌∷◌ x) (take-drop n xs)

  length-drop : (n : ℕ) (xs : List A) → length (drop n xs) ≡ length xs - n
  length-drop zero xs = omega arith
  length-drop (suc n) [] = omega arith
  length-drop (suc n) (x ∷ xs) = omega (arith, length-drop n xs)

  get_elem?-drop :
      (n : ℕ) (xs : List A) (i m : ℕ) → m ≡ n + i → get_elem? (drop n xs) i ≡ get_elem? xs m
  get_elem?-drop zero xs i m e = ap (get_elem? xs) (omega (arith, e))
  get_elem?-drop (suc n) [] i m e = refl
  get_elem?-drop (suc n) (x ∷ xs) i zero e = absurd (omega (arith, e))
  get_elem?-drop (suc n) (x ∷ xs) i (suc m) e = get_elem?-drop n xs i m (omega (arith, e))

module _ {T : Type 0} (len : ℕ) where
  -- The chunks from the `k`-th on, read one after the other, are the list `zs`.
  record Spread (k : ℕ) (cs : List (List T)) (zs : List T) : Type 0 where
    rest : length zs ≡ len + 1 - 2 ^ k
    sized : (i m : ℕ) (c : List T) → m ≡ k + i → get_elem? cs i ≡ some c → length c ≡ filled m len
    entry :
        (i m j : ℕ) (c : List T)
        → m ≡ k + i
        → get_elem? cs i ≡ some c
        → j < length c
        → get_elem? c j ≡ get_elem? zs (2 ^ m + j - 2 ^ k)
    covered : (m : ℕ) → m ≡ k + length cs → len < 2 ^ m

  first-chunk :
      (k : ℕ) (c : List T) (cs : List (List T)) (zs : List T)
      → Spread k (c ∷ cs) zs
      → c ≡ take (2 ^ k) zs
  first-chunk k c cs zs s = List-ext c (take (2 ^ k) zs) λ j. elim (dec_lt j (length c)) [
    | yes inside ↦
        s.entry 0 k j c (omega arith) refl inside
        ∙ ap (get_elem? zs) (back j)
        ∙ ground (arith, get_elem?-take (2 ^ k) zs j, s.sized 0 k c (omega arith) refl, inside)
    | no outside ↦
        get_elem?_ge c j (omega (arith, outside))
        ∙ sym (
            get_elem?_ge (take (2 ^ k) zs) j (
              ground (
                arith,
                s.sized 0 k c (omega arith) refl,
                outside,
                length-take_min (2 ^ k) zs,
                s.rest,
              )))
  ]
    where
      back : (j : ℕ) → 2 ^ k + j - 2 ^ k ≡ j
      back j = omega arith

  later-chunks :
      (k : ℕ) (c : List T) (cs : List (List T)) (zs : List T)
      → Spread k (c ∷ cs) zs
      → Spread (suc k) cs (drop (2 ^ k) zs)
  later-chunks k c cs zs s = record {
    rest = omega (arith, length-drop (2 ^ k) zs, s.rest, two-pow-succ k);
    sized = λ i m d e at. s.sized (suc i) m d (omega (arith, e)) at;
    entry = λ i m j d e at lt.
        let more : 2 ^ suc k ≤ 2 ^ m =
          pow-le-pow_right (omega arith) {i = suc k} {j = m} (omega (arith, e)) in
        s.entry (suc i) m j d (omega (arith, e)) at lt
        ∙ sym (
            get_elem?-drop (2 ^ k) zs (2 ^ m + j - 2 ^ suc k) (2 ^ m + j - 2 ^ k)
              (omega (arith, more, two-pow-succ k)));
    covered = λ m e. s.covered m (omega (arith, e));
  }

  flatten-Spread : (cs : List (List T)) (k : ℕ) (zs : List T) → Spread k cs zs → flatten cs ≡ zs
  flatten-Spread [] k [] s = refl
  flatten-Spread [] k (z ∷ zs) s = absurd (omega (arith, s.rest, s.covered k (omega arith)))
  flatten-Spread (c ∷ cs) k zs s =
      ap₂ (λ a b. a ++ b) (first-chunk k c cs zs s)
        (flatten-Spread cs (suc k) (drop (2 ^ k) zs) (later-chunks k c cs zs s))
      ∙ take-drop (2 ^ k) zs

module _ {Key T : Type 0} ⦃I : Identifier Key⦄ where
  pub flatten-Holds : (r : Registry Key T) (xs : List T) → Holds r xs → flatten r.chunks ≡ xs
  flatten-Holds r xs h = flatten-Spread r.len r.chunks 0 xs (record {
    rest = omega (arith, h.size);
    sized = λ i m c e at. h.sized m c (there i m c e at);
    entry = λ i m j c e at lt. h.entry m j c (there i m c e at) lt;
    covered = λ m e. subst (λ n. r.len < 2 ^ n) (sym (zero_add e)) h.covered;
  })
    where
      zero_add : {m n : ℕ} → m ≡ 0 + n → m ≡ n
      zero_add e = omega (arith, e)

      there :
          (i m : ℕ) (c : List T)
          → m ≡ 0 + i
          → get_elem? r.chunks i ≡ some c
          → get_elem? r.chunks m ≡ some c
      there i m c e at = subst (λ n. get_elem? r.chunks n ≡ some c) (sym (zero_add e)) at

  -- Iteration over a registry that holds a list yields the elements of the list in their order, each
  -- with its index as the id.
  pub iter-number : (r : Registry Key T) (xs : List T) → Holds r xs → iter r ≡ number 0 xs
  unfolding iter
  iter-number r xs h = ap (number 0) (flatten-Holds r xs h)
