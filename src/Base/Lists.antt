-- ===== src/Base/Lists.antt =====
-- `Vec` as a list with native indices. A read out of range is `none` in `get_elem?`, and a panic in
-- `index`.
use Prim.Native.Nat.{ℕ, zero, suc, ◌+◌, ◌-◌, ◌≤◌, ◌<◌}
use mathlib.Core.Path.{◌≡◌, refl, ap}
use mathlib.Core.Bool.{Bool, false, ◌||◌}
use mathlib.Core.Option.{Option, none, some}
use mathlib.Core.List.{List, [], ◌∷◌, ◌++◌}
use native.Mathlib.Omega.{arith}
use jstd.Base.Tests.{ltb, ◌==◌, if◌then◌else◌}
use jstd.Base.Panics.{Outcome, done, panic, ◌>>=◌, unwrap}

abbrev pub member : ℕ → List ℕ → Bool
member a [] = false
member a (x ∷ xs) = a == x || member a xs

module _ {ℓ} {A : Type ℓ} where
  abbrev pub length : List A → ℕ
  length [] = 0
  length (x ∷ xs) = suc (length xs)

  abbrev pub get_elem? : List A → ℕ → Option A
  get_elem? [] i = none
  get_elem? (x ∷ xs) zero = some x
  get_elem? (x ∷ xs) (suc i) = get_elem? xs i

  abbrev pub set : List A → ℕ → A → List A
  set [] i v = []
  set (x ∷ xs) zero v = v ∷ xs
  set (x ∷ xs) (suc i) v = x ∷ set xs i v

  abbrev pub take : ℕ → List A → List A
  take zero xs = []
  take (suc n) [] = []
  take (suc n) (x ∷ xs) = x ∷ take n xs

  abbrev pub replicate : ℕ → A → List A
  replicate zero x = []
  replicate (suc n) x = x ∷ replicate n x

  -- `xs[i]`
  abbrev pub index : List A → ℕ → Outcome A
  index xs i = unwrap (get_elem? xs i)

  -- `xs[i] = v`
  abbrev pub set_at : List A → ℕ → A → Outcome (List A)
  set_at xs i v = if ltb i (length xs) then done (set xs i v) else panic

  -- `Vec::swap_remove`: the last element takes the place of the one removed.
  abbrev pub swap_remove : List A → ℕ → Outcome (A × List A)
  swap_remove xs i = do
    removed ← index xs i
    last ← index xs (length xs - 1)
    done (removed, take (length xs - 1) (set xs i last))

  pub length-append : (xs ys : List A) → length (xs ++ ys) ≡ length xs + length ys
  length-append [] ys = omega arith
  length-append (x ∷ xs) ys = omega (arith, length-append xs ys)

  pub length-set : (xs : List A) (i : ℕ) (v : A) → length (set xs i v) ≡ length xs
  length-set [] i v = refl
  length-set (x ∷ xs) zero v = refl
  length-set (x ∷ xs) (suc i) v = ap suc (length-set xs i v)

  pub length-take : (n : ℕ) (xs : List A) → n ≤ length xs → length (take n xs) ≡ n
  length-take zero xs h = refl
  length-take (suc n) [] h = omega arith
  length-take (suc n) (x ∷ xs) h = ap suc (length-take n xs (omega arith))

  pub length-take_min :
      (n : ℕ) (xs : List A) → length (take n xs) ≡ (if ltb n (length xs) then n else length xs)
  length-take_min zero [] = refl
  length-take_min zero (x ∷ xs) = ground arith
  length-take_min (suc n) [] = ground arith
  length-take_min (suc n) (x ∷ xs) = ground (arith, length-take_min n xs)

  pub length-replicate : (n : ℕ) (x : A) → length (replicate n x) ≡ n
  length-replicate zero x = refl
  length-replicate (suc n) x = ap suc (length-replicate n x)

  pub get_elem?-set :
      (xs : List A) (i : ℕ) (v : A) (j : ℕ)
      → i < length xs
      → get_elem? (set xs i v) j ≡ (if i == j then some v else get_elem? xs j)
  get_elem?-set [] i v j h = absurd (omega arith)
  get_elem?-set (x ∷ xs) zero v zero h = refl
  get_elem?-set (x ∷ xs) zero v (suc j) h = ground arith
  get_elem?-set (x ∷ xs) (suc i) v zero h = ground arith
  get_elem?-set (x ∷ xs) (suc i) v (suc j) h = ground (arith, get_elem?-set xs i v j)

  pub get_elem?-concat :
      (xs : List A) (x : A) (j : ℕ)
      → get_elem? (xs ++ x ∷ []) j ≡ (if length xs == j then some x else get_elem? xs j)
  get_elem?-concat [] x zero = refl
  get_elem?-concat [] x (suc j) = ground arith
  get_elem?-concat (y ∷ xs) x zero = ground arith
  get_elem?-concat (y ∷ xs) x (suc j) = ground (arith, get_elem?-concat xs x j)

  pub get_elem?-middle :
      (xs : List A) (x : A) (ys : List A) → get_elem? (xs ++ x ∷ ys) (length xs) ≡ some x
  get_elem?-middle [] x ys = refl
  get_elem?-middle (y ∷ xs) x ys = get_elem?-middle xs x ys

  pub get_elem?-take :
      (n : ℕ) (xs : List A) (j : ℕ)
      → get_elem? (take n xs) j ≡ (if ltb j n then get_elem? xs j else none)
  get_elem?-take zero xs j = ground arith
  get_elem?-take (suc n) [] j = ground arith
  get_elem?-take (suc n) (x ∷ xs) zero = ground arith
  get_elem?-take (suc n) (x ∷ xs) (suc j) = ground (arith, get_elem?-take n xs j)

  pub get_elem?-replicate :
      (n : ℕ) (x : A) (j : ℕ) → get_elem? (replicate n x) j ≡ (if ltb j n then some x else none)
  get_elem?-replicate zero x j = ground arith
  get_elem?-replicate (suc n) x zero = ground arith
  get_elem?-replicate (suc n) x (suc j) = ground (arith, get_elem?-replicate n x j)

  pub lt-length_of_get_elem? :
      (xs : List A) (i : ℕ) {x : A} → get_elem? xs i ≡ some x → i < length xs
  lt-length_of_get_elem? [] i h = cc
  lt-length_of_get_elem? (y ∷ xs) zero h = omega arith
  lt-length_of_get_elem? (y ∷ xs) (suc i) h = omega (arith, lt-length_of_get_elem? xs i h)

  pub get_elem?_lt : (xs : List A) (i : ℕ) → i < length xs → (x : A) × (get_elem? xs i ≡ some x)
  get_elem?_lt [] i h = absurd (omega arith)
  get_elem?_lt (x ∷ xs) zero h = (x, refl)
  get_elem?_lt (x ∷ xs) (suc i) h = get_elem?_lt xs i (omega arith)

  pub get_elem?_ge : (xs : List A) (i : ℕ) → length xs ≤ i → get_elem? xs i ≡ none
  get_elem?_ge [] i h = refl
  get_elem?_ge (x ∷ xs) zero h = absurd (omega arith)
  get_elem?_ge (x ∷ xs) (suc i) h = get_elem?_ge xs i (omega arith)

  pub ge_of_get_elem?-none : (xs : List A) (i : ℕ) → get_elem? xs i ≡ none → length xs ≤ i
  ge_of_get_elem?-none [] i h = omega arith
  ge_of_get_elem?-none (x ∷ xs) zero h = cc
  ge_of_get_elem?-none (x ∷ xs) (suc i) h = omega (arith, ge_of_get_elem?-none xs i h)

  pub List-ext : (xs ys : List A) → ((i : ℕ) → get_elem? xs i ≡ get_elem? ys i) → xs ≡ ys
  List-ext [] [] h = refl
  List-ext [] (y ∷ ys) h = cc (h 0)
  List-ext (x ∷ xs) [] h = cc (h 0)
  List-ext (x ∷ xs) (y ∷ ys) h = ground (arith, h 0, List-ext xs ys (λ i. h (suc i)))

  -- What `swap_remove` returns for an index in range.
  pub record SwapRemoved (xs : List A) (i : ℕ) (x : A) (ys : List A) : Type ℓ where
    pub removed : get_elem? xs i ≡ some x
    pub shorter : length ys + 1 ≡ length xs
    pub kept :
        (j : ℕ)
        → get_elem? ys j ≡ (
            if ltb j (length xs - 1)
            then (if i == j then get_elem? xs (length xs - 1) else get_elem? xs j)
            else none)

  pub swap_remove_lem :
      (xs : List A) (i : ℕ) (x : A)
      → get_elem? xs i ≡ some x
      → (ys : List A) × (swap_remove xs i ≡ done (x, ys)) × SwapRemoved xs i x ys
  swap_remove_lem xs i x got =
      let h = lt-length_of_get_elem? xs i got in
      let (last, end) = get_elem?_lt xs (length xs - 1) (omega arith) in
      (
        take (length xs - 1) (set xs i last),
        rw (got, end) refl,
        record {
          removed = got;
          shorter =
              omega (arith, length-take (length xs - 1) (set xs i last), length-set xs i last);
          kept = λ j.
              rw
                (get_elem?-take (length xs - 1) (set xs i last) j, get_elem?-set xs i last j h, end)
                refl;
        },
      )
