-- ===== src/StableArena/Wire/Load.antt =====
-- One accepted entry keeps the arena valid and is appended to what `serialize` writes.
use mathlib.Core.List.{zip}
use jstd.Base.{
  ℕ, zero, suc, ◌≤◌, ◌<◌, ◌≡◌, refl, ap, ◌∙◌, some, List, [], ◌∷◌, ◌++◌, map, length, get_elem?,
  replicate, length-append, length-set, length-replicate, get_elem?-concat, get_elem?-set,
  get_elem?-replicate, lt-length_of_get_elem?, arith,
}
use jstd.Identifier.{Identifier}
use jstd.StableArena.{StableArena, dead}
use jstd.StableArena.Valid.{live_count, live_count-le, live_count-set, IsValid}
use jstd.StableArena.Wire.{serialize, placed}

module _ {ℓ κ} {A : Type ℓ} {B : Type κ} where
  zip-concat :
      (xs : List A) (ys : List B) (x : A) (y : B)
      → length xs ≡ length ys
      → zip (xs ++ x ∷ []) (ys ++ y ∷ []) ≡ zip xs ys ++ (x, y) ∷ []
  unfolding zip
  zip-concat [] [] x y h = refl
  zip-concat [] (b ∷ ys) x y h = absurd (omega arith)
  zip-concat (a ∷ xs) [] x y h = absurd (omega arith)
  zip-concat (a ∷ xs) (b ∷ ys) x y h = ap (◌∷◌ (a, b)) (zip-concat xs ys x y (omega arith))

  pub length-map : (f : A → B) (xs : List A) → length (map f xs) ≡ length xs
  length-map f [] = refl
  length-map f (x ∷ xs) = ap suc (length-map f xs)

  map-concat : (f : A → B) (xs : List A) (x : A) → map f (xs ++ x ∷ []) ≡ map f xs ++ f x ∷ []
  map-concat f [] x = refl
  map-concat f (y ∷ xs) x = ap (◌∷◌ (f y)) (map-concat f xs x)

live_count-replicate : (n : ℕ) → live_count (replicate n dead) ≡ 0
live_count-replicate zero = refl
live_count-replicate (suc n) = omega (arith, live_count-replicate n)

module _ {Key T : Type 0} ⦃I : Identifier Key⦄ where
  pub blank-IsValid :
      (n : ℕ)
      → n ≤ dead
      → ((raw : ℕ) → raw < n → I.into_usize (I.from_usize raw) ≡ raw)
      → IsValid {Key = Key} {T = T}
          (record { values = []; slot_ids = []; locations = replicate n dead })
  blank-IsValid n short fit = record {
    parallel = refl;
    issued_le = omega (arith, length-replicate n dead);
    counted = live_count-replicate n;
    located = λ slot id h. cc;
    named = λ raw slot h live. ground (arith, get_elem?-replicate n dead raw, h);
    fits = λ raw h. fit raw (omega (arith, length-replicate n dead));
  }

  pub placed-IsValid :
      (a : StableArena Key T) (raw : ℕ) (value : T)
      → IsValid a
      → length a.locations < dead
      → get_elem? a.locations raw ≡ some dead
      → IsValid (placed a raw value)
  placed-IsValid a raw value v room free = record {
    parallel = omega (
      arith,
      length-append a.values (value ∷ []),
      length-append a.slot_ids (I.from_usize raw ∷ []),
    );
    issued_le = omega (arith, length-set a.locations raw (length a.values));
    counted = ground (
      arith,
      live_count-set a.locations raw dead (length a.values) free,
      length-append a.values (value ∷ []),
      live_count-le a.locations,
    );
    located = λ slot id h. ground (
      arith,
      get_elem?-concat a.slot_ids (I.from_usize raw) slot,
      get_elem?-set a.locations raw (length a.values) (I.into_usize id) inside,
      v.fits raw inside,
      v.located slot id,
      lt-length_of_get_elem? a.slot_ids slot {x = id},
      live_count-le a.locations,
    );
    named = λ r slot h live. ground (
      arith,
      get_elem?-concat a.slot_ids (I.from_usize raw) slot,
      get_elem?-set a.locations raw (length a.values) r inside,
      v.named r slot,
      lt-length_of_get_elem? a.slot_ids slot {x = I.from_usize r},
    );
    fits = λ r h. v.fits r (omega (arith, length-set a.locations raw (length a.values)));
  }
    where
      inside : raw < length a.locations
      inside = lt-length_of_get_elem? a.locations raw free

  pub entries-placed :
      (a : StableArena Key T) (raw : ℕ) (value : T)
      → IsValid a
      → raw < length a.locations
      → (serialize (placed a raw value)).entries ≡ (serialize a).entries ++ (raw, value) ∷ []
  unfolding serialize
  entries-placed a raw value v h =
      rw (map-concat I.into_usize a.slot_ids (I.from_usize raw), v.fits raw h)
        (zip-concat (map I.into_usize a.slot_ids) a.values raw value
          (length-map I.into_usize a.slot_ids ∙ v.parallel))
