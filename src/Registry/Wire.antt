-- ===== src/Registry/Wire.antt =====
-- Serialization, cloning and comparison of a registry (src/registry.rs), which read the chunks in
-- order. What a serializer gets is the length it is told and the elements.
use jstd.Base.{
  ℕ, ◌^◌, ◌<◌, ◌≡◌, refl, sym, ap, subst, suc, map, Bool, true, false, ◌&&◌, List, [], ◌∷◌, ◌==◌,
  Outcome, done, length, arith,
}
use jstd.Identifier.{Identifier}
use jstd.Registry.{Registry, flatten, from_iter}
use jstd.Registry.Holds.{Holds}
use jstd.Registry.Iterate.{flatten-Holds}
use jstd.Registry.Push.{from_iter-Holds}

-- `Iterator::eq`
abbrev pub lists_eq : {T : Type 0} → (T → T → Bool) → List T → List T → Bool
lists_eq same [] [] = true
lists_eq same [] (y ∷ ys) = false
lists_eq same (x ∷ xs) [] = false
lists_eq same (x ∷ xs) (y ∷ ys) = same x y && lists_eq same xs ys

module _ {Key T : Type 0} where
  -- `Serialize::serialize`
  abbrev pub serialize : Registry Key T → ℕ × List T
  serialize r = (r.len, flatten r.chunks)

  -- `PartialEq::eq`
  abbrev pub eq : (T → T → Bool) → Registry Key T → Registry Key T → Bool
  eq same r s = r.len == s.len && lists_eq same (flatten r.chunks) (flatten s.chunks)

lists_eq-map :
    {T : Type 0} (same : T → T → Bool) (copy : T → T)
    → ((x : T) → same x (copy x) ≡ true)
    → (xs : List T) → lists_eq same xs (map copy xs) ≡ true
lists_eq-map same copy agree [] = refl
lists_eq-map same copy agree (x ∷ xs) = ground (arith, agree x, lists_eq-map same copy agree xs)

length-map : {T : Type 0} (copy : T → T) (xs : List T) → length (map copy xs) ≡ length xs
length-map copy [] = refl
length-map copy (x ∷ xs) = ap suc (length-map copy xs)

map_same : {T : Type 0} (xs : List T) → map (λ x. x) xs ≡ xs
map_same [] = refl
map_same (x ∷ xs) = ap (◌∷◌ x) (map_same xs)

module _ {Key T : Type 0} ⦃I : Identifier Key⦄ where
  -- `Deserialize::deserialize`, on the elements that were read
  pub deserialize : List T → Outcome (Registry Key T)
  deserialize elements = from_iter elements

  -- `Clone::clone`, where `copy` is `clone` of an element
  pub clone : (T → T) → Registry Key T → Outcome (Registry Key T)
  clone copy r = from_iter (map copy (flatten r.chunks))

  eq-Holds :
      (same : T → T → Bool) (copy : T → T) (r s : Registry Key T) (xs : List T)
      → ((x : T) → same x (copy x) ≡ true)
      → Holds r xs
      → Holds s (map copy xs)
      → eq same r s ≡ true
  eq-Holds same copy r s xs agree h k =
      rw (flatten-Holds r xs h, flatten-Holds s (map copy xs) k, lists_eq-map same copy agree xs)
        (ground (arith, h.size, k.size, length-map copy xs))

  -- A registry that holds a list of fewer than `2 ^ 64` elements serializes to the length and the
  -- elements of the list. What is read back from these holds the same list, and the clone holds the list
  -- of the elements' clones. Both equal the first registry, if each element equals itself and its clone.
  pub deserialize-serialize-Holds :
      (same : T → T → Bool) (copy : T → T) (r : Registry Key T) (xs : List T)
      → ((x : T) → same x x ≡ true)
      → ((x : T) → same x (copy x) ≡ true)
      → Holds r xs
      → length xs < 2 ^ 64
      → (serialize r ≡ (length xs, xs))
        × ((s : Registry Key T) × (deserialize (serialize r).1 ≡ done s)
            × Holds s xs
            × (eq same r s ≡ true))
        × ((t : Registry Key T) × (clone copy r ≡ done t)
            × Holds t (map copy xs)
            × (eq same r t ≡ true))
  unfolding deserialize clone
  deserialize-serialize-Holds same copy r xs agree agree_copy h room =
      let (s, built, k) = from_iter-Holds xs room in
      let (t, built', k') =
        from_iter-Holds (map copy xs) (subst (λ n. n < 2 ^ 64) (sym (length-map copy xs)) room) in
      (
        rw (flatten-Holds r xs h, h.size) refl,
        (
          s,
          rw (flatten-Holds r xs h) built,
          k,
          eq-Holds same (λ x. x) r s xs agree h (subst (Holds s) (sym (map_same xs)) k),
        ),
        (t, rw (flatten-Holds r xs h) built', k', eq-Holds same copy r t xs agree_copy h k'),
      )
