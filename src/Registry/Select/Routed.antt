-- ===== src/Registry/Select/Routed.antt =====
-- The pass over the items in `select_mut`, src/registry.rs.
use jstd.Base.{
  ℕ, zero, suc, ◌+◌, ◌≤◌, ◌<◌, ◌≡◌, ◌≢◌, refl, sym, ◌∙◌, ap, subst, inl, inr, Option, Option-cases,
  none, some, List, [], ◌∷◌, if◌then◌else◌, ◌==◌, done, length, set, get_elem?, get_elem?-set,
  length-set, lt-length_of_get_elem?, lookup, arith,
}
use jstd.Identifier.{Identifier, cast}
use jstd.Registry.{number}
use jstd.Registry.Select.{route}
use jstd.Registry.Select.Wants.{Wants}

-- Every position is that of a slot, and that of one index.
pub record Slotted (want : List (ℕ × ℕ)) (count : ℕ) : Type 0 where
  pub inside : (n p : ℕ) → lookup n want ≡ some p → p < count
  pub single : (m n p : ℕ) → lookup m want ≡ some p → lookup n want ≡ some p → m ≡ n

-- The elements from the index `k` on are in the slots that the map gives to their indices.
pub record Routed {T : Type 0} (want : List (ℕ × ℕ)) (k : ℕ) (ys : List T)
    (before after : List (Option T)) : Type 0 where
  pub size : length after ≡ length before
  pub kept :
      (p : ℕ) → ((n : ℕ) → k ≤ n → lookup n want ≢ some p) → get_elem? after p ≡ get_elem? before p
  pub filled :
      (j n p : ℕ) (y : T)
      → n ≡ k + j
      → get_elem? ys j ≡ some y
      → lookup n want ≡ some p
      → get_elem? after p ≡ some (some y)

module _ {T : Type 0} (want : List (ℕ × ℕ)) where
  Routed-skip :
      (k : ℕ) (y : T) (ys : List T) (slots after : List (Option T))
      → lookup k want ≡ none
      → Routed want (k + 1) ys slots after
      → Routed want k (y ∷ ys) slots after
  Routed-skip k y ys slots after none_here routed = record {
    size = routed.size;
    kept = λ p missing. routed.kept p (λ n above. missing n (omega (arith, above)));
    filled = fill;
  }
    where
      fill :
          (j n p : ℕ) (x : T)
          → n ≡ k + j
          → get_elem? (y ∷ ys) j ≡ some x
          → lookup n want ≡ some p
          → get_elem? after p ≡ some (some x)
      fill zero n p x e at there = absurd (ground (arith, e, none_here, there))
      fill (suc j) n p x e at there = routed.filled j n p x (omega (arith, e)) at there

  Routed-put :
      (k pos : ℕ) (y : T) (ys : List T) (slots after : List (Option T))
      → Slotted want (length slots)
      → lookup k want ≡ some pos
      → Routed want (k + 1) ys (set slots pos (some y)) after
      → Routed want k (y ∷ ys) slots after
  Routed-put k pos y ys slots after slotted here routed = record {
    size = routed.size ∙ length-set slots pos (some y);
    kept = λ p missing.
        let differ : pos ≢ p = λ same. missing k (omega arith) (here ∙ ap some same) in
        routed.kept p (λ n above. missing n (omega (arith, above)))
        ∙ ground (arith, written p, differ);
    filled = fill;
  }
    where
      written :
          (p : ℕ)
          → get_elem? (set slots pos (some y)) p
            ≡ (if pos == p then some (some y) else get_elem? slots p)
      written p = get_elem?-set slots pos (some y) p (slotted.inside k pos here)

      fill :
          (j n p : ℕ) (x : T)
          → n ≡ k + j
          → get_elem? (y ∷ ys) j ≡ some x
          → lookup n want ≡ some p
          → get_elem? after p ≡ some (some x)
      fill zero n p x e at there =
          let same : pos ≡ p = ground (arith, e, here, there) in
          let alone : (m : ℕ) → k + 1 ≤ m → lookup m want ≢ some p =
            λ m above again. absurd (omega (arith, above, slotted.single m n p again there, e)) in
          routed.kept p alone ∙ ground (arith, written p, same, at)
      fill (suc j) n p x e at there = routed.filled j n p x (omega (arith, e)) at there

module _ {Key : Type 0} ⦃I : Identifier Key⦄ where
  pub Slotted-start :
      (ids : List Key) (want : List (ℕ × ℕ)) → Wants 0 ids [] want → Slotted want (length ids)
  Slotted-start ids want wants = record {
    inside = λ n p h. elim (wants.only n p h) [
      | inl before ↦ cc
      | inr (q, id, e, at, same) ↦ omega (arith, e, lt-length_of_get_elem? ids q at)
    ];
    single = λ m n p h h'. elim (wants.only m p h) [
      | inl before ↦ cc
      | inr (q, id, e, at, same) ↦ elim (wants.only n p h') [
        | inl before ↦ cc
        | inr (q', id', e', at', same') ↦
            let here : q ≡ q' = omega (arith, e, e') in
            let both : id ≡ id' = cc in sym same ∙ ap I.into_usize both ∙ same'
      ]
    ];
  }

module _ {T : Type 0} (Key : Type 0) ⦃I : Identifier Key⦄ where
  pub route_done :
      (want : List (ℕ × ℕ)) (k : ℕ) (ys : List T) (slots : List (Option T))
      → ((n : ℕ) → n < k + length ys → cast I n ≡ n)
      → Slotted want (length slots)
      → (after : List (Option T)) × (route {Key = Key} want (number k ys) slots ≡ done after)
        × Routed want k ys slots after
  unfolding route number
  route_done want k [] slots fits slotted =
      (slots, refl, record { size = refl; kept = λ p h. refl; filled = λ j n p y e at there. cc })
  route_done want k (y ∷ ys) slots fits slotted = elim (Option-cases (lookup k want)) [
    | inl absent ↦
        let (after, eq, routed) =
          route_done want (k + 1) ys slots (λ n lt. fits n (omega (arith, lt))) slotted in
        (
          after,
          ground (arith, fits k (omega arith), absent, eq),
          Routed-skip want k y ys slots after absent routed,
        )
    | inr (pos, here) ↦
        let slots' = set slots pos (some y) in
        let (after, eq, routed) =
          route_done want (k + 1) ys slots' (λ n lt. fits n (omega (arith, lt)))
            (subst (Slotted want) (sym (length-set slots pos (some y))) slotted) in
        (
          after,
          ground (arith, fits k (omega arith), here, slotted.inside k pos here, eq),
          Routed-put want k pos y ys slots after slotted here routed,
        )
  ]
