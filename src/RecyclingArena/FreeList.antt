-- ===== src/RecyclingArena/FreeList.antt =====
-- The intrusive free list: the slots that it links, and what writes it survives.
use jstd.Base.{
  member, ℕ, zero, suc, ◌+◌, ◌<◌, ◌≡◌, refl, false, Option, none, some, List, [], ◌∷◌, ◌++◌, length,
  get_elem?, set, get_elem?-set, get_elem?-concat, lt-length_of_get_elem?, arith,
}
use jstd.Identifier.{Identifier}
use jstd.RecyclingArena.{Slot, live, free}

module _ {Key T : Type 0} where
  -- The live slots.
  abbrev pub live_count : List (Slot Key T) → ℕ
  live_count [] = 0
  live_count (live _ ∷ rest) = 1 + live_count rest
  live_count (free _ ∷ rest) = live_count rest

  abbrev pub weight : Slot Key T → ℕ
  weight (live _) = 1
  weight (free _) = 0

  pub live_count-set :
      (slots : List (Slot Key T)) (raw : ℕ) (old new : Slot Key T)
      → get_elem? slots raw ≡ some old
      → live_count (set slots raw new) + weight old ≡ live_count slots + weight new
  live_count-set [] raw old new h = cc
  live_count-set (live x ∷ rest) zero old (live y) h = ground arith
  live_count-set (live x ∷ rest) zero old (free y) h = ground arith
  live_count-set (free x ∷ rest) zero old (live y) h = ground arith
  live_count-set (free x ∷ rest) zero old (free y) h = ground arith
  live_count-set (live x ∷ rest) (suc raw) old new h =
      omega (arith, live_count-set rest raw old new h)
  live_count-set (free x ∷ rest) (suc raw) old new h = live_count-set rest raw old new h

  pub live_count-concat :
      (slots : List (Slot Key T)) (x : T) → live_count (slots ++ live x ∷ []) ≡ live_count slots + 1
  live_count-concat [] x = omega arith
  live_count-concat (live y ∷ rest) x = omega (arith, live_count-concat rest x)
  live_count-concat (free y ∷ rest) x = live_count-concat rest x

module _ {Key T : Type 0} ⦃I : Identifier Key⦄ where
  -- `Chain slots start raws`: from `start` on, the links run through the free slots `raws`.
  abbrev pub Chain : List (Slot Key T) → Option Key → List ℕ → Type 0
  Chain slots start [] = start ≡ none
  Chain slots start (raw ∷ rest) =
      (start ≡ some (I.from_usize raw))
      × (I.into_usize (I.from_usize raw) ≡ raw)
      × ((next : Option Key) × (get_elem? slots raw ≡ some (free next)) × Chain slots next rest)

  -- A live slot is not on the free list.
  pub live_not_member :
      (slots : List (Slot Key T)) (start : Option Key) (raws : List ℕ) (raw : ℕ) (x : T)
      → get_elem? slots raw ≡ some (live x)
      → Chain slots start raws
      → member raw raws ≡ false
  live_not_member slots start [] raw x h c = refl
  live_not_member slots start (r ∷ rest) raw x h (_, _, (next, at, c)) =
      ground (arith, live_not_member slots next rest raw x h c, at, h)

  -- A write elsewhere leaves the links alone.
  pub Chain-set :
      (slots : List (Slot Key T)) (start : Option Key) (raws : List ℕ) (raw : ℕ) (s : Slot Key T)
      → raw < length slots
      → member raw raws ≡ false
      → Chain slots start raws
      → Chain (set slots raw s) start raws
  Chain-set slots start [] raw s h out c = c
  Chain-set slots start (r ∷ rest) raw s h out (e, fits, (next, at, c)) = (
    e,
    fits,
    (
      next,
      ground (arith, get_elem?-set slots raw s r h, at, out),
      Chain-set slots next rest raw s h (ground (arith, out)) c,
    ),
  )

  pub Chain-concat :
      (slots : List (Slot Key T)) (start : Option Key) (raws : List ℕ) (s : Slot Key T)
      → Chain slots start raws
      → Chain (slots ++ s ∷ []) start raws
  Chain-concat slots start [] s c = c
  Chain-concat slots start (r ∷ rest) s (e, fits, (next, at, c)) = (
    e,
    fits,
    (
      next,
      ground (arith, get_elem?-concat slots s r, at, lt-length_of_get_elem? slots r at),
      Chain-concat slots next rest s c,
    ),
  )
