-- ===== src/Parse/Trim.antt =====
-- Strings that end in a character that `trim` keeps.
use jstd.Base.{
  ℕ, ◌≡◌, refl, ◌∙◌, ap, Bool, true, false, not, ◌&&◌, [], ◌∷◌, ◌++◌, inl, inr, Bool-cases, arith,
}
use jstd.Parse.{
  Str, closes, drop_last, keep_before, trim_start, trim_end, trim, is_stop, before_stop, from_stop,
}

module _ (is_whitespace : ℕ → Bool) where
  -- The last character is no whitespace.
  abbrev pub ends_solid : Str → Bool
  ends_solid [] = false
  ends_solid (c ∷ []) = not (is_whitespace c)
  ends_solid (c ∷ d ∷ s) = ends_solid (d ∷ s)

  solid-cons : (c : ℕ) (s : Str) → ends_solid s ≡ true → ends_solid (c ∷ s) ≡ true
  solid-cons c [] h = absurd (ground (arith, h))
  solid-cons c (d ∷ s) h = h

  pub solid-append : (s t : Str) → ends_solid t ≡ true → ends_solid (s ++ t) ≡ true
  solid-append [] t h = h
  solid-append (c ∷ s) t h = solid-cons c (s ++ t) (solid-append s t h)

  pub trim_end-solid : (s : Str) → ends_solid s ≡ true → trim_end is_whitespace s ≡ s
  trim_end-solid [] h = refl
  trim_end-solid (c ∷ []) h = ground (arith, h)
  trim_end-solid (c ∷ d ∷ s) h = ap (keep_before is_whitespace c) (trim_end-solid (d ∷ s) h)

  -- A string that starts with no whitespace and ends in none is its own trimming.
  pub trim-solid :
      (c : ℕ) (s : Str)
      → is_whitespace c ≡ false
      → ends_solid (c ∷ s) ≡ true
      → trim is_whitespace (c ∷ s) ≡ c ∷ s
  trim-solid c s h solid = ap (trim_end is_whitespace) (first c s h) ∙ trim_end-solid (c ∷ s) solid
    where
      first : (c : ℕ) (s : Str) → is_whitespace c ≡ false → trim_start is_whitespace (c ∷ s) ≡ c ∷ s
      first c s h = rw h refl

  -- The characters of a name.
  abbrev pub no_stop : Str → Bool
  no_stop [] = true
  no_stop (c ∷ s) = not (is_stop is_whitespace c) && no_stop s

  pub no_stop-solid : (c : ℕ) (s : Str) → no_stop (c ∷ s) ≡ true → ends_solid (c ∷ s) ≡ true
  no_stop-solid c [] h = ground (arith, h)
  no_stop-solid c (d ∷ s) h = no_stop-solid d s (ground (arith, h))

  pub before_stop-append :
      (name t : Str)
      → no_stop name ≡ true
      → before_stop is_whitespace (name ++ t) ≡ name ++ before_stop is_whitespace t
  before_stop-append [] t h = refl
  before_stop-append (c ∷ name) t h = elim (Bool-cases (is_stop is_whitespace c)) [
    | inl stop ↦ absurd (ground (arith, h, stop))
    | inr free ↦ rw free (ap (λ s. c ∷ s) (before_stop-append name t (ground (arith, h))))
  ]

  pub from_stop-append :
      (name t : Str)
      → no_stop name ≡ true
      → from_stop is_whitespace (name ++ t) ≡ from_stop is_whitespace t
  from_stop-append [] t h = refl
  from_stop-append (c ∷ name) t h = elim (Bool-cases (is_stop is_whitespace c)) [
    | inl stop ↦ absurd (ground (arith, h, stop))
    | inr free ↦ rw free (from_stop-append name t (ground (arith, h)))
  ]

closes-cons : (c : ℕ) (s : Str) → closes s ≡ true → closes (c ∷ s) ≡ true
closes-cons c [] h = absurd (ground (arith, h))
closes-cons c (d ∷ s) h = h

pub closes-append : (s : Str) → closes (s ++ (93 ∷ [])) ≡ true
closes-append [] = refl
closes-append (c ∷ s) = closes-cons c (s ++ (93 ∷ [])) (closes-append s)

drop_last-cons : (c d : ℕ) (s t : Str) → s ≡ d ∷ t → drop_last (c ∷ s) ≡ c ∷ drop_last s
drop_last-cons c d [] t h = absurd (ground (arith, h))
drop_last-cons c d (e ∷ s) t h = refl

pub drop_last-append : (s : Str) (c : ℕ) → drop_last (s ++ (c ∷ [])) ≡ s
drop_last-append [] c = refl
drop_last-append (a ∷ []) c = refl
drop_last-append (a ∷ b ∷ s) c = ap (λ t. a ∷ t) (drop_last-append (b ∷ s) c)
