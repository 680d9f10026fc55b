-- ===== src/Parse/Declaration.antt =====
-- `parse_declaration` reads what a printer of declarations writes.
use jstd.Base.{
  ℕ, ◌≡◌, refl, ◌∙◌, sym, ap, Bool, true, false, not, ◌||◌, Option, none, some, [], ◌∷◌, ◌++◌,
  if◌then◌else◌, arith,
}
use jstd.Parse.{
  Str, opens, closes, middle, trim_start, trim_end, trim, before_stop, from_stop, str_is_empty,
  parse_declaration, parse_identifier,
}
use jstd.Parse.Trim.{
  ends_solid, solid-append, trim-solid, no_stop, no_stop-solid, before_stop-append,
  from_stop-append, closes-append, drop_last-append,
}

-- A name, and a payload in brackets after a space.
abbrev pub print_declaration : Str → Option Str → Str
print_declaration name none = name
print_declaration name (some payload) = name ++ (32 ∷ 91 ∷ (payload ++ (93 ∷ [])))

append_nil : (s : Str) → s ++ [] ≡ s
append_nil [] = refl
append_nil (c ∷ s) = ap (λ t. c ∷ t) (append_nil s)

module _ (is_whitespace : ℕ → Bool) where
  -- A name has characters, and none is whitespace or an opening bracket.
  abbrev pub IsName : Str → Type 0
  IsName name = (str_is_empty name ≡ false) × (no_stop is_whitespace name ≡ true)

  -- A payload has characters, and starts and ends in no whitespace.
  abbrev pub IsPayload : Option Str → Type 0
  IsPayload none = Unit
  IsPayload (some payload) = (str_is_empty payload ≡ false) × (trim is_whitespace payload ≡ payload)

  -- The tests of `parse_declaration` on the parts it takes.
  abbrev decide : Str → Str → Str → Str → Option (Str × Option Str)
  decide trimmed name trailing payload =
      if str_is_empty trimmed
      then none
      else if str_is_empty name
      then none
      else if str_is_empty trailing
      then some (name, none)
      else if not (opens trailing) || not (closes trailing)
      then none
      else if str_is_empty payload
      then none
      else some (name, some payload)

  parse_at :
      (input trimmed name rest trailing payload : Str)
      → trim is_whitespace input ≡ trimmed
      → before_stop is_whitespace trimmed ≡ name
      → from_stop is_whitespace trimmed ≡ rest
      → trim is_whitespace rest ≡ trailing
      → trim is_whitespace (middle trailing) ≡ payload
      → parse_declaration is_whitespace input ≡ decide trimmed name trailing payload
  unfolding parse_declaration
  parse_at input trimmed name rest trailing payload a b c d e = cc

  module _ (space : is_whitespace 32 ≡ true) (bracket : is_whitespace 91 ≡ false)
      (closing : is_whitespace 93 ≡ false) where
    parse-name :
        (c : ℕ) (name : Str)
        → no_stop is_whitespace (c ∷ name) ≡ true
        → parse_declaration is_whitespace (c ∷ name) ≡ some (c ∷ name, none)
    parse-name c name free =
        parse_at (c ∷ name) (c ∷ name) (c ∷ name) [] [] []
          (trim-solid is_whitespace c name (ground (arith, free))
            (no_stop-solid is_whitespace c name free))
          (ap (before_stop is_whitespace) (sym (append_nil (c ∷ name)))
            ∙ before_stop-append is_whitespace (c ∷ name) [] free
            ∙ append_nil (c ∷ name))
          (ap (from_stop is_whitespace) (sym (append_nil (c ∷ name)))
            ∙ from_stop-append is_whitespace (c ∷ name) [] free)
          refl refl

    -- The part after the name.
    abbrev bracketed : Str → Str
    bracketed payload = 91 ∷ (payload ++ (93 ∷ []))

    bracketed-solid : (payload : Str) → ends_solid is_whitespace (bracketed payload) ≡ true
    bracketed-solid payload =
        solid-append is_whitespace (91 ∷ payload) (93 ∷ []) (ground (arith, closing))

    trim-bracketed :
        (payload : Str) → trim is_whitespace (32 ∷ bracketed payload) ≡ bracketed payload
    trim-bracketed payload =
        ap (trim_end is_whitespace) (skip payload)
        ∙ trim-solid is_whitespace 91 (payload ++ (93 ∷ [])) bracket (bracketed-solid payload)
      where
        skip :
            (payload : Str)
            → trim_start is_whitespace (32 ∷ bracketed payload)
              ≡ trim_start is_whitespace (bracketed payload)
        skip payload = rw space refl

    parse-bracketed :
        (c : ℕ) (name : Str) (d : ℕ) (payload : Str)
        → no_stop is_whitespace (c ∷ name) ≡ true
        → trim is_whitespace (d ∷ payload) ≡ d ∷ payload
        → parse_declaration is_whitespace (print_declaration (c ∷ name) (some (d ∷ payload)))
          ≡ some (c ∷ name, some (d ∷ payload))
    parse-bracketed c name d payload free trimmed =
        let t = 32 ∷ bracketed (d ∷ payload) in
        parse_at (c ∷ (name ++ t)) (c ∷ (name ++ t)) (c ∷ name) t (bracketed (d ∷ payload))
          (d ∷ payload)
          (trim-solid is_whitespace c (name ++ t) (ground (arith, free)) (
            solid-append is_whitespace (c ∷ name) t (
              solid-append is_whitespace (32 ∷ []) (bracketed (d ∷ payload))
                (bracketed-solid (d ∷ payload)))))
          (before_stop-append is_whitespace (c ∷ name) t free
            ∙ ap (λ s. (c ∷ name) ++ s) (stops (d ∷ payload))
            ∙ append_nil (c ∷ name))
          (from_stop-append is_whitespace (c ∷ name) t free ∙ stays (d ∷ payload))
          (trim-bracketed (d ∷ payload))
          (ap (trim is_whitespace) (drop_last-append (d ∷ payload) 93) ∙ trimmed)
        ∙ rw (closes-append (d ∷ payload)) refl
      where
        stops : (payload : Str) → before_stop is_whitespace (32 ∷ bracketed payload) ≡ []
        stops payload = rw space refl

        stays :
            (payload : Str)
            → from_stop is_whitespace (32 ∷ bracketed payload) ≡ 32 ∷ bracketed payload
        stays payload = rw space refl

    -- If 32 is whitespace, and 91 and 93 are not, `parse_declaration` reads back a printed declaration.
    -- Its name has characters, none of them whitespace or 91, and its payload, if there is one, has
    -- characters and starts and ends in no whitespace. `parse_identifier` reads it exactly if there is
    -- no payload.
    pub parse_declaration-print :
        (name : Str) (payload : Option Str)
        → IsName name
        → IsPayload payload
        → (parse_declaration is_whitespace (print_declaration name payload) ≡ some (name, payload))
          × (parse_identifier is_whitespace (print_declaration name payload)
              ≡ elim payload [ none ↦ some name | some explicit ↦ none ])
    unfolding parse_identifier
    parse_declaration-print [] payload (some_name, free) trimmed =
        absurd (ground (arith, some_name))
    parse_declaration-print (c ∷ name) none (some_name, free) trimmed =
        (parse-name c name free, rw (parse_identifier, parse-name c name free) refl)
    parse_declaration-print (c ∷ name) (some []) (some_name, free) (filled, trimmed) =
        absurd (ground (arith, filled))
    parse_declaration-print (c ∷ name) (some (d ∷ payload)) (some_name, free) (filled, trimmed) = (
      parse-bracketed c name d payload free trimmed,
      rw (parse_identifier, parse-bracketed c name d payload free trimmed) refl,
    )
