-- ===== src/Parse/Tests.antt =====
-- A declaration, as code points, with the space and the line feed as the whitespace.
use jstd.Base.{ℕ, ◌≡◌, refl, Bool, ◌||◌, none, some, [], ◌∷◌, ◌==◌}
use jstd.Parse.{parse_declaration, parse_identifier}
use jstd.Parse.Declaration.{print_declaration, parse_declaration-print}

abbrev is_space : ℕ → Bool
is_space c = c == 32 || c == 10

-- The declaration `a [x y]`
parse_declaration-print_example :
    (parse_declaration is_space (print_declaration (97 ∷ []) (some (120 ∷ 32 ∷ 121 ∷ [])))
      ≡ some (97 ∷ [], some (120 ∷ 32 ∷ 121 ∷ [])))
    × (parse_identifier is_space (print_declaration (97 ∷ []) (some (120 ∷ 32 ∷ 121 ∷ []))) ≡ none)
parse_declaration-print_example =
    parse_declaration-print is_space refl refl refl (97 ∷ []) (some (120 ∷ 32 ∷ 121 ∷ []))
      (refl, refl) (refl, refl)
