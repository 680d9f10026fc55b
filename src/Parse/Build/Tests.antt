-- ===== src/Parse/Build/Tests.antt =====
-- Sources as code points, with the space and the line feed as the whitespace.
use jstd.Base.{ℕ, ◌≡◌, refl, ◌⊎◌, Bool, ◌||◌, none, some, [], ◌∷◌, ◌==◌, done, arith}
use jstd.Graph.{OwningGraph}
use jstd.Parse.{
  Str, ParseError, invalid_edge_declaration, accepted, refused, lines, parse_identifier,
  parse_declaration,
}
use jstd.Parse.Build.{parse}
use jstd.Parse.Build.Faults.{first_fault, parse-first_fault}

abbrev is_space : ℕ → Bool
is_space c = c == 32 || c == 10

-- `a->b`, a blank line, `->c`
abbrev source : Str
source = 97 ∷ 45 ∷ 62 ∷ 98 ∷ 10 ∷ 32 ∷ 10 ∷ 45 ∷ 62 ∷ 99 ∷ []

-- The third line has no name before its arrow.
third :
    first_fault is_space 1 (lines source)
    ≡ some (record { line_number = 3; line = 45 ∷ 62 ∷ 99 ∷ []; kind = invalid_edge_declaration })
unfolding parse_identifier parse_declaration
third = refl

parse-first_fault_example :
    ((e : ParseError) × (first_fault is_space 1 (lines source) ≡ some e)
      × (parse (λ n. n) (λ n. n) is_space source ≡ done (refused e)))
    ⊎ ((graph : OwningGraph Str Str) × (first_fault is_space 1 (lines source) ≡ none)
        × (parse (λ n. n) (λ n. n) is_space source ≡ done (accepted graph)))
parse-first_fault_example = parse-first_fault (λ n. n) (λ n. n) is_space source (omega arith)
