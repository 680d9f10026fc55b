-- ===== src/Parse.antt =====
-- src/graph/parse.rs: the line grammar for test graphs. A string is the list of its code points, and
-- `is_whitespace` is `char::is_whitespace`. `Parsed` is a `Result`; a panic of the graph is outside it.
pub mod Build
pub mod Trim
pub mod Declaration
pub mod Tests
use jstd.Base.{
  ℕ, zero, suc, ◌+◌, Bool, true, false, not, ◌&&◌, ◌||◌, Option, none, some, List, [], ◌∷◌, ◌++◌,
  ◌==◌, if◌then◌else◌,
}

-- `&str`
abbrev pub Str : Type 0
Str = List ℕ

abbrev pub str_eq : Str → Str → Bool
str_eq [] [] = true
str_eq [] (b ∷ t) = false
str_eq (a ∷ s) [] = false
str_eq (a ∷ s) (b ∷ t) = a == b && str_eq s t

abbrev pub str_is_empty : Str → Bool
str_is_empty [] = true
str_is_empty (c ∷ s) = false

pub data ParseErrorKind : Type 0 where
  invalid_node_declaration : ParseErrorKind
  invalid_edge_declaration : ParseErrorKind

pub record ParseError : Type 0 where
  pub line_number : ℕ
  pub line : Str
  pub kind : ParseErrorKind

pub data Parsed {ℓ} (A : Type ℓ) : Type ℓ where
  accepted : A → Parsed A
  refused : ParseError → Parsed A

-- `starts_with('[')` and `ends_with(']')`
abbrev pub opens : Str → Bool
opens [] = false
opens (c ∷ s) = c == 91

abbrev pub closes : Str → Bool
closes [] = false
closes (c ∷ []) = c == 93
closes (c ∷ d ∷ s) = closes (d ∷ s)

-- The string without its last character.
abbrev pub drop_last : Str → Str
drop_last [] = []
drop_last (c ∷ []) = []
drop_last (c ∷ d ∷ s) = c ∷ drop_last (d ∷ s)

-- `trailing[1..trailing.len() - 1]`
abbrev pub middle : Str → Str
middle [] = []
middle (c ∷ s) = drop_last s

-- `split_once("->")`
abbrev pub split_arrow : Str → Option (Str × Str)
split_arrow [] = none
split_arrow (a ∷ []) = none
split_arrow (a ∷ b ∷ s) =
    let later = split_arrow (b ∷ s) in
    if a == 45 && b == 62
    then some ([], s)
    else elim later [ none ↦ none | some (before, after) ↦ some (a ∷ before, after) ]

-- A line without the carriage return at its end.
abbrev pub strip_return : Str → Str
strip_return [] = []
strip_return (c ∷ []) = if c == 13 then [] else c ∷ []
strip_return (c ∷ d ∷ s) = c ∷ strip_return (d ∷ s)

-- `lines`: what comes before the first line feed, and the lines after it. The end of the text ends a
-- line that is not empty.
abbrev pub lines_from : Str → Str → List Str
lines_from current [] = if str_is_empty current then [] else current ∷ []
lines_from current (c ∷ s) = elim (c == 10) [
  | true ↦ strip_return current ∷ lines_from [] s
  | false ↦ lines_from (current ++ (c ∷ [])) s
]

abbrev pub lines : Str → List Str
lines source = lines_from [] source

module _ (is_whitespace : ℕ → Bool) where
  abbrev pub trim_start : Str → Str
  trim_start [] = []
  trim_start (c ∷ s) = let rest = trim_start s in if is_whitespace c then rest else c ∷ s

  -- The character stays if one stays after it or it is no whitespace itself.
  abbrev pub keep_before : ℕ → Str → Str
  keep_before c [] = if is_whitespace c then [] else c ∷ []
  keep_before c (d ∷ rest) = c ∷ d ∷ rest

  abbrev pub trim_end : Str → Str
  trim_end [] = []
  trim_end (c ∷ s) = keep_before c (trim_end s)

  abbrev pub trim : Str → Str
  trim s = trim_end (trim_start s)

  -- `find(|c| c.is_whitespace() || c == '[')`: the characters before that index and from it.
  abbrev pub is_stop : ℕ → Bool
  is_stop c = is_whitespace c || c == 91

  abbrev pub before_stop : Str → Str
  before_stop [] = []
  before_stop (c ∷ s) = let rest = before_stop s in if is_stop c then [] else c ∷ rest

  abbrev pub from_stop : Str → Str
  from_stop [] = []
  from_stop (c ∷ s) = let rest = from_stop s in if is_stop c then c ∷ s else rest

  -- `parse_declaration`; `none` is its `Err(())`.
  pub parse_declaration : Str → Option (Str × Option Str)
  parse_declaration input =
      let trimmed = trim input in
      let name = before_stop trimmed in
      let trailing = trim (from_stop trimmed) in
      let payload = trim (middle trailing) in
      if str_is_empty trimmed
      then none
      else if str_is_empty name
      then none
      else if str_is_empty trailing
      then some (name, none)
      else if not (opens trailing) || not (closes trailing)
      then none
      else if str_is_empty payload
      then none
      else some (name, some payload)

  -- `parse_identifier`
  pub parse_identifier : Str → Option Str
  parse_identifier input = elim (parse_declaration input) [
    | none ↦ none
    | some (name, payload) ↦ elim payload [ none ↦ some name | some explicit ↦ none ]
  ]
