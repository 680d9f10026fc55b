-- ===== src/Parse/Build.antt =====
-- `parse` of src/graph/parse.rs: the graph that the lines build.
pub mod Names
pub mod Faults
pub mod Tests
use jstd.Base.{
  ℕ, ◌+◌, Bool, true, false, Option, none, some, List, [], ◌∷◌, if◌then◌else◌, Outcome, done, ◌>>=◌,
}
use jstd.Graph.{OwningGraph, make_node, make_edge, set_node_data, empty}
use jstd.Parse.{
  Str, str_eq, str_is_empty, ParseError, invalid_node_declaration, invalid_edge_declaration, Parsed,
  accepted, refused, split_arrow, lines, trim, parse_declaration, parse_identifier,
}

-- `node_ids.get(name)`
abbrev pub find_name : Str → List (Str × ℕ) → Option ℕ
find_name name [] = none
find_name name ((known, id) ∷ rest) =
    let later = find_name name rest in if str_eq name known then some id else later

abbrev pub unwrap_or : Option Str → Str → Str
unwrap_or none fallback = fallback
unwrap_or (some s) fallback = s

-- The graph and the ids of the names.
abbrev pub Named : Type 0
Named = OwningGraph Str Str × List (Str × ℕ)

module _ (node_id edge_id : ℕ → ℕ) where
  -- `ensure_node`
  pub ensure_node : Named → Str → Option Str → Outcome (Named × ℕ)
  ensure_node (graph, node_ids) name explicit = elim (find_name name node_ids) [
    | some id ↦ elim explicit [
      | none ↦ done ((graph, node_ids), id)
      | some payload ↦ do graph ← set_node_data graph id payload; done ((graph, node_ids), id)
    ]
    | none ↦ do
      (graph, id) ← make_node node_id graph (unwrap_or explicit name)
      done ((graph, (name, id) ∷ node_ids), id)
  ]

  module _ (is_whitespace : ℕ → Bool) where
    -- The body of the loop of `parse`, for a line that is an edge.
    pub parse_edge : ℕ → Str → Str → Str → Named → Outcome (Parsed Named)
    parse_edge line_number line from_raw to_raw named =
        let bad : ParseError = record {
          line_number = line_number;
          line = line;
          kind = invalid_edge_declaration;
        } in
        elim (parse_identifier is_whitespace from_raw) [
          | none ↦ done (refused bad)
          | some from_name ↦ elim (parse_declaration is_whitespace to_raw) [
            | none ↦ done (refused bad)
            | some (to_name, explicit) ↦ do
              (named, from_id) ← ensure_node named from_name none
              ((graph, node_ids), to_id) ← ensure_node named to_name none
              (graph, id) ←
                  make_edge edge_id graph from_id to_id
                    (unwrap_or explicit (trim is_whitespace line))
              done (accepted (graph, node_ids))
          ]
        ]

    -- The same, for a line that is a node.
    pub parse_node : ℕ → Str → Named → Outcome (Parsed Named)
    parse_node line_number line named =
        let bad : ParseError = record {
          line_number = line_number;
          line = line;
          kind = invalid_node_declaration;
        } in
        elim (parse_declaration is_whitespace (trim is_whitespace line)) [
          | none ↦ done (refused bad)
          | some (name, explicit) ↦ do
            (named, id) ← ensure_node named name explicit
            done (accepted named)
        ]

    -- The body of the loop of `parse`.
    pub parse_line : ℕ → Str → Named → Outcome (Parsed Named)
    parse_line line_number line named = elim (str_is_empty (trim is_whitespace line)) [
      | true ↦ done (accepted named)
      | false ↦ elim (split_arrow (trim is_whitespace line)) [
        | some (from_raw, to_raw) ↦ parse_edge line_number line from_raw to_raw named
        | none ↦ parse_node line_number line named
      ]
    ]

    -- The loop of `parse`, from the number of the next line.
    pub parse_lines : ℕ → List Str → Named → Outcome (Parsed Named)
    parse_lines line_number [] named = done (accepted named)
    parse_lines line_number (line ∷ rest) named = do
      result ← parse_line line_number line named
      elim result [
        | refused e ↦ done (refused e)
        | accepted named ↦ parse_lines (line_number + 1) rest named
      ]

    pub parse : Str → Outcome (Parsed (OwningGraph Str Str))
    parse source = do
      result ← parse_lines 1 (lines source) (empty, [])
      elim result [
        | refused e ↦ done (refused e)
        | accepted (graph, node_ids) ↦ done (accepted graph)
      ]

-- `find_map` over the entries of a map, by the payload
abbrev pub find_payload : Str → List (ℕ × Str) → Option ℕ
find_payload name [] = none
find_payload name ((id, payload) ∷ rest) =
    let later = find_payload name rest in if str_eq payload name then some id else later

abbrev pub get_node_by_name : OwningGraph Str Str → Str → Option ℕ
get_node_by_name graph name = find_payload name graph.node_data

abbrev pub get_edge_by_data : OwningGraph Str Str → Str → Option ℕ
get_edge_by_data graph name = find_payload name graph.edge_data
