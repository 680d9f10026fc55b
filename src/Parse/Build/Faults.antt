-- ===== src/Parse/Build/Faults.antt =====
-- The errors of `parse`, src/graph/parse.rs: which line is refused depends on the lines alone, and the calls
-- on the graph do not panic as long as the counters have room.
use jstd.Base.{
  ℕ, ◌+◌, ◌*◌, ◌≤◌, ◌≡◌, refl, inl, inr, Bool, Bool-cases, Option, Option-cases, none, some, List,
  [], ◌∷◌, if◌then◌else◌, done, length, ◌⊎◌, arith,
}
use jstd.Graph.{OwningGraph, empty}
use jstd.Graph.Live.{
  last_count, Grows, make_edge-Grows, Grows-refl, Grows-widen, Grows-trans, empty_counts,
}
use jstd.Parse.{
  Str, str_is_empty, ParseErrorKind, invalid_node_declaration, invalid_edge_declaration, ParseError,
  accepted, refused, split_arrow, lines, trim, parse_declaration, parse_identifier,
}
use jstd.Parse.Build.{unwrap_or, Named, parse_edge, parse_node, parse_line, parse_lines, parse}
use jstd.Parse.Build.Names.{Known, ensure_node-Known, make_edge-Known}

module _ (is_whitespace : ℕ → Bool) where
  -- What is wrong with a line that has an arrow between `from_raw` and `to_raw`.
  abbrev edge_fault : Str → Str → Option ParseErrorKind
  edge_fault from_raw to_raw = elim (parse_identifier is_whitespace from_raw) [
    | none ↦ some invalid_edge_declaration
    | some from_name ↦ elim (parse_declaration is_whitespace to_raw) [
      | none ↦ some invalid_edge_declaration
      | some to ↦ none
    ]
  ]

  -- What is wrong with a line.
  abbrev pub fault : Str → Option ParseErrorKind
  fault line =
      if str_is_empty (trim is_whitespace line)
      then none
      else elim (split_arrow (trim is_whitespace line)) [
        | some (from_raw, to_raw) ↦ edge_fault from_raw to_raw
        | none ↦ elim (parse_declaration is_whitespace (trim is_whitespace line)) [
          | none ↦ some invalid_node_declaration
          | some declared ↦ none
        ]
      ]

  -- The error of the first line with a fault, if there is one, for lines from a number on.
  abbrev pub first_fault : ℕ → List Str → Option ParseError
  first_fault line_number [] = none
  first_fault line_number (line ∷ rest) = elim (fault line) [
    | some kind ↦ some (record { line_number = line_number; line = line; kind = kind })
    | none ↦ first_fault (line_number + 1) rest
  ]

module _ (node_id edge_id : ℕ → ℕ) where
  module _ (is_whitespace : ℕ → Bool) where
    line_refused :
        (n : ℕ) (line : Str) (named : Named) (kind : ParseErrorKind)
        → fault is_whitespace line ≡ some kind
        → parse_line node_id edge_id is_whitespace n line named
          ≡ done (refused (record { line_number = n; line = line; kind = kind }))
    unfolding parse_line parse_edge parse_node
    line_refused n line named kind h = ground (arith, h)

    edge_accepted :
        (n : ℕ) (line from_raw to_raw : Str) (named : Named)
        → edge_fault is_whitespace from_raw to_raw ≡ none
        → Known named
        → named.0.next_node_id + 2 ≤ last_count
        → named.0.next_edge_id + 1 ≤ last_count
        → (named' : Named) × (parse_edge node_id edge_id is_whitespace n line from_raw to_raw named
            ≡ done (accepted named'))
          × Known named'
          × Grows named.0 2 1 named'.0
    unfolding parse_edge
    edge_accepted n line from_raw to_raw named h known node_room edge_room =
        elim (Option-cases (parse_identifier is_whitespace from_raw)) [
          | inl bad ↦ absurd (ground (arith, h, bad))
          | inr (from_name, from) ↦ elim (Option-cases (parse_declaration is_whitespace to_raw)) [
            | inl bad ↦ absurd (ground (arith, h, from, bad))
            | inr ((to_name, explicit), to) ↦
                let (one, from_id, eq1, known1, grows1, live1) =
                  ensure_node-Known node_id edge_id named from_name none known
                    (omega (arith, node_room)) in
                let (two, to_id, eq2, known2, grows2, live2) =
                  ensure_node-Known node_id edge_id one to_name none known1
                    (omega (arith, node_room, grows1.nodes_made)) in
                let (g, id, made, grows) =
                  make_edge-Grows edge_id two.0 from_id to_id
                    (unwrap_or explicit (trim is_whitespace line))
                    (omega (arith, edge_room, grows1.edges_made, grows2.edges_made))
                    (grows2.stay from_id live1) live2 in
                (
                  (g, two.1),
                  ground (arith, from, to, eq1, eq2, made),
                  make_edge-Known two.0 g two.1 known2 grows,
                  Grows-trans (Grows-trans grows1 grows2) grows,
                )
          ]
        ]

    node_accepted :
        (n : ℕ) (line : Str) (named : Named) (name : Str) (explicit : Option Str)
        → parse_declaration is_whitespace (trim is_whitespace line) ≡ some (name, explicit)
        → Known named
        → named.0.next_node_id + 2 ≤ last_count
        → (named' : Named) × (parse_node node_id edge_id is_whitespace n line named
            ≡ done (accepted named'))
          × Known named'
          × Grows named.0 1 0 named'.0
    unfolding parse_node
    node_accepted n line named name explicit declared known room =
        let (one, id, eq, known', grows, live) =
          ensure_node-Known node_id edge_id named name explicit known (omega (arith, room)) in
        (one, ground (arith, declared, eq), known', grows)

    line_accepted :
        (n : ℕ) (line : Str) (named : Named)
        → fault is_whitespace line ≡ none
        → Known named
        → named.0.next_node_id + 2 ≤ last_count
        → named.0.next_edge_id + 1 ≤ last_count
        → (named' : Named) × (parse_line node_id edge_id is_whitespace n line named
            ≡ done (accepted named'))
          × Known named'
          × Grows named.0 2 1 named'.0
    unfolding parse_line
    line_accepted n line named h known node_room edge_room =
        elim (Bool-cases (str_is_empty (trim is_whitespace line))) [
          | inl blank ↦ (
            named,
            ground (arith, blank),
            known,
            Grows-widen 2 1 (Grows-refl named.0) (omega arith) (omega arith),
          )
          | inr text ↦ elim (Option-cases (split_arrow (trim is_whitespace line))) [
            | inr ((from_raw, to_raw), split) ↦
                let (named', eq, known', grows) =
                  edge_accepted n line from_raw to_raw named (ground (arith, h, text, split)) known
                    node_room edge_room in
                (named', ground (arith, text, split, eq), known', grows)
            | inl one ↦
                elim (Option-cases (parse_declaration is_whitespace (trim is_whitespace line))) [
                  | inl bad ↦ absurd (ground (arith, h, text, one, bad))
                  | inr ((name, explicit), declared) ↦
                      let (named', eq, known', grows) =
                        node_accepted n line named name explicit declared known node_room in
                      (
                        named',
                        ground (arith, text, one, eq),
                        known',
                        Grows-widen 2 1 grows (omega arith) (omega arith),
                      )
                ]
          ]
        ]

    lines_refused :
        (n : ℕ) (ls : List Str) (named : Named) (e : ParseError)
        → first_fault is_whitespace n ls ≡ some e
        → Known named
        → named.0.next_node_id + 2 * length ls ≤ last_count
        → named.0.next_edge_id + length ls ≤ last_count
        → parse_lines node_id edge_id is_whitespace n ls named ≡ done (refused e)
    unfolding parse_lines
    lines_refused n [] named e h known node_room edge_room = absurd (ground (arith, h))
    lines_refused n (line ∷ rest) named e h known node_room edge_room =
        elim (Option-cases (fault is_whitespace line)) [
          | inr (kind, bad) ↦ ground (arith, h, bad, line_refused n line named kind bad)
          | inl fine ↦
              let (named', eq, known', grows) =
                line_accepted n line named fine known (omega (arith, node_room))
                  (omega (arith, edge_room)) in
              ground (
                arith,
                h,
                fine,
                eq,
                lines_refused (n + 1) rest named' e (ground (arith, h, fine)) known'
                    (omega (arith, node_room, grows.nodes_made))
                    (omega (arith, edge_room, grows.edges_made)),
              )
        ]

    lines_accepted :
        (n : ℕ) (ls : List Str) (named : Named)
        → first_fault is_whitespace n ls ≡ none
        → Known named
        → named.0.next_node_id + 2 * length ls ≤ last_count
        → named.0.next_edge_id + length ls ≤ last_count
        → (named' : Named) × (parse_lines node_id edge_id is_whitespace n ls named
            ≡ done (accepted named'))
          × Known named'
    unfolding parse_lines
    lines_accepted n [] named h known node_room edge_room = (named, refl, known)
    lines_accepted n (line ∷ rest) named h known node_room edge_room =
        elim (Option-cases (fault is_whitespace line)) [
          | inr (kind, bad) ↦ absurd (ground (arith, h, bad))
          | inl fine ↦
              let (named', eq, known', grows) =
                line_accepted n line named fine known (omega (arith, node_room))
                  (omega (arith, edge_room)) in
              let (last, eq', known'') =
                lines_accepted (n + 1) rest named' (ground (arith, h, fine)) known'
                  (omega (arith, node_room, grows.nodes_made))
                  (omega (arith, edge_room, grows.edges_made)) in
              (last, ground (arith, eq, eq'), known'')
        ]

    -- For a source that has no more than half as many lines as a counter can count, whatever ids the counts
    -- are turned into, `parse` returns without a panic: it refuses the source with the error of the first
    -- line that has a fault, with that line and its number, and when no line has a fault it returns a graph.
    pub parse-first_fault :
        (source : Str)
        → 2 * length (lines source) ≤ last_count
        → ((e : ParseError) × (first_fault is_whitespace 1 (lines source) ≡ some e)
            × (parse node_id edge_id is_whitespace source ≡ done (refused e)))
          ⊎ ((graph : OwningGraph Str Str) × (first_fault is_whitespace 1 (lines source) ≡ none)
              × (parse node_id edge_id is_whitespace source ≡ done (accepted graph)))
    unfolding parse
    parse-first_fault source room =
        let (no_nodes, no_edges) = empty_counts Str Str in
        let node_room : (empty {N = Str} {E = Str}).next_node_id + 2 * length (lines source)
            ≤ last_count =
          omega (arith, room, no_nodes) in
        let edge_room : (empty {N = Str} {E = Str}).next_edge_id + length (lines source)
            ≤ last_count =
          omega (arith, room, no_edges) in
        let known : Known (empty, []) = record {
          live = λ q j found. absurd (ground (arith, found));
        } in
        elim (Option-cases (first_fault is_whitespace 1 (lines source))) [
          | inr (e, first) ↦ inl (
            e,
            first,
            ground (
              arith,
              lines_refused 1 (lines source) (empty, []) e first known node_room edge_room,
            ),
          )
          | inl fine ↦
              let (named, eq, known') =
                lines_accepted 1 (lines source) (empty, []) fine known node_room edge_room in
              inr (named.0, fine, ground (arith, eq))
        ]
