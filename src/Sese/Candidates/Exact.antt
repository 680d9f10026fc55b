-- ===== src/Sese/Candidates/Exact.antt =====
-- The loops over the candidates: they find every region, and nothing else.
use jstd.Base.{
  ℕ, zero, suc, ◌+◌, ◌≤◌, ◌<◌, ◌≡◌, refl, sym, ◌∙◌, ◌⊎◌, inl, inr, done_inj, Bool, true, false,
  Bool-cases, ==→eq, some, List, [], ◌∷◌, ◌++◌, ◌==◌, if◌then◌else◌, Outcome, done, length,
  get_elem?, get_elem?_lt, member, Among, Among-append, Among_left, Among_right, arith, subst,
}
use jstd.Sese.{IEdge}
use jstd.Sese.Walk.{Within}
use jstd.Sese.Flowgraph.{is_empty}
use jstd.Sese.Candidates.{Candidate, pair_nodes, pair_row, pair_rows, candidates}
use jstd.Sese.Candidates.Pair.{Bounds, Between, FindsPair, pair_nodes-FindsPair}

member-not-empty : (v : ℕ) (nodes : List ℕ) → member v nodes ≡ true → is_empty nodes ≡ false
member-not-empty v [] h = absurd (ground (arith, h))
member-not-empty v (x ∷ nodes) h = refl

Among-kept :
    (drop : Bool) {c : Candidate} (first : Candidate) (rest : List Candidate)
    → Among c (if drop then rest else first ∷ rest)
    → ((drop ≡ false) × (c ≡ first)) ⊎ Among c rest
Among-kept true first rest a = inr a
Among-kept false first rest Among.first = inl (refl, refl)
Among-kept false first rest (Among.later a) = inr a

Among-rest :
    (drop : Bool) {c : Candidate} (first : Candidate) (rest : List Candidate)
    → Among c rest
    → Among c (if drop then rest else first ∷ rest)
Among-rest true first rest a = a
Among-rest false first rest a = Among.later a

Among_here :
    (a b : ℕ) (nodes : List ℕ) (rest : List Candidate) (c : Candidate)
    → c.0 ≡ a
    → c.1 ≡ b
    → c.2 ≡ nodes
    → is_empty c.2 ≡ false
    → Among c (if is_empty nodes then rest else (a, b, nodes) ∷ rest)
Among_here a b nodes rest (i, j, found) e e' e'' filled =
    rw (sym e, sym e', sym e'', filled) Among.first

module _ {E : Type 0} (edges : List (IEdge E)) (n entry exit : ℕ) (classes : List ℕ) where
  -- A candidate comes from the loop body.
  pub record FromPair (c : Candidate) : Type 0 where
    pub found : pair_nodes edges n entry exit classes c.0 c.1 ≡ done c.2
    pub filled : is_empty c.2 ≡ false

  -- What a loop over the pairs in a range returns.
  record Collects (run : Outcome (List Candidate)) (In : ℕ → ℕ → Type 0) : Type 0 where
    pub list : List Candidate
    pub ran : run ≡ done list
    pub sound : (c : Candidate) → Among c list → In c.0 c.1 × FromPair c
    pub all : (c : Candidate) → In c.0 c.1 → FromPair c → Among c list

  module _
      (returns : (a b : ℕ)
        → a < length edges
        → b < length edges
        → (nodes : List ℕ) × (pair_nodes edges n entry exit classes a b ≡ done nodes)) where
    row_lem :
        (a b k : ℕ)
        → a < length edges
        → b + k ≤ length edges
        → Collects
            (pair_row edges n entry exit classes a b k)
            (λ i j. (i ≡ a) × (b ≤ j) × (j < b + k))
    unfolding pair_row
    row_lem a b zero ha hb = record {
      list = [];
      ran = refl;
      sound = λ c h. elim h [ ];
      all = λ c (_, low, high) h. absurd (omega (arith, low, high));
    }
    row_lem a b (suc k) ha hb =
        let (nodes, got) = returns a b ha (omega (arith, hb)) in
        let r = row_lem a (b + 1) k ha (omega (arith, hb)) in
        record {
          list = if is_empty nodes then r.list else (a, b, nodes) ∷ r.list;
          ran = ground (arith, got, r.ran);
          sound = λ c h. elim (Among-kept (is_empty nodes) (a, b, nodes) r.list h) [
            | inl (kept, e) ↦
                rw e ((refl, omega arith, omega arith), record { found = got; filled = kept })
            | inr rest ↦
                let ((e, low, high), from) = r.sound c rest in
                ((e, omega (arith, low), omega (arith, high)), from)
          ];
          all = λ c (e, low, high) from. elim (Bool-cases (b == c.1)) [
            | inl here ↦
                Among_here a b nodes r.list c e (sym (==→eq b c.1 here))
                  (done_inj (sym from.found ∙ rw (e, sym (==→eq b c.1 here)) got)) from.filled
            | inr there ↦
                Among-rest (is_empty nodes) (a, b, nodes) r.list
                  (r.all c (e, ground (arith, there, low), omega (arith, high)) from)
          ];
        }

    rows_lem :
        (count a k : ℕ)
        → count ≤ length edges
        → a + k ≤ length edges
        → Collects
            (pair_rows edges n entry exit classes count a k)
            (λ i j. (a ≤ i) × (i < a + k) × (j < count))
    unfolding pair_rows
    rows_lem count a zero hc ha = record {
      list = [];
      ran = refl;
      sound = λ c h. elim h [ ];
      all = λ c (low, high, _) h. absurd (omega (arith, low, high));
    }
    rows_lem count a (suc k) hc ha =
        let r = row_lem a 0 count (omega (arith, ha)) (omega (arith, hc)) in
        let s = rows_lem count (a + 1) k hc (omega (arith, ha)) in
        record {
          list = r.list ++ s.list;
          ran = ground (arith, r.ran, s.ran);
          sound = λ c h. elim (Among-append r.list s.list h) [
            | inl one ↦
                let ((e, low, high), from) = r.sound c one in
                ((omega (arith, e), omega (arith, e), omega (arith, high)), from)
            | inr rest ↦
                let ((low, high, below), from) = s.sound c rest in
                ((omega (arith, low), omega (arith, high), below), from)
          ];
          all = λ c (low, high, below) from. elim (Bool-cases (a == c.0)) [
            | inl here ↦
                Among_left s.list
                  (r.all c (sym (==→eq a c.0 here), omega arith, omega (arith, below)) from)
            | inr there ↦
                Among_right r.list
                  (s.all c (ground (arith, there, low), omega (arith, high), below) from)
          ];
        }

  -- A region: its entry edge and its exit edge bound it, and it has the nodes between them, in
  -- ascending order, of which there is one.
  pub record IsRegion (count : ℕ) (c : Candidate) : Type 0 where
    pub from_edge : IEdge E
    pub to_edge : IEdge E
    pub entry_at : get_elem? edges c.0 ≡ some from_edge
    pub exit_at : get_elem? edges c.1 ≡ some to_edge
    pub counted : (c.0 < count) × (c.1 < count)
    pub filled : is_empty c.2 ≡ false
    pub nodes : FindsPair edges n entry exit classes c.0 c.1 from_edge to_edge c.2

  -- On edges among the nodes below `n`, with one class for each edge, the loops over the first `count`
  -- edges do not panic. Every candidate is a region: two different edges of one class other than 0, of
  -- which the first dominates the second and the second post-dominates the first, with the nodes
  -- between them. For two such edges with a node between them there is a candidate, which has the node.
  pub candidates_exact :
      (count : ℕ)
      → Within n edges
      → length classes ≡ length edges
      → entry < n
      → exit < n
      → count ≤ length edges
      → (found : List Candidate) × (candidates edges n entry exit classes count ≡ done found)
        × ((c : Candidate) → Among c found → IsRegion count c)
        × ((a b v : ℕ) (e f : IEdge E)
            → a < count
            → b < count
            → get_elem? edges a ≡ some e
            → get_elem? edges b ≡ some f
            → Bounds edges n entry exit classes a b e f
            → Between edges n entry exit classes a b e f v
            → (nodes : List ℕ) × Among (a, b, nodes) found × (member v nodes ≡ true))
  unfolding candidates
  candidates_exact count w size hn hx hc =
      let finds = pair_nodes-FindsPair edges n entry exit classes w size in
      let r =
        rows_lem
          (λ a b ha hb.
            let (e, at) = get_elem?_lt edges a ha in
            let (f, at') = get_elem?_lt edges b hb in
            let (nodes, got, _) = finds a b e f hn hx at at' in (nodes, got))
          count 0 count hc (omega (arith, hc)) in
      (
        r.list,
        r.ran,
        λ c among.
            let ((low, high, below), from) = r.sound c among in
            let (e, at) = get_elem?_lt edges c.0 (omega (arith, high, hc)) in
            let (f, at') = get_elem?_lt edges c.1 (omega (arith, below, hc)) in
            let (nodes, got, fact) = finds c.0 c.1 e f hn hx at at' in
            record {
              from_edge = e;
              to_edge = f;
              entry_at = at;
              exit_at = at';
              counted = (omega (arith, high), below);
              filled = from.filled;
              nodes =
                  subst (FindsPair edges n entry exit classes c.0 c.1 e f)
                    (done_inj (sym got ∙ from.found)) fact;
            },
        λ a b v e f ha hb at at' bounds between.
            let (nodes, got, (up, on)) = finds a b e f hn hx at at' in
            let there = (on v).1 (bounds, between) in
            (
              nodes,
              r.all (a, b, nodes) (omega arith, omega (arith, ha), hb)
                  (record { found = got; filled = member-not-empty v nodes there }),
              there,
            ),
      )
