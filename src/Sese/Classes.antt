-- ===== src/Sese/Classes.antt =====
-- The validation at the end of `jpp_cycle_classes`: what it lets through, and that it lets nothing
-- through where an edge lies on a cycle.
use jstd.Base.{
  ℕ, zero, suc, ◌+◌, ◌≤◌, ◌<◌, ◌≡◌, refl, sym, ◌∙◌, done_inj, ◌↔◌, inl, inr, Bool, true, false,
  ◌&&◌, Bool-cases, ==→eq, some, none, List, ◌==◌, Outcome, done, length, get_elem?, get_elem?_lt,
  lt-length_of_get_elem?, index, arith,
}
use jstd.Sese.{IEdge, agree, cycle_equivalent, pairs_valid, rows_valid, valid}
use jstd.Sese.Walk.{Walk, Within, detour}
use jstd.Sese.Boundary.{Decides, cycle_equivalent-Walk}

abbrev pub class : List ℕ → ℕ → ℕ
class classes i = elim (get_elem? classes i) [ none ↦ 0 | some c ↦ c ]

pub index-class :
    (classes : List ℕ) (i : ℕ) → i < length classes → index classes i ≡ done (class classes i)
index-class classes i h = let (c, at) = get_elem?_lt classes i h in ground (arith, at)

-- A test of `all` goes on where it holds.
branch :
    (good : Bool) (rest : Outcome Bool) (r : Bool)
    → rest ≡ done r
    → elim good [ true ↦ rest | false ↦ done false ] ≡ done (good && r)
branch true rest r h = h
branch false rest r h = refl

agree_eq : (p q : Bool) → agree p q ≡ true → q ≡ p
agree_eq true q h = h
agree_eq false q h = ground arith

agree_same : (p q : Bool) → q ≡ p → agree p q ≡ true
agree_same true q h = h
agree_same false q h = ground arith

both-true : (p q : Bool) → p ≡ true → q ≡ true → (p && q) ≡ true
both-true p q h k = ground arith

module _ {E : Type 0} (edges : List (IEdge E)) (n : ℕ) (w : Within n edges) where
  equivalent_done :
      (a b : ℕ)
      → a < length edges
      → b < length edges
      → (q : Bool) × (cycle_equivalent edges n a b ≡ done q)
  equivalent_done a b h k =
      let (e, at) = get_elem?_lt edges a h in
      let (f, at') = get_elem?_lt edges b k in
      let (q, found, _) = cycle_equivalent-Walk edges n a b e f w at at' in (q, found)

  module _ (classes : List ℕ) (size : length classes ≡ length edges) where
    -- The predicate gives what the classes say.
    abbrev pub Fair : ℕ → ℕ → Type 0
    Fair a b = cycle_equivalent edges n a b ≡ done (class classes a == class classes b)

    pairs_step :
        (a b k : ℕ) (q r : Bool)
        → a < length edges
        → b < length edges
        → cycle_equivalent edges n a b ≡ done q
        → pairs_valid edges n classes a (b + 1) k ≡ done r
        → pairs_valid edges n classes a b (suc k)
          ≡ done (agree (class classes a == class classes b) q && r)
    unfolding pairs_valid
    pairs_step a b k q r ha hb found later =
        rw
          (
            index-class classes a (omega (arith, size)),
            index-class classes b (omega (arith, size)),
            found,
          )
          (branch (agree (class classes a == class classes b) q) _ r later)

    pairs_lem :
        (a b k : ℕ)
        → a < length edges
        → b + k ≤ length edges
        → (r : Bool) × (pairs_valid edges n classes a b k ≡ done r)
          × ((r ≡ true) ↔ ((j : ℕ) → b ≤ j → j < b + k → Fair a j))
    unfolding pairs_valid
    pairs_lem a b zero ha hb = (true, refl, (λ e j low high. absurd (omega arith), λ all. refl))
    pairs_lem a b (suc k) ha hb =
        let (q, found) = equivalent_done a b ha (omega arith) in
        let (r, later, (fair, rest)) = pairs_lem a (b + 1) k ha (omega arith) in
        (
          agree (class classes a == class classes b) q && r,
          pairs_step a b k q r ha (omega arith) found later,
          (
            λ e j low high. elim (Bool-cases (b == j)) [
              | inl same ↦
                  ground (
                    arith,
                    ==→eq b j same,
                    found,
                    agree_eq (class classes a == class classes b) q,
                    e,
                  )
              | inr other ↦
                  fair (ground (arith, e)) j (ground (arith, other, low)) (omega (arith, high))
            ],
            λ all.
                both-true _ r
                  (agree_same (class classes a == class classes b) q
                    (done_inj (sym found ∙ all b (omega arith) (omega arith))))
                  (rest (λ j low high. all j (omega arith) (omega arith))),
          ),
        )

    rows_lem :
        (a k : ℕ)
        → a + k ≤ length edges
        → (r : Bool) × (rows_valid edges n classes a k ≡ done r)
          × ((r ≡ true) ↔ ((i j : ℕ) → a ≤ i → i < a + k → j < length edges → Fair i j))
    unfolding rows_valid
    rows_lem a zero h = (true, refl, (λ e i j low high inside. absurd (omega arith), λ all. refl))
    rows_lem a (suc k) h =
        let (row, found, (fair, good)) = pairs_lem a 0 (length edges) (omega arith) (omega arith) in
        let (r, later, (fairs, rest)) = rows_lem (a + 1) k (omega arith) in
        (
          row && r,
          rw found (branch row _ r later),
          (
            λ e i j low high inside. elim (Bool-cases (a == i)) [
              | inl same ↦ ground (
                arith,
                ==→eq a i same,
                fair (ground (arith, e)) j (omega arith) (omega (arith, inside)),
              )
              | inr other ↦
                  fairs (ground (arith, e)) i j (ground (arith, other, low)) (omega (arith, high))
                    inside
            ],
            λ all.
                both-true row r
                  (good (λ j low high. all a j (omega arith) (omega arith) (omega (arith, high))))
                  (rest (λ i j low high inside. all i j (omega arith) (omega arith) inside)),
          ),
        )

    -- On edges among the nodes below `n`, with one class for each edge, the validation does not
    -- panic, and is true exactly if `cycle_equivalent` gives, for any two edges, whether they
    -- have the same class.
    pub valid_exact :
        Decides (valid edges n classes) ((i j : ℕ) → i < length edges → j < length edges → Fair i j)
    unfolding valid
    valid_exact =
        let (r, found, (fairs, rest)) = rows_lem 0 (length edges) (omega arith) in
        (
          r,
          found,
          (
            λ e i j hi hj. fairs e i j (omega arith) (omega (arith, hi)) hj,
            λ all. rest (λ i j low high inside. all i j (omega (arith, high)) inside),
          ),
        )

    -- On edges among the nodes below `n`, if some edge lies on a cycle, then no classes, one for
    -- each edge, pass the validation: it returns false.
    pub valid-cycle :
        (a : ℕ) (e : IEdge E)
        → get_elem? edges a ≡ some e
        → Walk edges none false e.to_node e.from_node
        → valid edges n classes ≡ done false
    valid-cycle a e at cycle =
        let (q, found, exact) = cycle_equivalent-Walk edges n a a e e w at at in
        let (r, validated, (fairs, _)) = valid_exact in
        let inside = lt-length_of_get_elem? edges a at in
        let avoiding : Walk edges (some a) false e.to_node e.from_node =
          elim (detour edges a e e.to_node e.from_node at cycle) [
            | inl path ↦ path
            | inr path ↦ path
          ] in
        elim (Bool-cases r) [
          | inl kept ↦
              let same : cycle_equivalent edges n a a ≡ done true =
                ground (arith, fairs kept a a inside inside) in
              absurd ((exact.0 (ground (arith, found, same))).0 avoiding)
          | inr refused ↦ ground (arith, validated, refused)
        ]
