-- ===== src/Sese/Candidates/Pair.antt =====
-- One pair of edges of the loops over the candidates, in terms of walks.
use jstd.Base.{
  ℕ, ◌-◌, ◌<◌, ◌≡◌, refl, ◌∙◌, ◌↔◌, inl, inr, Bool, true, false, not, ◌&&◌, if◌then◌else◌,
  Bool-cases, some, List, [], ◌==◌, done, length, get_elem?, lt-length_of_get_elem?, index, member,
  arith,
}
use jstd.Sese.{IEdge, edge_dominates, edge_postdominates, region_nodes}
use jstd.Sese.Walk.{Walk, Within}
use jstd.Sese.Boundary.{edge_dominates-Walk, edge_postdominates-Walk}
use jstd.Sese.Region.{Ascending, region_nodes-Walk}
use jstd.Sese.Classes.{class, index-class}
use jstd.Sese.Candidates.{pair_nodes}

module _ {E : Type 0} (edges : List (IEdge E)) (n entry exit : ℕ) (classes : List ℕ) where
  -- The edge `a` dominates the edge `b`, which post-dominates it, and both have one class.
  pub record Bounds (a b : ℕ) (e f : IEdge E) : Type 0 where
    pub apart : (a == b) ≡ false
    pub dominates : ¬ Walk edges (some a) false entry f.from_node
    pub postdominates : ¬ Walk edges (some b) false e.to_node exit
    pub classed : (class classes a == 0) ≡ false
    pub one_class : (class classes a == class classes b) ≡ true

  -- The nodes between the two edges.
  abbrev pub Between : ℕ → ℕ → IEdge E → IEdge E → ℕ → Type 0
  Between a b e f v =
      (v < n - 1) × Walk edges (some b) false e.to_node v × Walk edges (some a) false v f.from_node

  -- What the loop body finds for a pair: the nodes between the edges, if these bound a region.
  abbrev pub FindsPair : (a b : ℕ) → IEdge E → IEdge E → List ℕ → Type 0
  FindsPair a b e f nodes =
      Ascending 0 nodes × ((v : ℕ) → (member v nodes ≡ true) ↔ (Bounds a b e f × Between a b e f v))

  -- The outcome of the tests of the loop body.
  abbrev passes : (same p q : Bool) → (class_a class_b : ℕ) → Bool
  passes same p q class_a class_b =
      not same && (p && (q && (not (class_a == 0) && (class_a == class_b))))

  branches :
      (same p q : Bool) (class_a class_b : ℕ) (a b : ℕ) (nodes : List ℕ)
      → (a == b) ≡ same
      → edge_dominates edges n entry a b ≡ done p
      → edge_postdominates edges n exit b a ≡ done q
      → index classes a ≡ done class_a
      → index classes b ≡ done class_b
      → region_nodes edges n a b ≡ done nodes
      → pair_nodes edges n entry exit classes a b
        ≡ done (if passes same p q class_a class_b then nodes else [])
  unfolding pair_nodes
  branches same p q class_a class_b a b nodes h dom post ca cb found =
      ground (arith, h, dom, post, ca, cb, found)

  module _ (w : Within n edges) (size : length classes ≡ length edges) where
    -- On edges among the nodes below `n`, the loop body does not panic.
    pub pair_nodes-FindsPair :
        (a b : ℕ) (e f : IEdge E)
        → entry < n
        → exit < n
        → get_elem? edges a ≡ some e
        → get_elem? edges b ≡ some f
        → (nodes : List ℕ) × (pair_nodes edges n entry exit classes a b ≡ done nodes)
          × FindsPair a b e f nodes
    pair_nodes-FindsPair a b e f hn hx at at' =
        let (p, dominated, (dom, dom')) = edge_dominates-Walk edges n entry a b f w hn at' in
        let (q, postdominated, (post, post')) =
          edge_postdominates-Walk edges n exit b a e w hx at in
        let (nodes, found, up, on) = region_nodes-Walk edges n a b e f w at at' in
        let ca = index-class classes a (omega (arith, size, lt-length_of_get_elem? edges a at)) in
        let cb = index-class classes b (omega (arith, size, lt-length_of_get_elem? edges b at')) in
        let good = passes (a == b) p q (class classes a) (class classes b) in
        let ran =
          branches (a == b) p q (class classes a) (class classes b) a b nodes refl dominated
            postdominated ca cb found in
        elim (Bool-cases good) [
          | inl yes_good ↦ (
            nodes,
            ran ∙ rw yes_good refl,
            (
              up,
              λ v. (
                λ m. (
                  record {
                    apart = ground (arith, yes_good);
                    dominates = dom (ground (arith, yes_good));
                    postdominates = post (ground (arith, yes_good));
                    classed = ground (arith, yes_good);
                    one_class = ground (arith, yes_good);
                  },
                  (on v).0 m,
                ),
                λ r. (on v).1 r.1,
              ),
            ),
          )
          | inr refused ↦ (
            [],
            ran ∙ rw refused refl,
            (
              tt,
              λ v. (
                λ m. absurd (ground (arith, m)),
                λ (h, _). absurd (
                    ground (
                      arith,
                      refused,
                      h.apart,
                      dom' h.dominates,
                      post' h.postdominates,
                      h.classed,
                      h.one_class,
                    )),
              ),
            ),
          )
        ]
