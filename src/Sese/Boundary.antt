-- ===== src/Sese/Boundary.antt =====
-- The edge predicates of the region test, in terms of walks.
use jstd.Base.{
  ℕ, ◌<◌, ◌≡◌, refl, ◌↔◌, Bool, true, false, not, ◌&&◌, some, List, Outcome, done, get_elem?, arith,
}
use jstd.Sese.{IEdge, edge_dominates, edge_postdominates, cycle_without, cycle_equivalent}
use jstd.Sese.Walk.{Walk, backwards, Within, Within_at}
use jstd.Sese.Scan.{flag, index-flag}
use jstd.Sese.Loop.{reachable-Walk}

pub iff_trans : {P Q R : Type 0} → (P ↔ Q) → (Q ↔ R) → P ↔ R
iff_trans (f, g) (h, k) = (λ p. h (f p), λ r. g (k r))

-- A negated test, against what the test decides.
negated : {P : Type 0} (b : Bool) → ((b ≡ true) ↔ P) → (not b ≡ true) ↔ (¬ P)
negated true (f, g) = (λ e. absurd (ground arith), λ h. absurd (h (f refl)))
negated false (f, g) = (λ e p. ground (arith, g p), λ h. refl)

-- A call returns a Boolean, which is true exactly under the condition.
abbrev pub Decides : Outcome Bool → Type 0 → Type 0
Decides m P = (b : Bool) × (m ≡ done b) × ((b ≡ true) ↔ P)

module _ {E : Type 0} (edges : List (IEdge E)) (n : ℕ) where
  -- `edge_dominates` is true exactly if every walk from the root to the source of the edge `b` uses
  -- the edge `a`; on edges among the nodes below `n` it does not panic.
  pub edge_dominates-Walk :
      (root a b : ℕ) (e : IEdge E)
      → Within n edges
      → root < n
      → get_elem? edges b ≡ some e
      → Decides (edge_dominates edges n root a b) (¬ Walk edges (some a) false root e.from_node)
  unfolding edge_dominates
  edge_dominates-Walk root a b e w h at =
      let (seen, searched, size, walks) = reachable-Walk edges n root (some a) false w h in
      let inside = (Within_at n edges b e w at).0 in
      (
        not (flag seen e.from_node),
        rw (searched, at, index-flag seen e.from_node (omega (arith, size))) refl,
        negated (flag seen e.from_node) (walks e.from_node),
      )

  -- `edge_postdominates` is true exactly if every walk from the target of the edge `a` to the exit
  -- uses the edge `b`; on edges among the nodes below `n` it does not panic.
  pub edge_postdominates-Walk :
      (exit b a : ℕ) (e : IEdge E)
      → Within n edges
      → exit < n
      → get_elem? edges a ≡ some e
      → Decides (edge_postdominates edges n exit b a) (¬ Walk edges (some b) false e.to_node exit)
  unfolding edge_postdominates
  edge_postdominates-Walk exit b a e w h at =
      let (seen, searched, size, walks) = reachable-Walk edges n exit (some b) true w h in
      let inside = (Within_at n edges a e w at).1 in
      (
        not (flag seen e.to_node),
        rw (searched, at, index-flag seen e.to_node (omega (arith, size))) refl,
        negated (flag seen e.to_node)
            (iff_trans (walks e.to_node) (backwards edges (some b) exit e.to_node)),
      )

  -- Whether the edge `a` closes a cycle without the edge `b`.
  pub cycle_without-Walk :
      (a b : ℕ) (e : IEdge E)
      → Within n edges
      → get_elem? edges a ≡ some e
      → Decides (cycle_without edges n a b) (Walk edges (some b) false e.to_node e.from_node)
  unfolding cycle_without
  cycle_without-Walk a b e w at =
      let (below, above) = Within_at n edges a e w at in
      let (seen, searched, size, walks) = reachable-Walk edges n e.to_node (some b) false w above in
      (
        flag seen e.from_node,
        rw (at, searched, index-flag seen e.from_node (omega (arith, size))) refl,
        walks e.from_node,
      )

  neither :
      {P Q : Type 0} (p q : Bool)
      → ((p ≡ true) ↔ P)
      → ((q ≡ true) ↔ Q)
      → (not p && not q ≡ true) ↔ ((¬ P) × (¬ Q))
  neither true q (f, g) h = (λ e. absurd (ground arith), λ r. absurd (r.0 (f refl)))
  neither false q (f, g) h =
      (λ e. (λ p. absurd (ground (arith, g p)), (negated q h).0 e), λ r. (negated q h).1 r.1)

  -- `cycle_equivalent` is true exactly if neither edge closes a cycle without the other; on edges
  -- among the nodes below `n` it does not panic.
  pub cycle_equivalent-Walk :
      (a b : ℕ) (e f : IEdge E)
      → Within n edges
      → get_elem? edges a ≡ some e
      → get_elem? edges b ≡ some f
      → Decides (cycle_equivalent edges n a b) (
          (¬ Walk edges (some b) false e.to_node e.from_node)
          × (¬ Walk edges (some a) false f.to_node f.from_node))
  unfolding cycle_equivalent
  cycle_equivalent-Walk a b e f w at at' =
      let (p, found, walks) = cycle_without-Walk a b e w at in
      let (q, found', walks') = cycle_without-Walk b a f w at' in
      (not p && not q, rw (found, found') refl, neither p q walks walks')
