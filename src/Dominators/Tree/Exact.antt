-- ===== src/Dominators/Tree/Exact.antt =====
-- The dominance frontier.
use jstd.Base.{
  ℕ, ◌<◌, ◌≡◌, refl, ◌∙◌, ap, inl, inr, Bool, true, false, not, ◌&&◌, Option, some, List, [], ◌∷◌,
  ◌==◌, if◌then◌else◌, member, arith, ◌↔◌, lookup, lookup-insert,
}
use jstd.Dominators.Tree.{DominatorTree, or_empty, empty_sets, all_nodes, dominator_frontier}
use jstd.Dominators.Tree.Above.{Above, IsRanked}
use jstd.Dominators.Tree.Strip.{Strip-iff}
use jstd.Dominators.Tree.Frontier.{in_frontier}
use jstd.Dominators.Tree.Joins.{JoinsAt, Fringe, from_done}

-- `r` is above a predecessor `p` of the join `y`, and not above the immediate dominator of `y`.
abbrev pub Borders : DominatorTree → ℕ → ℕ → Type 0
Borders tree r y =
    (p : ℕ) × (q : ℕ) × JoinsAt y p tree.preds
    × (lookup y tree.idom ≡ some q)
    × Above tree.idom r p
    × (¬ Above tree.idom r q)

or_empty-if :
    (b : Bool) (o : Option (List ℕ)) (m : ℕ)
    → member m (or_empty (if b then some [] else o)) ≡ (not b && member m (or_empty o))
or_empty-if true o m = refl
or_empty-if false o m = ground arith

empty_sets-none : (ns : List ℕ) (r y : ℕ) → in_frontier (empty_sets ns) r y ≡ false
empty_sets-none [] r y = refl
empty_sets-none (n ∷ ns) r y =
    ap (λ o. member y (or_empty o)) (lookup-insert n [] (empty_sets ns) r)
    ∙ or_empty-if (r == n) (lookup r (empty_sets ns)) y
    ∙ ground (arith, empty_sets-none ns r y)

module _ (tree : DominatorTree) (rank : ℕ → ℕ) (ranked : IsRanked tree.idom rank) (fuel : ℕ)
    (enough : (n : ℕ) → rank n < fuel) where
  Fringe-Borders :
      ((y p q : ℕ) → JoinsAt y p tree.preds → lookup y tree.idom ≡ some q → Above tree.idom q p)
      → (r y : ℕ) → Fringe tree.idom tree.preds r y ↔ Borders tree r y
  Fringe-Borders dominated r y = (
    λ (p, q, joins, up, strip).
        let (path, not_above) =
          (Strip-iff tree.idom rank ranked (dominated y p q joins up)).0 strip in
        (p, q, joins, up, path, not_above),
    λ (p, q, joins, up, path, not_above). (
      p,
      q,
      joins,
      up,
      (Strip-iff tree.idom rank ranked (dominated y p q joins up)).1 (path, not_above),
    ),
  )

  -- If the immediate dominators have ranks below the fuel that fall from each node to the next, and lead
  -- from each predecessor of a join to the immediate dominator of the join, `dominator_frontier`
  -- returns. A join `y` that has an immediate dominator is in the frontier of `r` exactly if `r` is above
  -- a predecessor of `y` and not above the immediate dominator of `y`, and no other node is in it. So a node
  -- without an immediate dominator, as the root is, is in no frontier.
  pub frontier_exact :
      ((y p q : ℕ) → JoinsAt y p tree.preds → lookup y tree.idom ≡ some q → Above tree.idom q p)
      → (r y : ℕ)
      → (frontier : List (ℕ × List ℕ)) × (dominator_frontier fuel tree ≡ some frontier)
        × ((in_frontier frontier r y ≡ true) ↔ Borders tree r y)
  unfolding dominator_frontier
  frontier_exact dominated r y =
      let (frontier, eq, gains) =
        from_done tree.idom rank ranked fuel enough tree.preds
          (empty_sets (all_nodes tree.idom tree.root)) in
      (
        frontier,
        eq,
        (
          λ h. elim ((gains r y).0 h) [
            | inl old ↦
                absurd (ground (arith, old, empty_sets-none (all_nodes tree.idom tree.root) r y))
            | inr new ↦ (Fringe-Borders dominated r y).0 new
          ],
          λ borders. (gains r y).1 (inr ((Fringe-Borders dominated r y).1 borders)),
        ),
      )
