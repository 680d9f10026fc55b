-- ===== src/Dominators/Tree/Strip.antt =====
-- The nodes that the inner loop of `dominator_frontier` passes: those above a predecessor and not above
-- the immediate dominator where the loop stops.
use jstd.Base.{
  ℕ, ◌<◌, ◌≤◌, ◌≡◌, ◌∙◌, sym, subst, ◌⊎◌, inl, inr, true, false, some, List, ◌==◌, ==→eq,
  Bool-cases, arith, ◌↔◌, lookup,
}
use jstd.Dominators.Tree.Above.{Above, itself, higher, IsRanked, some-inj}

-- `Strip idom stop r n` holds if `r` is on the way up from `n`, before `stop`.
pub data Strip (idom : List (ℕ × ℕ)) (stop r : ℕ) : ℕ → Type 0 where
  here : r == stop ≡ false → Strip idom stop r r
  above :
      {n p : ℕ}
      → n == stop ≡ false
      → lookup n idom ≡ some p
      → Strip idom stop r p
      → Strip idom stop r n

module _ (idom : List (ℕ × ℕ)) (rank : ℕ → ℕ) (ranked : IsRanked idom rank) where
  Above-rank : {d n : ℕ} → Above idom d n → rank d ≤ rank n
  Above-rank itself = omega arith
  Above-rank (higher {n} {p} up path) = omega (arith, ranked n p up, Above-rank path)

  -- What is above a node and is not the node is above its immediate dominator.
  Above-parent :
      {d n : ℕ}
      → Above idom d n
      → n == d ≡ false
      → (p : ℕ) × (lookup n idom ≡ some p) × Above idom d p
  Above-parent itself apart = absurd (ground (arith, apart))
  Above-parent (higher {n} {p} up path) apart = (p, up, path)

  Strip-Above : {stop r n : ℕ} → Strip idom stop r n → Above idom r n
  Strip-Above (here apart) = itself
  Strip-Above (above apart up path) = higher up (Strip-Above path)

  -- The place where the loop stops is strictly above what it passes.
  Strip-rank : {stop r n : ℕ} → Above idom stop n → Strip idom stop r n → rank stop < rank r
  Strip-rank {stop} {r} on (here apart) =
      let (p, up, path) = Above-parent on apart in omega (arith, ranked r p up, Above-rank path)
  Strip-rank {stop} {r} on (above {n} {p} apart up path) =
      let (q, up', rest) = Above-parent on apart in
      Strip-rank (subst (Above idom stop) (some-inj (sym up' ∙ up)) rest) path

  Above-Strip :
      {stop r n : ℕ}
      → Above idom stop n
      → Above idom r n
      → ¬ Above idom r stop
      → Strip idom stop r n
  Above-Strip {stop} {r} on itself not_above = here (apart (Bool-cases (r == stop)))
    where
      apart : (r == stop ≡ true) ⊎ (r == stop ≡ false) → r == stop ≡ false
      apart (inl same) = absurd (not_above (subst (Above idom r) (==→eq r stop same) itself))
      apart (inr other) = other
  Above-Strip {stop} {r} on (higher {n} {p} up path) not_above = elim (Bool-cases (n == stop)) [
    | inl same ↦ absurd (not_above (subst (Above idom r) (==→eq n stop same) (higher up path)))
    | inr other ↦
        let (q, up', rest) = Above-parent on other in
        above other up
          (Above-Strip (subst (Above idom stop) (some-inj (sym up' ∙ up)) rest) path not_above)
  ]

  pub Strip-iff :
      {stop r n : ℕ}
      → Above idom stop n
      → Strip idom stop r n ↔ (Above idom r n × ¬ Above idom r stop)
  Strip-iff on = (
    λ strip.
        (Strip-Above strip, λ path. absurd (omega (arith, Strip-rank on strip, Above-rank path))),
    λ (path, not_above). Above-Strip on path not_above,
  )
