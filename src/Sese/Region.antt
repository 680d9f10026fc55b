-- ===== src/Sese/Region.antt =====
-- `region_nodes`: the nodes of a region, in terms of walks from its two boundary edges.
use jstd.Base.{
  ℕ, zero, suc, ◌+◌, ◌-◌, ◌≤◌, ◌<◌, ◌≡◌, refl, ◌↔◌, Bool, true, false, ◌&&◌, ltb, leb, some, List,
  [], ◌∷◌, ◌==◌, if◌then◌else◌, Bool-cases, ==→eq, inl, inr, done, length, get_elem?, member, arith,
}
use jstd.Sese.{IEdge, both_seen, region_nodes}
use jstd.Sese.Walk.{Walk, backwards, Within, Within_at}
use jstd.Sese.Scan.{flag, index-flag}
use jstd.Sese.Loop.{reachable-Walk}

-- Strictly ascending, from `low` on.
abbrev pub Ascending : ℕ → List ℕ → Type 0
Ascending low [] = Unit
Ascending low (x ∷ xs) = (low ≤ x) × Ascending (suc x) xs

Ascending-le : (low high : ℕ) (xs : List ℕ) → low ≤ high → Ascending high xs → Ascending low xs
Ascending-le low high [] h a = tt
Ascending-le low high (x ∷ xs) h a = (omega (arith, a.0), a.1)

member-kept :
    (b : Bool) (node v k : ℕ) (f g : Bool) (rest : List ℕ)
    → (node == v ≡ true → b ≡ (f && g))
    → member v rest ≡ (leb (node + 1) v && ltb v (node + 1 + k) && f && g)
    → member v (if b then node ∷ rest else rest) ≡ (leb node v && ltb v (node + suc k) && f && g)
member-kept b node v k f g rest h r = elim (Bool-cases (node == v)) [
  | inl same ↦ ground (arith, h same, r, ==→eq node v same)
  | inr other ↦ ground (arith, other, r)
]

Ascending-kept :
    (b : Bool) (node : ℕ) (rest : List ℕ)
    → Ascending (node + 1) rest
    → Ascending node (if b then node ∷ rest else rest)
Ascending-kept true node rest a =
    (omega arith, Ascending-le (suc node) (node + 1) rest (omega arith) a)
Ascending-kept false node rest a = Ascending-le node (node + 1) rest (omega arith) a

both_seen_step :
    (forward backward : List Bool) (node k : ℕ) (rest : List ℕ)
    → node < length forward
    → node < length backward
    → both_seen forward backward (node + 1) k ≡ done rest
    → both_seen forward backward node (suc k)
      ≡ done (if flag forward node && flag backward node then node ∷ rest else rest)
unfolding both_seen
both_seen_step forward backward node k rest f b h =
    ground (arith, index-flag forward node f, index-flag backward node b, h)

both_seen_lem :
    (forward backward : List Bool) (node k : ℕ)
    → node + k ≤ length forward
    → node + k ≤ length backward
    → (nodes : List ℕ) × (both_seen forward backward node k ≡ done nodes)
      × Ascending node nodes
      × ((v : ℕ)
          → member v nodes ≡ (leb node v && ltb v (node + k) && flag forward v && flag backward v))
unfolding both_seen
both_seen_lem forward backward node zero f b = ([], refl, tt, λ v. ground arith)
both_seen_lem forward backward node (suc k) f b =
    let (rest, found, up, on) =
      both_seen_lem forward backward (node + 1) k (omega (arith, f)) (omega (arith, b)) in
    let keep = flag forward node && flag backward node in
    (
      if keep then node ∷ rest else rest,
      both_seen_step forward backward node k rest (omega (arith, f)) (omega (arith, b)) found,
      Ascending-kept keep node rest up,
      λ v.
          member-kept keep node v k (flag forward v) (flag backward v) rest
            (λ same. ground (arith, ==→eq node v same)) (on v),
    )

module _ {E : Type 0} (edges : List (IEdge E)) (n : ℕ) where
  -- `region_nodes` returns, in ascending order and once each, the nodes below the synthetic exit
  -- `n - 1` to which a walk leads from the target of the entry edge without the exit edge, and from
  -- which a walk leads to the source of the exit edge without the entry edge. On edges among the
  -- nodes below `n` it does not panic.
  pub region_nodes-Walk :
      (entry exit : ℕ) (e f : IEdge E)
      → Within n edges
      → get_elem? edges entry ≡ some e
      → get_elem? edges exit ≡ some f
      → (nodes : List ℕ) × (region_nodes edges n entry exit ≡ done nodes)
        × Ascending 0 nodes
        × ((v : ℕ)
            → (member v nodes ≡ true) ↔ (
                (v < n - 1)
                × Walk edges (some exit) false e.to_node v
                × Walk edges (some entry) false v f.from_node))
  unfolding region_nodes
  region_nodes-Walk entry exit e f w at at' =
      let (_, e_to) = Within_at n edges entry e w at in
      let (f_from, _) = Within_at n edges exit f w at' in
      let (forward, searched, size, walks) =
        reachable-Walk edges n e.to_node (some exit) false w e_to in
      let (backward, searched', size', walks') =
        reachable-Walk edges n f.from_node (some entry) true w f_from in
      let (nodes, found, up, on) =
        both_seen_lem forward backward 0 (n - 1) (omega (arith, size)) (omega (arith, size')) in
      (
        nodes,
        rw (at, searched, at', searched') found,
        up,
        λ v. (
          λ h. (
            ground (arith, on v, h),
            (walks v).0 (ground (arith, on v, h)),
            (backwards edges (some entry) f.from_node v).0 ((walks' v).0 (ground (arith, on v, h))),
          ),
          λ (low, p, q). ground (
            arith,
            on v,
            (walks v).1 p,
            (walks' v).1 ((backwards edges (some entry) f.from_node v).1 q),
            low,
          ),
        ),
      )
