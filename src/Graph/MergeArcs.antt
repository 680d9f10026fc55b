-- ===== src/Graph/MergeArcs.antt =====
-- The arcs and incident sets that `merge_nodes` of src/graph.rs leaves.
use jstd.Base.{
  ℕ, ◌≡◌, refl, inl, inr, Bool, true, false, not, ◌&&◌, ◌||◌, Option, none, some, List, ◌==◌, ==→eq,
  if◌then◌else◌, Bool-cases, Option-cases, is_some, member, arith,
}
use jstd.Graph.Diagram.{Arc, touches}
use jstd.Graph.Represents.{ends, payload, Attached}
use jstd.Graph.Views.{leaving, is_at}
use jstd.Graph.Merge.{resourced, rehomed, moved}

-- The arcs after a merge: the direct one is gone, and those that left `remove` leave `keep`.
abbrev pub merged :
    {E : Type 0} → (keep remove direct : ℕ) → (ℕ → Option (Arc E)) → ℕ → Option (Arc E)
merged keep remove direct arc e =
    if e == direct
    then none
    else if is_some (leaving remove (arc e))
    then resourced keep (arc e)
    else arc e

-- The incident sets once the direct edge is off both nodes.
abbrev pub let_go : {E : Type 0} → (keep remove direct : ℕ) → (ℕ → Option (Arc E)) → ℕ → ℕ → Bool
let_go keep remove direct arc e n =
    not (e == direct && n == remove) && (not (e == direct && n == keep) && touches (arc e) n)

module _ {E : Type 0} (keep remove direct : ℕ) (arc : ℕ → Option (Arc E))
    (apart : keep == remove ≡ false) where
  -- The edges that are rehomed.
  pub let_go-leaving :
      (e : ℕ)
      → (let_go keep remove direct arc e remove && is_some (leaving remove (arc e)))
        ≡ (not (e == direct) && is_some (leaving remove (arc e)))
  let_go-leaving e = elim (Option-cases (arc e)) [
    | inl missing ↦ ground (arith, missing)
    | inr (a, found) ↦ elim (Bool-cases (remove == a.from_node)) [
      | inl on ↦
          ground
            (arith, found, on, apart, ==→eq keep remove, ==→eq remove keep, ==→eq remove remove)
      | inr off ↦ ground (arith, found, off)
    ]
  ]

  pub payload-merged :
      (e : ℕ)
      → (if e == direct then none else payload (arc e)) ≡ payload (merged keep remove direct arc e)
  payload-merged e = elim (Option-cases (arc e)) [
    | inl missing ↦ ground (arith, missing)
    | inr (a, found) ↦ ground (arith, found)
  ]

  module _ (ids : List ℕ)
      (exact : (e : ℕ)
        → member e ids ≡ (not (e == direct) && is_some (leaving remove (arc e)))) where
    pub ends-merged :
        (e : ℕ)
        → (if e == direct then none else ends (rehomed keep arc ids e))
          ≡ ends (merged keep remove direct arc e)
    ends-merged e = elim (Bool-cases (e == direct)) [
      | inl same ↦ ground (arith, same)
      | inr other ↦ ground (arith, other, exact e)
    ]

    pub touches-merged :
        (e n : ℕ) (a : Option (Arc E))
        → arc e ≡ a
        → (e == direct ≡ true → touches a n ≡ (n == keep || n == remove))
        → is_at remove (leaving remove a) ≡ false
        → moved keep remove (let_go keep remove direct arc) ids e n
          ≡ touches (merged keep remove direct arc e) n
    touches-merged e n none h hd no_loop = ground (arith, h, exact e)
    touches-merged e n (some a) h hd no_loop = elim (Bool-cases (e == direct)) [
      | inl same ↦ ground (arith, h, exact e, same, hd same)
      | inr other ↦ elim (Bool-cases (remove == a.from_node)) [
        | inl on ↦ ground (
          arith,
          h,
          exact e,
          other,
          on,
          no_loop,
          apart,
          ==→eq remove a.from_node on,
          ==→eq n remove,
        )
        | inr off ↦ ground (arith, h, exact e, other, off)
      ]
    ]

-- An arc stays attached when it is resourced.
pub Attached-merged :
    {N E : Type 0}
    → (node : ℕ → Option N) (keep remove direct : ℕ) (arc : ℕ → Option (Arc E)) (e : ℕ)
      (a : Option (Arc E))
    → arc e ≡ a
    → is_some (node keep) ≡ true
    → Attached node a
    → Attached node (merged keep remove direct arc e)
Attached-merged node keep remove direct arc e none h alive at = elim (Bool-cases (e == direct)) [
  | inl same ↦ rw same tt
  | inr other ↦ rw (other, h) tt
]
Attached-merged node keep remove direct arc e (some a) h alive (hf, ht) =
    elim (Bool-cases (e == direct)) [
      | inl same ↦ rw same tt
      | inr other ↦ elim (Bool-cases (remove == a.from_node)) [
        | inl on ↦ rw (other, h, on) (alive, ht)
        | inr off ↦ rw (other, h, off) (hf, ht)
      ]
    ]

pub merged-some :
    {E : Type 0}
    → (keep remove direct : ℕ) (arc : ℕ → Option (Arc E)) (e : ℕ)
    → is_some (merged keep remove direct arc e) ≡ true
    → is_some (arc e) ≡ true
merged-some keep remove direct arc e h = elim (Option-cases (arc e)) [
  | inl missing ↦ absurd (ground (arith, missing, h))
  | inr (a, found) ↦ rw found refl
]

pub let_go-some :
    {E : Type 0}
    → (keep remove direct : ℕ) (arc : ℕ → Option (Arc E)) (e n : ℕ)
    → let_go keep remove direct arc e n ≡ true
    → is_some (arc e) ≡ true
let_go-some keep remove direct arc e n h = elim (Option-cases (arc e)) [
  | inl missing ↦ absurd (ground (arith, missing, h))
  | inr (a, found) ↦ rw found refl
]

pub leaving-some :
    {E : Type 0} → (n : ℕ) (a : Option (Arc E)) → is_some (leaving n a) ≡ true → is_some a ≡ true
leaving-some n none h = h
leaving-some n (some a) h = refl

-- The direct edge is not rehomed.
pub stays :
    {E : Type 0}
    → (keep : ℕ) (arc : ℕ → Option (Arc E)) (direct : ℕ) (ids : List ℕ) → member direct ids ≡ false
    → rehomed keep arc ids direct ≡ arc direct
stays keep arc direct ids h = rw h refl
