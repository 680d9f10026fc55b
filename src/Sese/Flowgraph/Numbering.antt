-- ===== src/Sese/Flowgraph/Numbering.antt =====
-- The nodes of the flowgraph of src/graph/analysis/sese.rs and their positions.
use jstd.Base.{
  ℕ, zero, suc, ◌+◌, ◌≤◌, ◌≡◌, refl, sym, ◌∙◌, ap, subst, ◌⊎◌, inl, inr, true, false, ◌||◌,
  Bool-cases, Option-cases, ==→eq, some, List, [], ◌∷◌, ◌++◌, ◌==◌, leb, is_some, length, get_elem?,
  length-append, member, add, member-add, lookup, insert, lookup-insert, sort, member-sort,
  sort-Distinct, length-sort, arith,
}
use jstd.Dominators.Path.{step}
use jstd.Dominators.Reach.{Searching, skip-Searching, member-append, snoc-Distinct}
use jstd.Dominators.Total.{weight, weight-add, IsClosed, Finds, Searching-Finds, root-Searching}
use jstd.Sese.Flowgraph.{breadth_first, reached_ids, index_map}

module _ (successors : ℕ → List ℕ) where
  member-queue :
      (queue : List ℕ) (id n : ℕ)
      → member n (queue ++ sort (successors id)) ≡ (member n queue || member n (successors id))
  member-queue queue id n =
      member-append queue (sort (successors id)) n ∙ rw (member-sort leb (successors id) n) refl

  enqueue-Searching :
      (root : ℕ) (seen ids queue : List ℕ) (id : ℕ)
      → Searching successors root seen ids (id ∷ queue)
      → member id seen ≡ false
      → Searching successors root (add id seen) (ids ++ (id ∷ [])) (queue ++ sort (successors id))
  enqueue-Searching root seen ids queue id inv new = record {
    same = λ n. ground (arith, member-append ids (id ∷ []) n, inv.same n, member-add id n seen);
    once = snoc-Distinct ids id inv.once (inv.same id ∙ new);
    sound = λ n h. elim (Bool-cases (member n seen || (n == id || member n queue))) [
      | inl old ↦ inv.sound n old
      | inr other ↦
          step (inv.sound id (ground arith))
            (ground (arith, other, h, member-queue queue id n, member-add id n seen))
    ];
    closed = λ m n h k. elim (Bool-cases (m == id)) [
      | inl same ↦ ground (
        arith,
        member-queue queue id n,
        subst (λ x. member n (successors x) ≡ true) (==→eq m id same) k,
      )
      | inr other ↦ ground (
        arith,
        inv.closed m n (ground (arith, other, h, member-add id m seen)) k,
        member-queue queue id n,
        member-add id n seen,
      )
    ];
    begun = ground (arith, inv.begun, member-queue queue id root, member-add id root seen);
  }

  breadth_old :
      (fuel : ℕ) (seen ids queue : List ℕ) (id : ℕ)
      → member id seen ≡ true
      → breadth_first successors (suc fuel) seen ids (id ∷ queue)
        ≡ breadth_first successors fuel seen ids queue
  unfolding breadth_first
  breadth_old fuel seen ids queue id old = rw (breadth_first, old) refl

  breadth_new :
      (fuel : ℕ) (seen ids queue : List ℕ) (id : ℕ)
      → member id seen ≡ false
      → breadth_first successors (suc fuel) seen ids (id ∷ queue)
        ≡ breadth_first successors fuel
            (add id seen)
            (ids ++ (id ∷ []))
            (queue ++ sort (successors id))
  unfolding breadth_first
  breadth_new fuel seen ids queue id new = rw (breadth_first, new) refl

  breadth_done :
      (root : ℕ) (within : List ℕ)
      → IsClosed successors within
      → (fuel : ℕ) (seen ids queue : List ℕ) → Searching successors root seen ids queue
      → ((n : ℕ) → member n queue ≡ true → member n within ≡ true)
      → length queue + weight successors seen within ≤ fuel
      → (result : List ℕ) × (breadth_first successors fuel seen ids queue ≡ some result)
        × Finds successors root result
  unfolding breadth_first
  breadth_done root within shut zero seen ids [] inv inside enough =
      (ids, refl, Searching-Finds successors root seen ids inv)
  breadth_done root within shut (suc fuel) seen ids [] inv inside enough =
      (ids, refl, Searching-Finds successors root seen ids inv)
  breadth_done root within shut zero seen ids (id ∷ queue) inv inside enough =
      absurd (omega (arith, enough))
  breadth_done root within shut (suc fuel) seen ids (id ∷ queue) inv inside enough =
      elim (Bool-cases (member id seen)) [
        | inl old ↦
            let (result, found, fact) =
              breadth_done root within shut fuel seen ids queue
                (skip-Searching successors root seen ids queue id inv old)
                (λ n h. inside n (ground (arith, h))) (omega (arith, enough)) in
            (result, breadth_old fuel seen ids queue id old ∙ found, fact)
        | inr new ↦
            let there = inside id (ground arith) in
            let (result, found, fact) =
              breadth_done root within shut fuel (add id seen) (ids ++ (id ∷ []))
                (queue ++ sort (successors id)) (enqueue-Searching root seen ids queue id inv new)
                (λ n h. ground (arith, h, member-queue queue id n, shut id n there, inside n))
                (omega (
                  arith,
                  enough,
                  length-append queue (sort (successors id)),
                  length-sort leb (successors id),
                  weight-add successors seen within id new there,
                )) in
            (result, breadth_new fuel seen ids queue id new ∙ found, fact)
      ]

  -- The breadth-first loop finds what a path from the root leads to, each once.
  pub reached_ids_exact :
      (root fuel : ℕ) (within : List ℕ)
      → IsClosed successors within
      → member root within ≡ true
      → 1 + weight successors [] within ≤ fuel
      → (ids : List ℕ) × (reached_ids successors fuel root ≡ some ids) × Finds successors root ids
  unfolding reached_ids
  reached_ids_exact root fuel within shut there enough =
      let (ids, found, (once, exact)) =
        breadth_done root within shut fuel [] [] (root ∷ []) (root-Searching successors root)
          (λ n h.
            subst (λ x. member x within ≡ true) (sym (==→eq n root (ground (arith, h)))) there)
          enough in
      (
        sort ids,
        rw (reached_ids, found) refl,
        (
          sort-Distinct leb ids once,
          λ n. (
            λ h. (exact n).0 (sym (member-sort leb ids n) ∙ h),
            λ path. member-sort leb ids n ∙ (exact n).1 path,
          ),
        ),
      )

-- A position in the map is that of the id in the list.
pub index_map_at :
    (i : ℕ) (ids : List ℕ) (map : List (ℕ × ℕ)) (u k : ℕ)
    → lookup u (index_map i ids map) ≡ some k
    → ((j : ℕ) × (k ≡ i + j) × (get_elem? ids j ≡ some u)) ⊎ (lookup u map ≡ some k)
index_map_at i [] map u k h = inr h
index_map_at i (id ∷ ids) map u k h = elim (index_map_at (i + 1) ids (insert id i map) u k h) [
  | inl (j, e, at) ↦ inl (suc j, omega (arith, e), at)
  | inr found ↦ elim (Bool-cases (u == id)) [
    | inl same ↦
        inl (
          0,
          ground (arith, found, same, lookup-insert id i map u),
          ap some (sym (==→eq u id same)),
        )
    | inr other ↦ inr (ground (arith, found, other, lookup-insert id i map u))
  ]
]

pub is_some-index_map :
    (i : ℕ) (ids : List ℕ) (map : List (ℕ × ℕ)) (u : ℕ)
    → is_some (lookup u (index_map i ids map)) ≡ (member u ids || is_some (lookup u map))
is_some-index_map i [] map u = refl
is_some-index_map i (id ∷ ids) map u =
    ground (arith, is_some-index_map (i + 1) ids (insert id i map) u, lookup-insert id i map u)

-- A node of the list has its position in the map.
pub position :
    (ids : List ℕ) (u : ℕ)
    → is_some (lookup u (index_map 0 ids [])) ≡ true
    → (k : ℕ) × (lookup u (index_map 0 ids []) ≡ some k) × (get_elem? ids k ≡ some u)
position ids u h = elim (Option-cases (lookup u (index_map 0 ids []))) [
  | inl none_there ↦ absurd (ground (arith, h, none_there))
  | inr (k, found) ↦ elim (index_map_at 0 ids [] u k found) [
    | inl (j, e, at) ↦ (k, found, subst (λ x. get_elem? ids x ≡ some u) (omega (arith, e)) at)
    | inr nothing ↦ cc nothing
  ]
]
