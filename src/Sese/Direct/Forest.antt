-- ===== src/Sese/Direct/Forest.antt =====
-- The forest of parent pointers of `direct_cycle_classes`: `find` and the write that joins two trees.
use jstd.Base.{
  ℕ, zero, suc, ◌+◌, ◌≤◌, ◌<◌, ◌≡◌, refl, sym, ◌∙◌, ap, subst, ◌⊎◌, inl, inr, true, false,
  Bool-cases, ==→eq, eq→==, some, List, ◌==◌, if◌then◌else◌, done, length, get_elem?, get_elem?_lt,
  get_elem?-set, length-set, lt-length_of_get_elem?, set, set_at, lt→ltb, arith,
}
use jstd.Sese.Direct.{find}

-- `rep` names the root of the tree of a node, and `height` rises along the pointers up to `top`.
pub record Forest (parent : List ℕ) (len : ℕ) (rep height : ℕ → ℕ) (top : ℕ) : Type 0 where
  pub size : length parent ≡ len
  pub within : (v w : ℕ) → get_elem? parent v ≡ some w → w < len
  pub climbs : (v w : ℕ) → get_elem? parent v ≡ some w → (w ≡ v) ⊎ (height v < height w)
  pub same : (v w : ℕ) → get_elem? parent v ≡ some w → rep w ≡ rep v
  pub root : (v : ℕ) → get_elem? parent v ≡ some v → rep v ≡ v
  pub rooted : (v : ℕ) → v < len → get_elem? parent (rep v) ≡ some (rep v)
  pub low : (v : ℕ) → height v ≤ top

-- What is found after a write is what was written, or was there before.
pub written :
    (xs : List ℕ) (i v j w : ℕ)
    → i < length xs
    → get_elem? (set xs i v) j ≡ some w
    → ((i ≡ j) × (v ≡ w)) ⊎ (((i == j) ≡ false) × (get_elem? xs j ≡ some w))
written xs i v j w h e = elim (Bool-cases (i == j)) [
  | inl here ↦ inl (==→eq i j here, ground (arith, get_elem?-set xs i v j h, here, e))
  | inr there ↦ inr (there, ground (arith, get_elem?-set xs i v j h, there, e))
]

module _ {parent : List ℕ} {len : ℕ} {rep height : ℕ → ℕ} {top : ℕ}
    (f : Forest parent len rep height top) (v up above : ℕ) (at : get_elem? parent v ≡ some up)
    (other : (up == v) ≡ false) (at' : get_elem? parent up ≡ some above) where
  higher : height v < height above
  higher = ground (arith, f.climbs v up at, f.climbs up above at', other)

  distinct : (x : ℕ) → get_elem? parent x ≡ some x → (v == x) ≡ false
  distinct x h = ground (arith, at, other, h)

  -- Pointing a node at the parent of its parent keeps the trees.
  pub halve-Forest : Forest (set parent v above) len rep height top
  halve-Forest =
      let inside : v < length parent = lt-length_of_get_elem? parent v at in
      let split : (x w : ℕ)
          → get_elem? (set parent v above) x ≡ some w
          → ((v ≡ x) × (above ≡ w)) ⊎ (((v == x) ≡ false) × (get_elem? parent x ≡ some w)) =
        λ x w. written parent v above x w inside in
      record {
        size = length-set parent v above ∙ f.size;
        within = λ x w h. elim (split x w h) [
          | inl (_, e) ↦ subst (λ y. y < len) e (f.within up above at')
          | inr (_, old) ↦ f.within x w old
        ];
        climbs = λ x w h. elim (split x w h) [
          | inl (e, e') ↦ inr (rw (sym e, sym e') higher)
          | inr (_, old) ↦ f.climbs x w old
        ];
        same = λ x w h. elim (split x w h) [
          | inl (e, e') ↦ rw (sym e, sym e') (f.same up above at' ∙ f.same v up at)
          | inr (_, old) ↦ f.same x w old
        ];
        root = λ x h. elim (split x x h) [
          | inl (e, e') ↦ absurd (omega (arith, higher, ap height (e' ∙ sym e)))
          | inr (_, old) ↦ f.root x old
        ];
        rooted = λ x h.
            get_elem?-set parent v above (rep x) inside
            ∙ rw (distinct (rep x) (f.rooted x h)) (f.rooted x h);
        low = f.low;
      }

  halve_at : get_elem? (set parent v above) v ≡ some above
  halve_at =
      get_elem?-set parent v above v (lt-length_of_get_elem? parent v at) ∙ rw (eq→== v v refl) refl

-- The root of a tree is its own name.
pub rep_rep :
    {parent : List ℕ} {len : ℕ} {rep height : ℕ → ℕ} {top : ℕ}
    → Forest parent len rep height top
    → (v : ℕ) → v < len
    → rep (rep v) ≡ rep v
rep_rep f v h = f.root _ (f.rooted v h)

-- The root is a node.
pub rep_lt :
    {parent : List ℕ} {len : ℕ} {rep height : ℕ → ℕ} {top : ℕ}
    → Forest parent len rep height top
    → (v : ℕ) → v < len
    → rep v < len
rep_lt {parent} f v h = omega (arith, f.size, lt-length_of_get_elem? parent _ (f.rooted v h))

set_at_in : (xs : List ℕ) (i v : ℕ) → i < length xs → set_at xs i v ≡ done (set xs i v)
set_at_in xs i v h = rw (lt→ltb _ _ h) refl

find_stay :
    (fuel : ℕ) (parent : List ℕ) (v up : ℕ)
    → get_elem? parent v ≡ some up
    → (up == v) ≡ true
    → find (suc fuel) parent v ≡ done (some (parent, v))
unfolding find
find_stay fuel parent v up at stays = ground (arith, at, stays)

find_move :
    (fuel : ℕ) (parent : List ℕ) (v up above : ℕ)
    → get_elem? parent v ≡ some up
    → (up == v) ≡ false
    → get_elem? parent up ≡ some above
    → get_elem? (set parent v above) v ≡ some above
    → find (suc fuel) parent v ≡ find fuel (set parent v above) above
unfolding find
find_move fuel parent v up above at moves at' put =
    ground (arith, at, moves, at', put, lt-length_of_get_elem? parent v at)

-- With fuel for the climb, `find` returns the root and a forest with the same trees.
pub find-Forest :
    (fuel : ℕ) (parent : List ℕ) (v : ℕ) {len : ℕ} {rep height : ℕ → ℕ} {top : ℕ}
    → Forest parent len rep height top
    → v < len
    → top < fuel + height v
    → (parent' : List ℕ) × (find fuel parent v ≡ done (some (parent', rep v)))
      × Forest parent' len rep height top
unfolding find
find-Forest zero parent v f inside enough = absurd (omega (arith, f.low v))
find-Forest (suc fuel) parent v {len} {rep} f inside enough =
    let (up, at) = get_elem?_lt parent v (omega (arith, f.size)) in
    let (above, at') = get_elem?_lt parent up (omega (arith, f.size, f.within v up at)) in
    elim (Bool-cases (up == v)) [
      | inl stays ↦
          let e : up ≡ v = ==→eq up v stays in
          (parent, find_stay fuel parent v up at stays ∙ rw (f.root v (at ∙ ap some e)) refl, f)
      | inr moves ↦
          let (parent', found, f') =
            find-Forest fuel (set parent v above) above (halve-Forest f v up above at moves at')
              (f.within up above at') (omega (arith, enough, higher f v up above at moves at')) in
          (
            parent',
            find_move fuel parent v up above at moves at' (halve_at f v up above at moves at')
                ∙ found
                ∙ rw (f.same up above at' ∙ f.same v up at) refl,
            f',
          )
    ]

-- The tree of `rb` goes under the root `ra`.
abbrev pub merged : (ℕ → ℕ) → (ra rb : ℕ) → ℕ → ℕ
merged rep ra rb x = if rep x == rb then ra else rep x

abbrev raised : (ℕ → ℕ) → (ra top : ℕ) → ℕ → ℕ
raised height ra top x = if ra == x then top + 1 else height x

-- Pointing one root at another joins their trees.
pub link-Forest :
    {parent : List ℕ} {len : ℕ} {rep height : ℕ → ℕ} {top : ℕ}
    → Forest parent len rep height top
    → (ra rb : ℕ) → get_elem? parent ra ≡ some ra
    → get_elem? parent rb ≡ some rb
    → Forest (set parent rb ra) len (merged rep ra rb) (raised height ra top) (top + 1)
link-Forest {parent} {len} {rep} {height} {top} f ra rb at at' =
    let inside : rb < length parent = lt-length_of_get_elem? parent rb at' in
    let split : (x w : ℕ)
        → get_elem? (set parent rb ra) x ≡ some w
        → ((rb ≡ x) × (ra ≡ w)) ⊎ (((rb == x) ≡ false) × (get_elem? parent x ≡ some w)) =
      λ x w. written parent rb ra x w inside in
    record {
      size = length-set parent rb ra ∙ f.size;
      within = λ x w h. elim (split x w h) [
        | inl (_, e) ↦ subst (λ y. y < len) e (f.within ra ra at)
        | inr (_, old) ↦ f.within x w old
      ];
      climbs = λ x w h. elim (split x w h) [
        | inl (e, e') ↦ ground (arith, e, e', f.low rb)
        | inr (_, old) ↦ ground (arith, f.climbs x w old, f.low x, at, old)
      ];
      same = λ x w h. elim (split x w h) [
        | inl (e, e') ↦ ground (arith, e, e', f.root ra at, f.root rb at')
        | inr (_, old) ↦ ground (arith, f.same x w old)
      ];
      root = λ x h. elim (split x x h) [
        | inl (e, e') ↦ rw (ap rep (sym e) ∙ f.root rb at', eq→== rb rb refl) e'
        | inr (away, old) ↦ ground (arith, away, f.root x old)
      ];
      rooted = λ x h. elim (Bool-cases (rep x == rb)) [
        | inl same ↦
            rw (same, get_elem?-set parent rb ra ra inside)
              (elim (Bool-cases (rb == ra)) [ inl e ↦ rw e refl | inr e ↦ rw e at ])
        | inr other ↦
            rw (other, get_elem?-set parent rb ra (rep x) inside)
              (ground (arith, other, f.rooted x h))
      ];
      low = λ x. ground (arith, f.low x);
    }
