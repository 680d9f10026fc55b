-- ===== src/Sese/Direct/Exact.antt =====
-- `direct_cycle_classes` gives two edges the same class exactly if a chain of pairs that
-- `cycle_equivalent` accepts links them.
use jstd.Base.{
  ℕ, zero, suc, ◌+◌, ◌*◌, ◌≤◌, ◌<◌, ◌≡◌, refl, sym, ◌∙◌, ap, ◌↔◌, inl, inr, true, Bool-cases, ==→eq,
  some, none, List, [], ◌==◌, if◌then◌else◌, done, Run, length, get_elem?, get_elem?_lt,
  lt-length_of_get_elem?, ltb, none, subst, set, arith,
}
use jstd.Sese.{IEdge, cycle_equivalent}
use jstd.Sese.Walk.{Within}
use jstd.Sese.Boundary.{cycle_equivalent-Walk}
use jstd.Sese.Direct.{numbers_from, join, join_row, join_rows, direct_cycle_classes}
use jstd.Sese.Direct.Forest.{Forest, rep_lt, find-Forest, link-Forest, merged}
use jstd.Sese.Direct.Labels.{empty-Labels, label_lem, Numbered-class}

-- The closure of the pairs of edges that `cycle_equivalent` accepts.
pub data Linked {E : Type 0} (edges : List (IEdge E)) (n : ℕ) : ℕ → ℕ → Type 0 where
  same : {a : ℕ} → Linked edges n a a
  pair :
      {a b : ℕ}
      → a < b
      → b < length edges
      → cycle_equivalent edges n a b ≡ done true
      → Linked edges n a b
  back : {a b : ℕ} → Linked edges n a b → Linked edges n b a
  chain : {a b c : ℕ} → Linked edges n a b → Linked edges n b c → Linked edges n a c

module _ {E : Type 0} (edges : List (IEdge E)) (n : ℕ) where
  -- A forest whose trees hold linked edges only.
  pub record Joined (parent : List ℕ) (rep : ℕ → ℕ) (top : ℕ) : Type 0 where
    pub height : ℕ → ℕ
    pub forest : Forest parent (length edges) rep height top
    pub sound : (x y : ℕ) → x < length edges → y < length edges → rep x ≡ rep y → Linked edges n x y

  -- What a loop returns: a coarser forest in which some pairs are met.
  pub record Grown (run : Run (List ℕ)) (rep : ℕ → ℕ) (top : ℕ) (Met : (ℕ → ℕ) → Type 0)
      : Type 0 where
    pub parent : List ℕ
    pub rep' : ℕ → ℕ
    pub ran : run ≡ done (some parent)
    pub joined : Joined parent rep' top
    pub coarser : (x y : ℕ) → rep x ≡ rep y → rep' x ≡ rep' y
    pub met : Met rep'

  raise-Forest :
      {parent : List ℕ} {len : ℕ} {rep height : ℕ → ℕ} {top top' : ℕ}
      → Forest parent len rep height top
      → top ≤ top'
      → Forest parent len rep height top'
  raise-Forest f h = record {
    size = f.size;
    within = f.within;
    climbs = f.climbs;
    same = f.same;
    root = f.root;
    rooted = f.rooted;
    low = λ v. omega (arith, f.low v);
  }

  raise-Joined :
      {parent : List ℕ} {rep : ℕ → ℕ} {top top' : ℕ}
      → Joined parent rep top
      → top ≤ top'
      → Joined parent rep top'
  raise-Joined j h = record { height = j.height; forest = raise-Forest j.forest h; sound = j.sound }

  -- Two edges in the joined tree are linked through the pair that joined it.
  merged-Linked :
      {parent : List ℕ} {rep : ℕ → ℕ} {top : ℕ}
      → Joined parent rep top
      → (a b : ℕ) → a < length edges
      → b < length edges
      → Linked edges n a b
      → (x y : ℕ) → x < length edges
      → y < length edges
      → merged rep (rep a) (rep b) x ≡ merged rep (rep a) (rep b) y
      → Linked edges n x y
  merged-Linked {parent} {rep} j a b ha hb link x y hx hy e = elim (Bool-cases (rep x == rep b)) [
    | inl at_x ↦
        let x_b = j.sound x b hx hb (==→eq _ _ at_x) in
        elim (Bool-cases (rep y == rep b)) [
          | inl at_y ↦ Linked.chain x_b (Linked.back (j.sound y b hy hb (==→eq _ _ at_y)))
          | inr off_y ↦
              Linked.chain x_b (
                Linked.chain (Linked.back link)
                  (j.sound a y ha hy (ground (arith, e, at_x, off_y))))
        ]
    | inr off_x ↦ elim (Bool-cases (rep y == rep b)) [
      | inl at_y ↦
          Linked.chain (j.sound x a hx ha (ground (arith, e, off_x, at_y)))
            (Linked.chain link (Linked.back (j.sound y b hy hb (==→eq _ _ at_y))))
      | inr off_y ↦ j.sound x y hx hy (ground (arith, e, off_x, off_y))
    ]
  ]

  join_equal :
      (fuel : ℕ) {parent : List ℕ} {rep : ℕ → ℕ} {top : ℕ}
      → Joined parent rep top
      → (a b : ℕ) → a < b
      → b < length edges
      → top < fuel
      → cycle_equivalent edges n a b ≡ done true
      → Grown (join fuel edges n a b parent) rep (top + 1) (λ rep'. rep' a ≡ rep' b)
  unfolding join
  join_equal fuel {parent} {rep} j a b lt hb enough equal =
      let (p, found, f) =
        find-Forest fuel parent a j.forest (omega (arith, lt, hb)) (omega arith) in
      let (p', found', f') = find-Forest fuel p b f hb (omega arith) in
      let ha : a < length edges = omega (arith, lt, hb) in
      record {
        parent = set p' (rep b) (rep a);
        rep' = merged rep (rep a) (rep b);
        ran = ground (arith, equal, found, found', rep_lt f' b hb, f'.size);
        joined = record {
          height = _;
          forest = link-Forest f' (rep a) (rep b) (f'.rooted a ha) (f'.rooted b hb);
          sound = merged-Linked j a b ha hb (Linked.pair lt hb equal);
        };
        coarser = λ x y e. rw e refl;
        met = ground arith;
      }

  module _ (w : Within n edges) where
    join_lem :
        (fuel : ℕ) {parent : List ℕ} {rep : ℕ → ℕ} {top : ℕ}
        → Joined parent rep top
        → (a b : ℕ) → a < b
        → b < length edges
        → top < fuel
        → Grown
            (join fuel edges n a b parent)
            rep
            (top + 1)
            (λ rep'. cycle_equivalent edges n a b ≡ done true → rep' a ≡ rep' b)
    unfolding join
    join_lem fuel {parent} {rep} j a b lt hb enough =
        let (e, at) = get_elem?_lt edges a (omega (arith, lt, hb)) in
        let (f, at') = get_elem?_lt edges b hb in
        let (q, found, _) = cycle_equivalent-Walk edges n a b e f w at at' in
        elim (Bool-cases q) [
          | inl equal ↦
              let g = join_equal fuel j a b lt hb enough (found ∙ ap done equal) in
              record {
                parent = g.parent;
                rep' = g.rep';
                ran = g.ran;
                joined = g.joined;
                coarser = g.coarser;
                met = λ _. g.met;
              }
          | inr apart ↦ record {
            parent = parent;
            rep' = rep;
            ran = ground (arith, found, apart);
            joined = raise-Joined j (omega arith);
            coarser = λ x y e. e;
            met = λ h. absurd (ground (arith, found, apart, h));
          }
        ]

    row_lem :
        (fuel a b k : ℕ) {parent : List ℕ} {rep : ℕ → ℕ} {top : ℕ}
        → Joined parent rep top
        → a < b
        → b + k ≤ length edges
        → top + k ≤ fuel
        → Grown (join_row fuel edges n a b k parent) rep (top + k) (λ rep'.
          (i : ℕ) → b ≤ i → i < b + k → cycle_equivalent edges n a i ≡ done true → rep' a ≡ rep' i)
    unfolding join_row
    row_lem fuel a b zero {parent} {rep} {top} j lt inside enough = record {
      parent = parent;
      rep' = rep;
      ran = refl;
      joined = raise-Joined j (omega arith);
      coarser = λ x y e. e;
      met = λ i low high h. absurd (omega (arith, low, high));
    }
    row_lem fuel a b (suc k) {parent} {rep} {top} j lt inside enough =
        let g = join_lem fuel j a b lt (omega (arith, inside)) (omega (arith, enough)) in
        let h =
          row_lem fuel a (b + 1) k g.joined (omega (arith, lt)) (omega (arith, inside))
            (omega (arith, enough)) in
        record {
          parent = h.parent;
          rep' = h.rep';
          ran = rw (g.ran) h.ran;
          joined = raise-Joined h.joined (omega arith);
          coarser = λ x y e. h.coarser x y (g.coarser x y e);
          met = λ i low high equal. elim (Bool-cases (b == i)) [
            | inl here ↦
                let e : b ≡ i = ==→eq b i here in
                h.coarser a i (g.met (ap (cycle_equivalent edges n a) e ∙ equal) ∙ ap g.rep' e)
            | inr there ↦ h.met i (ground (arith, there, low)) (omega (arith, high)) equal
          ];
        }

    rows_lem :
        (fuel a k : ℕ) {parent : List ℕ} {rep : ℕ → ℕ} {top : ℕ}
        → Joined parent rep top
        → a + k ≡ length edges
        → top + k * length edges ≤ fuel
        → Grown (join_rows fuel edges n a k parent) rep (top + k * length edges) (λ rep'.
          (i j : ℕ)
          → a ≤ i
          → i < j
          → j < length edges
          → cycle_equivalent edges n i j ≡ done true
          → rep' i ≡ rep' j)
    unfolding join_rows
    rows_lem fuel a zero {parent} {rep} {top} j inside enough = record {
      parent = parent;
      rep' = rep;
      ran = refl;
      joined = raise-Joined j (omega arith);
      coarser = λ x y e. e;
      met = λ i i' low lt high h. absurd (omega (arith, low, lt, high, inside));
    }
    rows_lem fuel a (suc k) {parent} {rep} {top} j inside enough =
        let g =
          row_lem fuel a (a + 1) k j (omega arith) (omega (arith, inside))
            (omega (arith, enough, inside)) in
        let h =
          rows_lem fuel (a + 1) k g.joined (omega (arith, inside))
            (omega (arith, enough, inside)) in
        record {
          parent = h.parent;
          rep' = h.rep';
          ran = rw (g.ran) h.ran;
          joined = raise-Joined h.joined (omega (arith, inside));
          coarser = λ x y e. h.coarser x y (g.coarser x y e);
          met = λ i i' low lt high equal. elim (Bool-cases (a == i)) [
            | inl here ↦
                let e : a ≡ i = ==→eq a i here in
                h.coarser i i' (
                  ap g.rep' (sym e)
                  ∙ g.met i' (omega (arith, e, lt)) (omega (arith, high, inside))
                      (ap (λ x. cycle_equivalent edges n x i') e ∙ equal))
            | inr there ↦ h.met i i' (ground (arith, there, low)) lt high equal
          ];
        }

get_elem?-numbers :
    (i k v : ℕ) → get_elem? (numbers_from i k) v ≡ (if ltb v k then some (i + v) else none)
get_elem?-numbers i zero v = ground arith
get_elem?-numbers i (suc k) zero = ground arith
get_elem?-numbers i (suc k) (suc v) = ground (arith, get_elem?-numbers (i + 1) k v)

length-numbers : (i k : ℕ) → length (numbers_from i k) ≡ k
length-numbers i zero = refl
length-numbers i (suc k) = ap suc (length-numbers (i + 1) k)

-- At the start every edge is a tree.
start-Forest : (len : ℕ) → Forest (numbers_from 0 len) len (λ v. v) (λ v. 0) 0
start-Forest len = record {
  size = length-numbers 0 len;
  within = λ v w h. ground (arith, get_elem?-numbers 0 len v, h);
  climbs = λ v w h. inl (ground (arith, get_elem?-numbers 0 len v, h));
  same = λ v w h. ground (arith, get_elem?-numbers 0 len v, h);
  root = λ v h. refl;
  rooted = λ v h. ground (arith, get_elem?-numbers 0 len v, h);
  low = λ v. omega arith;
}

module _ {E : Type 0} (edges : List (IEdge E)) (n : ℕ) (w : Within n edges) where
  Linked-rep :
      {rep : ℕ → ℕ} {i j : ℕ}
      → ((i j : ℕ)
          → i < j
          → j < length edges
          → cycle_equivalent edges n i j ≡ done true
          → rep i ≡ rep j)
      → Linked edges n i j
      → rep i ≡ rep j
  Linked-rep met Linked.same = refl
  Linked-rep met (Linked.pair lt h e) = met _ _ lt h e
  Linked-rep met (Linked.back l) = sym (Linked-rep met l)
  Linked-rep met (Linked.chain l l') = Linked-rep met l ∙ Linked-rep met l'

  -- On edges among the nodes below `n`, with more fuel than the square of their number,
  -- `direct_cycle_classes` ends without a panic in one class for each edge. Classes are positive, and
  -- two edges have the same class exactly if a chain of pairs that `cycle_equivalent` accepts links
  -- them.
  pub direct_exact :
      (fuel : ℕ)
      → length edges * length edges < fuel
      → (classes : List ℕ) × (direct_cycle_classes fuel edges n ≡ done (some classes))
        × (length classes ≡ length edges)
        × ((i j c d : ℕ)
            → get_elem? classes i ≡ some c
            → get_elem? classes j ≡ some d
            → (0 < c) × ((c ≡ d) ↔ Linked edges n i j))
  unfolding direct_cycle_classes
  direct_exact fuel enough =
      let len = length edges in
      let start : Joined edges n (numbers_from 0 len) (λ v. v) 0 = record {
        height = λ v. 0;
        forest = start-Forest len;
        sound = λ x y hx hy e. subst (Linked edges n x) e Linked.same;
      } in
      let g = rows_lem edges n w fuel 0 len start (omega arith) (omega (arith, enough)) in
      let (classes, numbered, size, table) =
        label_lem fuel g.parent 0 len [] 1 g.joined.forest (omega (arith, enough)) (omega arith)
          empty-Labels in
      (
        classes,
        rw (g.ran) numbered,
        size,
        λ i j c d at at'.
            let (positive, (there, again)) = Numbered-class table i j c d at at' in
            let hi = lt-length_of_get_elem? classes i at in
            let hj = lt-length_of_get_elem? classes j at' in
            (
              positive,
              (
                λ e.
                    g.joined.sound i j (omega (arith, hi, size)) (omega (arith, hj, size))
                      (there e),
                λ l. again (Linked-rep (λ i j lt h e. g.met i j (omega arith) lt h e) l),
              ),
            ),
      )
