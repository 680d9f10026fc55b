-- ===== src/Sese/Direct/Labels.antt =====
-- The numbering of the trees at the end of `direct_cycle_classes`: two edges get the same class exactly
-- if they are in the same tree.
use jstd.Base.{
  ℕ, zero, suc, ◌+◌, ◌≤◌, ◌<◌, ◌≡◌, refl, sym, ◌∙◌, ap, ◌↔◌, inl, inr, Option-cases, some, List, [],
  ◌∷◌, done, length, get_elem?, lt-length_of_get_elem?, lookup, insert, lookup-insert, arith,
}
use jstd.Sese.Direct.{label_from}
use jstd.Sese.Direct.Forest.{Forest, find-Forest}

-- The labels so far are from 1 up to below `next`, and no two trees share one.
pub record Labels (labels : List (ℕ × ℕ)) (next : ℕ) : Type 0 where
  pub positive : 0 < next
  pub bounded : (root c : ℕ) → lookup root labels ≡ some c → (0 < c) × (c < next)
  pub distinct : (r s c : ℕ) → lookup r labels ≡ some c → lookup s labels ≡ some c → r ≡ s

pub empty-Labels : Labels [] 1
empty-Labels = record {
  positive = omega arith;
  bounded = λ root c h. cc;
  distinct = λ r s c h h'. cc;
}

insert-Labels :
    {labels : List (ℕ × ℕ)} {next : ℕ}
    → Labels labels next
    → (root : ℕ) → Labels (insert root next labels) (next + 1)
insert-Labels {labels} {next} l root = record {
  positive = omega arith;
  bounded = λ r c h. ground (arith, lookup-insert root next labels r, h, l.bounded r c, l.positive);
  distinct = λ r s c h h'. ground (
    arith,
    lookup-insert root next labels r,
    lookup-insert root next labels s,
    h,
    h',
    l.bounded r c,
    l.bounded s c,
    l.distinct r s c,
  );
}

-- The classes agree with one table of labels, which extends the given one.
pub record Numbered (rep : ℕ → ℕ) (edge : ℕ) (labels : List (ℕ × ℕ)) (classes : List ℕ)
    : Type 0 where
  pub table : List (ℕ × ℕ)
  pub bound : ℕ
  pub good : Labels table bound
  pub extends : (root c : ℕ) → lookup root labels ≡ some c → lookup root table ≡ some c
  pub reads : (i : ℕ) → i < length classes → lookup (rep (edge + i)) table ≡ get_elem? classes i

reads_cons :
    (rep : ℕ → ℕ) (edge c : ℕ) (classes : List ℕ) (table : List (ℕ × ℕ))
    → lookup (rep edge) table ≡ some c
    → ((i : ℕ) → i < length classes → lookup (rep (edge + 1 + i)) table ≡ get_elem? classes i)
    → (i : ℕ) → i < suc (length classes)
    → lookup (rep (edge + i)) table ≡ get_elem? (c ∷ classes) i
reads_cons rep edge c classes table at later zero h =
    ap (λ e. lookup (rep e) table) (omega arith) ∙ at
reads_cons rep edge c classes table at later (suc i) h =
    ap (λ e. lookup (rep e) table) (omega arith) ∙ later i (omega arith)

number_one :
    {rep : ℕ → ℕ} (edge : ℕ) {labels labels' : List (ℕ × ℕ)} {classes : List ℕ} (c : ℕ)
    → Numbered rep (edge + 1) labels' classes
    → lookup (rep edge) labels' ≡ some c
    → ((root d : ℕ) → lookup root labels ≡ some d → lookup root labels' ≡ some d)
    → Numbered rep edge labels (c ∷ classes)
number_one {rep} edge {classes} c f at grows = record {
  table = f.table;
  bound = f.bound;
  good = f.good;
  extends = λ root d h. f.extends root d (grows root d h);
  reads = λ i h. reads_cons rep edge c classes f.table (f.extends (rep edge) c at) f.reads i h;
}

pub label_lem :
    (fuel : ℕ) (parent : List ℕ) {len : ℕ} {rep height : ℕ → ℕ} {top : ℕ} (edge k : ℕ)
    (labels : List (ℕ × ℕ)) (next : ℕ)
    → Forest parent len rep height top
    → top < fuel
    → edge + k ≤ len
    → Labels labels next
    → (classes : List ℕ) × (label_from fuel parent edge k labels next ≡ done (some classes))
      × (length classes ≡ k)
      × Numbered rep edge labels classes
unfolding label_from
label_lem fuel parent edge zero labels next f enough inside l = (
  [],
  refl,
  refl,
  record {
    table = labels;
    bound = next;
    good = l;
    extends = λ root c h. h;
    reads = λ i h. absurd (omega arith);
  },
)
label_lem fuel parent {len} {rep} edge (suc k) labels next f enough inside l =
    let (parent', found, f') = find-Forest fuel parent edge f (omega arith) (omega arith) in
    elim (Option-cases (lookup (rep edge) labels)) [
      | inl fresh ↦
          let l' = insert-Labels l (rep edge) in
          let (classes, later, size, numbered) =
            label_lem fuel parent' (edge + 1) k (insert (rep edge) next labels) (next + 1) f' enough
              (omega arith) l' in
          (
            next ∷ classes,
            ground (arith, found, fresh, later),
            ap suc size,
            number_one edge next numbered
                (ground (arith, lookup-insert (rep edge) next labels (rep edge)))
                (λ r d h. ground (arith, lookup-insert (rep edge) next labels r, h, fresh)),
          )
      | inr (c, at) ↦
          let (classes, later, size, numbered) =
            label_lem fuel parent' (edge + 1) k labels next f' enough (omega arith) l in
          (
            c ∷ classes,
            ground (arith, found, at, later),
            ap suc size,
            number_one edge c numbered at (λ r d h. h),
          )
    ]

read_at :
    {rep : ℕ → ℕ} {classes : List ℕ} (f : Numbered rep 0 [] classes) (i : ℕ)
    → i < length classes
    → lookup (rep i) f.table ≡ get_elem? classes i
read_at {rep} f i h = ap (λ e. lookup (rep e) f.table) (omega arith) ∙ f.reads i h

-- Two edges with one table of labels have the same class exactly if they are in the same tree.
pub Numbered-class :
    {rep : ℕ → ℕ} {classes : List ℕ}
    → Numbered rep 0 [] classes
    → (i j c d : ℕ) → get_elem? classes i ≡ some c
    → get_elem? classes j ≡ some d
    → (0 < c) × ((c ≡ d) ↔ (rep i ≡ rep j))
Numbered-class {rep} {classes} f i j c d at at' =
    let here : lookup (rep i) f.table ≡ some c =
      read_at f i (lt-length_of_get_elem? classes i at) ∙ at in
    let there : lookup (rep j) f.table ≡ some d =
      read_at f j (lt-length_of_get_elem? classes j at') ∙ at' in
    (
      (f.good.bounded (rep i) c here).0,
      (
        λ e. f.good.distinct (rep i) (rep j) c here (there ∙ ap some (sym e)),
        λ e. ground (arith, here, there, e),
      ),
    )
