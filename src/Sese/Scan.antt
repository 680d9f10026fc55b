-- ===== src/Sese/Scan.antt =====
-- The inner loop of `reachable`: which nodes one expansion pushes.
use jstd.Base.{
  ℕ, suc, ◌+◌, ◌≤◌, ◌<◌, ◌≡◌, refl, ◌∙◌, Bool, true, false, not, ◌&&◌, ◌||◌, Option, none, some,
  List, [], ◌∷◌, ◌==◌, if◌then◌else◌, done, length, get_elem?, index, member, get_elem?_lt, arith,
  Bool-cases, ==→eq, inl, inr,
}
use jstd.Sese.{IEdge, is_some_of, tail, head, offer, scan}
use jstd.Sese.Walk.{links, Within}

-- Whether a node's flag is set.
abbrev pub flag : List Bool → ℕ → Bool
flag seen v = elim (get_elem? seen v) [ none ↦ false | some b ↦ b ]

pub index-flag : (seen : List Bool) (v : ℕ) → v < length seen → index seen v ≡ done (flag seen v)
index-flag seen v h = let (b, at) = get_elem?_lt seen v h in ground (arith, at)

length-grown :
    (b : Bool) (h : ℕ) (stack : List ℕ)
    → length (if b then h ∷ stack else stack) ≤ suc (length stack)
length-grown true h stack = omega arith
length-grown false h stack = omega arith

-- A node that is pushed for one edge is on the stack as if it was linked by that edge.
member-grown :
    (seen : List Bool) (h v : ℕ) (k t l : Bool) (stack : List ℕ)
    → (member v (if not k && t && not (flag seen h) then h ∷ stack else stack)
        || l && not (flag seen v))
      ≡ (member v stack || (not k && (t && h == v) || l) && not (flag seen v))
member-grown seen h v k t l stack = elim (Bool-cases (h == v)) [
  | inl same ↦ ground (arith, same, ==→eq h v same)
  | inr other ↦ ground (arith, other)
]

module _ {E : Type 0} where
  head_lt :
      (n : ℕ) (reverse : Bool) (e : IEdge E) → e.from_node < n → e.to_node < n → head reverse e < n
  head_lt n reverse e p q = ground (arith, p, q)

  abbrev pushes : List Bool → ℕ → Option ℕ → Bool → ℕ → IEdge E → Bool
  pushes seen node skip reverse i e =
      not (is_some_of skip i) && tail reverse e == node && not (flag seen (head reverse e))

  offer_lem :
      (seen : List Bool) (node : ℕ) (skip : Option ℕ) (reverse : Bool) (i : ℕ) (e : IEdge E)
      (stack : List ℕ)
      → head reverse e < length seen
      → offer seen node skip reverse i e stack
        ≡ done (if pushes seen node skip reverse i e then head reverse e ∷ stack else stack)
  unfolding offer
  offer_lem seen node skip reverse i e stack h = ground (arith, index-flag seen (head reverse e) h)

  -- The stack after an expansion: a node is on it if it was, or if it is linked and not yet seen.
  pub record Scanned (edges : List (IEdge E)) (skip : Option ℕ) (reverse : Bool) (i : ℕ)
      (seen : List Bool) (node : ℕ) (stack stack' : List ℕ) : Type 0 where
    pub short : length stack' ≤ length stack + length edges
    pub on :
        (v : ℕ)
        → member v stack'
          ≡ (member v stack || links skip reverse i edges node v && not (flag seen v))

  pub scan_lem :
      (n : ℕ) (seen : List Bool) (node : ℕ) (skip : Option ℕ) (reverse : Bool) (i : ℕ)
      (edges : List (IEdge E)) (stack : List ℕ)
      → Within n edges
      → length seen ≡ n
      → (stack' : List ℕ) × (scan seen node skip reverse i edges stack ≡ done stack')
        × Scanned edges skip reverse i seen node stack stack'
  unfolding scan
  scan_lem n seen node skip reverse i [] stack w size =
      (stack, refl, record { short = omega arith; on = λ v. ground arith })
  scan_lem n seen node skip reverse i (e ∷ es) stack w size =
      let first : List ℕ =
        if pushes seen node skip reverse i e then head reverse e ∷ stack else stack in
      let offered =
        offer_lem seen node skip reverse i e stack
          (ground (arith, head_lt n reverse e w.0 w.1, size)) in
      let (stack', scanned, s) = scan_lem n seen node skip reverse (i + 1) es first w.2 size in
      (
        stack',
        rw offered scanned,
        record {
          short = omega (
            arith,
            s.short,
            length-grown (pushes seen node skip reverse i e) (head reverse e) stack,
          );
          on = λ v.
              s.on v
              ∙ member-grown seen (head reverse e) v (is_some_of skip i) (tail reverse e == node)
                  (links skip reverse (i + 1) es node v) stack;
        },
      )
