-- ===== src/Intern/Exact.antt =====
-- The pool hands out one address for each string.
use jstd.Base.{
  ℕ, zero, suc, ◌<◌, ◌≡◌, ◌≢◌, refl, ap, sym, ◌∙◌, ◌↔◌, inl, inr, true, false, Bool-cases,
  Option-cases, ==→eq, ◌==◌, none, some, List, [], ◌∷◌, ◌++◌, length, member, get_elem?,
  get_elem?-concat, length-append, lt-length_of_get_elem?, arith,
}
use jstd.Intern.{Equality, StringPool, holds, find, intern, intern_all, empty}

module _ {S : Type 0} where
  -- The members are the leaked addresses, and no string was leaked twice.
  pub record IsExact (pool : StringPool S) : Type 0 where
    pub all : (a : ℕ) → a < length pool.leaked → member a pool.members ≡ true
    pub once :
        (a b : ℕ) (s : S)
        → get_elem? pool.leaked a ≡ some s
        → get_elem? pool.leaked b ≡ some s
        → a ≡ b

  -- The strings behind the addresses handed out before stay.
  abbrev pub Keeps : StringPool S → StringPool S → Type 0
  Keeps p q = (a : ℕ) (s : S) → get_elem? p.leaked a ≡ some s → get_elem? q.leaked a ≡ some s

  pub empty-IsExact : IsExact (empty {S = S})
  unfolding empty
  empty-IsExact = record { all = λ a h. absurd (omega arith); once = λ a b s h k. cc }

module _ {S : Type 0} ⦃E : Equality S⦄ where
  holds-at :
      (leaked : List S) (a : ℕ) (s : S) → holds leaked a s ≡ true → get_elem? leaked a ≡ some s
  holds-at leaked a s h = elim (Option-cases (get_elem? leaked a)) [
    | inl missing ↦ absurd (ground (arith, missing, h))
    | inr (t, at) ↦ ground (arith, at, (E.eq_exact t s).0 (ground (arith, at, h)))
  ]

  at-holds :
      (leaked : List S) (a : ℕ) (s : S) → get_elem? leaked a ≡ some s → holds leaked a s ≡ true
  at-holds leaked a s h = ground (arith, h, (E.eq_exact s s).1 refl)

  find-some :
      (leaked : List S) (members : List ℕ) (s : S) (a : ℕ)
      → find leaked members s ≡ some a
      → get_elem? leaked a ≡ some s
  unfolding find
  find-some leaked [] s a h = cc
  find-some leaked (b ∷ rest) s a h = elim (Bool-cases (holds leaked b s)) [
    | inl yes' ↦ ground (arith, yes', h, holds-at leaked b s yes')
    | inr no' ↦ find-some leaked rest s a (ground (arith, no', h))
  ]

  find-cons :
      (leaked : List S) (b : ℕ) (rest : List ℕ) (s : S)
      → find leaked (b ∷ rest) s ≡ none
      → (holds leaked b s ≡ false) × (find leaked rest s ≡ none)
  unfolding find
  find-cons leaked b rest s h = ground (arith, h)

  find-none :
      (leaked : List S) (members : List ℕ) (s : S) (a : ℕ)
      → find leaked members s ≡ none
      → member a members ≡ true
      → holds leaked a s ≡ false
  unfolding find
  find-none leaked [] s a h m = cc
  find-none leaked (b ∷ rest) s a h m = elim (Bool-cases (a == b)) [
    | inl same ↦ ground (arith, ==→eq a b same, (find-cons leaked b rest s h).0)
    | inr other ↦
        find-none leaked rest s a ((find-cons leaked b rest s h).1) (ground (arith, other, m))
  ]

  fresh-IsExact :
      (pool : StringPool S) (s : S)
      → IsExact pool
      → find pool.leaked pool.members s ≡ none
      → IsExact
          (record { leaked = pool.leaked ++ s ∷ []; members = length pool.leaked ∷ pool.members })
  fresh-IsExact pool s v new = record {
    all = λ a h. ground (arith, v.all a, length-append pool.leaked (s ∷ []), h);
    once = λ a b t h k. ground (
      arith,
      get_elem?-concat pool.leaked s a,
      get_elem?-concat pool.leaked s b,
      h,
      k,
      v.once a b t,
      absent a,
      absent b,
    );
  }
    where
      absent : (a : ℕ) → get_elem? pool.leaked a ≢ some s
      absent a h =
          let inside = lt-length_of_get_elem? pool.leaked a h in
          let gone = find-none pool.leaked pool.members s a new (v.all a inside) in
          absurd (ground (arith, gone, at-holds pool.leaked a s h))

  intern_old :
      (pool : StringPool S) (s : S) (a : ℕ)
      → find pool.leaked pool.members s ≡ some a
      → intern pool s ≡ (pool, a)
  unfolding intern
  intern_old pool s a h = ground (arith, h)

  intern_new :
      (pool : StringPool S) (s : S)
      → find pool.leaked pool.members s ≡ none
      → intern pool s ≡ (
        record { leaked = pool.leaked ++ s ∷ []; members = length pool.leaked ∷ pool.members },
        length pool.leaked,
      )
  unfolding intern
  intern_new pool s h = ground (arith, h)

  -- Interning into an exact pool gives an exact pool and the address of that string, and all
  -- addresses handed out before keep their strings.
  pub intern-IsExact :
      (pool : StringPool S) (s : S)
      → IsExact pool
      → IsExact (intern pool s).0
        × (get_elem? (intern pool s).0.leaked (intern pool s).1 ≡ some s)
        × Keeps pool (intern pool s).0
  intern-IsExact pool s v = elim (Option-cases (find pool.leaked pool.members s)) [
    | inl new ↦ rw (intern_new pool s new) (
      fresh-IsExact pool s v new,
      ground (arith, get_elem?-concat pool.leaked s (length pool.leaked)),
      λ a t h.
          ground
            (arith, get_elem?-concat pool.leaked s a, h, lt-length_of_get_elem? pool.leaked a h),
    )
    | inr (a, old) ↦
        rw (intern_old pool s a old) (v, find-some pool.leaked pool.members s a old, λ b t h. h)
  ]

  intern_all_lem :
      (pool : StringPool S) (strings : List S)
      → IsExact pool
      → IsExact (intern_all pool strings).0
        × Keeps pool (intern_all pool strings).0
        × ((i : ℕ) (s : S)
            → get_elem? strings i ≡ some s
            → (a : ℕ) × (get_elem? (intern_all pool strings).1 i ≡ some a)
              × (get_elem? (intern_all pool strings).0.leaked a ≡ some s))
  unfolding intern_all
  intern_all_lem pool [] v = (v, λ a s h. h, λ i s h. cc)
  intern_all_lem pool (s ∷ rest) v =
      let (w, at, kept) = intern-IsExact pool s v in
      let (x, later, right) = intern_all_lem (intern pool s).0 rest w in
      (x, λ a t h. later a t (kept a t h), each pool s rest at later right)
    where
      each :
          (pool : StringPool S) (s : S) (rest : List S)
          → get_elem? (intern pool s).0.leaked (intern pool s).1 ≡ some s
          → Keeps (intern pool s).0 (intern_all (intern pool s).0 rest).0
          → ((i : ℕ) (t : S)
              → get_elem? rest i ≡ some t
              → (a : ℕ) × (get_elem? (intern_all (intern pool s).0 rest).1 i ≡ some a)
                × (get_elem? (intern_all (intern pool s).0 rest).0.leaked a ≡ some t))
          → (i : ℕ) (t : S) → get_elem? (s ∷ rest) i ≡ some t
          → (a : ℕ) × (get_elem? ((intern pool s).1 ∷ (intern_all (intern pool s).0 rest).1) i
              ≡ some a)
            × (get_elem? (intern_all (intern pool s).0 rest).0.leaked a ≡ some t)
      each pool s rest at later right zero t h =
          ((intern pool s).1, refl, later (intern pool s).1 s at ∙ h)
      each pool s rest at later right (suc i) t h = right i t h

  same-string :
      (leaked : List S) (a b : ℕ) (s t : S)
      → a ≡ b
      → get_elem? leaked a ≡ some s
      → get_elem? leaked b ≡ some t
      → s ≡ t
  same-string leaked a b s t e p q = ground (arith, e, p, q)

  -- Interning a list of strings into an exact pool gives an address for each, and two of the
  -- addresses are equal exactly if the strings are.
  pub intern_all-same :
      (pool : StringPool S) (strings : List S) (i j : ℕ) (s t : S)
      → IsExact pool
      → get_elem? strings i ≡ some s
      → get_elem? strings j ≡ some t
      → (a : ℕ) × (b : ℕ) × (get_elem? (intern_all pool strings).1 i ≡ some a)
        × (get_elem? (intern_all pool strings).1 j ≡ some b)
        × ((a ≡ b) ↔ (s ≡ t))
  intern_all-same pool strings i j s t v p q =
      let (w, _, right) = intern_all_lem pool strings v in
      let (a, found, at) = right i s p in
      let (b, found', at') = right j t q in
      (
        a,
        b,
        found,
        found',
        (
          λ e. same-string (intern_all pool strings).0.leaked a b s t e at at',
          λ e. w.once a b s at (at' ∙ ap some (sym e)),
        ),
      )
