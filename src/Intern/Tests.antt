-- ===== src/Intern/Tests.antt =====
-- A pool over numbers in place of strings, through which the theorems are applied.
use jstd.Base.{ℕ, ◌≡◌, refl, ◌↔◌, ◌==◌, ==→eq, eq→==, some, [], ◌∷◌, get_elem?}
use jstd.Intern.{Equality, StringPool, find, intern, intern_all, empty}
use jstd.Intern.Exact.{IsExact, empty-IsExact, intern-IsExact, intern_all-same}

instance abbrev text : Equality ℕ
text = record { eq = ◌==◌; eq_exact = λ x y. (==→eq x y, eq→== x y) }

shared : (intern_all {S = ℕ} empty (7 ∷ 8 ∷ 7 ∷ [])).1 ≡ (0 ∷ 1 ∷ 0 ∷ [])
unfolding intern_all intern find empty
shared = refl

abbrev eight : ℕ
eight = 8

abbrev seven : StringPool ℕ
seven = record { leaked = 7 ∷ []; members = 0 ∷ [] }

seven-IsExact : IsExact seven
unfolding intern find empty
seven-IsExact = (intern-IsExact empty 7 empty-IsExact).0

intern_all-same_example :
    (a : ℕ) × (b : ℕ) × (get_elem? (intern_all seven (8 ∷ 7 ∷ 8 ∷ [])).1 0 ≡ some a)
    × (get_elem? (intern_all seven (8 ∷ 7 ∷ 8 ∷ [])).1 2 ≡ some b)
    × ((a ≡ b) ↔ (eight ≡ eight))
intern_all-same_example = intern_all-same seven (8 ∷ 7 ∷ 8 ∷ []) 0 2 8 8 seven-IsExact refl refl
