-- ===== src/Registry/Tests.antt =====
-- A registry of three elements, through which the theorems on `Registry` are applied.
use jstd.Base.{
  ℕ, zero, suc, ◌+◌, ◌-◌, ◌^◌, ◌≤◌, ◌<◌, ◌≡◌, ◌==◌, eq→==, refl, true, some, List, [], ◌∷◌, done,
  panic, inr, length, get_elem?, arith,
}
use jstd.Identifier.{Identifier}
use jstd.Identifier.Derive.{usize, derived, from_usize, into_usize}
use jstd.Registry.{
  Registry, leading_zeros, locate, grow, empty, push, at, replace, truncate, from_iter, push_all,
}
use jstd.Registry.Locate.{locate_lem}
use jstd.Registry.Holds.{Holds, filled, at-get_elem?}
use jstd.Registry.Wire.{serialize, deserialize, clone, eq, deserialize-serialize-Holds}
use jstd.Registry.Push.{push-append}
use jstd.Registry.Replace.{replace-set}
use jstd.Registry.Shrink.{truncate-take}
use jstd.Registry.Select.{select_mut}
use jstd.Registry.Select.Refuse.{select_mut_refuses}
use jstd.Registry.Select.Exact.{wanted, select_mut-get_elem?}

instance abbrev usize_id : Identifier ℕ
usize_id = derived usize

abbrev three : Registry ℕ ℕ
three = record { chunks = (10 ∷ []) ∷ (20 ∷ 30 ∷ []) ∷ []; len = 3 }

from_iter-three : from_iter (10 ∷ 20 ∷ 30 ∷ []) ≡ done three
unfolding from_iter push_all push grow locate leading_zeros empty from_usize
from_iter-three = refl

three_sized : (k : ℕ) (c : List ℕ) → get_elem? three.chunks k ≡ some c → length c ≡ filled k 3
three_sized zero c at = ground (arith, at)
three_sized (suc zero) c at = ground (arith, at)
three_sized (suc (suc k)) c at = cc

three_entry :
    (k j : ℕ) (c : List ℕ)
    → get_elem? three.chunks k ≡ some c
    → j < length c
    → get_elem? c j ≡ get_elem? (10 ∷ 20 ∷ 30 ∷ []) (2 ^ k + j - 1)
three_entry zero zero c at lt = ground (arith, at)
three_entry zero (suc j) c at lt = absurd (ground (arith, at, lt))
three_entry (suc zero) zero c at lt = ground (arith, at)
three_entry (suc zero) (suc zero) c at lt = ground (arith, at)
three_entry (suc zero) (suc (suc j)) c at lt = absurd (ground (arith, at, lt))
three_entry (suc (suc k)) j c at lt = cc

three-Holds : Holds three (10 ∷ 20 ∷ 30 ∷ [])
three-Holds = record {
  size = refl;
  sized = three_sized;
  entry = three_entry;
  covered = omega arith;
}

locate_lem_example :
    (k : ℕ) × (locate 6 ≡ done (k, 6 + 1 - 2 ^ k)) × (2 ^ k ≤ 6 + 1) × (6 + 1 < 2 ^ k + 2 ^ k)
locate_lem_example = locate_lem 6 (omega arith)

at-get_elem?_example : at three 2 ≡ done 30
at-get_elem?_example = at-get_elem? three (10 ∷ 20 ∷ 30 ∷ []) 2 three-Holds (omega arith)

push-append_example :
    (r : Registry ℕ ℕ) × (push three 40 ≡ done (r, 3)) × Holds r (10 ∷ 20 ∷ 30 ∷ 40 ∷ [])
unfolding from_usize
push-append_example = push-append three (10 ∷ 20 ∷ 30 ∷ []) 40 three-Holds (omega arith)

abbrev copy : ℕ → ℕ
copy n = n

deserialize-serialize-Holds_example :
    (serialize three ≡ (3, 10 ∷ 20 ∷ 30 ∷ []))
    × ((s : Registry ℕ ℕ) × (deserialize (serialize three).1 ≡ done s)
        × Holds s (10 ∷ 20 ∷ 30 ∷ [])
        × (eq ◌==◌ three s ≡ true))
    × ((t : Registry ℕ ℕ) × (clone copy three ≡ done t)
        × Holds t (10 ∷ 20 ∷ 30 ∷ [])
        × (eq ◌==◌ three t ≡ true))
deserialize-serialize-Holds_example =
    deserialize-serialize-Holds ◌==◌ copy three (10 ∷ 20 ∷ 30 ∷ []) (λ n. eq→== n n refl)
      (λ n. eq→== n n refl) three-Holds (omega arith)

replace-set_example :
    (r : Registry ℕ ℕ) × (replace three 1 21 ≡ done (r, 20)) × Holds r (10 ∷ 21 ∷ 30 ∷ [])
unfolding into_usize
replace-set_example = replace-set three (10 ∷ 20 ∷ 30 ∷ []) 1 20 21 three-Holds (omega arith) refl

truncate-take_example : (r : Registry ℕ ℕ) × (truncate three 1 ≡ done r) × Holds r (10 ∷ [])
truncate-take_example = truncate-take three (10 ∷ 20 ∷ 30 ∷ []) 1 three-Holds (omega arith)

abbrev last_first : List ℕ
last_first = 2 ∷ 0 ∷ []

last_first_inside : (q id : ℕ) → get_elem? last_first q ≡ some id → id < 3
last_first_inside zero id at = ground (arith, at)
last_first_inside (suc zero) id at = ground (arith, at)
last_first_inside (suc (suc q)) id at = cc

last_first_distinct :
    (p q id : ℕ) → get_elem? last_first p ≡ some id → get_elem? last_first q ≡ some id → p ≡ q
last_first_distinct zero zero id at at' = refl
last_first_distinct zero (suc zero) id at at' = absurd (ground (arith, at, at'))
last_first_distinct (suc zero) zero id at at' = absurd (ground (arith, at, at'))
last_first_distinct (suc zero) (suc zero) id at at' = refl
last_first_distinct (suc (suc p)) q id at at' = cc
last_first_distinct zero (suc (suc q)) id at at' = cc
last_first_distinct (suc zero) (suc (suc q)) id at at' = cc

select_mut-get_elem?_example :
    (refs : List ℕ) × (select_mut three last_first ≡ done refs)
    × ((p : ℕ) → get_elem? refs p ≡ wanted (10 ∷ 20 ∷ 30 ∷ []) last_first p)
unfolding into_usize from_usize
select_mut-get_elem?_example =
    select_mut-get_elem? three (10 ∷ 20 ∷ 30 ∷ []) last_first three-Holds refl last_first_inside
      last_first_distinct

select_mut_refuses_example : select_mut three (2 ∷ 0 ∷ 2 ∷ []) ≡ panic
select_mut_refuses_example =
    select_mut_refuses three (2 ∷ 0 ∷ 2 ∷ []) 2 2 refl (inr (0, omega arith, refl))
