-- ===== src/Registry.antt =====
-- src/registry.rs: `Registry`, a vector in chunks of doubling size that are never reallocated.
-- `panic` is an index out of range or an arithmetic overflow, as in a debug build; the debug
-- assertions of `at` and `at_mut` then refuse nothing more, by the theorems on `at` and `replace`.
-- Chunk capacities are not modelled.
pub mod Locate
pub mod Holds
pub mod Push
pub mod Replace
pub mod Shrink
pub mod Iterate
pub mod Wire
pub mod Select
pub mod Tests
use jstd.Base.{
  ℕ, zero, suc, ◌+◌, ◌-◌, ◌^◌, Bool, ◌&&◌, List, [], ◌∷◌, ◌++◌, ltb, leb, ◌==◌, if◌then◌else◌,
  Outcome, done, ◌>>=◌, ◌>>◌, assert, length, index, set, set_at, take,
}
use jstd.Identifier.{Identifier, Identified}

pub record Registry {ℓ} (Key : Type 0) (T : Type ℓ) : Type ℓ where
  pub chunks : List (List T)
  pub len : ℕ

-- `flatten` of an iterator of chunks
abbrev pub flatten {ℓ} : {T : Type ℓ} → List (List T) → List T
flatten [] = []
flatten (chunk ∷ rest) = chunk ++ flatten rest

-- `leading_zeros` of a number of `w` bits
pub leading_zeros : ℕ → ℕ → ℕ
leading_zeros zero m = 0
leading_zeros (suc w) m = if leb (2 ^ w) m then 0 else leading_zeros w m + 1

pub locate : ℕ → Outcome (ℕ × ℕ)
locate n = do
  let m = n + 1
  assert (ltb m (2 ^ 64))
  let k = 63 - leading_zeros 64 m
  done (k, m - 2 ^ k)

module _ {ℓ} {Key : Type 0} {T : Type ℓ} where
  pub empty : Registry Key T
  empty = record { chunks = []; len = 0 }

  pub is_empty : Registry Key T → Bool
  is_empty r = r.len == 0

  -- The chunks of `push`, with a fresh one where it is needed.
  pub grow : Registry Key T → ℕ → ℕ → List (List T)
  grow r k offset = if offset == 0 && length r.chunks == k then r.chunks ++ [] ∷ [] else r.chunks

  -- The loop of `truncate`, for as many rounds as elements are dropped.
  pub drop_last : Registry Key T → ℕ → Outcome (Registry Key T)
  drop_last r zero = done r
  drop_last r (suc n) = do
    (k, offset) ← locate (r.len - 1)
    chunk ← index r.chunks k
    drop_last (record { chunks = set r.chunks k (take offset chunk); len = r.len - 1 }) n

  pub truncate : Registry Key T → ℕ → Outcome (Registry Key T)
  truncate r len = drop_last r (r.len - len)

  pub at : Registry Key T → ℕ → Outcome T
  at r n = do (k, offset) ← locate n; chunk ← index r.chunks k; index chunk offset

  -- `replace` on a raw index, through `at_mut`.
  pub replace_at : Registry Key T → ℕ → T → Outcome (Registry Key T × T)
  replace_at r n value = do
    (k, offset) ← locate n
    chunk ← index r.chunks k
    old ← index chunk offset
    done (record r { chunks = set r.chunks k (set chunk offset value) }, old)

module _ {ℓ} {Key : Type 0} {T : Type ℓ} ⦃I : Identifier Key⦄ where
  pub push : Registry Key T → T → Outcome (Registry Key T × Key)
  push r e = do
    let n = r.len
    (k, offset) ← locate n
    let chunks = grow r k offset
    chunk ← index chunks k
    done (record { chunks = set chunks k (chunk ++ e ∷ []); len = n + 1 }, I.from_usize n)

  -- The items of the iterators, numbered from `n` on.
  pub number : ℕ → List T → List (Identified Key T)
  number n [] = []
  number n (value ∷ rest) = record { id = I.from_usize n; inner = value } ∷ number (n + 1) rest

  -- `iter`, `iter_mut` and `into_iter`
  pub iter : Registry Key T → List (Identified Key T)
  iter r = number 0 (flatten r.chunks)

  -- The loop of `from_iter`.
  pub push_all : Registry Key T → List T → Outcome (Registry Key T)
  push_all r [] = done r
  push_all r (e ∷ rest) = do (r', _) ← push r e; push_all r' rest

  pub from_iter : List T → Outcome (Registry Key T)
  from_iter elements = push_all empty elements

  pub replace : Registry Key T → Key → T → Outcome (Registry Key T × T)
  replace r id value = replace_at r (I.into_usize id) value

  pub get : Registry Key T → Key → Outcome (Identified Key T)
  get r id = do value ← at r (I.into_usize id); done (record { id = id; inner = value })
