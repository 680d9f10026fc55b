-- ===== src/Registry/Locate.antt =====
-- `locate`: where an index lies among chunks of doubling size.
use native.Mathlib.Nat.{two-pow-succ, pow-le-pow_right}
use jstd.Base.{ℕ, zero, suc, ◌+◌, ◌-◌, ◌^◌, ◌≤◌, ◌<◌, ◌≡◌, inl, inr, Bool-cases, leb, done, arith}
use jstd.Registry.{leading_zeros, locate}

pub pow_pos : (k : ℕ) → 0 < 2 ^ k
pow_pos zero = omega arith
pow_pos (suc k) = omega (arith, two-pow-succ k, pow_pos k)

pub pow_gap : (i j : ℕ) → i < j → 2 ^ i + 2 ^ i ≤ 2 ^ j
pow_gap i j h =
    let le : 2 ^ suc i ≤ 2 ^ j = pow-le-pow_right (omega arith) {i = suc i} {j = j} h in
    omega (arith, two-pow-succ i, le)

-- The highest bit of a number of `w` bits.
leading_zeros_lem :
    (w m : ℕ)
    → 0 < m
    → m < 2 ^ w
    → (k : ℕ) × (leading_zeros w m + k + 1 ≡ w) × (2 ^ k ≤ m) × (m < 2 ^ k + 2 ^ k)
unfolding leading_zeros
leading_zeros_lem zero m h b = absurd (omega arith)
leading_zeros_lem (suc w) m h b = elim (Bool-cases (leb (2 ^ w) m)) [
  | inl top ↦ (w, ground (arith, top), ground (arith, top), omega (arith, two-pow-succ w, b))
  | inr low ↦
      let (k, e, above, below) = leading_zeros_lem w m h (ground (arith, low)) in
      (k, ground (arith, low, e), above, below)
]

-- An index `n` below the largest `usize` lies in the chunk `k` with `2 ^ k ≤ n + 1 < 2 ^ (k + 1)`, at
-- the offset `n + 1 - 2 ^ k`.
pub locate_lem :
    (n : ℕ)
    → n + 1 < 2 ^ 64
    → (k : ℕ) × (locate n ≡ done (k, n + 1 - 2 ^ k)) × (2 ^ k ≤ n + 1) × (n + 1 < 2 ^ k + 2 ^ k)
unfolding locate
locate_lem n h =
    let (k, e, above, below) = leading_zeros_lem 64 (n + 1) (omega arith) h in
    let bit : 63 - leading_zeros 64 (n + 1) ≡ k = omega (arith, e) in
    (k, ground (arith, bit, h), above, below)
