-- ===== src/RecyclingArena/Pool.antt =====
-- What `RecyclingArena` promises: numbered cells, with a stack of the free ones. A push takes the
-- cell on top of the stack, or the next new one; a removal puts its cell on top.
use jstd.Base.{
  ℕ, ◌+◌, Bool, Option, none, some, List, [], ◌∷◌, ◌==◌, if◌then◌else◌, Outcome, done, panic,
}

pub record Pool {ℓ} (T : Type ℓ) : Type ℓ where
  pub cells : ℕ → Option T
  pub free : List ℕ
  pub next : ℕ

module _ {ℓ} {T : Type ℓ} where
  abbrev pub void : Pool T
  void = record { cells = λ _. none; free = []; next = 0 }

  abbrev pub fill : (ℕ → Option T) → ℕ → Option T → ℕ → Option T
  fill cells raw value r = if raw == r then value else cells r

  -- `fits` tells the numbers that the identifier type can hold.
  abbrev pub push : (ℕ → Bool) → Pool T → T → Outcome (Pool T × ℕ)
  push fits p value = elim p.free [
    | [] ↦
        if fits p.next
        then done (record p { cells = fill p.cells p.next (some value); next = p.next + 1 }, p.next)
        else panic
    | raw ∷ rest ↦ done (record p { cells = fill p.cells raw (some value); free = rest }, raw)
  ]

  abbrev pub remove : Pool T → ℕ → Outcome (Pool T × T)
  remove p raw = elim (p.cells raw) [
    | none ↦ panic
    | some value ↦ done (record p { cells = fill p.cells raw none; free = raw ∷ p.free }, value)
  ]

  abbrev pub set_entry : Pool T → ℕ → T → Outcome (Pool T)
  set_entry p raw value = elim (p.cells raw) [
    | none ↦ panic
    | some _ ↦ done (record p { cells = fill p.cells raw (some value) })
  ]
