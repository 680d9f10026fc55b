-- ===== src/Graph/Diagram.antt =====
-- What the owning graph promises: numbered nodes, and numbered arcs between nodes that are there. The
-- incident sets of the nodes do not show.
use jstd.Base.{
  ℕ, ◌+◌, Bool, false, ◌&&◌, ◌||◌, Option, none, some, ◌==◌, if◌then◌else◌, is_some, Outcome, done,
  panic, unwrap, ◌>>=◌,
}

pub record Arc {ℓ} (E : Type ℓ) : Type ℓ where
  pub from_node : ℕ
  pub to_node : ℕ
  pub payload : E

pub record Diagram {ℓ} (N E : Type ℓ) : Type ℓ where
  pub node : ℕ → Option N
  pub arc : ℕ → Option (Arc E)
  pub next_node : ℕ
  pub next_edge : ℕ

abbrev pub enter {ℓ} : {A : Type ℓ} → (ℕ → Option A) → ℕ → Option A → ℕ → Option A
enter f k v q = if q == k then v else f q

-- Whether an arc starts or ends at a node.
abbrev pub touches {ℓ} : {E : Type ℓ} → Option (Arc E) → ℕ → Bool
touches none n = false
touches (some a) n = n == a.from_node || n == a.to_node

module _ {ℓ} {N E : Type ℓ} where
  abbrev pub void : Diagram N E
  void = record { node = λ _. none; arc = λ _. none; next_node = 0; next_edge = 0 }

  abbrev pub make_node : Diagram N E → N → Diagram N E
  make_node d payload = record d {
    node = enter d.node d.next_node (some payload);
    next_node = d.next_node + 1;
  }

  abbrev pub make_edge : Diagram N E → ℕ → ℕ → E → Outcome (Diagram N E)
  make_edge d from_node to_node payload =
      if is_some (d.node from_node) && is_some (d.node to_node)
      then done (record d {
        arc =
            enter d.arc d.next_edge
              (some (record { from_node = from_node; to_node = to_node; payload = payload }));
        next_edge = d.next_edge + 1;
      })
      else panic

  abbrev pub remove_edge : Diagram N E → ℕ → Outcome (Diagram N E)
  remove_edge d e =
      if is_some (d.arc e) then done (record d { arc = enter d.arc e none }) else panic

  abbrev pub edit_edge : Diagram N E → ℕ → ℕ → ℕ → Outcome (Diagram N E)
  edit_edge d e new_from new_to = do
    a ← unwrap (d.arc e)
    if is_some (d.node new_from) && is_some (d.node new_to)
        then done (record d {
          arc = enter d.arc e (some (record a { from_node = new_from; to_node = new_to }));
        })
        else panic

  -- The node goes with all arcs that touch it.
  abbrev pub remove_node : Diagram N E → ℕ → Outcome (Diagram N E)
  remove_node d n =
      if is_some (d.node n)
      then done (record d {
        node = enter d.node n none;
        arc = λ e. if touches (d.arc e) n then none else d.arc e;
      })
      else panic
