-- ===== src/Idempotency/Race/Marks.antt =====
-- What the marks of a race say: the wins lie apart, and the newest agrees with the table.
use triage_engine.Prelude.{
  ℕ, ◌+◌, ◌≤◌, ◌<◌, Text, true, List, [], ◌∷◌, Option, some, ◌≡◌, count_rows, All,
}
use triage_engine.Entities.{IdempotencyKeyEntity, IdempotencyStatus}
use triage_engine.Idempotency.{has_key}
use triage_engine.Idempotency.Race.{Mark, won, gave_up}

-- Between two wins with no surrender between them, more than a lease goes by.
abbrev pub AreSpread : (lease : ℕ) → List Mark → Type 0
AreSpread lease [] = Unit {0}
AreSpread lease (gave_up ∷ log) = AreSpread lease log
AreSpread lease (won t ∷ []) = Unit {0}
AreSpread lease (won t ∷ gave_up ∷ log) = AreSpread lease log
AreSpread lease (won t ∷ won s ∷ log) = (s + lease < t) × AreSpread lease (won s ∷ log)

-- The row of a key that was won at `t` and not given up since.
abbrev pub IsHeld : ℕ → IdempotencyStatus → Option ℕ → Type 0
IsHeld t IdempotencyStatus.pending locked_at = locked_at ≡ some t
IsHeld t IdempotencyStatus.completed locked_at = Unit {0}
IsHeld t IdempotencyStatus.failed locked_at = ⊥

abbrev pub Held : (key : Text) (t : ℕ) → IdempotencyKeyEntity → Type 0
Held key t r = has_key key r ≡ true → IsHeld t r.status r.locked_at

-- What the newest mark says of the table.
abbrev pub Agrees : (key : Text) (now : ℕ) → List Mark → List IdempotencyKeyEntity → Type 0
Agrees key now [] rows = count_rows (has_key key) rows ≡ 0
Agrees key now (gave_up ∷ log) rows = Unit {0}
Agrees key now (won t ∷ log) rows =
    (t ≤ now) × (0 < count_rows (has_key key) rows) × All (Held key t) rows

pub record Inv (lease : ℕ) (key : Text) (now : ℕ) (rows : List IdempotencyKeyEntity)
    (log : List Mark) : Type 0 where
  pub unique : count_rows (has_key key) rows ≤ 1
  pub agrees : Agrees key now log rows
  pub spread : AreSpread lease log
