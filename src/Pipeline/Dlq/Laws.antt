-- ===== src/Pipeline/Dlq/Laws.antt =====
-- The replay of a dead letter: the conditional UPDATE lets one caller through, and is undone when
-- the job cannot be queued.
use triage_engine.Prelude.{
  ℕ, ◌≤◌, Text, true, List, [], ◌∷◌, none, some, is_some, ◌≡◌, refl, inl, inr, arith, All, find_row,
  count_rows, update_rows, find_row-count_rows, Bool-cases, Option-cases, count_rows-le,
}
use triage_engine.Config.{EnvVars}
use triage_engine.Entities.{DeadLetterEntity, DeadLetterStatus, pending, replayed, is_unresolved}
use triage_engine.Queue.{QueueOps}
use triage_engine.Pipeline.{World, ok, conflict, threw}
use triage_engine.Pipeline.Producer.{enqueue_replay}
use triage_engine.Pipeline.Dlq.{
  letter_has_id, is_replayable, flip, unflip, Replayed, after_replay, replay,
}

abbrev flipped : (now : ℕ) → DeadLetterEntity → DeadLetterEntity
flipped now r = record r { status = replayed; replayed_at = some now }

-- After the UPDATE no row with the id is left to flip.
flip_once :
    (id : Text) (now : ℕ) (rows : List DeadLetterEntity)
    → find_row (is_replayable id) (update_rows (is_replayable id) (flipped now) rows) ≡ none
unfolding find_row update_rows
flip_once id now [] = refl
flip_once id now (r ∷ rows) = ground (arith, flip_once id now rows)

flip_keeps :
    (id : Text) (now : ℕ) (rows : List DeadLetterEntity)
    → is_some (find_row (letter_has_id id) (update_rows (is_replayable id) (flipped now) rows))
      ≡ is_some (find_row (letter_has_id id) rows)
unfolding find_row update_rows
flip_keeps id now [] = refl
flip_keeps id now (r ∷ rows) = ground (arith, flip_keeps id now rows)

replayable_there :
    (id : Text) (rows : List DeadLetterEntity) {r : DeadLetterEntity}
    → find_row (is_replayable id) rows ≡ some r
    → is_some (find_row (letter_has_id id) rows) ≡ true
unfolding find_row
replayable_there id [] e = ground (arith, e)
replayable_there id (x ∷ rows) {r} e =
    ground (arith, e, λ (h : find_row (is_replayable id) rows ≡ some r). replayable_there id rows h)

module _ {R : Type 0} (q : QueueOps R) (env : EnvVars) where
  -- A dead letter that was replayed cannot be replayed again: the second call, at any time, answers
  -- with a conflict, and queues and writes nothing.
  pub replay_once :
      (id : Text) (now later : ℕ) (w w' : World R) (answer : Replayed)
      → replay q env id now w ≡ (ok answer, w')
      → replay q env id later w' ≡ (conflict, w')
  unfolding replay flip after_replay
  replay_once id now later w w' answer e =
      elim (Option-cases (find_row (is_replayable id) w.db.dead_letters)) [
        | inl absent ↦ absurd (ground (arith, absent, e))
        | inr (row, found) ↦ elim (Option-cases (enqueue_replay q env row.payload id w.redis).0) [
          | inl refused ↦ absurd (ground (arith, found, refused, e))
          | inr (job_id, added) ↦
              let rows : w'.db.dead_letters
                  ≡ update_rows (is_replayable id) (flipped now) w.db.dead_letters =
                ground (arith, found, added, e) in
              ground (
                arith,
                rows,
                flip_once id now w.db.dead_letters,
                flip_keeps id now w.db.dead_letters,
                replayable_there id w.db.dead_letters found,
              )
        ]
      ]

-- A PENDING dead letter has no time of replay.
abbrev pub IsUnreplayed : DeadLetterEntity → Type 0
IsUnreplayed r = is_unresolved r.status ≡ true → r.replayed_at ≡ none

unflip_none :
    (id : Text) (now : ℕ) (rows : List DeadLetterEntity)
    → count_rows (letter_has_id id) rows ≡ 0
    → unflip id (update_rows (is_replayable id) (flipped now) rows) ≡ rows
unfolding unflip count_rows update_rows
unflip_none id now [] h = refl
unflip_none id now (r ∷ rows) h =
    ground (arith, h, λ (z : count_rows (letter_has_id id) rows ≡ 0). unflip_none id now rows z)

unresolved_pending : (s : DeadLetterStatus) → is_unresolved s ≡ true → pending ≡ s
unresolved_pending pending h = refl
unresolved_pending replayed h = absurd (ground (arith, h))

unflip_row :
    (r : DeadLetterEntity) (now : ℕ)
    → is_unresolved r.status ≡ true
    → r.replayed_at ≡ none
    → record (flipped now r) { status = pending; replayed_at = none } ≡ r
unflip_row r now p n = ground (arith, unresolved_pending r.status p, n)

-- Undoing the flip of the one row with the id restores the table.
unflip-flip :
    (id : Text) (now : ℕ) (rows : List DeadLetterEntity) (row : DeadLetterEntity)
    → count_rows (letter_has_id id) rows ≤ 1
    → All IsUnreplayed rows
    → find_row (is_replayable id) rows ≡ some row
    → unflip id (update_rows (is_replayable id) (flipped now) rows) ≡ rows
unfolding unflip count_rows update_rows find_row
unflip-flip id now [] row u clean e = refl
unflip-flip id now (r ∷ rows) row u clean e = elim (Bool-cases (letter_has_id id r)) [
  | inr other ↦ ground (
    arith,
    other,
    unflip-flip id now rows row (ground (arith, u, other)) clean.1 (ground (arith, e, other)),
  )
  | inl mine ↦ elim (Bool-cases (is_unresolved r.status)) [
    | inl waits ↦ ground (
      arith,
      mine,
      waits,
      unflip_row r now waits (clean.0 waits),
      unflip_none id now rows (ground (arith, u, mine)),
    )
    | inr done ↦ absurd (
        ground (
          arith,
          mine,
          done,
          e,
          u,
          find_row-count_rows (is_replayable id) rows,
          count_rows-le (is_replayable id) (letter_has_id id) rows (λ s h. ground arith),
        ))
  ]
]

module _ {R : Type 0} (q : QueueOps R) (env : EnvVars) where
  -- A replay whose job the queue rejects throws, and leaves the database as it was.
  pub replay_refused :
      (id : Text) (now : ℕ) (w : World R) (row : DeadLetterEntity)
      → count_rows (letter_has_id id) w.db.dead_letters ≤ 1
      → All IsUnreplayed w.db.dead_letters
      → find_row (is_replayable id) w.db.dead_letters ≡ some row
      → (enqueue_replay q env row.payload id w.redis).0 ≡ none
      → ((replay q env id now w).0 ≡ threw) × ((replay q env id now w).1.db ≡ w.db)
  unfolding replay flip after_replay
  replay_refused id now w row u clean found refused =
      let rows = unflip-flip id now w.db.dead_letters row u clean found in
      (ground (arith, found, refused), ground (arith, found, refused, rows))
