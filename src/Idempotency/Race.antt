-- ===== src/Idempotency/Race.antt =====
-- Any number of callers claim one key, their statements interleaved in any order, while owners
-- complete the key or give it up. `claim` of idempotency/idempotency.service.ts is a program of three
-- statements here: the insert, the read, the reclaiming update.
pub mod Marks
pub mod Reclaim
pub mod Exclusion
use triage_engine.Prelude.{
  ℕ, ◌+◌, ◌≤◌, ◌<◌, Text, Bool, true, false, List, [], ◌∷◌, Option, none, some, ◌≡◌, ltb, ◌==◌,
  if◌then◌else◌, find_row,
}
use triage_engine.Entities.{IdempotencyKeyEntity, IngestResult}
use triage_engine.Idempotency.{
  ClaimResult, is_new, has_key, insert_key, reclaim, settled, reclaimed, attach_ticket,
  mark_completed, mark_failed,
}

-- Where a caller of `claim` stands.
pub data Caller : Type 0 where
  starting : (id request_hash : Text) → Caller
  lost_insert : (request_hash : Text) → Caller
  reclaiming : IdempotencyKeyEntity → Caller
  finished : ClaimResult → Caller
  crashed : Caller

-- What happened to the key's ownership, newest first.
pub data Mark : Type 0 where
  won : (time : ℕ) → Mark
  gave_up : Mark

pub record Race : Type 0 where
  pub rows : List IdempotencyKeyEntity
  pub now : ℕ
  pub callers : ℕ → Caller
  pub log : List Mark

-- A result `is_new` makes the caller the owner.
abbrev pub note : (now : ℕ) → ClaimResult → List Mark → List Mark
note now is_new log = won now ∷ log
note now _ log = log

abbrev pub after_read : (request_hash : Text) → Option IdempotencyKeyEntity → Caller
after_read request_hash none = crashed
after_read request_hash (some existing) = elim (settled request_hash existing) [
  | none ↦ reclaiming existing
  | some result ↦ finished result
]

-- The next statement of a caller.
unfoldable pub advance :
    (lease : ℕ) (key : Text) (now : ℕ)
    → Caller
    → List IdempotencyKeyEntity
    → List Mark
    → Caller × List IdempotencyKeyEntity × List Mark
advance lease key now (starting id request_hash) rows log =
    elim (insert_key id key request_hash now rows) [
      | none ↦ (lost_insert request_hash, rows, log)
      | some rows' ↦ (finished is_new, rows', won now ∷ log)
    ]
advance lease key now (lost_insert request_hash) rows log =
    (after_read request_hash (find_row (has_key key) rows), rows, log)
advance lease key now (reclaiming existing) rows log =
    let result = reclaimed (reclaim lease key now rows).1 existing in
    (finished result, (reclaim lease key now rows).0, note now result log)
advance lease key now (finished result) rows log = (finished result, rows, log)
advance lease key now crashed rows log = (crashed, rows, log)

unfoldable pub run_caller : (lease : ℕ) (key : Text) → ℕ → Race → Race
run_caller lease key i s =
    let moved = advance lease key s.now (s.callers i) s.rows s.log in
    record {
      rows = moved.1;
      now = s.now;
      callers = λ j. if j == i then moved.0 else s.callers j;
      log = moved.2;
    }

pub data Step (lease : ℕ) (key : Text) (s u : Race) : Type 0 where
  act : (i : ℕ) → u ≡ run_caller lease key i s → Step lease key s u
  wait : (t : ℕ) → s.now ≤ t → u ≡ record s { now = t } → Step lease key s u
  attach :
      (ticket_id : Text)
      → u ≡ record s { rows = attach_ticket key ticket_id s.now s.rows }
      → Step lease key s u
  complete :
      (ticket_id : Text) (code : ℕ) (body : IngestResult)
      → u ≡ record s { rows = mark_completed key ticket_id code body s.now s.rows }
      → Step lease key s u
  give_up :
      u ≡ record s { rows = mark_failed key s.now s.rows; log = gave_up ∷ s.log }
      → Step lease key s u

pub data Run (lease : ℕ) (key : Text) (s : Race) : Race → Type 0 where
  here : Run lease key s s
  then_step : {t u : Race} → Run lease key s t → Step lease key t u → Run lease key s u

-- Nobody has claimed the key yet.
abbrev pub fresh_race : ℕ → (ℕ → Caller) → Race
fresh_race now callers = record { rows = []; now = now; callers = callers; log = [] }
