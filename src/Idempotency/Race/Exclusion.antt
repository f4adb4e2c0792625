-- ===== src/Idempotency/Race/Exclusion.antt =====
-- Two owners of a key are a lease apart, unless one gave the key up.
use triage_engine.Prelude.{
  ℕ, ◌≤◌, Text, text_eq_refl, Bool, true, false, List, [], ◌∷◌, none, some, ◌≡◌, refl, subst, inl,
  inr, arith, find_row, count_rows, update_rows, All-mono, All-update_rows, All-count_rows_zero,
  count_rows-update_rows, find_row-count_rows, Option-cases, if◌then◌else◌,
}
use triage_engine.Entities.{IdempotencyKeyEntity, IdempotencyStatus}
use triage_engine.Idempotency.{
  has_key, new_key, insert_key, attach_ticket, mark_completed, mark_failed,
}
use triage_engine.Idempotency.Race.{
  Caller, starting, lost_insert, reclaiming, finished, crashed, Mark, won, gave_up, Race, advance,
  run_caller, Step, act, wait, attach, complete, give_up, Run, here, then_step, fresh_race,
}
use triage_engine.Idempotency.Race.Marks.{AreSpread, Held, Agrees, Inv}
use triage_engine.Idempotency.Race.Reclaim.{won_spread, reclaim-Inv}

module _ (lease : ℕ) (key : Text) where
  insert-Inv :
      (id request_hash : Text) (now : ℕ) (rows rows' : List IdempotencyKeyEntity) (log : List Mark)
      → insert_key id key request_hash now rows ≡ some rows'
      → Inv lease key now rows log
      → Inv lease key now rows' (won now ∷ log)
  unfolding insert_key count_rows
  insert-Inv id request_hash now rows rows' log e v =
      elim (Option-cases (find_row (has_key key) rows)) [
        | inr (r, taken) ↦ absurd (ground (arith, taken))
        | inl free ↦
            let none_yet : count_rows (has_key key) rows ≡ 0 =
              ground (arith, free, find_row-count_rows (has_key key) rows) in
            let same : rows' ≡ new_key id key request_hash now ∷ rows = ground (arith, free) in
            rw same (record {
              unique = ground (arith, none_yet, text_eq_refl key);
              agrees = (
                omega arith,
                ground (arith, text_eq_refl key),
                (
                  λ _. refl,
                  All-mono rows (λ r no_key hit. absurd (ground (arith, no_key)))
                      (All-count_rows_zero (has_key key) rows none_yet),
                ),
              );
              spread = won_spread lease key now log v.spread λ t older e'.
                  absurd
                    (omega (arith, none_yet, (subst (λ l. Agrees key now l rows) e' v.agrees).1));
            })
      ]

  -- Updates of the key's rows that keep each of them held.
  update-Agrees :
      (now : ℕ) (rows : List IdempotencyKeyEntity) (log : List Mark)
      (f : IdempotencyKeyEntity → IdempotencyKeyEntity)
      → ((r : IdempotencyKeyEntity) → has_key key (f r) ≡ has_key key r)
      → ((t : ℕ) (r : IdempotencyKeyEntity) → Held key t r → Held key t (f r))
      → Agrees key now log rows
      → Agrees key now log (update_rows (has_key key) f rows)
  update-Agrees now rows [] f same keeps a =
      rw (count_rows-update_rows (has_key key) (has_key key) f rows same) a
  update-Agrees now rows (gave_up ∷ log) f same keeps a = tt
  update-Agrees now rows (won t ∷ log) f same keeps a = (
    a.0,
    rw (count_rows-update_rows (has_key key) (has_key key) f rows same) (a.1),
    All-update_rows (Held key t) (Held key t) (has_key key) f rows
        (λ r h. held_if (has_key key r) t r (keeps t r h) h) a.2,
  )
    where
      held_if :
          (b : Bool) (t : ℕ) (r : IdempotencyKeyEntity)
          → Held key t (f r)
          → Held key t r
          → Held key t (if b then f r else r)
      held_if true t r h k = h
      held_if false t r h k = k

  update-Inv :
      (now : ℕ) (rows : List IdempotencyKeyEntity) (log : List Mark)
      (f : IdempotencyKeyEntity → IdempotencyKeyEntity)
      → ((r : IdempotencyKeyEntity) → has_key key (f r) ≡ has_key key r)
      → ((t : ℕ) (r : IdempotencyKeyEntity) → Held key t r → Held key t (f r))
      → Inv lease key now rows log
      → Inv lease key now (update_rows (has_key key) f rows) log
  update-Inv now rows log f same keeps v = record {
    unique = rw (count_rows-update_rows (has_key key) (has_key key) f rows same) v.unique;
    agrees = update-Agrees now rows log f same keeps v.agrees;
    spread = v.spread;
  }

  advance-Inv :
      (now : ℕ) (c : Caller) (rows : List IdempotencyKeyEntity) (log : List Mark)
      → Inv lease key now rows log
      → Inv lease key now (advance lease key now c rows log).1 (advance lease key now c rows log).2
  unfolding advance
  advance-Inv now (starting id request_hash) rows log v =
      elim (Option-cases (insert_key id key request_hash now rows)) [
        | inl lost ↦ rw (lost, advance) v
        | inr (rows', won_it) ↦
            rw (won_it, advance) (insert-Inv id request_hash now rows rows' log won_it v)
      ]
  advance-Inv now (lost_insert request_hash) rows log v = v
  advance-Inv now (reclaiming existing) rows log v = reclaim-Inv lease key now rows log existing v
  advance-Inv now (finished result) rows log v = v
  advance-Inv now crashed rows log v = v

  later-Inv :
      (now t : ℕ) (rows : List IdempotencyKeyEntity) (log : List Mark)
      → now ≤ t
      → Inv lease key now rows log
      → Inv lease key t rows log
  later-Inv now t rows log le v = record {
    unique = v.unique;
    agrees = later_agrees log v.agrees;
    spread = v.spread;
  }
    where
      later_agrees : (log : List Mark) → Agrees key now log rows → Agrees key t log rows
      later_agrees [] a = a
      later_agrees (gave_up ∷ log) a = a
      later_agrees (won s ∷ log) a = (omega arith, a.1, a.2)

  give_up-Inv :
      (now : ℕ) (rows : List IdempotencyKeyEntity) (log : List Mark)
      → Inv lease key now rows log
      → Inv lease key now (mark_failed key now rows) (gave_up ∷ log)
  unfolding mark_failed
  give_up-Inv now rows log v = record {
    unique =
        rw
          (count_rows-update_rows (has_key key) (has_key key)
            (λ (r : IdempotencyKeyEntity). record r {
              status = IdempotencyStatus.failed;
              locked_at = none;
              updated_at = now;
            })
            rows (λ r. refl))
          v.unique;
    agrees = tt;
    spread = v.spread;
  }

  Step-Inv :
      {s u : Race}
      → Step lease key s u
      → Inv lease key s.now s.rows s.log
      → Inv lease key u.now u.rows u.log
  unfolding run_caller attach_ticket mark_completed
  Step-Inv {s} (act i e) v = rw e (advance-Inv s.now (s.callers i) s.rows s.log v)
  Step-Inv {s} (wait t le e) v = rw e (later-Inv s.now t s.rows s.log le v)
  Step-Inv {s} (attach ticket_id e) v =
      rw e (update-Inv s.now s.rows s.log _ (λ r. refl) (λ t r h. h) v)
  Step-Inv {s} (complete ticket_id code body e) v =
      rw e (update-Inv s.now s.rows s.log _ (λ r. refl) (λ t r h hit. tt) v)
  Step-Inv {s} (give_up e) v = rw e (give_up-Inv s.now s.rows s.log v)

  Run-Inv :
      {s u : Race}
      → Run lease key s u
      → Inv lease key s.now s.rows s.log
      → Inv lease key u.now u.rows u.log
  Run-Inv here v = v
  Run-Inv (then_step r st) v = Step-Inv st (Run-Inv r v)

-- However many callers race for a key, and in whatever order their statements run: two wins are
-- more than a lease apart, unless the key was given up between them, and one row at most bears
-- the key.
pub Run-AreSpread :
    (lease : ℕ) (key : Text) (now : ℕ) (callers : ℕ → Caller) (u : Race)
    → Run lease key (fresh_race now callers) u
    → AreSpread lease u.log × (count_rows (has_key key) u.rows ≤ 1)
unfolding count_rows
Run-AreSpread lease key now callers u r =
    let v = Run-Inv lease key r (record { unique = omega arith; agrees = refl; spread = tt }) in
    (v.spread, v.unique)
