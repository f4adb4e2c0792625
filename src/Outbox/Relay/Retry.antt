-- ===== src/Outbox/Relay/Retry.antt =====
-- How often a row is dispatched before the relay gives it up.
use triage_engine.Prelude.{
  ℕ, ◌+◌, ◌≤◌, ◌<◌, true, false, List, [], ◌∷◌, leb, length, if◌then◌else◌, ◌≡◌, refl, ◌⊎◌, inl,
  inr, arith, Bool-cases,
}
use triage_engine.Config.{EnvVars}
use triage_engine.Backoff.{Random}
use triage_engine.Entities.{OutboxMessageEntity, OutboxStatus, is_due}
use triage_engine.Outbox.{Dispatched, delivered, rejected}
use triage_engine.Outbox.Relay.{settle}

-- A row that is still polled has attempts left; none has more than the limit.
pub record IsWithin (env : EnvVars) (r : OutboxMessageEntity) : Type 0 where
  pub bounded : r.attempts ≤ env.outbox_max_attempts
  pub left : r.status ≡ OutboxStatus.pending → r.attempts < env.outbox_max_attempts

-- One try: when it runs, the jitter that it draws, and how its dispatch ends.
pub record Try : Type 0 where
  pub now : ℕ
  pub random : Random
  pub answer : Dispatched

-- A row through a list of tries, polled only while it is PENDING.
pub tries : EnvVars → List Try → OutboxMessageEntity → OutboxMessageEntity
tries env [] r = r
tries env (t ∷ ts) r =
    let next = tries env ts (settle env t.now t.random r t.answer r) in
    if is_due r.status then next else r

is_due_sound : (s : OutboxStatus) → is_due s ≡ true → s ≡ OutboxStatus.pending
is_due_sound OutboxStatus.pending h = refl
is_due_sound OutboxStatus.sent h = cc
is_due_sound OutboxStatus.failed h = cc

settle-IsWithin :
    (env : EnvVars) (now : ℕ) (random : Random) (r : OutboxMessageEntity) (answer : Dispatched)
    → IsWithin env r
    → is_due r.status ≡ true
    → IsWithin env (settle env now random r answer r)
unfolding settle
settle-IsWithin env now random r delivered v h = record { bounded = v.bounded; left = λ e. cc }
settle-IsWithin env now random r (rejected message) v h =
    elim (Bool-cases (leb env.outbox_max_attempts (r.attempts + 1))) [
      | inl last ↦
          rw last
            (record { bounded = omega (arith, v.left (is_due_sound r.status h)); left = λ e. cc })
      | inr more ↦
          rw more (record { bounded = ground (arith, more); left = λ e. ground (arith, more) })
    ]

-- Each try ends the row or uses an attempt up.
settle_progress :
    (env : EnvVars) (now : ℕ) (random : Random) (r : OutboxMessageEntity) (answer : Dispatched)
    → (is_due (settle env now random r answer r).status ≡ false)
      ⊎ ((settle env now random r answer r).attempts ≡ r.attempts + 1)
unfolding settle
settle_progress env now random r delivered = inl refl
settle_progress env now random r (rejected message) = inr (ground arith)

tries_done :
    (env : EnvVars) (ts : List Try) (r : OutboxMessageEntity)
    → is_due r.status ≡ false
    → tries env ts r ≡ r
unfolding tries
tries_done env [] r h = refl
tries_done env (t ∷ ts) r h = rw h refl

-- A row with attempts left is settled, as SENT or FAILED, after at most as many tries as it has
-- attempts left, however they end; and it never uses more attempts than the limit.
pub tries_end :
    (env : EnvVars) (ts : List Try) (r : OutboxMessageEntity)
    → IsWithin env r
    → env.outbox_max_attempts ≤ r.attempts + length ts
    → (is_due (tries env ts r).status ≡ false)
      × ((tries env ts r).attempts ≤ env.outbox_max_attempts)
unfolding tries
tries_end env [] r v h = elim (Bool-cases (is_due r.status)) [
  | inl due ↦ absurd (omega (arith, v.left (is_due_sound r.status due)))
  | inr done ↦ (done, v.bounded)
]
tries_end env (t ∷ ts) r v h = elim (Bool-cases (is_due r.status)) [
  | inr done ↦ rw done (done, v.bounded)
  | inl due ↦
      let next = settle env t.now t.random r t.answer r in
      let within = settle-IsWithin env t.now t.random r t.answer v due in
      rw due (elim (settle_progress env t.now t.random r t.answer) [
        | inl ended ↦ rw (tries_done env ts next ended) (ended, within.bounded)
        | inr used ↦ tries_end env ts next within (omega (arith, used))
      ])
]
