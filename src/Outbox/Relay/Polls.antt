-- ===== src/Outbox/Relay/Polls.antt =====
-- The relay's loop: when its timer is set and when a drain runs.
use triage_engine.Prelude.{
  ℕ, ◌≤◌, true, false, ◌||◌, none, some, leb, suc, ◌≡◌, refl, ap, inl, inr, arith, Bool-cases,
}
use triage_engine.Config.{EnvVars}
use triage_engine.Outbox.Relay.{
  Timer, fires, ends, destroyed, on_timer, tick_begin, tick_end, schedule_next, on_module_init,
}

-- What may happen to the relay, with the number of drains that run: a set timer fires, which begins a
-- drain where `tick` goes past its guard; a drain that runs ends; the module is destroyed.
pub data Loop (env : EnvVars) : (running : ℕ) → Timer → Type 0 where
  starts : Loop env 0 on_module_init
  skips :
      {running : ℕ} {t : Timer} (delay : ℕ)
      → Loop env running t
      → t.timer ≡ some delay
      → t.stopped || t.draining ≡ true
      → Loop env running (on_timer env fires t)
  begins :
      {running : ℕ} {t : Timer} (delay : ℕ)
      → Loop env running t
      → t.timer ≡ some delay
      → t.stopped || t.draining ≡ false
      → Loop env (suc running) (on_timer env fires t)
  finishes :
      {running : ℕ} {t : Timer} (processed : ℕ)
      → Loop env (suc running) t
      → Loop env running (on_timer env (ends processed) t)
  stops :
      {running : ℕ} {t : Timer} → Loop env running t → Loop env running (on_timer env destroyed t)

-- Idle with the next poll due in at most the interval, or one drain running and no timer set; or
-- stopped, with no timer set.
pub data IsPolling (env : EnvVars) (running : ℕ) (t : Timer) : Type 0 where
  waits :
      (delay : ℕ)
      → running ≡ 0
      → t.stopped ≡ false
      → t.draining ≡ false
      → t.timer ≡ some delay
      → delay ≤ env.outbox_relay_poll_interval_ms
      → IsPolling env running t
  drains :
      running ≡ 1 → t.stopped ≡ false → t.draining ≡ true → t.timer ≡ none → IsPolling env running t
  is_stopped : running ≤ 1 → t.stopped ≡ true → t.timer ≡ none → IsPolling env running t

fires_idle :
    (env : EnvVars) (t : Timer)
    → t.stopped || t.draining ≡ false
    → on_timer env fires t ≡ record t { draining = true; timer = none }
unfolding on_timer tick_begin
fires_idle env t idle = rw idle refl

-- The relay never dies and never drains twice at once: after any timers, drains that end well or fail,
-- and destruction, it waits, its flag clear and its next poll set at most an interval away; or exactly
-- one drain runs, its flag raised and no timer set; or it was destroyed, and at most one drain still
-- runs and no timer is set.
pub relay_polls_on :
    (env : EnvVars) (running : ℕ) (t : Timer) → Loop env running t → IsPolling env running t
unfolding on_timer tick_end schedule_next
relay_polls_on env running t starts = waits 0 refl refl refl refl (omega arith)
relay_polls_on env running t (skips {t = before} delay l set guarded) =
    elim (relay_polls_on env running before l) [
      | waits d zero live idle due soon ↦ absurd (ground (arith, live, idle, guarded))
      | drains one live busy unset ↦ absurd (ground (arith, set, unset))
      | is_stopped few dead unset ↦ absurd (ground (arith, set, unset))
    ]
relay_polls_on env running t (begins {running = n} {t = before} delay l set idle) =
    elim (relay_polls_on env n before l) [
      | waits d zero live quiet due soon ↦
          drains (ap suc zero) (rw (fires_idle env before idle) live)
            (rw (fires_idle env before idle) refl) (rw (fires_idle env before idle) refl)
      | drains one live busy unset ↦ absurd (ground (arith, set, unset))
      | is_stopped few dead unset ↦ absurd (ground (arith, set, unset))
    ]
relay_polls_on env running t (finishes {running = n} {t = before} processed l) =
    elim (relay_polls_on env (suc n) before l) [
      | waits d zero live quiet due soon ↦ absurd (omega (arith, zero))
      | drains one live busy unset ↦ elim (Bool-cases (leb env.outbox_relay_batch_size processed)) [
        | inl full ↦
            waits 0 (omega (arith, one)) (ground (arith, live)) (ground (arith, live))
              (ground (arith, live, full)) (omega arith)
        | inr rest ↦
            waits env.outbox_relay_poll_interval_ms (omega (arith, one)) (ground (arith, live))
              (ground (arith, live)) (ground (arith, live, rest)) (omega arith)
      ]
      | is_stopped few dead unset ↦
          is_stopped (omega (arith, few)) (ground (arith, dead)) (ground (arith, dead, unset))
    ]
relay_polls_on env running t (stops {t = before} l) = elim (relay_polls_on env running before l) [
  | waits d zero live quiet due soon ↦ is_stopped (omega (arith, zero)) refl refl
  | drains one live busy unset ↦ is_stopped (omega (arith, one)) refl refl
  | is_stopped few dead unset ↦ is_stopped few refl refl
]
