-- ===== src/Pipeline/Failure.antt =====
-- pipeline/ticket.processor.ts, `onFailed`: which failures are a job's last, and what becomes of it.
pub mod Laws
use triage_engine.Prelude.{
  ℕ, ◌≤◌, Text, text_eq, codes, Bool, true, false, ◌||◌, List, ◌∷◌, Option, none, some, or_else,
  leb, if◌then◌else◌,
}
use triage_engine.Entities.{Metric, events_failed_retry, events_failed_dead_letter_write_failed}

-- A thrown error: whether it is BullMQ's `UnrecoverableError`, its name, message and stack.
pub record JobError : Type 0 where
  pub is_unrecoverable : Bool
  pub name : Text
  pub message : Text
  pub stack : Option Text

-- What `job.isFailed()` comes to within its timeout.
pub data Probe : Type 0 where
  answered : (in_failed_set : Bool) → Probe
  rejected : Probe
  timed_out : Probe

-- `none` is the rejection of `isTerminalFailure`.
abbrev probe_result : Probe → Option Bool
probe_result (answered in_failed_set) = some in_failed_set
probe_result rejected = none
probe_result timed_out = none

unfoldable pub is_terminal_failure :
    (attempts_made : ℕ) (attempts : Option ℕ) → JobError → Probe → Option Bool
is_terminal_failure attempts_made attempts error probe =
    if error.is_unrecoverable || text_eq error.name (codes "UnrecoverableError")
    then some true
    else if leb (or_else attempts 1) attempts_made
    then some true
    else probe_result probe

-- A decision that fails counts as terminal.
unfoldable pub classify_failure :
    (attempts_made : ℕ) (attempts : Option ℕ) → JobError → Probe → Bool
unfolding is_terminal_failure
classify_failure attempts_made attempts error probe =
    or_else (is_terminal_failure attempts_made attempts error probe) true

-- The state `D` that `record` writes to, `none` being its rejection, and the counters.
module _ {D : Type 0} (record_dead_letter : D × List Metric → Option (D × List Metric)) where
  unfoldable pub on_failed :
      (attempts_made : ℕ) (attempts : Option ℕ)
      → JobError
      → Probe
      → D × List Metric
      → D × List Metric
  unfolding classify_failure
  on_failed attempts_made attempts error probe (d, metrics) =
      if classify_failure attempts_made attempts error probe
      then elim (record_dead_letter (d, metrics)) [
        | none ↦ (d, events_failed_dead_letter_write_failed ∷ metrics)
        | some after ↦ after
      ]
      else (d, events_failed_retry ∷ metrics)
