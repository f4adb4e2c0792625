-- ===== src/Pipeline/Failure/Laws.antt =====
-- Which failures of a job count as its last.
use triage_engine.Prelude.{
  ℕ, ◌≤◌, text_eq, text_eq_iff, text_eq_sound, codes, true, false, Option, or_else, ◌≡◌, ◌≢◌, refl,
  ◌↔◌, inl, inr, arith, Bool-cases,
}
use triage_engine.Pipeline.Failure.{
  JobError, Probe, answered, rejected, timed_out, classify_failure,
}

-- The error is unrecoverable by its class or its name, the attempts are used up, or the queue did
-- not say that the job is still to be retried.
pub data IsLast (attempts_made : ℕ) (attempts : Option ℕ) (error : JobError) (probe : Probe)
    : Type 0 where
  by_class : error.is_unrecoverable ≡ true → IsLast attempts_made attempts error probe
  by_name : error.name ≡ codes "UnrecoverableError" → IsLast attempts_made attempts error probe
  used_up : or_else attempts 1 ≤ attempts_made → IsLast attempts_made attempts error probe
  not_denied : probe ≢ answered false → IsLast attempts_made attempts error probe

IsLast-classify :
    (attempts_made : ℕ) (attempts : Option ℕ) (error : JobError) (probe : Probe)
    → IsLast attempts_made attempts error probe
    → classify_failure attempts_made attempts error probe ≡ true
unfolding classify_failure
IsLast-classify attempts_made attempts error probe (by_class e) = ground (arith, e)
IsLast-classify attempts_made attempts error probe (by_name e) =
    ground (arith, text_eq_iff error.name (codes "UnrecoverableError"), e)
IsLast-classify attempts_made attempts error probe (used_up e) = ground (arith, e)
IsLast-classify attempts_made attempts error rejected (not_denied e) = ground arith
IsLast-classify attempts_made attempts error timed_out (not_denied e) = ground arith
IsLast-classify attempts_made attempts error (answered true) (not_denied e) = ground arith
IsLast-classify attempts_made attempts error (answered false) (not_denied e) = absurd (e refl)

-- What the error and the attempts leave open, the answer decides.
classify-denied :
    (attempts_made : ℕ) (attempts : Option ℕ) (error : JobError)
    → classify_failure attempts_made attempts error (answered false) ≡ true
    → IsLast attempts_made attempts error (answered false)
unfolding classify_failure
classify-denied attempts_made attempts error e = elim (Bool-cases error.is_unrecoverable) [
  | inl unrecoverable ↦ by_class unrecoverable
  | inr open_class ↦ elim (Bool-cases (text_eq error.name (codes "UnrecoverableError"))) [
    | inl named ↦ by_name (text_eq_sound error.name (codes "UnrecoverableError") named)
    | inr open_name ↦ used_up (ground (arith, e, open_class, open_name))
  ]
]

classify-IsLast :
    (attempts_made : ℕ) (attempts : Option ℕ) (error : JobError) (probe : Probe)
    → classify_failure attempts_made attempts error probe ≡ true
    → IsLast attempts_made attempts error probe
classify-IsLast attempts_made attempts error (answered false) e =
    classify-denied attempts_made attempts error e
classify-IsLast attempts_made attempts error (answered true) e = not_denied (λ q. ground (arith, q))
classify-IsLast attempts_made attempts error rejected e = not_denied (λ q. ground (arith, q))
classify-IsLast attempts_made attempts error timed_out e = not_denied (λ q. ground (arith, q))

-- A failure is classed as the job's last exactly when it is: the error is unrecoverable by its class
-- or its name, the attempts are used up, or the queue does not answer, in time, that the job is not
-- in the failed set.
pub classify_failure_iff :
    (attempts_made : ℕ) (attempts : Option ℕ) (error : JobError) (probe : Probe)
    → (classify_failure attempts_made attempts error probe ≡ true)
      ↔ IsLast attempts_made attempts error probe
classify_failure_iff attempts_made attempts error probe = (
  classify-IsLast attempts_made attempts error probe,
  IsLast-classify attempts_made attempts error probe,
)
