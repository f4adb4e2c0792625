-- ===== src/Backoff.antt =====
-- common/backoff/backoff.ts and pipeline/pipeline.backoff.ts. `Math.random()` is a parameter: the
-- fraction part / whole, below 1. Products and halves are exact here; the source computes them in
-- doubles.
pub mod Bounds
use triage_engine.Prelude.{
  ℕ, ◌+◌, ◌-◌, ◌*◌, ◌/◌, ◌^◌, ◌<◌, min, Text, codes, Option, none, or_else, some,
}
use triage_engine.Config.Number.{to_integer}

pub record Random : Type 0 where
  pub part : ℕ
  pub whole : ℕ
  pub below_one : part < whole

abbrev pub max_safe_integer : ℕ
max_safe_integer = 9007199254740991

unfoldable pub exponential : (attempt base_ms : ℕ) (max_ms : Option ℕ) → ℕ
exponential attempt base_ms max_ms =
    min (or_else max_ms max_safe_integer) (base_ms * 2 ^ (attempt - 1))

-- floor(half + random * half), over the common denominator.
unfoldable pub backoff_with_jitter : (attempt base_ms : ℕ) (max_ms : Option ℕ) → Random → ℕ
backoff_with_jitter attempt base_ms max_ms random =
    (exponential attempt base_ms max_ms * (random.whole + random.part)) / (2 * random.whole)

-- `Number(process.env[name] ?? fallback)`, if it is a whole number from 0 on.
abbrev raw_number : (process_env : Text → Option Text) → (name : Text) → (fallback : ℕ) → Option ℕ
raw_number process_env name fallback = elim (process_env name) [
  | none ↦ some fallback
  | some text ↦ to_integer text
]

-- The strategy reads the raw environment at each call, without the schema. `none` stands for a delay
-- that JavaScript works out of something else, such as NaN.
unfoldable pub pipeline_backoff_strategy :
    (process_env : Text → Option Text) (attempts_made : ℕ) → Random → Option ℕ
pipeline_backoff_strategy process_env attempts_made random =
    elim (raw_number process_env (codes "PIPELINE_BACKOFF_BASE_MS") 2000) [
      | none ↦ none
      | some base_ms ↦ elim (raw_number process_env (codes "PIPELINE_BACKOFF_MAX_MS") 60000) [
        | none ↦ none
        | some max_ms ↦ some (backoff_with_jitter attempts_made base_ms (some max_ms) random)
      ]
    ]
