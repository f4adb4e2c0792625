-- ===== src/Tests/Settings.antt =====
-- The configuration, at concrete inputs.
use triage_engine.Prelude.{
  Text, codes, true, Option, none, some, ◌≡◌, refl, valid, text_eq, if◌then◌else◌, trim,
}
use triage_engine.Config.{EnvVars, default_env}
use triage_engine.Config.Number.{to_integer}
use triage_engine.Config.Schema.{validate_env}
use triage_engine.Config.Bounds.{IsValidEnv}
use triage_engine.Config.Valid.{validate_env-IsValidEnv}
use triage_engine.Config.Print.{print_env}
use triage_engine.Config.Print.Reread.{validate_env-print_env}

-- `Number()` on texts of each form.
reads_integers :
    (to_integer (codes " 300 ") ≡ some 300)
    × (to_integer (codes "") ≡ some 0)
    × (to_integer (codes "1e3") ≡ some 1000)
    × (to_integer (codes "2.50E+1") ≡ some 25)
    × (to_integer (codes "0x1F") ≡ some 31)
    × (to_integer (codes "-5") ≡ none)
    × (to_integer (codes "1.5") ≡ none)
    × (to_integer (codes "12px") ≡ none)
unfolding to_integer trim
reads_integers = (refl, refl, refl, refl, refl, refl, refl, refl)

-- One variable is set, to a number with white space around it.
abbrev one_set : (name : Text) → Option Text
one_set name = if text_eq name (codes "PIPELINE_MAX_ATTEMPTS") then some (codes " 7 ") else none

abbrev seven_env : EnvVars
seven_env = record default_env { pipeline_max_attempts = 7 }

one_set-valid : validate_env (λ text. true) one_set ≡ valid seven_env
unfolding validate_env text_eq to_integer trim
one_set-valid = refl

validate_env-IsValidEnv_example : IsValidEnv (λ text. true) seven_env
validate_env-IsValidEnv_example =
    validate_env-IsValidEnv (λ text. true) one_set seven_env one_set-valid

validate_env-print_env_example : validate_env (λ text. true) (print_env seven_env) ≡ valid seven_env
validate_env-print_env_example =
    validate_env-print_env (λ text. true) seven_env
      (validate_env-IsValidEnv (λ text. true) one_set seven_env one_set-valid) refl
