-- ===== src/Config/Field.antt =====
-- config/env.validation.ts: the schema of each kind of variable. `is_url` is
-- what zod's `url()` accepts.
use triage_engine.Prelude.{
  ℕ, Text, codes, text_eq, Bool, true, false, ◌||◌, List, [], ◌∷◌, Option, none, some, leb,
  if◌then◌else◌, Checked, valid, invalid, find_named,
}
use triage_engine.Config.{
  NodeEnv, development, test, production, LogLevel, trace, debug, info, warn, error, fatal,
}
use triage_engine.Config.Number.{to_integer}

-- z.coerce.number().int().min(least).default(fallback); `positive()` is `min(1)` of an integer.
unfoldable pub int_field : (name : Text) (least fallback : ℕ) → Option Text → Checked ℕ
int_field name least fallback none = valid fallback
int_field name least fallback (some text) = elim (to_integer text) [
  | none ↦ invalid (some name ∷ [])
  | some n ↦ if leb least n then valid n else invalid (some name ∷ [])
]

-- The same with `.min(1).max(100)`.
unfoldable pub percent_field : (name : Text) (fallback : ℕ) → Option Text → Checked ℕ
unfolding int_field
percent_field name fallback text = elim (int_field name 1 fallback text) [
  | valid n ↦ if leb n 100 then valid n else invalid (some name ∷ [])
  | invalid issues ↦ invalid issues
]

-- z.string().min(1).default(fallback)
unfoldable pub string_field : (name fallback : Text) → Option Text → Checked Text
string_field name fallback none = valid fallback
string_field name fallback (some []) = invalid (some name ∷ [])
string_field name fallback (some (c ∷ cs)) = valid (c ∷ cs)

-- z.string().url().default(fallback)
unfoldable pub url_field :
    (is_url : Text → Bool) (name fallback : Text) → Option Text → Checked Text
url_field is_url name fallback none = valid fallback
url_field is_url name fallback (some text) =
    if is_url text then valid text else invalid (some name ∷ [])

-- optionalUrl: an empty text is no url.
unfoldable pub optional_url :
    (is_url : Text → Bool) (name : Text) → Option Text → Checked (Option Text)
optional_url is_url name none = valid none
optional_url is_url name (some []) = valid none
optional_url is_url name (some (c ∷ cs)) =
    if is_url (c ∷ cs) then valid (some (c ∷ cs)) else invalid (some name ∷ [])

-- envBool: `true`, `false`, `1`, `0`, or unset or empty for the default.
unfoldable pub env_bool : (name : Text) (fallback : Bool) → Option Text → Checked Bool
env_bool name fallback none = valid fallback
env_bool name fallback (some text) =
    if text_eq text []
    then valid fallback
    else if text_eq text (codes "true") || text_eq text (codes "1")
    then valid true
    else if text_eq text (codes "false") || text_eq text (codes "0")
    then valid false
    else invalid (some name ∷ [])

-- z.enum([...]).default(fallback)
unfoldable pub enum_field {ℓ} :
    {A : Type ℓ} → (A → Text) → List A → (name : Text) (fallback : A) → Option Text → Checked A
unfolding find_named
enum_field named members name fallback none = valid fallback
enum_field named members name fallback (some text) = elim (find_named named members text) [
  | none ↦ invalid (some name ∷ [])
  | some a ↦ valid a
]

unfoldable pub node_name : NodeEnv → Text
node_name development = codes "development"
node_name test = codes "test"
node_name production = codes "production"

abbrev pub node_envs : List NodeEnv
node_envs = development ∷ test ∷ production ∷ []

unfoldable pub level_name : LogLevel → Text
level_name trace = codes "trace"
level_name debug = codes "debug"
level_name info = codes "info"
level_name warn = codes "warn"
level_name error = codes "error"
level_name fatal = codes "fatal"

abbrev pub log_levels : List LogLevel
log_levels = trace ∷ debug ∷ info ∷ warn ∷ error ∷ fatal ∷ []
