-- ===== src/Config/Print/Printed.antt =====
-- A value of each kind of variable is read back from its text.
use triage_engine.Prelude.{
  ℕ, ◌≤◌, Text, text_eq, Bool, true, false, [], ◌∷◌, Option, none, some, length, show_ℕ, ◌≡◌, refl,
  arith, Checked, valid, both, find_named,
}
use triage_engine.Config.{
  NodeEnv, development, test, production, LogLevel, trace, debug, info, warn, error, fatal,
}
use triage_engine.Config.Number.Shown.{to_integer-show_ℕ}
use triage_engine.Config.Field.{
  int_field, percent_field, string_field, url_field, optional_url, env_bool, enum_field, node_name,
  node_envs, level_name, log_levels,
}
use triage_engine.Config.Print.{bool_name}

pub int_printed :
    (name : Text) (least fallback n : ℕ)
    → least ≤ n
    → int_field name least fallback (some (show_ℕ n)) ≡ valid n
unfolding int_field
int_printed name least fallback n le = ground (arith, le, to_integer-show_ℕ n)

pub percent_printed :
    (name : Text) (fallback n : ℕ)
    → (1 ≤ n) × (n ≤ 100)
    → percent_field name fallback (some (show_ℕ n)) ≡ valid n
unfolding percent_field
percent_printed name fallback n fits = ground (arith, fits, int_printed name 1 fallback n fits.0)

pub string_printed :
    (name fallback text : Text)
    → 1 ≤ length text
    → string_field name fallback (some text) ≡ valid text
unfolding string_field
string_printed name fallback [] le = absurd (omega (arith, le))
string_printed name fallback (c ∷ cs) le = refl

pub url_printed :
    (is_url : Text → Bool) (name fallback text : Text)
    → is_url text ≡ true
    → url_field is_url name fallback (some text) ≡ valid text
unfolding url_field
url_printed is_url name fallback text good = rw good refl

pub optional_printed :
    (is_url : Text → Bool) (name : Text) (o : Option Text)
    → ((u : Text) → o ≡ some u → (is_url u ≡ true) × (1 ≤ length u))
    → optional_url is_url name o ≡ valid o
unfolding optional_url
optional_printed is_url name none h = refl
optional_printed is_url name (some []) h = absurd (omega (arith, (h [] refl).1))
optional_printed is_url name (some (c ∷ cs)) h = rw ((h (c ∷ cs) refl).0) refl

pub bool_printed :
    (name : Text) (fallback b : Bool) → env_bool name fallback (some (bool_name b)) ≡ valid b
unfolding env_bool text_eq
bool_printed name fallback true = refl
bool_printed name fallback false = refl

pub node_printed :
    (name : Text) (fallback n : NodeEnv)
    → enum_field node_name node_envs name fallback (some (node_name n)) ≡ valid n
unfolding enum_field find_named node_name text_eq
node_printed name fallback development = refl
node_printed name fallback test = refl
node_printed name fallback production = refl

pub level_printed :
    (name : Text) (fallback l : LogLevel)
    → enum_field level_name log_levels name fallback (some (level_name l)) ≡ valid l
unfolding enum_field find_named level_name text_eq
level_printed name fallback trace = refl
level_printed name fallback debug = refl
level_printed name fallback info = refl
level_printed name fallback warn = refl
level_printed name fallback error = refl
level_printed name fallback fatal = refl

pub both_valid :
    {A B : Type 0} (x : Checked A) (y : Checked B) (a : A) (b : B)
    → x ≡ valid a
    → y ≡ valid b
    → both x y ≡ valid (a, b)
both_valid x y a b p q = rw (p, q)
