-- ===== src/Prelude/SafeParse.antt =====
-- What a schema's `safeParse` returns: the value, or its issues, each by the path that it names. The
-- wording of an issue is zod's and is left out.
use mathlib.Core.Path.{◌≡◌, refl}
use mathlib.Core.Logic.{◌⊎◌, inl, inr}
use mathlib.Core.Option.{Option, none, some}
use mathlib.Core.List.{List, [], ◌∷◌, ◌++◌}
use triage_engine.Prelude.Texts.{Text, codes, text_eq}
use triage_engine.Prelude.Tests.{if◌then◌else◌}

-- z.enum and z.nativeEnum: the member with this value.
unfoldable pub find_named {ℓ} : {A : Type ℓ} → (name : A → Text) → List A → Text → Option A
find_named name [] text = none
find_named name (a ∷ rest) text =
    if text_eq (name a) text then some a else find_named name rest text

pub data Checked {ℓ} (A : Type ℓ) : Type ℓ where
  valid : A → Checked A
  invalid : List (Option Text) → Checked A

-- The issue of a variable or field that has no valid value.
abbrev pub missing {ℓ} : {A : Type ℓ} → Text → Option A → List (Option Text) → List (Option Text)
missing name (some a) issues = issues
missing name none issues = some name ∷ issues

-- `i.path.join('.') || '(root)'`
abbrev pub path_text : Option Text → Text
path_text none = codes "(root)"
path_text (some name) = name

-- Two values, or the issues of both, in order.
abbrev pub both {ℓ} : {A B : Type ℓ} → Checked A → Checked B → Checked (A × B)
both (valid a) (valid b) = valid (a, b)
both (valid a) (invalid issues) = invalid issues
both (invalid issues) (valid b) = invalid issues
both (invalid issues) (invalid more) = invalid (issues ++ more)

abbrev pub map_valid {ℓ} : {A B : Type ℓ} → (A → B) → Checked A → Checked B
map_valid f (valid a) = valid (f a)
map_valid f (invalid issues) = invalid issues

pub Checked-cases {ℓ} :
    {A : Type ℓ} (x : Checked A)
    → ((a : A) × (x ≡ valid a)) ⊎ ((issues : List (Option Text)) × (x ≡ invalid issues))
Checked-cases (valid a) = inl (a, refl)
Checked-cases (invalid issues) = inr (issues, refl)
