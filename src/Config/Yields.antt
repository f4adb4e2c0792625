-- ===== src/Config/Yields.antt =====
-- What each kind of variable gives where its schema accepts.
use triage_engine.Prelude.{
  Checked-cases, ℕ, ◌≤◌, Text, Bool, true, [], ◌∷◌, Option, none, some, length, ◌≡◌, ◌⊎◌, inl, inr,
  refl, arith, Checked, valid, invalid, both, Bool-cases, Option-cases, subst,
}
use triage_engine.Config.Number.{to_integer}
use triage_engine.Config.Field.{int_field, percent_field, string_field, url_field, optional_url}

-- Every value that the schema gives has the property.
abbrev pub Yields {ℓ} : {A : Type ℓ} → Checked A → (A → Type ℓ) → Type ℓ
Yields {A} x P = (a : A) → x ≡ valid a → P a

Yields_both {ℓ} :
    {A B : Type ℓ} (x : Checked A) (y : Checked B) (P : A → Type ℓ) (Q : B → Type ℓ)
    → Yields x P
    → Yields y Q
    → Yields (both x y) (λ c. P c.0 × Q c.1)
Yields_both (valid a) (valid b) P Q p q c e =
    let same : (a, b) ≡ c = ground (arith, e) in
    subst (λ c. P c.0 × Q c.1) same (p a refl, q b refl)
Yields_both (valid a) (invalid issues) P Q p q c e = absurd (ground (arith, e))
Yields_both (invalid issues) (valid b) P Q p q c e = absurd (ground (arith, e))
Yields_both (invalid issues) (invalid more) P Q p q c e = absurd (ground (arith, e))

pub both-Yields {ℓ} :
    {A B : Type ℓ} {x : Checked A} {y : Checked B} {P : A → Type ℓ} {Q : B → Type ℓ}
    → Yields x P
    → Yields y Q
    → Yields (both x y) (λ c. P c.0 × Q c.1)
both-Yields p q = Yields_both _ _ _ _ p q

pub int-Yields :
    (name : Text) (least fallback : ℕ) (o : Option Text)
    → least ≤ fallback
    → Yields (int_field name least fallback o) (λ n. least ≤ n)
unfolding int_field
int-Yields name least fallback none le n e = ground (arith, e)
int-Yields name least fallback (some text) le n e = elim (Option-cases (to_integer text)) [
  | inl bad ↦ absurd (ground (arith, e, bad))
  | inr (m, good) ↦ ground (arith, e, good)
]

pub percent-Yields :
    (name : Text) (fallback : ℕ) (o : Option Text)
    → 1 ≤ fallback
    → fallback ≤ 100
    → Yields (percent_field name fallback o) (λ n. (1 ≤ n) × (n ≤ 100))
unfolding percent_field
percent-Yields name fallback o low high n e = elim (Checked-cases (int_field name 1 fallback o)) [
  | inl (m, good) ↦
      let least = int-Yields name 1 fallback o low m good in
      (ground (arith, e, good, least), ground (arith, e, good))
  | inr (issues, bad) ↦ absurd (ground (arith, e, bad))
]

pub string-Yields :
    (name fallback : Text) (o : Option Text)
    → 1 ≤ length fallback
    → Yields (string_field name fallback o) (λ s. 1 ≤ length s)
unfolding string_field
string-Yields name fallback none le s e = ground (arith, e)
string-Yields name fallback (some []) le s e = absurd (ground (arith, e))
string-Yields name fallback (some (c ∷ cs)) le s e = ground (arith, e)

pub url-Yields :
    (is_url : Text → Bool) (name fallback : Text) (o : Option Text)
    → Yields (url_field is_url name fallback o) (λ s. (is_url s ≡ true) ⊎ (s ≡ fallback))
unfolding url_field
url-Yields is_url name fallback none s e = inr (ground (arith, e))
url-Yields is_url name fallback (some text) s e = elim (Bool-cases (is_url text)) [
  | inl good ↦
      let same : text ≡ s = ground (arith, e, good) in inl (subst (λ t. is_url t ≡ true) same good)
  | inr bad ↦ absurd (ground (arith, e, bad))
]

abbrev pub IsOptionalUrl : (is_url : Text → Bool) → Option Text → Type 0
IsOptionalUrl is_url o = (u : Text) → o ≡ some u → (is_url u ≡ true) × (1 ≤ length u)

pub optional-Yields :
    (is_url : Text → Bool) (name : Text) (o : Option Text)
    → Yields (optional_url is_url name o) (IsOptionalUrl is_url)
unfolding optional_url
optional-Yields is_url name none s e u f = absurd (ground (arith, e, f))
optional-Yields is_url name (some []) s e u f = absurd (ground (arith, e, f))
optional-Yields is_url name (some (c ∷ cs)) s e u f = elim (Bool-cases (is_url (c ∷ cs))) [
  | inl good ↦
      let same : c ∷ cs ≡ u = ground (arith, e, good, f) in
      (subst (λ t. is_url t ≡ true) same good, subst (λ t. 1 ≤ length t) same (omega arith))
  | inr bad ↦ absurd (ground (arith, e, bad))
]

abbrev pub Any : {A : Type 0} → A → Type 0
Any a = Unit

abbrev pub AtLeast : (least n : ℕ) → Type 0
AtLeast least n = least ≤ n

abbrev pub IsPercent : (n : ℕ) → Type 0
IsPercent n = (1 ≤ n) × (n ≤ 100)

abbrev pub HasText : (text : Text) → Type 0
HasText text = 1 ≤ length text

abbrev pub IsUrl : (is_url : Text → Bool) (fallback text : Text) → Type 0
IsUrl is_url fallback text = (is_url text ≡ true) ⊎ (text ≡ fallback)

abbrev pub Both : {A B : Type 0} → (A → Type 0) → (B → Type 0) → A × B → Type 0
Both P Q c = P c.0 × Q c.1

pub Any-Yields : {A : Type 0} (x : Checked A) → Yields x Any
Any-Yields x a e = tt
