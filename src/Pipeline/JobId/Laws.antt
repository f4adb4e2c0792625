-- ===== src/Pipeline/JobId/Laws.antt =====
-- Jobs with one id do the same work.
use triage_engine.Prelude.{
  ℕ, Text, codes, sym, ◌∙◌, drop, Option, none, some, true, ◌≡◌, refl, ap, [], ◌∷◌, ◌++◌, all,
  colon, HasNoColon, show_ℕ, show_ℕ-injective, colon-split, colon-ne, arith,
}
use triage_engine.Pipeline.JobId.{
  is_key_char, is_usable_as_job_id, replay_job_id, upgrade_job_id, reconcile_job_id,
}

all_key_char-HasNoColon : (cs : Text) → all is_key_char cs ≡ true → HasNoColon cs
all_key_char-HasNoColon [] h = tt
all_key_char-HasNoColon (c ∷ cs) h =
    ((λ e. ground arith), all_key_char-HasNoColon cs (ground arith))

-- A key that ingestion admits holds no colon, is not empty and is no number.
usable-HasNoColon : (key : Text) → is_usable_as_job_id key ≡ true → HasNoColon key
unfolding is_usable_as_job_id
usable-HasNoColon [] h = tt
usable-HasNoColon (c ∷ cs) h = ((λ e. ground arith), all_key_char-HasNoColon cs (ground arith))

-- What a job of the pipeline is for.
pub data JobKind : Type 0 where
  first_run : JobKind
  replay_of : (dead_letter_id : Text) → JobKind
  upgrade : (attempt : ℕ) → JobKind
  reconcile : JobKind

abbrev pub job_id : Text → JobKind → Text
job_id key first_run = key
job_id key (replay_of dead_letter_id) = replay_job_id key dead_letter_id
job_id key (upgrade attempt) = upgrade_job_id key attempt
job_id key reconcile = reconcile_job_id key

-- What follows the key and a colon.
abbrev suffix : JobKind → Option Text
suffix first_run = none
suffix (replay_of dead_letter_id) = some (codes "replay" ++ (colon ∷ dead_letter_id))
suffix (upgrade attempt) = some (codes "upgrade" ++ (colon ∷ show_ℕ attempt))
suffix reconcile = some (codes "reconcile" ++ (colon ∷ codes "0"))

abbrev join : Text → Option Text → Text
join key none = key
join key (some s) = key ++ (colon ∷ s)

job_id-join : (key : Text) (a : JobKind) → job_id key a ≡ join key (suffix a)
unfolding replay_job_id upgrade_job_id reconcile_job_id
job_id-join key first_run = refl
job_id-join key _ = refl

join-injective :
    (k k' : Text) (s s' : Option Text)
    → HasNoColon k
    → HasNoColon k'
    → join k s ≡ join k' s'
    → (k ≡ k') × (s ≡ s')
join-injective k k' none none h h' e = (e, refl)
join-injective k k' none (some s') h h' e = absurd (colon-ne k k' s' h e)
join-injective k k' (some s) none h h' e = absurd (colon-ne k' k s h' (sym e))
join-injective k k' (some s) (some s') h h' e =
    let (same, rest) = colon-split k k' s s' h h' e in (same, ap some rest)

-- The third letter tells the suffixes apart.
abbrev third : Option Text → ℕ
third (some (a ∷ b ∷ c ∷ cs)) = c
third _ = 0

abbrev after : ℕ → Option Text → Text
after n none = []
after n (some s) = drop n s

suffix-injective : (a b : JobKind) → suffix a ≡ suffix b → a ≡ b
suffix-injective first_run first_run e = refl
suffix-injective (replay_of d) (replay_of d') e = ap replay_of (ap (after 7) e)
suffix-injective (upgrade n) (upgrade n') e = ap upgrade (show_ℕ-injective n n' (ap (after 8) e))
suffix-injective reconcile reconcile e = refl
suffix-injective _ _ e = absurd (omega (arith, ap third e))

-- For keys that ingestion admits, two jobs with one id have one key and one purpose: BullMQ's
-- suppression of a repeated id never drops another ticket's job, nor another attempt's.
pub job_id-injective :
    (k k' : Text) (a b : JobKind)
    → is_usable_as_job_id k ≡ true
    → is_usable_as_job_id k' ≡ true
    → job_id k a ≡ job_id k' b
    → (k ≡ k') × (a ≡ b)
job_id-injective k k' a b u u' e =
    let (same, kind) =
      join-injective k k' (suffix a) (suffix b) (usable-HasNoColon k u) (usable-HasNoColon k' u')
        (sym (job_id-join k a) ∙ e ∙ job_id-join k' b) in
    (same, suffix-injective a b kind)
