-- ===== src/History/Kept.antt =====
-- What a run of the promise keeps of the statuses and the announcements.
use triage_engine.Prelude.{
  Text, text_eq, text_eq_iff, true, some, ◌≡◌, refl, sym, ◌∙◌, ap, ◌⊎◌, inl, inr, arith, Bool-cases,
}
use triage_engine.Entities.{EnrichmentStatus, is_enriched}
use triage_engine.History.{IsResult}
use triage_engine.History.Effects.{triaged_key, upgraded_key}
use triage_engine.History.Promise.{
  Promise, Settles, Opens, PromiseStep, rests, opens, settles, PromiseRun, here, then_step,
}

-- The ticket is settled: ENRICHED or DEGRADED.
abbrev pub IsSettledIn : Promise → (id : Text) → Type 0
IsSettledIn p id = (status : EnrichmentStatus) × (p.status id ≡ some status) × IsResult status

-- From `p` on: ENRICHED stays, a settled ticket stays settled, an announcement stays, and a new one is
-- of a ticket that is settled by then.
pub record Keeps (p p' : Promise) : Type 0 where
  pub enriched :
      (id : Text)
      → p.status id ≡ some EnrichmentStatus.enriched
      → p'.status id ≡ some EnrichmentStatus.enriched
  pub settled : (id : Text) → IsSettledIn p id → IsSettledIn p' id
  pub announced : (key : Text) → p.announced key ≡ true → p'.announced key ≡ true
  pub owned :
      (key : Text)
      → p'.announced key ≡ true
      → (p.announced key ≡ true)
        ⊎ ((id : Text) × IsSettledIn p' id × ((key ≡ triaged_key id) ⊎ (key ≡ upgraded_key id)))

-- Where statuses are the same, what is settled is too.
same_settled :
    (p p' : Promise) (id : Text) → p'.status id ≡ p.status id → IsSettledIn p id → IsSettledIn p' id
same_settled p p' id same (status, was, result) = (status, same ∙ was, result)

settled_enriched :
    (status : EnrichmentStatus) → is_enriched status ≡ true → status ≡ EnrichmentStatus.enriched
settled_enriched EnrichmentStatus.pending h = cc
settled_enriched EnrichmentStatus.enriched h = refl
settled_enriched EnrichmentStatus.degraded h = cc
settled_enriched EnrichmentStatus.failed h = cc

Keeps-refl : (p : Promise) → Keeps p p
Keeps-refl p = record {
  enriched = λ id h. h;
  settled = λ id h. h;
  announced = λ key h. h;
  owned = λ key h. inl h;
}

Settles-Keeps : (p p' : Promise) (id : Text) → Settles id p p' → Keeps p p'
Settles-Keeps p p' id s = record {
  enriched = λ other h. elim (Bool-cases (text_eq other id)) [
    | inr differs ↦ s.others other (λ e. ground (arith, differs, e, text_eq_iff other id)) ∙ h
    | inl same ↦
        let e : other ≡ id = ground (arith, same, text_eq_iff other id) in
        let before : s.before ≡ EnrichmentStatus.enriched = ground (arith, s.was, rw e at h) in
        ap p'.status e ∙ s.is ∙ ap some (settled_enriched s.after (s.forward (rw before refl)))
  ];
  settled = λ other h. elim (Bool-cases (text_eq other id)) [
    | inr differs ↦
        same_settled p p' other
          (s.others other (λ e. ground (arith, differs, e, text_eq_iff other id))) h
    | inl same ↦
        let e : other ≡ id = ground (arith, same, text_eq_iff other id) in
        (s.after, ap p'.status e ∙ s.is, s.settled)
  ];
  announced = s.kept;
  owned = λ key h. elim (s.own key h) [
    | inl old ↦ inl old
    | inr which ↦ inr (id, (s.after, s.is, s.settled), which)
  ];
}

Opens-Keeps : (p p' : Promise) (id : Text) → Opens id p p' → Keeps p p'
Opens-Keeps p p' id o =
    let other_id =
      λ (other : Text) (status : EnrichmentStatus) (h : p.status other ≡ some status)
          (e : other ≡ id).
        absurd (ground (arith, o.was, rw e at h)) in
    record {
      enriched = λ other h. o.others other (other_id other EnrichmentStatus.enriched h) ∙ h;
      settled = λ other h. same_settled p p' other (o.others other (other_id other h.0 h.1)) h;
      announced = λ key h. o.announced key ∙ h;
      owned = λ key h. inl (sym (o.announced key) ∙ h);
    }

PromiseStep-Keeps : {p p' : Promise} → PromiseStep p p' → Keeps p p'
PromiseStep-Keeps {p} {p'} (rests statuses announcements) = record {
  enriched = λ id h. statuses id ∙ h;
  settled = λ id h. same_settled p p' id (statuses id) h;
  announced = λ key h. announcements key ∙ h;
  owned = λ key h. inl (sym (announcements key) ∙ h);
}
PromiseStep-Keeps {p} {p'} (opens id o) = Opens-Keeps p p' id o
PromiseStep-Keeps {p} {p'} (settles id s) = Settles-Keeps p p' id s

Keeps-trans : {p q r : Promise} → Keeps p q → Keeps q r → Keeps p r
Keeps-trans k l = record {
  enriched = λ id h. l.enriched id (k.enriched id h);
  settled = λ id h. l.settled id (k.settled id h);
  announced = λ key h. l.announced key (k.announced key h);
  owned = λ key h. elim (l.owned key h) [
    | inr mine ↦ inr mine
    | inl before ↦ elim (k.owned key before) [
      | inl old ↦ inl old
      | inr (id, settled, which) ↦ inr (id, l.settled id settled, which)
    ]
  ];
}

pub PromiseRun-Keeps : {p r : Promise} → PromiseRun p r → Keeps p r
PromiseRun-Keeps {p} here = Keeps-refl p
PromiseRun-Keeps (then_step run st) = Keeps-trans (PromiseRun-Keeps run) (PromiseStep-Keeps st)
