-- ===== src/History/OneTicket.antt =====
-- The service's promise: one ticket for each key, and one outbox row for each effect, however often
-- an event is delivered and whatever fails in between.
use triage_engine.Prelude.{
  ℕ, ◌≤◌, Text, text_eq_iff, true, List, [], ◌∷◌, none, some, ◌≡◌, refl, inl, inr, arith,
  count_rows, count_rows-le, find_row, update_rows, find_row-update_rows, if◌then◌else◌,
}
use triage_engine.Config.{EnvVars}
use triage_engine.Idempotency.{has_key}
use triage_engine.Entities.{ticket_has_id, CreateEventDto, EventEntity, TicketEntity, is_enriched}
use triage_engine.Outbox.{DispatchMessage, Dispatched, has_dedup_key}
use triage_engine.Events.Insert.{Draws, event_has_key, new_ticket}
use triage_engine.Events.Create.{create_cases}
use triage_engine.Pipeline.Processor.{EnrichmentOutcome, is_writable, write_outcome}
use triage_engine.History.{
  State, Step, inserts_key, reclaims, creates, completes, fails, loads, persists, drains,
  writes_letters, Run, here, then_step, is_ticket_of, tickets_for, is_attached, empty_db,
}
use triage_engine.History.Invariant.{Run-IsConsistent, empty-IsConsistent, persist_cases}

tickets_for-le :
    (key : Text) (events : List EventEntity) (tickets : List TicketEntity)
    → ((id : Text) → count_rows (is_ticket_of id) tickets ≤ 1)
    → tickets_for key events tickets ≤ count_rows (event_has_key key) events
unfolding tickets_for count_rows
tickets_for-le key [] tickets h = omega arith
tickets_for-le key (e ∷ events) tickets h =
    ground (arith, h e.id, tickets_for-le key events tickets h)

module _ {S : Type 0} (dispatch : DispatchMessage → S → Dispatched × S) (env : EnvVars) where
  -- After any steps of the service, in any order, at most one ticket stems from events under a
  -- key, and at most one outbox row bears a dedup key.
  pub Run-one_ticket :
      (u : State) (key dedup_key : Text)
      → Run dispatch env (record { db = empty_db; reads = [] }) u
      → (tickets_for key u.db.events u.db.tickets ≤ 1)
        × (count_rows (has_dedup_key dedup_key) u.db.outbox_messages ≤ 1)
  Run-one_ticket u key dedup_key r =
      let v = Run-IsConsistent dispatch env r empty-IsConsistent in
      (
        omega (
          arith,
          tickets_for-le key u.db.events u.db.tickets
              (λ id. omega (arith, v.owned id, v.events id)),
          v.attached key,
          count_rows-le (is_attached key) (has_key key) u.db.idempotency_keys (λ r e. ground arith),
          v.keys key,
        ),
        v.effects dedup_key,
      )

-- The ticket's row is there, and ENRICHED.
abbrev pub IsEnriched : (id : Text) → List TicketEntity → Type 0
IsEnriched id tickets =
    (t : TicketEntity) × (find_row (ticket_has_id id) tickets ≡ some t)
    × (is_enriched t.enrichment_status ≡ true)

write_keeps_IsEnriched :
    (id target : Text) (now : ℕ) (outcome : EnrichmentOutcome) (tickets : List TicketEntity)
    → IsEnriched id tickets
    → IsEnriched id
        (update_rows (is_writable target outcome.status) (write_outcome now outcome) tickets)
write_keeps_IsEnriched id target now outcome tickets (t, found, done) = (
  (if is_writable target outcome.status t then write_outcome now outcome t else t),
  find_row-update_rows (ticket_has_id id) (is_writable target outcome.status)
      (write_outcome now outcome) tickets (λ r. refl) t found,
  ground (arith, done),
)

-- A ticket that is inserted under a free id hides no other.
insert_keeps_IsEnriched :
    (id : Text) (dto : CreateEventDto) (draws : Draws) (tickets : List TicketEntity)
    → find_row (ticket_has_id draws.ticket_id) tickets ≡ none
    → IsEnriched id tickets
    → IsEnriched id (new_ticket dto draws ∷ tickets)
unfolding find_row
insert_keeps_IsEnriched id dto draws tickets free (t, found, done) =
    (t, ground (arith, free, found, text_eq_iff draws.ticket_id id), done)

module _ {S : Type 0} (dispatch : DispatchMessage → S → Dispatched × S) (env : EnvVars) where
  Step-IsEnriched :
      {s u : State} (id : Text)
      → Step dispatch env s u
      → IsEnriched id s.db.tickets
      → IsEnriched id u.db.tickets
  Step-IsEnriched id (inserts_key i key h now rows e same) v = rw same v
  Step-IsEnriched id (reclaims key now same) v = rw same v
  Step-IsEnriched {s} id (creates key dto draws ids db e same) v =
      rw same (elim (create_cases key dto draws ids s.db db e) [
        | inl r ↦ rw (r.kept) v
        | inr i ↦ rw (i.added) (insert_keeps_IsEnriched id dto draws s.db.tickets i.ticket_free v)
      ])
  Step-IsEnriched id (completes key ticket_id code body now same) v = rw same v
  Step-IsEnriched id (fails key now same) v = rw same v
  Step-IsEnriched id (loads i ticket e same) v = rw same v
  Step-IsEnriched {s} id (persists m now target prior outcome job db read result e same) v =
      rw same (elim (persist_cases m now target prior outcome job s.db db e) [
        | inl lost ↦ rw lost v
        | inr (rows, done, wrote, won) ↦
            rw wrote (write_keeps_IsEnriched id target now outcome s.db.tickets v)
      ])
  Step-IsEnriched id (drains now random locked outside metrics same) v = rw same v
  Step-IsEnriched id (writes_letters letters same) v = rw same v

  -- A ticket that is ENRICHED stays ENRICHED, whatever jobs, replays and reconciles run later, and
  -- however stale the status that they read.
  pub Run-IsEnriched :
      {s u : State} (id : Text)
      → Run dispatch env s u
      → IsEnriched id s.db.tickets
      → IsEnriched id u.db.tickets
  Run-IsEnriched id here v = v
  Run-IsEnriched id (then_step r st) v = Step-IsEnriched id st (Run-IsEnriched id r v)
