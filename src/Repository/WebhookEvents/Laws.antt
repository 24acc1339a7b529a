-- ===== src/Repository/WebhookEvents/Laws.antt =====
-- What `WebhookEventRepository.Insert` does to the tables, on every branch.
use payment_webhook_processo.Prelude.{
  ℕ, ◌≤◌, String, Bool, true, false, Option, none, some, List, [], ◌∷◌, ◌++◌, ◌||◌, eq_refl, ap,
  ◌≡◌, refl, ◌⊎◌, inl, inr, Bool-cases, eq_iff, arith,
}
use payment_webhook_processo.Failure.{
  duplicate_provider_event_id, Error, sentinel, wrap, is, Result, ok, err, Result-cases,
}
use payment_webhook_processo.World.{World}
use payment_webhook_processo.Metrics.{Metrics}
use payment_webhook_processo.Webhook.Event.{PaymentEvent}
use payment_webhook_processo.Repository.Rows.{WebhookEventRow}
use payment_webhook_processo.Repository.Postgres.{
  Postgres, IsPostgres, Tables, has_event, with_event,
}
use payment_webhook_processo.Repository.WebhookEvents.{
  is_unique_violation, is_duplicate_provider_event_id_error, event_columns, inserted, insert,
}

pub has_event-append :
    (id : String) (rows more : List WebhookEventRow)
    → has_event id (rows ++ more) ≡ (has_event id rows || has_event id more)
has_event-append id [] more = refl
has_event-append id (row ∷ rows) more = ground (arith, has_event-append id rows more)

abbrev pub knows : PaymentEvent → Tables → Bool
knows event t = has_event event.provider_event_id t.webhook_events

unique_violation-eq :
    (o : Option (String × String))
    → is_unique_violation o ≡ true
    → o ≡ some ("23505", "webhook_events_provider_event_id_key")
unique_violation-eq none h = cc
unique_violation-eq (some (code, name)) h =
    ground (arith, eq_iff code "23505", eq_iff name "webhook_events_provider_event_id_key")

pub data Insertion (pg : Postgres) (before after : Tables) (event : PaymentEvent) (r : Result ℕ)
    : Type 0 where
  stored :
      (id : ℕ)
      → knows event before ≡ false
      → after ≡ with_event pg id (event_columns event) before
      → r ≡ ok id
      → Insertion pg before after event r
  duplicate :
      knows event before ≡ true
      → after ≡ before
      → r ≡ err (sentinel duplicate_provider_event_id)
      → Insertion pg before after event r
  unknown :
      (x : Error)
      → is x duplicate_provider_event_id ≡ false
      → (after ≡ before)
        ⊎ ((id : ℕ) × (knows event before ≡ false)
            × (after ≡ with_event pg id (event_columns event) before))
      → r ≡ err x
      → Insertion pg before after event r

-- After a success the event is stored.
pub Insertion_ok :
    {pg : Postgres} {before after : Tables} {event : PaymentEvent} {r : Result ℕ} {n : ℕ}
    → Insertion pg before after event r
    → r ≡ ok n
    → knows event after ≡ true
Insertion_ok {before} {event} (stored id new put _) h =
    rw (ap (λ (t : Tables). t.webhook_events) put, has_event-append)
      (ground (arith, eq_refl event.provider_event_id, new))
Insertion_ok (duplicate _ _ r) h = absurd (cc (r, h))
Insertion_ok (unknown x _ _ r) h = absurd (cc (r, h))

-- A row that holds all that an event says, to be processed.
pub record Holds (event : PaymentEvent) (row : WebhookEventRow) : Type 0 where
  pub provider_event_id : row.event.provider_event_id ≡ event.provider_event_id
  pub payment_id : row.event.payment_id ≡ event.payment_id
  pub event_type : row.event.event_type ≡ event.event_type
  pub event_timestamp : row.event.event_timestamp ≡ event.event_timestamp
  pub raw_payload : row.event.raw_payload ≡ event.raw_payload
  pub processing_status : row.event.processing_status ≡ "pending"

abbrev pub HasRow : PaymentEvent → List WebhookEventRow → Type 0
HasRow event [] = ⊥
HasRow event (row ∷ rows) = Holds event row ⊎ HasRow event rows

pub event_columns-Holds :
    (id : ℕ) (event : PaymentEvent) → Holds event (record { id = id; event = event_columns event })
event_columns-Holds id event = record {
  provider_event_id = refl;
  payment_id = refl;
  event_type = refl;
  event_timestamp = refl;
  raw_payload = refl;
  processing_status = refl;
}

HasRow-last :
    (id : ℕ) (event : PaymentEvent) (rows : List WebhookEventRow)
    → HasRow event (rows ++ record { id = id; event = event_columns event } ∷ [])
HasRow-last id event [] = inl (event_columns-Holds id event)
HasRow-last id event (row ∷ rows) = inr (HasRow-last id event rows)

-- After a success the event is stored, under a provider id that was new.
pub Insertion_new :
    {pg : Postgres} {before after : Tables} {event : PaymentEvent} {r : Result ℕ} {n : ℕ}
    → Insertion pg before after event r
    → r ≡ ok n
    → (knows event before ≡ false) × HasRow event after.webhook_events
Insertion_new {before} {event} (stored id new put _) h =
    (new, rw (ap (λ (t : Tables). t.webhook_events) put) (HasRow-last id event _))
Insertion_new (duplicate _ _ r) h = absurd (cc (r, h))
Insertion_new (unknown x _ _ r) h = absurd (cc (r, h))

inserted-ok : (r : Result ℕ) (n : ℕ) → inserted r ≡ ok n → r ≡ ok n
inserted-ok (ok id) n h = h
inserted-ok (err e) n h = elim (Bool-cases (is_duplicate_provider_event_id_error e)) [
  | inl violated ↦ cc (rw violated at h)
  | inr other ↦ cc (rw other at h)
]

module _ (pg : Postgres) (laws : IsPostgres pg) (metrics : Option Metrics) where
  -- A success stores the event under a provider id that was new. "Duplicate" is reported only of a
  -- provider id that is stored, with nothing changed. After any other error the event is stored or
  -- not, and stored only if its provider id was new.
  pub insert-Insertion :
      (event : PaymentEvent) (w : World pg.State)
      → Insertion pg
          (pg.contents w.database)
          (pg.contents (insert pg metrics event w).1.database)
          event
          (insert pg metrics event w).0
  unfolding insert is_duplicate_provider_event_id_error is
  insert-Insertion event w =
      Result-cases (pg.insert_webhook_event (event_columns event) w.database).0
        (λ id good.
          let (new, put) = laws.insert_event_ok _ w.database id good in
          rw good (stored id new put refl))
        λ e bad. elim (Bool-cases (is_duplicate_provider_event_id_error e)) [
          | inl violated ↦
              let (old, same) =
                laws.insert_event_unique _ w.database e bad (unique_violation-eq _ violated) in
              rw (bad, violated) (duplicate old same refl)
          | inr other ↦
              rw (bad, other)
                (unknown (wrap "insert webhook event" e)
                  (laws.insert_event_foreign _ w.database e bad)
                  (laws.insert_event_err _ w.database e bad) refl)
        ]

  -- The identifier that a success gives is not 0.
  pub insert_id :
      (event : PaymentEvent) (w : World pg.State) (n : ℕ)
      → (insert pg metrics event w).0 ≡ ok n
      → 1 ≤ n
  unfolding insert
  insert_id event w n h =
      laws.insert_event_id (event_columns event) w.database n (inserted-ok _ n h)
