-- ===== src/Repository/Postgres.antt =====
-- PostgreSQL as the repositories use it: one operation for each SQL statement that they send, over
-- a state that is not known. `contents` reads the three tables off a state; the program has no such
-- operation. The laws are those of the statements' SQL under the schema of internal/db/migrations.go
-- (the keys, the UNIQUE column, and bigserial, which counts from 1), and of timestamptz, which keeps a
-- payment's instant at its own precision; the row of an event holds the values that its INSERT gives.
-- The driver's errors are not the program's own sentinels.
-- A statement that reports an error may have failed, or have been carried out with its answer lost.
use payment_webhook_processo.Prelude.{
  ℕ, ◌≤◌, String, Bool, true, false, Option, none, some, List, [], ◌∷◌, ◌++◌, ◌≡◌, ◌⊎◌, ◌||◌, ◌==◌,
  if◌then◌else◌,
}
use payment_webhook_processo.Failure.{
  payment_not_found, duplicate_provider_event_id, Error, is, Result, ok, err, is_no_rows,
  as_pg_error,
}
use payment_webhook_processo.Repository.Rows.{Payment, NewWebhookEvent, WebhookEventRow, AnomalyRow}

pub record Tables : Type 0 where
  pub payments : String → Option Payment
  pub webhook_events : List WebhookEventRow
  pub anomalies : List AnomalyRow

abbrev pub has_event : String → List WebhookEventRow → Bool
has_event provider_event_id [] = false
has_event provider_event_id (row ∷ rows) =
    row.event.provider_event_id == provider_event_id || has_event provider_event_id rows

abbrev pub put : (String → Option Payment) → Payment → String → Option Payment
put payments p id = if p.payment_id == id then some p else payments id

pub record Postgres : Type 1 where
  pub State : Type 0
  pub contents : State → Tables
  pub stored_time : ℕ → ℕ
  pub select_payment : String → State → Result Payment × State
  pub upsert_payment : Payment → State → Result (Unit {0}) × State
  pub insert_webhook_event : NewWebhookEvent → State → Result ℕ × State
  pub insert_anomaly : AnomalyRow → State → Result (Unit {0}) × State

module _ (pg : Postgres) where
  open pg use {State, contents, stored_time}

  abbrev pub stored : Payment → Payment
  stored p = record p { status_timestamp = stored_time p.status_timestamp }

  abbrev pub with_payment : Payment → Tables → Tables
  with_payment p t = record t { payments = put t.payments (stored p) }

  abbrev pub with_event : ℕ → NewWebhookEvent → Tables → Tables
  with_event id e t = record t {
    webhook_events = t.webhook_events ++ record { id = id; event = e } ∷ [];
  }

  abbrev pub with_anomaly : AnomalyRow → Tables → Tables
  with_anomaly a t = record t { anomalies = t.anomalies ++ a ∷ [] }

  pub record IsPostgres : Type 0 where
    pub stored_time_mono : (a b : ℕ) → a ≤ b → stored_time a ≤ stored_time b
    pub payments_stored :
        (s : State) (id : String) (p : Payment)
        → (contents s).payments id ≡ some p
        → (p.payment_id ≡ id) × (stored_time p.status_timestamp ≡ p.status_timestamp)
    pub select_keeps : (id : String) (s : State) → contents (pg.select_payment id s).1 ≡ contents s
    pub select_ok :
        (id : String) (s : State) (p : Payment)
        → (pg.select_payment id s).0 ≡ ok p
        → (contents s).payments id ≡ some p
    pub select_no_rows :
        (id : String) (s : State) (e : Error)
        → (pg.select_payment id s).0 ≡ err e
        → is_no_rows e ≡ true
        → (contents s).payments id ≡ none
    pub select_foreign :
        (id : String) (s : State) (e : Error)
        → (pg.select_payment id s).0 ≡ err e
        → is e payment_not_found ≡ false
    pub upsert_ok :
        (p : Payment) (s : State)
        → (pg.upsert_payment p s).0 ≡ ok tt
        → contents (pg.upsert_payment p s).1 ≡ with_payment p (contents s)
    pub upsert_err :
        (p : Payment) (s : State) (e : Error)
        → (pg.upsert_payment p s).0 ≡ err e
        → (contents (pg.upsert_payment p s).1 ≡ contents s)
          ⊎ (contents (pg.upsert_payment p s).1 ≡ with_payment p (contents s))
    pub insert_event_ok :
        (e : NewWebhookEvent) (s : State) (id : ℕ)
        → (pg.insert_webhook_event e s).0 ≡ ok id
        → (has_event e.provider_event_id (contents s).webhook_events ≡ false)
          × (contents (pg.insert_webhook_event e s).1 ≡ with_event id e (contents s))
    pub insert_event_id :
        (e : NewWebhookEvent) (s : State) (id : ℕ)
        → (pg.insert_webhook_event e s).0 ≡ ok id
        → 1 ≤ id
    pub insert_event_err :
        (e : NewWebhookEvent) (s : State) (x : Error)
        → (pg.insert_webhook_event e s).0 ≡ err x
        → (contents (pg.insert_webhook_event e s).1 ≡ contents s)
          ⊎ ((id : ℕ) × (has_event e.provider_event_id (contents s).webhook_events ≡ false)
              × (contents (pg.insert_webhook_event e s).1 ≡ with_event id e (contents s)))
    pub insert_event_unique :
        (e : NewWebhookEvent) (s : State) (x : Error)
        → (pg.insert_webhook_event e s).0 ≡ err x
        → as_pg_error x ≡ some ("23505", "webhook_events_provider_event_id_key")
        → (has_event e.provider_event_id (contents s).webhook_events ≡ true)
          × (contents (pg.insert_webhook_event e s).1 ≡ contents s)
    pub insert_event_foreign :
        (e : NewWebhookEvent) (s : State) (x : Error)
        → (pg.insert_webhook_event e s).0 ≡ err x
        → is x duplicate_provider_event_id ≡ false
    pub insert_anomaly_ok :
        (a : AnomalyRow) (s : State)
        → (pg.insert_anomaly a s).0 ≡ ok tt
        → contents (pg.insert_anomaly a s).1 ≡ with_anomaly a (contents s)
    pub insert_anomaly_err :
        (a : AnomalyRow) (s : State) (e : Error)
        → (pg.insert_anomaly a s).0 ≡ err e
        → (contents (pg.insert_anomaly a s).1 ≡ contents s)
          ⊎ (contents (pg.insert_anomaly a s).1 ≡ with_anomaly a (contents s))
