-- ===== src/Service/Interfaces.antt =====
-- The interfaces that the services take: `WebhookEventRepository` of internal/service/idempotency.go,
-- `PaymentStateRepository` of payment_processor.go, `AnomalyRecorder` of anomaly.go; and what the
-- services' theorems suppose of them.
use payment_webhook_processo.Prelude.{ℕ, ◌≤◌, String, true, Option, none, some, ◌≡◌, ◌⊎◌}
use payment_webhook_processo.Failure.{Error, payment_not_found, is, Result, ok, err}
use payment_webhook_processo.World.{World, Action}
use payment_webhook_processo.Webhook.Event.{PaymentEvent}
use payment_webhook_processo.Repository.Rows.{Payment, Anomaly}
use payment_webhook_processo.Repository.Postgres.{put}

pub record WebhookEventRepository (D : Type 0) : Type 0 where
  pub insert : PaymentEvent → Action D (Result ℕ)

pub record PaymentStateRepository (D : Type 0) : Type 0 where
  pub get_by_payment_id : String → Action D (Result Payment)
  pub upsert : Payment → Action D (Result (Unit {0}))

pub record AnomalyRecorder (D : Type 0) : Type 0 where
  pub record_anomaly : Anomaly → Action D (Result (Unit {0}))

-- A payment as it is read back: instants are kept at the store's precision.
abbrev pub at_precision : (ℕ → ℕ) → Payment → Payment
at_precision stored_time p = record p { status_timestamp = stored_time p.status_timestamp }

-- How a repository keeps payments: `rows` is the table that a state holds.
pub record KeepsPayments {D : Type 0} (repository : PaymentStateRepository D)
    (rows : D → String → Option Payment) (stored_time : ℕ → ℕ) : Type 0 where
  pub stored_time_mono : (a b : ℕ) → a ≤ b → stored_time a ≤ stored_time b
  pub rows_stored :
      (d : D) (id : String) (p : Payment)
      → rows d id ≡ some p
      → (p.payment_id ≡ id) × (stored_time p.status_timestamp ≡ p.status_timestamp)
  pub get_keeps :
      (id : String) (w : World D)
      → rows (repository.get_by_payment_id id w).1.database ≡ rows w.database
  pub get_ok :
      (id : String) (w : World D) (p : Payment)
      → (repository.get_by_payment_id id w).0 ≡ ok p
      → rows w.database id ≡ some p
  pub get_not_found :
      (id : String) (w : World D) (e : Error)
      → (repository.get_by_payment_id id w).0 ≡ err e
      → is e payment_not_found ≡ true
      → rows w.database id ≡ none
  pub upsert_ok :
      (p : Payment) (w : World D)
      → (repository.upsert p w).0 ≡ ok tt
      → rows (repository.upsert p w).1.database ≡ put (rows w.database) (at_precision stored_time p)
  pub upsert_err :
      (p : Payment) (w : World D) (e : Error)
      → (repository.upsert p w).0 ≡ err e
      → (rows (repository.upsert p w).1.database ≡ rows w.database)
        ⊎ (rows (repository.upsert p w).1.database
            ≡ put (rows w.database) (at_precision stored_time p))

-- Recording anomalies leaves a part of the state alone; a nil recorder does nothing.
abbrev pub RecorderKeeps : {D X : Type 0} → (D → X) → Option (AnomalyRecorder D) → Type 0
RecorderKeeps view none = Unit
RecorderKeeps {D} view (some r) =
    (a : Anomaly) (w : World D) → view (r.record_anomaly a w).1.database ≡ view w.database
