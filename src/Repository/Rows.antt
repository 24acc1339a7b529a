-- ===== src/Repository/Rows.antt =====
-- The values that the repositories store: `Payment` of internal/repository/payments.go, the
-- anomalies of internal/repository/anomalies.go, and the rows of the tables of
-- internal/db/migrations.go, less the columns that only the database writes.
use payment_webhook_processo.Prelude.{ℕ, String, Option, List}
use payment_webhook_processo.Json.{Json}
use payment_webhook_processo.Webhook.Event.{PaymentStatus}

pub record Payment : Type 0 where
  pub payment_id : String
  pub status : PaymentStatus
  pub status_timestamp : ℕ

abbrev pub AnomalyType : Type 0
AnomalyType = String

abbrev pub anomaly_type_invalid_terminal_transition : AnomalyType
anomaly_type_invalid_terminal_transition = "invalid_terminal_transition"

abbrev pub anomaly_type_stale_event : AnomalyType
anomaly_type_stale_event = "stale_event"

pub record AnomalyDetails : Type 0 where
  pub provider_event_id : String
  pub current_status : PaymentStatus
  pub current_timestamp : ℕ
  pub incoming_status : PaymentStatus
  pub incoming_timestamp : ℕ

pub record Anomaly : Type 0 where
  pub webhook_event_id : ℕ
  pub payment_id : String
  pub anomaly_type : AnomalyType
  pub details : AnomalyDetails

-- The columns of an INSERT INTO webhook_events.
pub record NewWebhookEvent : Type 0 where
  pub provider_event_id : String
  pub payment_id : String
  pub event_type : String
  pub event_timestamp : ℕ
  pub raw_payload : List ℕ
  pub processing_status : String

pub record WebhookEventRow : Type 0 where
  pub id : ℕ
  pub event : NewWebhookEvent

-- The columns of an INSERT INTO anomalies; an absent id is NULL.
pub record AnomalyRow : Type 0 where
  pub webhook_event_id : Option ℕ
  pub payment_id : String
  pub anomaly_type : AnomalyType
  pub details : Json
