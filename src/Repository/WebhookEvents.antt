-- ===== src/Repository/WebhookEvents.antt =====
-- internal/repository/webhook_events.go.
pub mod Laws
use payment_webhook_processo.Prelude.{
  ℕ, String, Bool, false, Option, none, some, ◌&&◌, ◌==◌, if◌then◌else◌,
}
use payment_webhook_processo.Failure.{
  duplicate_provider_event_id, Error, sentinel, wrap, as_pg_error, Result, ok, err,
}
use payment_webhook_processo.World.{Action, run, pure, ◌>>=◌, ◌>>◌}
use payment_webhook_processo.Metrics.{Metrics, start_database_write_timer, observe_timer}
use payment_webhook_processo.Webhook.Event.{PaymentEvent}
use payment_webhook_processo.Repository.Rows.{NewWebhookEvent}
use payment_webhook_processo.Repository.Postgres.{Postgres}
use payment_webhook_processo.Service.Interfaces.{WebhookEventRepository}

abbrev pub processing_status_pending : String
processing_status_pending = "pending"

abbrev is_unique_violation : Option (String × String) → Bool
is_unique_violation none = false
is_unique_violation (some (code, constraint_name)) =
    code == "23505" && constraint_name == "webhook_events_provider_event_id_key"

unfoldable pub is_duplicate_provider_event_id_error : Error → Bool
unfolding as_pg_error
is_duplicate_provider_event_id_error e = is_unique_violation (as_pg_error e)

abbrev pub inserted : Result ℕ → Result ℕ
inserted (ok id) = ok id
inserted (err e) =
    if is_duplicate_provider_event_id_error e
    then err (sentinel duplicate_provider_event_id)
    else err (wrap "insert webhook event" e)

-- The columns that an event is stored in.
abbrev pub event_columns : PaymentEvent → NewWebhookEvent
event_columns event = record {
  provider_event_id = event.provider_event_id;
  payment_id = event.payment_id;
  event_type = event.event_type;
  event_timestamp = event.event_timestamp;
  raw_payload = event.raw_payload;
  processing_status = processing_status_pending;
}

module _ (pg : Postgres) (metrics : Option Metrics) where
  unfoldable pub insert : PaymentEvent → Action pg.State (Result ℕ)
  unfolding start_database_write_timer observe_timer
  insert event = do
    timer ← start_database_write_timer {L = Unit {0}} metrics "insert_webhook_event"
    result ← run (pg.insert_webhook_event (event_columns event))
    observe_timer timer tt
    pure (inserted result)

-- `NewWebhookEventRepository`, with the method of the type.
abbrev pub new_webhook_event_repository :
    (pg : Postgres) → Option Metrics → WebhookEventRepository pg.State
new_webhook_event_repository pg metrics = record { insert = insert pg metrics }
