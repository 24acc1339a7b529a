-- ===== src/Service/Idempotency.antt =====
-- internal/service/idempotency.go: an event is stored first; a stored one is a duplicate.
use payment_webhook_processo.Prelude.{ℕ, String, Option, none, some, if◌then◌else◌}
use payment_webhook_processo.Failure.{Error, duplicate_provider_event_id, wrap, is, Result, ok, err}
use payment_webhook_processo.World.{Action, pure, ◌>>=◌, ◌>>◌}
use payment_webhook_processo.Metrics.{Metrics, inc_webhook_duplicate}
use payment_webhook_processo.Webhook.Event.{PaymentEvent}
use payment_webhook_processo.Service.Interfaces.{WebhookEventRepository}
use payment_webhook_processo.Service.PaymentProcessor.{PaymentUpdate}

abbrev pub ResultStatus : Type 0
ResultStatus = String

abbrev pub result_status_processed : ResultStatus
result_status_processed = "processed"

abbrev pub result_status_duplicate : ResultStatus
result_status_duplicate = "duplicate"

abbrev pub PaymentUpdater : Type 0 → Type 0
PaymentUpdater D = PaymentUpdate → Action D (Option Error)

pub record IdempotencyService (D : Type 0) : Type 0 where
  pub repository : WebhookEventRepository D
  pub update_payment : PaymentUpdater D
  pub metrics : Option Metrics

abbrev pub new_idempotency_service :
    {D : Type 0}
    → WebhookEventRepository D
    → PaymentUpdater D
    → Option Metrics
    → IdempotencyService D
new_idempotency_service repository update_payment service_metrics = record {
  repository = repository;
  update_payment = update_payment;
  metrics = service_metrics;
}

abbrev pub updated : Option Error → Result ResultStatus
updated none = ok result_status_processed
updated (some e) = err (wrap "update payment state" e)

module _ {D : Type 0} (s : IdempotencyService D) where
  unfoldable pub after_insert : PaymentEvent → Result ℕ → Action D (Result ResultStatus)
  unfolding inc_webhook_duplicate
  after_insert event (ok id) = do
    failure ← s.update_payment (record { event = event; webhook_event_id = id })
    pure (updated failure)
  after_insert event (err e) =
      if is e duplicate_provider_event_id
      then (do inc_webhook_duplicate s.metrics event.event_type; pure (ok result_status_duplicate))
      else pure (err (wrap "store webhook event" e))

  -- The status of the result; a failure carries the zero `Result` in the source.
  unfoldable pub process : PaymentEvent → Action D (Result ResultStatus)
  unfolding after_insert
  process event = do inserted ← s.repository.insert event; after_insert event inserted
