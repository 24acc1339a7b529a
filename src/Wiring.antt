-- ===== src/Wiring.antt =====
-- cmd/server/main.go: how the repositories and the services are put together.
pub mod Contracts
pub mod Deliveries
pub mod Histories
pub mod LostUpdate
pub mod Growth
pub mod Startup
pub mod Lifecycle
pub mod Overlap
pub mod Serving
pub mod Served
pub mod Known
pub mod EventLog
use payment_webhook_processo.Prelude.{ℕ, String, Option, some}
use payment_webhook_processo.Failure.{Result}
use payment_webhook_processo.Metrics.{Metrics}
use payment_webhook_processo.Repository.Postgres.{Postgres}
use payment_webhook_processo.Repository.Payments.{new_payment_repository}
use payment_webhook_processo.Repository.WebhookEvents.{new_webhook_event_repository}
use payment_webhook_processo.Repository.Anomalies.{new_anomaly_repository}
use payment_webhook_processo.Service.Interfaces.{
  WebhookEventRepository, PaymentStateRepository, AnomalyRecorder,
}
use payment_webhook_processo.Service.PaymentProcessor.{
  PaymentProcessor, new_payment_processor, update_payment,
}
use payment_webhook_processo.Service.Idempotency.{IdempotencyService, new_idempotency_service}

module _ (pg : Postgres) (metrics : Option Metrics) (marshal_time : ℕ → Result String) where
  abbrev pub webhook_event_repository : WebhookEventRepository pg.State
  webhook_event_repository = new_webhook_event_repository pg metrics

  abbrev pub payment_repository : PaymentStateRepository pg.State
  payment_repository = new_payment_repository pg metrics

  abbrev pub anomaly_repository : AnomalyRecorder pg.State
  anomaly_repository = new_anomaly_repository pg metrics marshal_time

  abbrev pub payment_processor : PaymentProcessor pg.State
  payment_processor = new_payment_processor payment_repository (some anomaly_repository) metrics

  abbrev pub webhook_processor : IdempotencyService pg.State
  webhook_processor =
      new_idempotency_service webhook_event_repository (update_payment payment_processor) metrics
