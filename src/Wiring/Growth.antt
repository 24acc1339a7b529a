-- ===== src/Wiring/Growth.antt =====
-- A delivery only adds measurements: nothing below the handler logs, or takes a measurement back.
use payment_webhook_processo.Prelude.{ℕ, String, Option, refl, inl, inr, Bool-cases}
use payment_webhook_processo.Failure.{duplicate_provider_event_id, is, Result, ok, err}
use payment_webhook_processo.Json.{Json}
use payment_webhook_processo.World.Growth.{Grown-refl, Grown-trans, Grows}
use payment_webhook_processo.Metrics.{
  Metrics, inc_webhook_duplicate, start_database_write_timer, observe_timer,
}
use payment_webhook_processo.Webhook.Event.{PaymentEvent}
use payment_webhook_processo.Repository.Rows.{Payment, Anomaly}
use payment_webhook_processo.Repository.Postgres.{Postgres}
use payment_webhook_processo.Repository.Payments.{get_by_payment_id, upsert}
use payment_webhook_processo.Repository.WebhookEvents.{insert}
use payment_webhook_processo.Repository.Anomalies.{
  record_anomaly, insert_marshalled, marshal_details,
}
use payment_webhook_processo.Service.PaymentProcessor.{PaymentUpdate, update_payment}
use payment_webhook_processo.Service.PaymentProcessor.Growth.{update_payment-Grows}
use payment_webhook_processo.Service.Idempotency.{process, after_insert}
use payment_webhook_processo.Wiring.{payment_processor, webhook_processor}
use payment_webhook_processo.Wiring.Deliveries.{deliver}

module _ (pg : Postgres) (metrics : Option Metrics) (marshal_time : ℕ → Result String) where
  get_by_payment_id-Grows : (id : String) → Grows (get_by_payment_id pg metrics id)
  unfolding get_by_payment_id
  get_by_payment_id-Grows id w = Grown-refl w _ refl refl

  upsert-Grows : (payment : Payment) → Grows (upsert pg metrics payment)
  unfolding upsert start_database_write_timer observe_timer
  upsert-Grows payment w = record { added = _; measured = refl; logged = refl }

  insert-Grows : (event : PaymentEvent) → Grows (insert pg metrics event)
  unfolding insert start_database_write_timer observe_timer
  insert-Grows event w = record { added = _; measured = refl; logged = refl }

  insert_marshalled-Grows :
      (anomaly : Anomaly) (details : Result Json)
      → Grows (insert_marshalled pg metrics marshal_time anomaly details)
  unfolding insert_marshalled
  insert_marshalled-Grows anomaly (err e) w = Grown-refl w _ refl refl
  insert_marshalled-Grows anomaly (ok details) w = Grown-refl w _ refl refl

  record_anomaly-Grows : (a : Anomaly) → Grows (record_anomaly pg metrics marshal_time a)
  unfolding record_anomaly start_database_write_timer observe_timer
  record_anomaly-Grows a w =
      Grown-trans
        (Grown-trans (Grown-refl w _ refl refl)
          (insert_marshalled-Grows a (marshal_details marshal_time a.details) _))
        (record { added = _; measured = refl; logged = refl })

  update-Grows :
      (update : PaymentUpdate)
      → Grows (update_payment (payment_processor pg metrics marshal_time) update)
  update-Grows update =
      update_payment-Grows (payment_processor pg metrics marshal_time) get_by_payment_id-Grows
        upsert-Grows record_anomaly-Grows update

  after_insert-Grows :
      (event : PaymentEvent) (r : Result ℕ)
      → Grows (after_insert (webhook_processor pg metrics marshal_time) event r)
  unfolding after_insert inc_webhook_duplicate
  after_insert-Grows event (ok id) w = update-Grows _ w
  after_insert-Grows event (err e) w = elim (Bool-cases (is e duplicate_provider_event_id)) [
    | inl old ↦ rw old (record { added = _; measured = refl; logged = refl })
    | inr other ↦ rw other (Grown-refl w w refl refl)
  ]

  pub deliver-Grows : (event : PaymentEvent) → Grows (deliver pg metrics marshal_time event)
  unfolding process
  deliver-Grows event w =
      Grown-trans (insert-Grows event w) (after_insert-Grows event (insert pg metrics event w).0 _)
