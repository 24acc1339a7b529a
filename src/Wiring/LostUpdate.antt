-- ===== src/Wiring/LostUpdate.antt =====
-- An event that was stored, and whose payment could not be updated, is a duplicate from then on.
use payment_webhook_processo.Prelude.{ℕ, String, Option, some, List, ◌≡◌, ◌≢◌, refl, ap}
use payment_webhook_processo.Failure.{Error, wrap, Result, ok, err}
use payment_webhook_processo.World.{World}
use payment_webhook_processo.Metrics.{Metrics}
use payment_webhook_processo.Webhook.Event.{PaymentEvent}
use payment_webhook_processo.Repository.Postgres.{Postgres, IsPostgres, Tables}
use payment_webhook_processo.Repository.WebhookEvents.{insert}
use payment_webhook_processo.Repository.WebhookEvents.Laws.{insert-Insertion, Insertion_ok}
use payment_webhook_processo.Service.PaymentProcessor.{update_payment}
use payment_webhook_processo.Service.Idempotency.{process, after_insert}
use payment_webhook_processo.Wiring.{payment_processor}
use payment_webhook_processo.Wiring.Contracts.{payments_of}
use payment_webhook_processo.Wiring.Deliveries.{deliver, deliver-events, redelivery}
use payment_webhook_processo.Wiring.Histories.{deliver_all, deliver_all-keeps}

module _ (pg : Postgres) (laws : IsPostgres pg) (metrics : Option Metrics)
    (marshal_time : ℕ → Result String) where
  -- If an event is stored and then its payment's update fails, the delivery fails; and whatever is
  -- delivered after that, a redelivery of the event leaves every payment as it is, and is not
  -- answered "processed". So a retry of the provider never makes up for the lost update.
  pub lost_update :
      (event : PaymentEvent) (w : World pg.State) (between : List PaymentEvent) (n : ℕ) (x : Error)
      → (insert pg metrics event w).0 ≡ ok n
      → (update_payment
          (payment_processor pg metrics marshal_time)
          (record { event = event; webhook_event_id = n })
          (insert pg metrics event w).1).0
        ≡ some x
      → ((deliver pg metrics marshal_time event w).0 ≡ err (wrap "update payment state" x))
        × (payments_of pg
              (deliver pg metrics marshal_time event (
                deliver_all pg laws metrics marshal_time between
                  (deliver pg metrics marshal_time event w).1)).1.database
            ≡ payments_of pg
                (deliver_all pg laws metrics marshal_time between
                  (deliver pg metrics marshal_time event w).1).database)
        × ((deliver pg metrics marshal_time event (
              deliver_all pg laws metrics marshal_time between
                (deliver pg metrics marshal_time event w).1)).0
            ≢ ok "processed")
  unfolding process
  lost_update event w between n x stored failed =
      let known = Insertion_ok (insert-Insertion pg laws metrics event w) stored in
      let w1 = (deliver pg metrics marshal_time event w).1 in
      let kept =
        deliver_all-keeps pg laws metrics marshal_time between w1 event.provider_event_id
          (rw (deliver-events pg laws metrics marshal_time event w) known) in
      let (same, answer) = redelivery pg laws metrics marshal_time event _ kept in
      (rw (stored, after_insert, failed) refl, ap (λ (t : Tables). t.payments) same, answer)
