-- ===== src/Wiring/Overlap/Alone.antt =====
-- A delivery that runs alone.
use payment_webhook_processo.Prelude.{ℕ, String, Option, [], ◌∷◌, refl}
use payment_webhook_processo.Failure.{Result, ok, err}
use payment_webhook_processo.World.{World}
use payment_webhook_processo.Metrics.{Metrics}
use payment_webhook_processo.Webhook.Event.{PaymentEvent}
use payment_webhook_processo.Repository.Postgres.{Postgres}
use payment_webhook_processo.Service.PaymentProcessor.{update_payment, body}
use payment_webhook_processo.Service.PaymentProcessor as Processor
use payment_webhook_processo.Service.Idempotency.{process, after_insert}
use payment_webhook_processo.Wiring.{webhook_processor}
use payment_webhook_processo.Wiring.Deliveries.{deliver}
use payment_webhook_processo.Wiring.Overlap.{
  arrived, stored, answered, begin_update, finish_update, advance, move, Steps, stop, step,
}

module _ (pg : Postgres) (metrics : Option Metrics) (marshal_time : ℕ → Result String) where
  -- What is left to do after the event was stored or refused.
  after_insert-Steps :
      (event : PaymentEvent) (r : Result ℕ) (w : World pg.State)
      → Steps pg metrics marshal_time
          (stored event r ∷ [])
          w
          (answered event (after_insert (webhook_processor pg metrics marshal_time) event r w).0
            ∷ [])
          (after_insert (webhook_processor pg metrics marshal_time) event r w).1
  unfolding advance begin_update finish_update after_insert update_payment Processor.process body
  after_insert-Steps event (err e) w = step (move refl) stop
  after_insert-Steps event (ok id) w = step (move refl) (step (move refl) stop)

  -- A delivery whose steps follow one another with no other in between does what
  -- `IdempotencyService.Process` does, and answers so.
  pub alone-Steps :
      (event : PaymentEvent) (w : World pg.State)
      → Steps pg metrics marshal_time
          (arrived event ∷ [])
          w
          (answered event (deliver pg metrics marshal_time event w).0 ∷ [])
          (deliver pg metrics marshal_time event w).1
  unfolding advance process
  alone-Steps event w = step (move refl) (after_insert-Steps event _ _)
