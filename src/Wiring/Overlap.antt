-- ===== src/Wiring/Overlap.antt =====
-- Deliveries that overlap in time, over one database. A delivery is `IdempotencyService.Process`
-- with `PaymentProcessor.Process` in it, cut where it goes to the database: it stores the event, it
-- reads the payment's row, and it acts on what it read. Each step sends one statement at most, since
-- an anomaly is recorded only for an event that is then ignored.
pub mod Alone
pub mod Invariants
pub mod Links
pub mod Origins
pub mod Claims
pub mod Failing
pub mod Winners
use payment_webhook_processo.Prelude.{
  ℕ, ◌+◌, String, Bool, true, false, Option, some, List, [], ◌∷◌, ◌≡◌,
}
use payment_webhook_processo.Failure.{Result, ok, err}
use payment_webhook_processo.World.{World, Action, pure, ◌>>=◌, ◌>>◌}
use payment_webhook_processo.Metrics.{
  Metrics, Timer, start_payment_processing_timer, inc_payment_processing, observe_timer,
}
use payment_webhook_processo.Webhook.Event.{PaymentEvent}
use payment_webhook_processo.Repository.Rows.{Payment}
use payment_webhook_processo.Repository.Postgres.{Postgres}
use payment_webhook_processo.Repository.Payments.{get_by_payment_id}
use payment_webhook_processo.Repository.WebhookEvents.{insert}
use payment_webhook_processo.Service.PaymentProcessor.{PaymentUpdate, with_current}
use payment_webhook_processo.Service.Idempotency.{ResultStatus, updated, after_insert}
use payment_webhook_processo.Wiring.{payment_processor, webhook_processor}

-- Where a delivery is, with the variables that are live there.
pub data Delivery : Type 0 where
  arrived : PaymentEvent → Delivery
  stored : PaymentEvent → Result ℕ → Delivery
  has_read : PaymentEvent → ℕ → Timer String → Result Payment → Delivery
  answered : PaymentEvent → Result ResultStatus → Delivery

abbrev pub is_answered : Delivery → Bool
is_answered (answered event r) = true
is_answered (arrived event) = false
is_answered (stored event r) = false
is_answered (has_read event id timer r) = false

module _ (pg : Postgres) (metrics : Option Metrics) (marshal_time : ℕ → Result String) where
  -- `PaymentProcessor.Process` up to its first answer from the database, and from there.
  unfoldable pub begin_update : PaymentUpdate → Action pg.State (Timer String × Result Payment)
  begin_update update = do
    timer ← start_payment_processing_timer metrics (some (λ (label : String). label))
    current ← get_by_payment_id pg metrics update.event.payment_id
    pure (timer, current)

  unfoldable pub finish_update :
      PaymentUpdate → Timer String → Result Payment → Action pg.State (Result ResultStatus)
  finish_update update timer current = do
    return ← with_current (payment_processor pg metrics marshal_time) current update
    inc_payment_processing metrics return.result_status
    observe_timer timer return.result_status
    pure (updated return.error)

  abbrev pub update_of : PaymentEvent → ℕ → PaymentUpdate
  update_of event id = record { event = event; webhook_event_id = id }

  unfoldable pub advance : Delivery → Action pg.State Delivery
  advance (arrived event) = do r ← insert pg metrics event; pure (stored event r)
  advance (stored event (ok id)) = do
    (timer, current) ← begin_update (update_of event id)
    pure (has_read event id timer current)
  advance (stored event (err e)) = do
    r ← after_insert (webhook_processor pg metrics marshal_time) event (err e)
    pure (answered event r)
  advance (has_read event id timer current) = do
    r ← finish_update (update_of event id) timer current
    pure (answered event r)
  advance (answered event r) = pure (answered event r)

  -- One of the deliveries that are not answered goes on.
  pub data Step : List Delivery → World pg.State → List Delivery → World pg.State → Type 0 where
    move :
        {d : Delivery} {ds : List Delivery} {w : World pg.State}
        → is_answered d ≡ false
        → Step (d ∷ ds) w ((advance d w).0 ∷ ds) (advance d w).1
    other :
        {d : Delivery} {ds es : List Delivery} {w v : World pg.State}
        → Step ds w es v
        → Step (d ∷ ds) w (d ∷ es) v

  pub data Steps : List Delivery → World pg.State → List Delivery → World pg.State → Type 0 where
    stop : {ds : List Delivery} {w : World pg.State} → Steps ds w ds w
    step :
        {ds es fs : List Delivery} {w v x : World pg.State}
        → Step ds w es v
        → Steps es v fs x
        → Steps ds w fs x
