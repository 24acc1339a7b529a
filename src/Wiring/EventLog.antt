-- ===== src/Wiring/EventLog.antt =====
-- The table of events as a log: deliveries only add to its end, and each new event once.
use payment_webhook_processo.Prelude.{ℕ, String, Option, List, [], ◌∷◌, ◌++◌, ◌≡◌, if◌then◌else◌}
use payment_webhook_processo.Failure.{Result}
use payment_webhook_processo.World.{World}
use payment_webhook_processo.Metrics.{Metrics}
use payment_webhook_processo.Webhook.Event.{PaymentEvent}
use payment_webhook_processo.Repository.Rows.{WebhookEventRow}
use payment_webhook_processo.Repository.Postgres.{Postgres, IsPostgres}
use payment_webhook_processo.Repository.WebhookEvents.Laws.{Holds}
use payment_webhook_processo.Wiring.Known.{Ids, with_id}

-- The events whose provider id is new when they come, in order.
abbrev pub new_events : List PaymentEvent → Ids → List PaymentEvent
new_events [] ids = []
new_events (event ∷ events) ids =
    let rest = new_events events (with_id event.provider_event_id ids) in
    (if ids event.provider_event_id then [] else event ∷ []) ++ rest

-- Rows that hold events, one for each, in order.
abbrev pub AllHold : List PaymentEvent → List WebhookEventRow → Type 0
AllHold [] [] = Unit
AllHold [] (row ∷ rows) = ⊥
AllHold (event ∷ events) [] = ⊥
AllHold (event ∷ events) (row ∷ rows) = Holds event row × AllHold events rows

module _ (pg : Postgres) (laws : IsPostgres pg) (metrics : Option Metrics)
    (marshal_time : ℕ → Result String) where
  abbrev Grew : List PaymentEvent → List WebhookEventRow → List WebhookEventRow → Type 0
  Grew new before after =
      (rows : List WebhookEventRow) × (after ≡ before ++ rows) × AllHold new rows
