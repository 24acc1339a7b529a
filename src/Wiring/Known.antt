-- ===== src/Wiring/Known.antt =====
-- The stored events as the set of their provider ids: the order of the rows, and all that they hold
-- besides, is forgotten.
use mathlib.Core.Path.{fun_ext}
use payment_webhook_processo.Prelude.{
  ℕ, String, Bool, false, Option, List, [], ◌∷◌, ◌≡◌, refl, ap, ◌∙◌, ◌||◌, ◌==◌, eq_iff, arith,
}
use payment_webhook_processo.Failure.{Result, ok}
use payment_webhook_processo.World.{World}
use payment_webhook_processo.Metrics.{Metrics}
use payment_webhook_processo.Webhook.Event.{PaymentEvent}
use payment_webhook_processo.Repository.Postgres.{Postgres, IsPostgres, Tables, has_event}
use payment_webhook_processo.Repository.WebhookEvents.Laws.{
  has_event-append, Insertion, stored, duplicate, unknown, insert-Insertion,
}
use payment_webhook_processo.Service.Idempotency.{ResultStatus, process, after_insert}
use payment_webhook_processo.Wiring.{webhook_processor}
use payment_webhook_processo.Wiring.Contracts.{events_of}
use payment_webhook_processo.Wiring.Deliveries.{deliver, deliver-events}
use payment_webhook_processo.Wiring.Histories.{deliver_all}
use payment_webhook_processo.Wiring.Serving.{after_insert_unknown}

-- A set of provider ids.
abbrev pub Ids : Type 0
Ids = String → Bool

abbrev pub with_id : String → Ids → Ids
with_id provider_event_id ids id = ids id || provider_event_id == id

abbrev pub with_ids : List PaymentEvent → Ids → Ids
with_ids [] ids = ids
with_ids (event ∷ events) ids = with_ids events (with_id event.provider_event_id ids)

abbrev pub is_delivered : String → List PaymentEvent → Bool
is_delivered id [] = false
is_delivered id (event ∷ events) = event.provider_event_id == id || is_delivered id events

with_ids-is_delivered :
    (events : List PaymentEvent) (ids : Ids) (id : String)
    → with_ids events ids id ≡ (ids id || is_delivered id events)
with_ids-is_delivered [] ids id = ground arith
with_ids-is_delivered (event ∷ events) ids id =
    ground (arith, with_ids-is_delivered events (with_id event.provider_event_id ids) id)

module _ (pg : Postgres) (laws : IsPostgres pg) (metrics : Option Metrics)
    (marshal_time : ℕ → Result String) where
  abbrev pub known_ids : World pg.State → Ids
  known_ids w id = has_event id (events_of pg w.database)

  -- None of the deliveries fails.
  abbrev pub AllAnswered : List PaymentEvent → World pg.State → Type 0
  AllAnswered [] w = Unit
  AllAnswered (event ∷ events) w =
      ((status : ResultStatus) × ((deliver pg metrics marshal_time event w).0 ≡ ok status))
      × AllAnswered events (deliver pg metrics marshal_time event w).1

  Insertion-known :
      (event : PaymentEvent) (before after : Tables) (r : Result ℕ) (w : World pg.State)
      (id : String) {status : ResultStatus}
      → Insertion pg before after event r
      → (after_insert (webhook_processor pg metrics marshal_time) event r w).0 ≡ ok status
      → has_event id after.webhook_events
        ≡ (has_event id before.webhook_events || event.provider_event_id == id)
  Insertion-known event before after r w id (stored n new put is_ok) h =
      rw (ap (λ (t : Tables). t.webhook_events) put, has_event-append) (ground arith)
  Insertion-known event before after r w id (duplicate old same is_err) h =
      rw same (ground (arith, (eq_iff event.provider_event_id id).0, old))
  Insertion-known event before after r w id (unknown x other _ is_err) h =
      absurd (after_insert_unknown pg laws metrics marshal_time event x w other (rw is_err at h))

  pub deliver-known :
      (event : PaymentEvent) (w : World pg.State) (status : ResultStatus)
      → (deliver pg metrics marshal_time event w).0 ≡ ok status
      → known_ids (deliver pg metrics marshal_time event w).1
        ≡ with_id event.provider_event_id (known_ids w)
  unfolding process
  deliver-known event w status h = fun_ext (λ id.
      rw (deliver-events pg laws metrics marshal_time event w)
        (Insertion-known event _ _ _ _ id (insert-Insertion pg laws metrics event w) h))

  deliver_all-with_ids :
      (events : List PaymentEvent) (w : World pg.State)
      → AllAnswered events w
      → known_ids (deliver_all pg laws metrics marshal_time events w)
        ≡ with_ids events (known_ids w)
  unfolding deliver_all
  deliver_all-with_ids [] w answered = refl
  deliver_all-with_ids (event ∷ events) w ((status, ok_status), answered) =
      deliver_all-with_ids events _ answered
      ∙ ap (with_ids events) (deliver-known event w status ok_status)

  -- If none of the deliveries fails, then a provider id is stored after them exactly when it was
  -- stored before, or one of the events delivered has it.
  pub deliver_all-known_ids :
      (events : List PaymentEvent) (w : World pg.State) (id : String)
      → AllAnswered events w
      → known_ids (deliver_all pg laws metrics marshal_time events w) id
        ≡ (known_ids w id || is_delivered id events)
  deliver_all-known_ids events w id answered =
      ap (λ (ids : Ids). ids id) (deliver_all-with_ids events w answered)
      ∙ with_ids-is_delivered events (known_ids w) id
