-- ===== src/Wiring/Overlap/Failing.antt =====
-- Deliveries that overlap and fail, or have found their provider id stored.
use payment_webhook_processo.Prelude.{
  ℕ, ◌+◌, ◌≤◌, String, Bool, not, true, false, Option, none, some, List, [], ◌∷◌, ◌≡◌, refl, ap,
  All, inl, inr, ◌==◌, eq_iff, arith,
}
use payment_webhook_processo.Failure.{Error, duplicate_provider_event_id, is, Result, ok, err}
use payment_webhook_processo.Webhook.Event.{PaymentEvent}
use payment_webhook_processo.Repository.Postgres.{Postgres, Tables, has_event}
use payment_webhook_processo.Repository.WebhookEvents.Laws.{
  has_event-append, Insertion, stored, duplicate, unknown,
}
use payment_webhook_processo.Service.Idempotency.{ResultStatus, updated}
use payment_webhook_processo.Wiring.Overlap.{
  Delivery, update_of, arrived, has_read, answered, begin_update, finish_update, advance, Step,
  move, other, Steps, stop, step,
}
use payment_webhook_processo.Wiring.Overlap
use payment_webhook_processo.Wiring.Overlap.Claims.{
  bit, answer_claim, claim, claims, processed_by, processed_count, arrivals,
}

abbrev pub store_failure : Result ℕ → ℕ
store_failure (ok n) = 0
store_failure (err e) = bit (not (is e duplicate_provider_event_id))

abbrev pub answer_failure : Result ResultStatus → ℕ
answer_failure (ok s) = 0
answer_failure (err e) = 1

-- A delivery that fails, or will.
abbrev pub failure : Delivery → ℕ
failure (arrived event) = 0
failure (Overlap.stored event r) = store_failure r
failure (has_read event n timer r) = 0
failure (answered event r) = answer_failure r

abbrev pub failures : List Delivery → ℕ
failures [] = 0
failures (d ∷ ds) = failure d + failures ds

-- A delivery of the provider id that has tried to store its event.
abbrev pub tried : String → Delivery → ℕ
tried id (arrived event) = 0
tried id (Overlap.stored event r) = bit (event.provider_event_id == id)
tried id (has_read event n timer r) = bit (event.provider_event_id == id)
tried id (answered event r) = bit (event.provider_event_id == id)

abbrev pub delivered : Delivery → PaymentEvent
delivered (arrived event) = event
delivered (Overlap.stored event r) = event
delivered (has_read event n timer r) = event
delivered (answered event r) = event

abbrev pub all_delivered : List Delivery → List PaymentEvent
all_delivered [] = []
all_delivered (d ∷ ds) = delivered d ∷ all_delivered ds

abbrev pub succeeded : Result ResultStatus → Bool
succeeded (ok s) = true
succeeded (err e) = false

abbrev pub has_succeeded : Delivery → Bool
has_succeeded (arrived event) = false
has_succeeded (Overlap.stored event r) = false
has_succeeded (has_read event n timer r) = false
has_succeeded (answered event r) = succeeded r

-- All of them are answered, and none has failed.
abbrev pub AllSucceeded : List Delivery → Type 0
AllSucceeded ds = All (λ (d : Delivery). has_succeeded d ≡ true) ds

pub all_delivered-arrivals : (events : List PaymentEvent) → all_delivered (arrivals events) ≡ events
all_delivered-arrivals [] = refl
all_delivered-arrivals (event ∷ events) = ap (◌∷◌ event) (all_delivered-arrivals events)

pub failures-arrivals : (events : List PaymentEvent) → failures (arrivals events) ≡ 0
failures-arrivals [] = refl
failures-arrivals (event ∷ events) = omega (arith, failures-arrivals events)

-- A delivery that has succeeded has not failed, and claims its id only by its answer.
pub settled :
    (id : String) (d : Delivery)
    → has_succeeded d ≡ true
    → (failure d ≡ 0)
      × (claim id d ≡ processed_by id d)
      × (tried id d ≡ bit ((delivered d).provider_event_id == id))
settled id (arrived event) h = cc
settled id (Overlap.stored event r) h = cc
settled id (has_read event n timer r) h = cc
settled id (answered event (ok s)) h = (refl, refl, refl)
settled id (answered event (err e)) h = cc

pub all_settled :
    (id : String) (ds : List Delivery)
    → AllSucceeded ds
    → (failures ds ≡ 0) × (claims id ds ≡ processed_count id ds)
all_settled id [] h = (refl, refl)
all_settled id (d ∷ ds) (here, there) =
    let (none_failed, same, _) = settled id d here in
    let (rest_failed, rest_same) = all_settled id ds there in
    (omega (arith, none_failed, rest_failed), omega (arith, same, rest_same))

-- Where the provider id becomes known, it is claimed, or the delivery fails; and a delivery that has
-- tried to store it finds it known, or fails.
pub Insertion-mass :
    {pg : Postgres} {before after : Tables} {event : PaymentEvent} {r : Result ℕ}
    → (id : String) → Insertion pg before after event r
    → (bit (has_event id after.webhook_events)
        ≤ claim id (Overlap.stored event r)
          + store_failure r
          + bit (has_event id before.webhook_events))
      × (bit (event.provider_event_id == id)
          ≤ bit (has_event id after.webhook_events) + store_failure r)
      × (bit (has_event id before.webhook_events) ≤ bit (has_event id after.webhook_events))
Insertion-mass {before} {event} id (stored n new put r) =
    rw (r, ap (λ (t : Tables). t.webhook_events) put, has_event-append)
      (ground arith, ground arith, ground arith)
Insertion-mass {event} id (duplicate old same r) =
    rw (r, ap (λ (t : Tables). t.webhook_events) same)
      (ground arith, ground (arith, (eq_iff event.provider_event_id id).0, old), ground arith)
Insertion-mass {event} id (unknown x fails (inl same) r) =
    rw (r, ap (λ (t : Tables). t.webhook_events) same, fails)
      (ground arith, ground arith, ground arith)
Insertion-mass {event} id (unknown x fails (inr (n, new, put)) r) =
    rw (r, ap (λ (t : Tables). t.webhook_events) put, has_event-append, fails)
      (ground arith, ground arith, ground arith)

pub updated-mass :
    (id : String) (event : PaymentEvent) (e : Option Error)
    → bit (event.provider_event_id == id)
      ≤ answer_claim id event (updated e) + answer_failure (updated e)
updated-mass id event none = ground arith
updated-mass id event (some e) = ground arith
