-- ===== src/Wiring/Overlap/Claims.antt =====
-- How many deliveries of one provider id go on to the payment, when deliveries overlap.
use payment_webhook_processo.Prelude.{
  ℕ, ◌+◌, ◌≤◌, String, Bool, true, false, Option, none, some, List, [], ◌∷◌, ◌≡◌, ◌≢◌, refl, ap,
  inl, inr, Bool-cases, ◌&&◌, ◌==◌, eq_iff, if◌then◌else◌, arith,
}
use payment_webhook_processo.Failure.{Error, Result, ok, err}
use payment_webhook_processo.World.{World}
use payment_webhook_processo.Metrics.{
  Metrics, start_payment_processing_timer, inc_payment_processing, observe_timer,
}
use payment_webhook_processo.Webhook.Event.{PaymentEvent}
use payment_webhook_processo.Repository.Rows.{WebhookEventRow}
use payment_webhook_processo.Repository.Postgres.{Postgres, IsPostgres, Tables, has_event}
use payment_webhook_processo.Repository.WebhookEvents.Laws.{
  has_event-append, Insertion, stored, duplicate, unknown, insert-Insertion,
}
use payment_webhook_processo.Service.Idempotency.{ResultStatus, updated}
use payment_webhook_processo.Wiring.Contracts.{
  events_of, with_current-events, get_by_payment_id-events,
}
use payment_webhook_processo.Wiring.Deliveries.{after_insert-failed}
use payment_webhook_processo.Wiring.Overlap.{
  Delivery, update_of, arrived, has_read, answered, begin_update, finish_update, advance, Step,
  move, other, Steps, stop, step,
}
use payment_webhook_processo.Wiring.Overlap

abbrev pub bit : Bool → ℕ
bit b = if b then 1 else 0

abbrev pub answer_claim : String → PaymentEvent → Result ResultStatus → ℕ
answer_claim id event (ok s) = bit (event.provider_event_id == id && s == "processed")
answer_claim id event (err e) = 0

abbrev stored_claim : String → PaymentEvent → Result ℕ → ℕ
stored_claim id event (ok n) = bit (event.provider_event_id == id)
stored_claim id event (err e) = 0

-- A delivery claims its provider id from the time that its event is stored, until it fails.
abbrev pub claim : String → Delivery → ℕ
claim id (arrived event) = 0
claim id (Overlap.stored event r) = stored_claim id event r
claim id (has_read event n timer r) = bit (event.provider_event_id == id)
claim id (answered event r) = answer_claim id event r

abbrev pub claims : String → List Delivery → ℕ
claims id [] = 0
claims id (d ∷ ds) = claim id d + claims id ds

abbrev pub processed_by : String → Delivery → ℕ
processed_by id (arrived event) = 0
processed_by id (Overlap.stored event r) = 0
processed_by id (has_read event n timer r) = 0
processed_by id (answered event r) = answer_claim id event r

-- The answers "processed" to deliveries of a provider id.
abbrev pub processed_count : String → List Delivery → ℕ
processed_count id [] = 0
processed_count id (d ∷ ds) = processed_by id d + processed_count id ds

abbrev pub arrivals : List PaymentEvent → List Delivery
arrivals [] = []
arrivals (event ∷ events) = arrived event ∷ arrivals events

processed_by-claim : (id : String) (d : Delivery) → processed_by id d ≤ claim id d
processed_by-claim id (arrived event) = omega arith
processed_by-claim id (Overlap.stored event r) = omega arith
processed_by-claim id (has_read event n timer r) = omega arith
processed_by-claim id (answered event r) = omega arith

processed_count-claims : (id : String) (ds : List Delivery) → processed_count id ds ≤ claims id ds
processed_count-claims id [] = omega arith
processed_count-claims id (d ∷ ds) =
    omega (arith, processed_by-claim id d, processed_count-claims id ds)

pub claims-arrivals : (id : String) (events : List PaymentEvent) → claims id (arrivals events) ≡ 0
claims-arrivals id [] = refl
claims-arrivals id (event ∷ events) = omega (arith, claims-arrivals id events)

-- The provider id is claimed only where it becomes known.
Insertion-claim :
    {pg : Postgres} {before after : Tables} {event : PaymentEvent} {r : Result ℕ}
    → (id : String) → Insertion pg before after event r
    → stored_claim id event r + bit (has_event id before.webhook_events)
      ≤ bit (has_event id after.webhook_events)
Insertion-claim {before} {event} id (stored n new put r) =
    rw (r, ap (λ (t : Tables). t.webhook_events) put, has_event-append)
      (ground (arith, (eq_iff event.provider_event_id id).0, new))
Insertion-claim id (duplicate _ same r) =
    rw (r, ap (λ (t : Tables). t.webhook_events) same) (omega arith)
Insertion-claim id (unknown x _ (inl same) r) =
    rw (r, ap (λ (t : Tables). t.webhook_events) same) (omega arith)
Insertion-claim id (unknown x _ (inr (n, new, put)) r) =
    rw (r, ap (λ (t : Tables). t.webhook_events) put, has_event-append) (ground arith)

pub known_ap :
    {rows more : List WebhookEventRow} (id : String)
    → more ≡ rows
    → bit (has_event id more) ≡ bit (has_event id rows)
known_ap id = ap (λ (rows : List WebhookEventRow). bit (has_event id rows))

pub bit_le : (b : Bool) → bit b ≤ 1
bit_le true = omega arith
bit_le false = omega arith

finished-claim :
    (id : String) (event : PaymentEvent) (e : Option Error)
    → answer_claim id event (updated e) ≤ bit (event.provider_event_id == id)
finished-claim id event none = ground arith
finished-claim id event (some e) = omega arith

refused-claim :
    (id : String) (event : PaymentEvent) (r : Result ResultStatus)
    → r ≢ ok "processed"
    → answer_claim id event r ≡ 0
refused-claim id event (err e) h = refl
refused-claim id event (ok s) h = elim (Bool-cases (s == "processed")) [
  | inl same ↦ absurd (h (ap ok ((eq_iff s "processed").0 same)))
  | inr differs ↦ ground (arith, differs)
]

module _ (pg : Postgres) (laws : IsPostgres pg) (metrics : Option Metrics)
    (marshal_time : ℕ → Result String) where
  abbrev pub is_known : String → World pg.State → ℕ
  is_known id w = bit (has_event id (events_of pg w.database))

  advance-claim :
      (id : String) (d : Delivery) (w : World pg.State)
      → claim id (advance pg metrics marshal_time d w).0 + is_known id w
        ≤ claim id d + is_known id (advance pg metrics marshal_time d w).1
  unfolding advance begin_update finish_update start_payment_processing_timer inc_payment_processing
      observe_timer
  advance-claim id (arrived event) w =
      omega (arith, Insertion-claim id (insert-Insertion pg laws metrics event w))
  advance-claim id (Overlap.stored event (ok n)) w = omega (
    arith,
    known_ap id (
        get_by_payment_id-events pg laws metrics marshal_time event.payment_id
          (start_payment_processing_timer metrics (some (λ (label : String). label)) w).1),
  )
  advance-claim id (Overlap.stored event (err e)) w =
      let (same, not_processed) = after_insert-failed pg laws metrics marshal_time event w e in
      omega (arith, refused-claim id event _ not_processed, known_ap id (ap (events_of pg) same))
  advance-claim id (has_read event n timer r) w = omega (
    arith,
    finished-claim id event _,
    known_ap id (
        with_current-events pg laws metrics marshal_time r
          (update_of pg metrics marshal_time event n) w),
  )
  advance-claim id (answered event r) w = omega arith

  Step-claims :
      (id : String) {ds es : List Delivery} {w v : World pg.State}
      → Step pg metrics marshal_time ds w es v
      → claims id es + is_known id w ≤ claims id ds + is_known id v
  Step-claims id (move {d} {w} _) = omega (arith, advance-claim id d w)
  Step-claims id (other s) = omega (arith, Step-claims id s)

  Steps-claims :
      (id : String) {ds es : List Delivery} {w v : World pg.State}
      → Steps pg metrics marshal_time ds w es v
      → claims id es + is_known id w ≤ claims id ds + is_known id v
  Steps-claims id stop = omega arith
  Steps-claims id (step s ss) = omega (arith, Step-claims id s, Steps-claims id ss)

  -- However deliveries overlap, of those with one provider id at most one is answered "processed",
  -- and none if that id was stored before any of them arrived.
  pub Steps-processed_count :
      (id : String) (events : List PaymentEvent) {ds : List Delivery} {w v : World pg.State}
      → Steps pg metrics marshal_time (arrivals events) w ds v
      → processed_count id ds + (if has_event id (events_of pg w.database) then 1 else 0) ≤ 1
  Steps-processed_count id events {ds} {v} ss = omega (
    arith,
    processed_count-claims id ds,
    claims-arrivals id events,
    Steps-claims id ss,
    bit_le (has_event id (events_of pg v.database)),
  )
