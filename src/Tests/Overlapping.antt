-- ===== src/Tests/Overlapping.antt =====
-- Deliveries that overlap, over the database in memory.
use payment_webhook_processo.Prelude.{
  ◌+◌, ◌≤◌, none, some, length, [], All, String, Bool-cases, inl, inr, ◌==◌, ◌∷◌, ◌≡◌, refl,
  if◌then◌else◌,
}
use payment_webhook_processo.Repository.Memory.{memory}
use payment_webhook_processo.Repository.Payments.{get_by_payment_id, upsert}
use payment_webhook_processo.Service.Anomaly.{detect_anomalies}
use payment_webhook_processo.Service.PaymentProcessor.{
  PaymentUpdate, payment_from_event, with_current, body, update_payment,
}
use payment_webhook_processo.Failure.{ok, is, is_no_rows}
use payment_webhook_processo.World.{World}
use payment_webhook_processo.Metrics.{start_payment_processing_timer}
use payment_webhook_processo.Repository.Memory.{Memory}
use payment_webhook_processo.Repository.Memory.Laws.{memory-IsPostgres}
use payment_webhook_processo.Repository.Postgres.{has_event}
use payment_webhook_processo.Repository.WebhookEvents.{insert, is_duplicate_provider_event_id_error}
use payment_webhook_processo.Service.Idempotency.{process, after_insert}
use payment_webhook_processo.Webhook.Event.{PaymentEvent}
use payment_webhook_processo.Webhook.Event.{map_event_type_to_status}
use payment_webhook_processo.Repository.Rows.{Payment}
use payment_webhook_processo.Repository.Anomalies.Laws.{main_tables}
use payment_webhook_processo.Repository.Origins.{IsNamed, AllOrigins}
use payment_webhook_processo.Wiring.Overlap.Origins.{Steps-AllOrigins}
use payment_webhook_processo.Repository.Links.{AllLinked}
use payment_webhook_processo.Repository.Anomalies.{
  record_anomaly, insert_marshalled, marshal_details,
}
use payment_webhook_processo.Service.PaymentProcessor as Processor
use payment_webhook_processo.Wiring.Overlap.Links.{Steps-AllLinked}
use payment_webhook_processo.Wiring.Contracts.{events_of}
use payment_webhook_processo.Wiring.Deliveries.{deliver}
use payment_webhook_processo.Wiring.Overlap.{
  Delivery, arrived, answered, begin_update, finish_update, advance, move,
}
use payment_webhook_processo.Wiring.Overlap
use payment_webhook_processo.Wiring.Overlap.Alone.{alone-Steps}
use payment_webhook_processo.Wiring.Overlap.Claims.{
  processed_count, arrivals, Steps-processed_count,
}
use payment_webhook_processo.Wiring.Overlap.Failing.{AllSucceeded}
use payment_webhook_processo.Wiring.Overlap.Winners.{Steps-one_processed}
use payment_webhook_processo.Tests.Fixture.{
  event_of, paid_event, empty_world, marshal_time, paid_world,
}

-- One event delivered twice at once.
abbrev go_on : Delivery → World Memory → Delivery × World Memory
go_on = advance memory none marshal_time

abbrev first_stored : Delivery × World Memory
first_stored = go_on (arrived paid_event) empty_world

abbrev second_stored : Delivery × World Memory
second_stored = go_on (arrived paid_event) first_stored.1

abbrev first_has_read : Delivery × World Memory
first_has_read = go_on first_stored.0 second_stored.1

abbrev second_answered : Delivery × World Memory
second_answered = go_on second_stored.0 first_has_read.1

abbrev first_answered : Delivery × World Memory
first_answered = go_on first_has_read.0 second_answered.1

answers :
    (first_answered.0 ≡ answered paid_event (ok "processed"))
    × (second_answered.0 ≡ answered paid_event (ok "duplicate"))
unfolding advance begin_update finish_update insert after_insert is with_current is_no_rows
    is_duplicate_provider_event_id_error get_by_payment_id upsert start_payment_processing_timer
answers = (refl, refl)

twice_at_once :
    Overlap.Steps memory none marshal_time
      (arrivals (paid_event ∷ paid_event ∷ []))
      empty_world
      (first_answered.0 ∷ second_answered.0 ∷ [])
      first_answered.1
unfolding advance insert
twice_at_once = Overlap.step (move refl) (
    Overlap.step (Overlap.other (move refl)) (
      Overlap.step (move refl)
        (Overlap.step (Overlap.other (move refl)) (Overlap.step (move refl) Overlap.stop))))

Steps-processed_count_example :
    processed_count "evt_1" (first_answered.0 ∷ second_answered.0 ∷ [])
      + (if has_event "evt_1" (events_of memory empty_world.database) then 1 else 0)
    ≤ 1
Steps-processed_count_example =
    Steps-processed_count memory memory-IsPostgres none marshal_time "evt_1"
      (paid_event ∷ paid_event ∷ []) twice_at_once

both_succeeded : AllSucceeded (first_answered.0 ∷ second_answered.0 ∷ [])
unfolding advance begin_update finish_update insert after_insert is with_current is_no_rows
    is_duplicate_provider_event_id_error get_by_payment_id upsert start_payment_processing_timer
both_succeeded = (refl, (refl, tt))

Steps-one_processed_example :
    processed_count "evt_1" (first_answered.0 ∷ second_answered.0 ∷ []) ≡ 1
Steps-one_processed_example =
    Steps-one_processed memory memory-IsPostgres none marshal_time "evt_1"
      (paid_event ∷ paid_event ∷ []) twice_at_once both_succeeded refl refl

alone-Steps_example :
    Overlap.Steps memory none marshal_time
      (arrived paid_event ∷ [])
      empty_world
      (answered paid_event (deliver memory none marshal_time paid_event empty_world).0 ∷ [])
      (deliver memory none marshal_time paid_event empty_world).1
alone-Steps_example = alone-Steps memory none marshal_time paid_event empty_world

-- An event older than its payment's row.
abbrev old_event : PaymentEvent
old_event = event_of "evt_8" "payment.authorized" "authorized" 1000

abbrev after_old : World Memory
after_old = (deliver memory none marshal_time old_event paid_world).1

one_anomaly : length (memory.contents after_old.database).anomalies ≡ 1
unfolding process insert update_payment Processor.process body with_current is is_no_rows
    get_by_payment_id detect_anomalies record_anomaly insert_marshalled marshal_details
one_anomaly = refl

Steps-AllLinked_example : AllLinked (memory.contents after_old.database)
Steps-AllLinked_example =
    Steps-AllLinked memory memory-IsPostgres none marshal_time (old_event ∷ [])
      (alone-Steps memory none marshal_time old_event paid_world) tt

is_named : All IsNamed (paid_event ∷ paid_event ∷ [])
unfolding map_event_type_to_status
is_named = (refl, (refl, tt))

no_rows :
    (id : String) (p : Payment) → (memory.contents empty_world.database).payments id ≡ some p → ⊥
no_rows id p = elim (Bool-cases (id == "pay_1")) [
  | inl here ↦ rw here (λ h. cc)
  | inr differs ↦ rw differs (λ h. cc)
]

Steps-AllOrigins_example :
    AllOrigins memory.stored_time (main_tables (memory.contents first_answered.1.database))
Steps-AllOrigins_example =
    Steps-AllOrigins memory memory-IsPostgres none marshal_time (paid_event ∷ paid_event ∷ [])
      is_named twice_at_once (λ id p h. absurd (no_rows id p h))
