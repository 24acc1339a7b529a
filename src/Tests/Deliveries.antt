-- ===== src/Tests/Deliveries.antt =====
-- Deliveries over the database in memory.
use payment_webhook_processo.Prelude.{◌||◌, ◌≤◌, ◌≡◌, ◌≢◌, refl, none, some, [], ◌∷◌}
use payment_webhook_processo.Failure.{Error, ok, err, wrap, external, is, is_no_rows}
use payment_webhook_processo.World.{World}
use payment_webhook_processo.Webhook.Event.Statuses.{Status, paid, status_name}
use payment_webhook_processo.Repository.Rows.{Payment}
use payment_webhook_processo.Repository.Memory.{Memory, memory, fine, refused}
use payment_webhook_processo.Repository.Memory.Laws.{memory-IsPostgres}
use payment_webhook_processo.Repository.Payments.{get_by_payment_id, upsert}
use payment_webhook_processo.Repository.WebhookEvents.{insert, is_duplicate_provider_event_id_error}
use payment_webhook_processo.Repository.WebhookEvents.Laws.{Insertion, insert-Insertion}
use payment_webhook_processo.Service.Anomaly.Transitions.{WasPaid}
use payment_webhook_processo.Service.PaymentProcessor.{update_payment, with_current}
use payment_webhook_processo.Service.PaymentProcessor as Processor
use payment_webhook_processo.Service.Idempotency.{process, after_insert}
use payment_webhook_processo.Wiring.{payment_processor}
use payment_webhook_processo.Wiring.Contracts.{payments_of}
use payment_webhook_processo.Wiring.Deliveries.{deliver, redelivery, processed_stored}
use payment_webhook_processo.Wiring.Histories.{
  deliver_all, processed_once, deliver_all_advances, paid_stays_paid, Follows,
}
use payment_webhook_processo.Service.Anomaly.{is_transition_allowed, detect_anomalies}
use payment_webhook_processo.Wiring.Known.{
  known_ids, is_delivered, AllAnswered, deliver_all-known_ids,
}
use payment_webhook_processo.Wiring.LostUpdate.{lost_update}
use payment_webhook_processo.Tests.Fixture.{
  paid_event, refund_event, paid_row, paid_world, empty_world, world, database, marshal_time,
}

abbrev after_paid : World Memory
after_paid = (deliver memory none marshal_time paid_event empty_world).1

paid_processed : (deliver memory none marshal_time paid_event empty_world).0 ≡ ok "processed"
unfolding process insert update_payment Processor.process Processor.body get_by_payment_id upsert is
    is_no_rows
paid_processed = refl

paid_known : (payments_of memory after_paid.database "pay_1" ≡ some paid_row)
unfolding process insert update_payment Processor.process Processor.body get_by_payment_id upsert is
    is_no_rows
paid_known = refl

redelivery_example :
    (memory.contents (deliver memory none marshal_time paid_event after_paid).1.database
      ≡ memory.contents after_paid.database)
    × ((deliver memory none marshal_time paid_event after_paid).0 ≢ ok "processed")
redelivery_example = redelivery memory memory-IsPostgres none marshal_time paid_event after_paid (
    processed_stored memory memory-IsPostgres none marshal_time paid_event empty_world
      paid_processed)

processed_once_example :
    (deliver memory none marshal_time paid_event
      (deliver_all memory memory-IsPostgres none marshal_time (refund_event ∷ []) after_paid)).0
    ≢ ok "processed"
processed_once_example =
    processed_once memory memory-IsPostgres none marshal_time paid_event empty_world
      (refund_event ∷ []) paid_processed

deliver_all_advances_example :
    (last : Payment) × (payments_of memory
        (deliver_all memory memory-IsPostgres none marshal_time
          (refund_event ∷ [])
          paid_world).database
        "pay_1"
      ≡ some last)
    × (5000 ≤ last.status_timestamp)
    × Follows "paid" last.status
deliver_all_advances_example =
    deliver_all_advances memory memory-IsPostgres none marshal_time (refund_event ∷ []) paid_world
      "pay_1" paid_row refl

paid_stays_paid_example :
    (last : Payment) × (b : Status) × (payments_of memory
        (deliver_all memory memory-IsPostgres none marshal_time
          (refund_event ∷ [])
          paid_world).database
        "pay_1"
      ≡ some last)
    × (last.status ≡ status_name b)
    × WasPaid b
paid_stays_paid_example =
    paid_stays_paid memory memory-IsPostgres none marshal_time (refund_event ∷ []) paid_world
      "pay_1" paid_row paid refl refl tt

insert-Insertion_example :
    Insertion memory
      (memory.contents empty_world.database)
      (memory.contents (insert memory none paid_event empty_world).1.database)
      paid_event
      (insert memory none paid_event empty_world).0
insert-Insertion_example = insert-Insertion memory memory-IsPostgres none paid_event empty_world

-- The event is stored, and then the connection is lost.
abbrev faulty : World Memory
faulty = world (database (fine ∷ refused ∷ []) none)

abbrev inserted : World Memory
inserted = (insert memory none paid_event faulty).1

faulty_insert : (insert memory none paid_event faulty).0 ≡ ok 1
unfolding insert
faulty_insert = refl

abbrev unread : Error
unread = wrap "get current payment state" (wrap "get payment by id" (external "connection refused"))

faulty_update :
    (update_payment
      (payment_processor memory none marshal_time)
      (record { event = paid_event; webhook_event_id = 1 })
      inserted).0
    ≡ some unread
unfolding insert update_payment Processor.process Processor.body get_by_payment_id is is_no_rows
faulty_update = refl

abbrev after_fault : World Memory
after_fault = (deliver memory none marshal_time paid_event faulty).1

lost_update_example :
    ((deliver memory none marshal_time paid_event faulty).0
      ≡ err (wrap "update payment state" unread))
    × (payments_of memory
          (deliver memory none marshal_time paid_event
            (deliver_all memory memory-IsPostgres none marshal_time [] after_fault)).1.database
        ≡ payments_of memory
            (deliver_all memory memory-IsPostgres none marshal_time [] after_fault).database)
    × ((deliver memory none marshal_time paid_event
          (deliver_all memory memory-IsPostgres none marshal_time [] after_fault)).0
        ≢ ok "processed")
lost_update_example =
    lost_update memory memory-IsPostgres none marshal_time paid_event faulty [] 1 unread
      faulty_insert faulty_update

-- The retry is answered "duplicate", and the payment has no row.
lost_payment :
    ((deliver memory none marshal_time paid_event after_fault).0 ≡ ok "duplicate")
    × (payments_of memory
          (deliver memory none marshal_time paid_event after_fault).1.database
          "pay_1"
        ≡ none)
unfolding process insert update_payment Processor.process Processor.body get_by_payment_id is
    is_no_rows is_duplicate_provider_event_id_error
lost_payment = (refl, refl)

all_answered :
    AllAnswered memory memory-IsPostgres none marshal_time
      (paid_event ∷ refund_event ∷ paid_event ∷ [])
      empty_world
unfolding process insert update_payment Processor.process Processor.body get_by_payment_id upsert is
    is_no_rows is_duplicate_provider_event_id_error is_transition_allowed detect_anomalies
    with_current after_insert
all_answered = (("processed", refl), (("processed", refl), (("duplicate", refl), tt)))

deliver_all-known_ids_example :
    known_ids memory memory-IsPostgres none marshal_time
      (deliver_all memory memory-IsPostgres none marshal_time
        (paid_event ∷ refund_event ∷ paid_event ∷ [])
        empty_world)
      "evt_2"
    ≡ (known_ids memory memory-IsPostgres none marshal_time empty_world "evt_2"
        || is_delivered "evt_2" (paid_event ∷ refund_event ∷ paid_event ∷ []))
deliver_all-known_ids_example =
    deliver_all-known_ids memory memory-IsPostgres none marshal_time
      (paid_event ∷ refund_event ∷ paid_event ∷ []) empty_world "evt_2" all_answered
