-- ===== src/Tests/Interleaving.antt =====
-- Two requests for one paid payment at once: a partial refund, and a full refund after it.
use payment_webhook_processo.Prelude.{none, some, [], ◌∷◌, ◌≡◌, refl, arith}
use payment_webhook_processo.Repository.Memory.{memory}
use payment_webhook_processo.Repository.Payments.{get_by_payment_id, upsert}
use payment_webhook_processo.Service.Interfaces.{at_precision}
use payment_webhook_processo.Service.Anomaly.{is_transition_allowed, detect_anomalies}
use payment_webhook_processo.Service.PaymentProcessor.{
  PaymentUpdate, payment_from_event, with_current,
}
use payment_webhook_processo.Service.PaymentProcessor.Rows.{result_of}
use payment_webhook_processo.Service.PaymentProcessor.Interleaving.{
  waiting, finished, Steps, first_act, second_act, newer_overwritten,
}
use payment_webhook_processo.Tests.Fixture.{event_of, paid_world, paid_row}
use payment_webhook_processo.Tests.Processing.{processor, rows, recorder_keeps, keeps, refund}

abbrev partial : PaymentUpdate
partial = record {
  event = event_of "evt_7" "payment.partially_refunded" "partially_refunded" 7000;
  webhook_event_id = 1;
}

first_fine : (first_act processor partial refund paid_world).0.error ≡ none
unfolding with_current get_by_payment_id upsert is_transition_allowed detect_anomalies
first_fine = refl

second_fine : (second_act processor partial refund paid_world).0.error ≡ none
unfolding with_current get_by_payment_id upsert is_transition_allowed detect_anomalies
second_fine = refl

newer_overwritten_example :
    Steps processor
      (waiting partial ∷ waiting refund ∷ [])
      paid_world
      (finished partial (first_act processor partial refund paid_world).0
        ∷ finished refund (second_act processor partial refund paid_world).0
        ∷ [])
      (first_act processor partial refund paid_world).1
    × ((first_act processor partial refund paid_world).0.result ≡ result_of "updated" "")
    × ((second_act processor partial refund paid_world).0.result ≡ result_of "updated" "")
    × (rows (first_act processor partial refund paid_world).1.database "pay_1"
        ≡ some (at_precision memory.stored_time (payment_from_event partial.event)))
unfolding get_by_payment_id is_transition_allowed
newer_overwritten_example =
    newer_overwritten processor rows memory.stored_time keeps recorder_keeps paid_row partial refund
      paid_world (omega arith) (omega arith) refl refl refl refl second_fine first_fine
