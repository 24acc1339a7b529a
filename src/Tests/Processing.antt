-- ===== src/Tests/Processing.antt =====
-- The payment processor over the database in memory.
use payment_webhook_processo.Prelude.{String, ◌≢◌, refl, ap, none, arith, eq_iff}
use payment_webhook_processo.Repository.Memory.{Memory, memory}
use payment_webhook_processo.Repository.Memory.Laws.{memory-IsPostgres}
use payment_webhook_processo.Repository.Payments.{get_by_payment_id, upsert}
use payment_webhook_processo.Repository.Payments.Laws.{payment_repository-KeepsPayments}
use payment_webhook_processo.Repository.Anomalies.Laws.{Main, record_anomaly-main}
use payment_webhook_processo.Service.Interfaces.{KeepsPayments, RecorderKeeps}
use payment_webhook_processo.Service.PaymentProcessor.{PaymentProcessor, PaymentUpdate, process}
use payment_webhook_processo.Service.PaymentProcessor.Rows.{Rows, Outcome}
use payment_webhook_processo.Service.PaymentProcessor.Outcomes.{row_read, process-Outcome}
use payment_webhook_processo.Service.PaymentProcessor.Precision.{process_misses_equal}
use payment_webhook_processo.Wiring.{payment_processor}
use payment_webhook_processo.Wiring.Contracts.{payments_of}
use payment_webhook_processo.Tests.Fixture.{
  refund_event, event_of, off_grid, noon, paid_world, marshal_time,
}

abbrev pub processor : PaymentProcessor Memory
processor = payment_processor memory none marshal_time

abbrev pub rows : Memory → Rows
rows = payments_of memory

abbrev pub recorder_keeps : RecorderKeeps rows processor.anomaly_recorder
recorder_keeps a w =
    ap (λ (m : Main). m.0) (record_anomaly-main memory memory-IsPostgres none marshal_time a w)

abbrev pub keeps : KeepsPayments processor.repository rows memory.stored_time
keeps = payment_repository-KeepsPayments memory memory-IsPostgres none

abbrev pub refund : PaymentUpdate
refund = record { event = refund_event; webhook_event_id = 2 }

process-Outcome_example :
    Outcome processor rows memory.stored_time
      (row_read processor rows memory.stored_time keeps recorder_keeps refund paid_world)
      (rows paid_world.database)
      (rows (process processor refund paid_world).1.database)
      refund_event
      (process processor refund paid_world).0.0
      (process processor refund paid_world).0.1
process-Outcome_example =
    process-Outcome processor rows memory.stored_time keeps recorder_keeps refund paid_world

not_pay_1 : ◌≢◌ {A = String} "pay_2" "pay_1"
not_pay_1 h = ground (arith, eq_iff "pay_2" "pay_1")

-- An event between two microseconds, delivered against the row that its instant was stored in.
abbrev between : PaymentUpdate
between = record { event = event_of "evt_3" "payment.paid" "paid" off_grid; webhook_event_id = 3 }

process_misses_equal_example : (process processor between paid_world).0.0.reason ≢ "equal_timestamp"
process_misses_equal_example =
    process_misses_equal processor rows memory.stored_time keeps recorder_keeps between paid_world
      (record { payment_id = "pay_1"; status = "paid"; status_timestamp = noon }) refl refl
      (omega arith)

payment_repository-KeepsPayments_example :
    KeepsPayments
      (record { get_by_payment_id = get_by_payment_id memory none; upsert = upsert memory none })
      rows
      memory.stored_time
payment_repository-KeepsPayments_example =
    payment_repository-KeepsPayments memory memory-IsPostgres none
