-- ===== src/Service/PaymentProcessor.antt =====
-- internal/service/payment_processor.go: the current payment is read, anomalies are recorded, and
-- the payment is created, updated, or the event ignored.
pub mod Frame
pub mod Preorder
pub mod Rows
pub mod Outcomes
pub mod Precision
pub mod Growth
pub mod Interleaving
use payment_webhook_processo.Prelude.{
  ℕ, String, Bool, not, Option, none, some, List, [], ◌∷◌, nat_eq, if◌then◌else◌,
}
use payment_webhook_processo.Failure.{Error, payment_not_found, wrap, is, Result, ok, err}
use payment_webhook_processo.World.{Action, pure, ◌>>=◌, ◌>>◌}
use payment_webhook_processo.Metrics.{
  Metrics, inc_anomaly, inc_payment_processing, inc_payment_ignored, start_payment_processing_timer,
  observe_timer,
}
use payment_webhook_processo.Webhook.Event.{PaymentEvent}
use payment_webhook_processo.Repository.Rows.{Payment, Anomaly}
use payment_webhook_processo.Service.Interfaces.{PaymentStateRepository, AnomalyRecorder}
use payment_webhook_processo.Service.Anomaly.{after, is_transition_allowed, detect_anomalies}

pub record PaymentUpdate : Type 0 where
  pub event : PaymentEvent
  pub webhook_event_id : ℕ

abbrev pub PaymentProcessingStatus : Type 0
PaymentProcessingStatus = String

abbrev pub payment_processing_status_created : PaymentProcessingStatus
payment_processing_status_created = "created"

abbrev pub payment_processing_status_updated : PaymentProcessingStatus
payment_processing_status_updated = "updated"

abbrev pub payment_processing_status_ignored : PaymentProcessingStatus
payment_processing_status_ignored = "ignored"

abbrev pub payment_processing_status_failed : PaymentProcessingStatus
payment_processing_status_failed = "failed"

pub record PaymentProcessingResult : Type 0 where
  pub status : PaymentProcessingStatus
  pub reason : String

abbrev pub ignore_reason_older_timestamp : String
ignore_reason_older_timestamp = "older_timestamp"

abbrev pub ignore_reason_equal_timestamp : String
ignore_reason_equal_timestamp = "equal_timestamp"

abbrev pub ignore_reason_invalid_transition : String
ignore_reason_invalid_transition = "invalid_terminal_transition"

-- A nil recorder or nil metrics is `none`.
pub record PaymentProcessor (D : Type 0) : Type 0 where
  pub repository : PaymentStateRepository D
  pub anomaly_recorder : Option (AnomalyRecorder D)
  pub metrics : Option Metrics

abbrev pub new_payment_processor :
    {D : Type 0}
    → PaymentStateRepository D
    → Option (AnomalyRecorder D)
    → Option Metrics
    → PaymentProcessor D
new_payment_processor repository anomaly_recorder processor_metrics = record {
  repository = repository;
  anomaly_recorder = anomaly_recorder;
  metrics = processor_metrics;
}

abbrev pub payment_from_event : PaymentEvent → Payment
payment_from_event event = record {
  payment_id = event.payment_id;
  status = event.payment_status;
  status_timestamp = event.event_timestamp;
}

-- What `Process` returns, and the value of its variable `resultStatus` on return.
pub record Return : Type 0 where
  pub result_status : String
  pub result : PaymentProcessingResult
  pub error : Option Error

abbrev failed : String → Error → Return
failed text e = record {
  result_status = payment_processing_status_failed;
  result = record { status = payment_processing_status_failed; reason = "" };
  error = some (wrap text e);
}

abbrev done : PaymentProcessingStatus → String → Return
done status reason = record {
  result_status = status;
  result = record { status = status; reason = reason };
  error = none;
}

abbrev written : PaymentProcessingStatus → String → Result (Unit {0}) → Return
written status text (ok u) = done status ""
written status text (err e) = failed text e

module _ {D : Type 0} (p : PaymentProcessor D) where
  pub record_all : AnomalyRecorder D → List Anomaly → Action D (Unit {0})
  unfolding inc_anomaly
  record_all recorder [] = pure tt
  record_all recorder (anomaly ∷ anomalies) = do
    inc_anomaly p.metrics anomaly.anomaly_type
    recorder.record_anomaly anomaly
    record_all recorder anomalies

  pub record_with : Option (AnomalyRecorder D) → List Anomaly → Action D (Unit {0})
  unfolding record_all
  record_with none anomalies = pure tt
  record_with (some recorder) anomalies = record_all recorder anomalies

  pub record_anomalies : List Anomaly → Action D (Unit {0})
  unfolding record_with
  record_anomalies anomalies = record_with p.anomaly_recorder anomalies

  pub write : PaymentUpdate → PaymentProcessingStatus → String → Action D Return
  write update status text = do
    result ← p.repository.upsert (payment_from_event update.event)
    pure (written status text result)

  ignore : String → Action D Return
  unfolding inc_payment_ignored
  ignore reason = do
    inc_payment_ignored p.metrics reason
    pure (done payment_processing_status_ignored reason)

  -- After the anomalies are recorded.
  pub apply_event : Payment → PaymentUpdate → Action D Return
  unfolding write ignore
  apply_event current update =
      if not (after update.event.event_timestamp current.status_timestamp)
      then ignore (
          if nat_eq update.event.event_timestamp current.status_timestamp
          then ignore_reason_equal_timestamp
          else ignore_reason_older_timestamp)
      else if not (is_transition_allowed current.status update.event.payment_status)
      then ignore ignore_reason_invalid_transition
      else write update payment_processing_status_updated "update payment state"

  unfoldable pub with_current : Result Payment → PaymentUpdate → Action D Return
  unfolding apply_event record_anomalies
  with_current (ok current) update = do
    record_anomalies (detect_anomalies current update.event update.webhook_event_id)
    apply_event current update
  with_current (err e) update =
      if is e payment_not_found
      then write update payment_processing_status_created "create payment state"
      else pure (failed "get current payment state" e)

  unfoldable pub body : PaymentUpdate → Action D Return
  unfolding with_current
  body update = do
    current ← p.repository.get_by_payment_id update.event.payment_id
    with_current current update

  unfoldable pub process : PaymentUpdate → Action D (PaymentProcessingResult × Option Error)
  unfolding inc_payment_processing start_payment_processing_timer observe_timer
  process update = do
    timer ← start_payment_processing_timer p.metrics (some (λ (label : String). label))
    return ← body update
    inc_payment_processing p.metrics return.result_status
    observe_timer timer return.result_status
    pure (return.result, return.error)

  unfoldable pub update_payment : PaymentUpdate → Action D (Option Error)
  update_payment update = do outcome ← process update; pure outcome.1
