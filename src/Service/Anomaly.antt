-- ===== src/Service/Anomaly.antt =====
-- internal/service/anomaly.go: which events are anomalies, and which status changes are allowed.
pub mod Transitions
pub mod Detection
use payment_webhook_processo.Prelude.{
  ℕ, String, Bool, true, false, not, List, [], ◌∷◌, ◌++◌, ◌||◌, ltb, ◌==◌, if◌then◌else◌,
}
use payment_webhook_processo.Webhook.Event.{
  PaymentEvent, PaymentStatus, payment_status_pending, payment_status_authorized,
  payment_status_paid, payment_status_failed, payment_status_expired, payment_status_cancelled,
  payment_status_partially_refunded, payment_status_refunded, payment_status_disputed,
  payment_status_chargeback,
}
use payment_webhook_processo.Repository.Rows.{
  Payment, Anomaly, AnomalyDetails, AnomalyType, anomaly_type_invalid_terminal_transition,
  anomaly_type_stale_event,
}

-- `time.Time.Before` and `time.Time.After`.
abbrev pub before : ℕ → ℕ → Bool
before t u = ltb t u

abbrev pub after : ℕ → ℕ → Bool
after t u = ltb u t

unfoldable pub is_transition_allowed : PaymentStatus → PaymentStatus → Bool
is_transition_allowed current next =
    if current == payment_status_pending
    then next == payment_status_authorized
      || next == payment_status_paid
      || next == payment_status_failed
      || next == payment_status_expired
      || next == payment_status_cancelled
    else if current == payment_status_authorized
    then next == payment_status_paid
      || next == payment_status_failed
      || next == payment_status_expired
      || next == payment_status_cancelled
    else if current == payment_status_paid
    then next == payment_status_partially_refunded
      || next == payment_status_refunded
      || next == payment_status_disputed
    else if current == payment_status_partially_refunded
    then next == payment_status_partially_refunded
      || next == payment_status_refunded
      || next == payment_status_disputed
    else if current == payment_status_disputed
    then next == payment_status_paid || next == payment_status_chargeback
    else false

abbrev pub anomaly_details : Payment → PaymentEvent → AnomalyDetails
anomaly_details current event = record {
  provider_event_id = event.provider_event_id;
  current_status = current.status;
  current_timestamp = current.status_timestamp;
  incoming_status = event.payment_status;
  incoming_timestamp = event.event_timestamp;
}

unfoldable pub detect_anomalies : Payment → PaymentEvent → ℕ → List Anomaly
detect_anomalies current event webhook_event_id =
    let append_anomaly = λ (anomalies : List Anomaly) (anomaly_type : AnomalyType).
      anomalies
      ++ record {
        webhook_event_id = webhook_event_id;
        payment_id = event.payment_id;
        anomaly_type = anomaly_type;
        details = anomaly_details current event;
      }
        ∷ [] in
    let anomalies : List Anomaly = [] in
    if before event.event_timestamp current.status_timestamp
    then append_anomaly anomalies anomaly_type_stale_event
    else if not (after event.event_timestamp current.status_timestamp)
    then anomalies
    else if not (is_transition_allowed current.status event.payment_status)
    then append_anomaly anomalies anomaly_type_invalid_terminal_transition
    else anomalies
