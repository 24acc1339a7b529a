-- ===== src/Service/Anomaly/Detection.antt =====
-- Which anomalies `DetectAnomalies` finds.
use payment_webhook_processo.Prelude.{
  ℕ, ◌<◌, ◌≡◌, inl, inr, true, false, List, [], ◌∷◌, Bool-cases, ltb, arith,
}
use payment_webhook_processo.Webhook.Event.{PaymentEvent}
use payment_webhook_processo.Repository.Rows.{
  Payment, Anomaly, AnomalyType, anomaly_type_invalid_terminal_transition, anomaly_type_stale_event,
}
use payment_webhook_processo.Service.Anomaly.{
  is_transition_allowed, detect_anomalies, anomaly_details,
}

-- The one anomaly of a type, with the details of the payment and the event.
abbrev pub anomaly_of : AnomalyType → Payment → PaymentEvent → ℕ → Anomaly
anomaly_of anomaly_type current event webhook_event_id = record {
  webhook_event_id = webhook_event_id;
  payment_id = event.payment_id;
  anomaly_type = anomaly_type;
  details = anomaly_details current event;
}

-- What is found, and why.
pub data Found (current : Payment) (event : PaymentEvent) (id : ℕ) : List Anomaly → Type 0 where
  stale :
      event.event_timestamp < current.status_timestamp
      → Found current event id (anomaly_of anomaly_type_stale_event current event id ∷ [])
  same_instant : event.event_timestamp ≡ current.status_timestamp → Found current event id []
  allowed :
      current.status_timestamp < event.event_timestamp
      → is_transition_allowed current.status event.payment_status ≡ true
      → Found current event id []
  forbidden :
      current.status_timestamp < event.event_timestamp
      → is_transition_allowed current.status event.payment_status ≡ false
      → Found current event id
          (anomaly_of anomaly_type_invalid_terminal_transition current event id ∷ [])

module _ (current : Payment) (event : PaymentEvent) (id : ℕ) where
  -- An older event is one stale_event anomaly, whatever its status; a newer event whose status
  -- change is not allowed is one invalid_terminal_transition anomaly; else there is none.
  pub detect_anomalies-Found : Found current event id (detect_anomalies current event id)
  unfolding detect_anomalies
  detect_anomalies-Found = elim (Bool-cases (ltb event.event_timestamp current.status_timestamp)) [
    | inl older ↦ rw older (stale (ground arith))
    | inr not_older ↦ elim (Bool-cases (ltb current.status_timestamp event.event_timestamp)) [
      | inr equal ↦ rw (not_older, equal) (same_instant (ground arith))
      | inl newer ↦ elim (Bool-cases (is_transition_allowed current.status event.payment_status)) [
        | inl good ↦ rw (not_older, newer, good) (allowed (ground arith) good)
        | inr bad ↦ rw (not_older, newer, bad) (forbidden (ground arith) bad)
      ]
    ]
  ]
