-- ===== src/Webhook/Event.antt =====
-- internal/webhook/event.go: event types, payment statuses, and parsing a request's body.
-- `EventType` and `PaymentStatus` are string types in the source, and so here. A `time.Time` is
-- the number of nanoseconds from a fixed origin, since the program only orders instants.
pub mod Statuses
pub mod Parsing
use payment_webhook_processo.Prelude.{ℕ, String, Option, none, some, List, ◌==◌, if◌then◌else◌}
use payment_webhook_processo.Failure.{
  Sentinel, invalid_json, missing_provider_event_id, missing_payment_id, missing_event_type,
  missing_event_timestamp, unknown_event_type, invalid_event_timestamp, Error, sentinel, detail,
  Result, ok, err, ◌>>=◌, ◌>>◌,
}
use payment_webhook_processo.Text.{trim_space}
use payment_webhook_processo.Json.{Json, equal_fold, decode_struct}

abbrev pub EventType : Type 0
EventType = String

abbrev pub PaymentStatus : Type 0
PaymentStatus = String

abbrev pub event_type_payment_pending : EventType
event_type_payment_pending = "payment.pending"

abbrev pub event_type_payment_authorized : EventType
event_type_payment_authorized = "payment.authorized"

abbrev pub event_type_payment_paid : EventType
event_type_payment_paid = "payment.paid"

abbrev pub event_type_payment_failed : EventType
event_type_payment_failed = "payment.failed"

abbrev pub event_type_payment_expired : EventType
event_type_payment_expired = "payment.expired"

abbrev pub event_type_payment_cancelled : EventType
event_type_payment_cancelled = "payment.cancelled"

abbrev pub event_type_payment_partially_refunded : EventType
event_type_payment_partially_refunded = "payment.partially_refunded"

abbrev pub event_type_payment_refunded : EventType
event_type_payment_refunded = "payment.refunded"

abbrev pub event_type_payment_disputed : EventType
event_type_payment_disputed = "payment.disputed"

abbrev pub event_type_payment_chargeback : EventType
event_type_payment_chargeback = "payment.chargeback"

abbrev pub payment_status_pending : PaymentStatus
payment_status_pending = "pending"

abbrev pub payment_status_authorized : PaymentStatus
payment_status_authorized = "authorized"

abbrev pub payment_status_paid : PaymentStatus
payment_status_paid = "paid"

abbrev pub payment_status_failed : PaymentStatus
payment_status_failed = "failed"

abbrev pub payment_status_expired : PaymentStatus
payment_status_expired = "expired"

abbrev pub payment_status_cancelled : PaymentStatus
payment_status_cancelled = "cancelled"

abbrev pub payment_status_partially_refunded : PaymentStatus
payment_status_partially_refunded = "partially_refunded"

abbrev pub payment_status_refunded : PaymentStatus
payment_status_refunded = "refunded"

abbrev pub payment_status_disputed : PaymentStatus
payment_status_disputed = "disputed"

abbrev pub payment_status_chargeback : PaymentStatus
payment_status_chargeback = "chargeback"

unfoldable pub map_event_type_to_status : EventType → Result PaymentStatus
map_event_type_to_status event_type =
    if event_type == event_type_payment_pending
    then ok payment_status_pending
    else if event_type == event_type_payment_authorized
    then ok payment_status_authorized
    else if event_type == event_type_payment_paid
    then ok payment_status_paid
    else if event_type == event_type_payment_failed
    then ok payment_status_failed
    else if event_type == event_type_payment_expired
    then ok payment_status_expired
    else if event_type == event_type_payment_cancelled
    then ok payment_status_cancelled
    else if event_type == event_type_payment_partially_refunded
    then ok payment_status_partially_refunded
    else if event_type == event_type_payment_refunded
    then ok payment_status_refunded
    else if event_type == event_type_payment_disputed
    then ok payment_status_disputed
    else if event_type == event_type_payment_chargeback
    then ok payment_status_chargeback
    else err (detail (sentinel unknown_event_type) event_type)

pub record PaymentEvent : Type 0 where
  pub provider_event_id : String
  pub payment_id : String
  pub event_type : EventType
  pub payment_status : PaymentStatus
  pub event_timestamp : ℕ
  pub raw_payload : List ℕ

pub record PaymentEventPayload : Type 0 where
  pub provider_event_id : String
  pub payment_id : String
  pub event_type : String
  pub event_timestamp : String

abbrev pub zero_payload : PaymentEventPayload
zero_payload = record {
  provider_event_id = "";
  payment_id = "";
  event_type = "";
  event_timestamp = "";
}

-- The json tags of `paymentEventPayload`.
unfoldable pub payload_setter : String → Option (String → PaymentEventPayload → PaymentEventPayload)
unfolding equal_fold
payload_setter key =
    if equal_fold key "provider_event_id"
    then some (λ s p. record p { provider_event_id = s })
    else if equal_fold key "payment_id"
    then some (λ s p. record p { payment_id = s })
    else if equal_fold key "event_type"
    then some (λ s p. record p { event_type = s })
    else if equal_fold key "event_timestamp"
    then some (λ s p. record p { event_timestamp = s })
    else none

-- The parts of the standard library that `ParseEvent` calls and that are not modelled: the syntax
-- of JSON, and `time.Parse(time.RFC3339, …)` as an instant.
pub record Decoders : Type 0 where
  pub json : List ℕ → Result Json
  pub rfc3339 : String → Result ℕ

abbrev require : String → Sentinel → Result (Unit {0})
require s missing = if s == "" then err (sentinel missing) else ok tt

-- fmt.Errorf("%w: %v", …) of a failure; the text of the cause is left out.
abbrev relabel {ℓ} : {A : Type ℓ} → Sentinel → Result A → Result A
relabel s (ok a) = ok a
relabel s (err e) = err (detail (sentinel s) "")

module _ (decoders : Decoders) where
  unfoldable pub unmarshal_payload : List ℕ → Result PaymentEventPayload
  unfolding payload_setter decode_struct
  unmarshal_payload raw_payload = do
    value ← decoders.json raw_payload
    decode_struct payload_setter value zero_payload

  unfoldable pub parse_event : List ℕ → Result PaymentEvent
  parse_event raw_payload = do
    payload ← relabel invalid_json (unmarshal_payload raw_payload)
    let provider_event_id = trim_space payload.provider_event_id
    require provider_event_id missing_provider_event_id
    let payment_id = trim_space payload.payment_id
    require payment_id missing_payment_id
    let event_type = trim_space payload.event_type
    require event_type missing_event_type
    payment_status ← map_event_type_to_status event_type
    let event_timestamp_raw = trim_space payload.event_timestamp
    require event_timestamp_raw missing_event_timestamp
    event_timestamp ← relabel invalid_event_timestamp (decoders.rfc3339 event_timestamp_raw)
    ok (record {
      provider_event_id = provider_event_id;
      payment_id = payment_id;
      event_type = event_type;
      payment_status = payment_status;
      event_timestamp = event_timestamp;
      raw_payload = raw_payload;
    })
