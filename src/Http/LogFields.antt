-- ===== src/Http/LogFields.antt =====
-- The log fields of internal/http/webhook_handler.go, and filling them from a body that is not yet
-- known to be genuine.
pub mod Laws
use payment_webhook_processo.Prelude.{
  ℕ, String, Option, none, some, List, [], ◌∷◌, ◌++◌, ◌==◌, if◌then◌else◌,
}
use payment_webhook_processo.Failure.{Result, ok, err, ◌>>=◌}
use payment_webhook_processo.World.{str}
use payment_webhook_processo.Json.{equal_fold, decode_struct}
use payment_webhook_processo.Logging.{LogFields}
use payment_webhook_processo.Webhook.Event.{
  Decoders, event_type_payment_pending, event_type_payment_authorized, event_type_payment_paid,
  event_type_payment_failed, event_type_payment_expired, event_type_payment_cancelled,
  event_type_payment_partially_refunded, event_type_payment_refunded, event_type_payment_disputed,
  event_type_payment_chargeback, payment_status_pending, payment_status_authorized,
  payment_status_paid, payment_status_failed, payment_status_expired, payment_status_cancelled,
  payment_status_partially_refunded, payment_status_refunded, payment_status_disputed,
  payment_status_chargeback,
}

pub record WebhookLogFields : Type 0 where
  pub request_id : String
  pub provider_event_id : String
  pub payment_id : String
  pub event_type : String
  pub payment_status : String
  pub processing_result : String
  pub error_type : String

abbrev unless_empty : String → String → LogFields
unless_empty key value = if value == "" then [] else (key, str value) ∷ []

unfoldable pub apply : WebhookLogFields → LogFields → LogFields
apply f event =
    event
    ++ unless_empty "request_id" f.request_id
    ++ unless_empty "provider_event_id" f.provider_event_id
    ++ unless_empty "payment_id" f.payment_id
    ++ unless_empty "event_type" f.event_type
    ++ unless_empty "payment_status" f.payment_status
    ++ unless_empty "processing_result" f.processing_result
    ++ unless_empty "error_type" f.error_type

pub record SafePayloadFields : Type 0 where
  pub provider_event_id : String
  pub payment_id : String
  pub event_type : String

abbrev pub zero_fields : SafePayloadFields
zero_fields = record { provider_event_id = ""; payment_id = ""; event_type = "" }

-- The json tags of `safePayloadFields`.
unfoldable pub safe_setter : String → Option (String → SafePayloadFields → SafePayloadFields)
unfolding equal_fold
safe_setter key =
    if equal_fold key "provider_event_id"
    then some (λ s p. record p { provider_event_id = s })
    else if equal_fold key "payment_id"
    then some (λ s p. record p { payment_id = s })
    else if equal_fold key "event_type"
    then some (λ s p. record p { event_type = s })
    else none

unfoldable pub payment_status_from_payload : String → Option String
payment_status_from_payload event_type =
    if event_type == event_type_payment_pending
    then some payment_status_pending
    else if event_type == event_type_payment_authorized
    then some payment_status_authorized
    else if event_type == event_type_payment_paid
    then some payment_status_paid
    else if event_type == event_type_payment_failed
    then some payment_status_failed
    else if event_type == event_type_payment_expired
    then some payment_status_expired
    else if event_type == event_type_payment_cancelled
    then some payment_status_cancelled
    else if event_type == event_type_payment_partially_refunded
    then some payment_status_partially_refunded
    else if event_type == event_type_payment_refunded
    then some payment_status_refunded
    else if event_type == event_type_payment_disputed
    then some payment_status_disputed
    else if event_type == event_type_payment_chargeback
    then some payment_status_chargeback
    else none

abbrev or_else : String → String → String
or_else old new = if old == "" then new else old

abbrev status_or : Option String → String → String
status_or none old = old
status_or (some status) old = or_else old status

abbrev filled : Result SafePayloadFields → WebhookLogFields → WebhookLogFields
filled (err e) f = f
filled (ok fields) f = record f {
  provider_event_id = or_else f.provider_event_id fields.provider_event_id;
  payment_id = or_else f.payment_id fields.payment_id;
  event_type = or_else f.event_type fields.event_type;
  payment_status = status_or (payment_status_from_payload fields.event_type) f.payment_status;
}

module _ (decoders : Decoders) where
  unfoldable pub unmarshal_fields : List ℕ → Result SafePayloadFields
  unfolding safe_setter decode_struct
  unmarshal_fields raw_body = do
    value ← decoders.json raw_body
    decode_struct safe_setter value zero_fields

  unfoldable pub populate_log_fields_from_payload : WebhookLogFields → List ℕ → WebhookLogFields
  unfolding unmarshal_fields payment_status_from_payload
  populate_log_fields_from_payload log_fields raw_body =
      filled (unmarshal_fields raw_body) log_fields
