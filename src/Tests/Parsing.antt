-- ===== src/Tests/Parsing.antt =====
-- Bodies, signatures and statuses.
use payment_webhook_processo.Prelude.{◌≡◌, ◌≢◌, refl, ◌↔◌, true, some, [], ◌∷◌, arith}
use payment_webhook_processo.Failure.{
  ok, err, sentinel, detail, unknown_event_type, missing_signature, invalid_signature,
}
use payment_webhook_processo.Text.{
  trim_space, is_space, decode_string, encode_to_string, hex_value, constant_time_compare,
}
use payment_webhook_processo.Webhook.Event.{
  map_event_type_to_status, unmarshal_payload, parse_event,
}
use payment_webhook_processo.Webhook.Event.Parsing.{
  IsParsed, parse_event_iff, Refused, parse_event-Refused,
}
use payment_webhook_processo.Webhook.Signature.{compute_signature, validate_signature}
use payment_webhook_processo.Webhook.Signature.Laws.{validate_signature_iff, validate-encode}
use payment_webhook_processo.Service.Anomaly.{is_transition_allowed, detect_anomalies}
use payment_webhook_processo.Service.Anomaly.Transitions.{Allowed, is_transition_allowed_iff}
use payment_webhook_processo.Service.Anomaly.Detection.{Found, detect_anomalies-Found}
use payment_webhook_processo.Http.LogFields.{payment_status_from_payload}
use payment_webhook_processo.Http.LogFields.Laws.{to_option, payment_status_from_payload_agrees}
use payment_webhook_processo.Tests.Fixture.{decoders, digest, paid_event, refund_event, paid_row}

paid_parses : parse_event decoders (1 ∷ []) ≡ ok paid_event
unfolding parse_event unmarshal_payload trim_space is_space map_event_type_to_status
paid_parses = refl

unknown_refused :
    parse_event decoders (0 ∷ []) ≡ err (detail (sentinel unknown_event_type) "payment.unknown")
unfolding parse_event unmarshal_payload trim_space is_space map_event_type_to_status
unknown_refused = refl

parse_event_iff_example :
    (parse_event decoders (1 ∷ []) ≡ ok paid_event) ↔ IsParsed decoders (1 ∷ []) paid_event
parse_event_iff_example = parse_event_iff decoders (1 ∷ []) paid_event

parse_event-Refused_example :
    Refused decoders (0 ∷ []) (detail (sentinel unknown_event_type) "payment.unknown")
parse_event-Refused_example = parse_event-Refused decoders (0 ∷ []) _ unknown_refused

signature_tests :
    (validate_signature digest (1 ∷ []) "  " "secret" ≡ err (sentinel missing_signature))
    × (validate_signature digest (1 ∷ []) "01zz" "secret" ≡ err (sentinel invalid_signature))
    × (validate_signature digest (1 ∷ []) "0100" "secret" ≡ err (sentinel invalid_signature))
unfolding validate_signature trim_space is_space decode_string hex_value constant_time_compare
    compute_signature
signature_tests = (refl, refl, refl)

validate_signature_iff_example : (validate_signature digest (1 ∷ []) "0100" "secret" ≡ ok tt) ↔ (
    (trim_space "0100" ≢ "")
    × (decode_string (trim_space "0100") ≡ some (compute_signature digest (1 ∷ []) "secret")))
validate_signature_iff_example = validate_signature_iff digest (1 ∷ []) "0100" "secret"

validate-encode_example :
    validate_signature digest
      (1 ∷ [])
      (encode_to_string (compute_signature digest (1 ∷ []) "secret"))
      "secret"
    ≡ ok tt
validate-encode_example = validate-encode digest (1 ∷ []) "secret" (omega arith) refl

is_transition_allowed_iff_example :
    (is_transition_allowed "disputed" "paid" ≡ true) ↔ Allowed "disputed" "paid"
is_transition_allowed_iff_example = is_transition_allowed_iff "disputed" "paid"

detect_anomalies-Found_example :
    Found paid_row refund_event 7 (detect_anomalies paid_row refund_event 7)
detect_anomalies-Found_example = detect_anomalies-Found paid_row refund_event 7

payment_status_from_payload_agrees_example :
    payment_status_from_payload "payment.disputed"
    ≡ to_option (map_event_type_to_status "payment.disputed")
payment_status_from_payload_agrees_example = payment_status_from_payload_agrees "payment.disputed"
