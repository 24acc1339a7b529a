-- ===== src/Tests/Serving.antt =====
-- Requests to the handler over the database in memory.
use payment_webhook_processo.Prelude.{String, ◌≡◌, refl, none, some, [], ◌∷◌, ◌==◌, if◌then◌else◌}
use payment_webhook_processo.Failure.{ok, is, is_no_rows}
use payment_webhook_processo.Text.{
  trim_space, is_space, decode_string, encode_to_string, hex_value, constant_time_compare,
}
use payment_webhook_processo.Webhook.Event.{
  map_event_type_to_status, unmarshal_payload, parse_event,
}
use payment_webhook_processo.Webhook.Signature.{compute_signature, validate_signature}
use payment_webhook_processo.Repository.Memory.{Memory, memory}
use payment_webhook_processo.Repository.Payments.{get_by_payment_id, upsert}
use payment_webhook_processo.Repository.WebhookEvents.{insert}
use payment_webhook_processo.Service.PaymentProcessor.{update_payment}
use payment_webhook_processo.Service.PaymentProcessor as Processor
use payment_webhook_processo.Service.Idempotency.{process}
use payment_webhook_processo.Wiring.Deliveries.{deliver}
use payment_webhook_processo.Http.Message.{Request, fresh_writer, write_json}
use payment_webhook_processo.Http.WebhookHandler.{WebhookHandler, new_webhook_handler, serve_http}
use payment_webhook_processo.Logging.{stdout, new_json_logger}
use payment_webhook_processo.Http.WebhookHandler.Laws.{Served, answer, serve_http-Served}
use payment_webhook_processo.Tests.Fixture.{digest, decoders, empty_world, marshal_time, metrics}

abbrev pub handler : WebhookHandler Memory
handler =
    new_webhook_handler "secret" (deliver memory none marshal_time) (some (new_json_logger stdout))
      none

abbrev signature : String
signature = encode_to_string (compute_signature digest (1 ∷ []) "secret")

abbrev pub signed_request : Request
signed_request = record {
  method = "POST";
  path = "/webhooks/payment";
  header = λ key. if key == "X-Webhook-Signature" then signature else "";
  body = ok (1 ∷ []);
  request_id = some "req_1";
  span = none;
}

signed_served :
    (serve_http decoders digest handler fresh_writer signed_request empty_world).0
    ≡ answer 200 "processed"
unfolding serve_http parse_event unmarshal_payload trim_space is_space map_event_type_to_status
    validate_signature compute_signature decode_string encode_to_string hex_value
    constant_time_compare write_json process insert update_payment Processor.process Processor.body
    get_by_payment_id upsert is is_no_rows
signed_served = refl

serve_http-Served_example :
    Served decoders digest handler signed_request empty_world.database
      (serve_http decoders digest handler fresh_writer signed_request empty_world).0
      (serve_http decoders digest handler fresh_writer signed_request empty_world).1.database
serve_http-Served_example = serve_http-Served decoders digest handler signed_request empty_world

abbrev measured_handler : WebhookHandler Memory
measured_handler =
    new_webhook_handler "secret" (deliver memory (some metrics) marshal_time)
      (some (new_json_logger stdout)) (some metrics)
