-- ===== src/Tests/Routing.antt =====
-- Requests through the router, to the webhook's handler over the database in memory.
use payment_webhook_processo.Prelude.{
  ℕ, String, none, some, List, [], ◌∷◌, ◌≡◌, ◌≢◌, refl, ap, arith, All, ◌<◌,
}
use payment_webhook_processo.Failure.{Result, ok, ok-injective, is, is_no_rows}
use payment_webhook_processo.World.{pure}
use payment_webhook_processo.Text.{
  trim_space, is_space, decode_string, encode_to_string, hex_value, constant_time_compare,
}
use payment_webhook_processo.Text.Path.{clean_path, segments, resolve, rooted, ends_with_slash}
use payment_webhook_processo.Webhook.Event.{
  PaymentEvent, map_event_type_to_status, unmarshal_payload, parse_event,
}
use payment_webhook_processo.Webhook.Signature.{compute_signature, validate_signature}
use payment_webhook_processo.Repository.Memory.{Memory, memory}
use payment_webhook_processo.Repository.Memory.Laws.{memory-IsPostgres}
use payment_webhook_processo.Wiring.Served.{server_handler, server_handler_changes}
use payment_webhook_processo.Webhook.Event.Parsing.{IsParsed}
use payment_webhook_processo.Repository.Payments.{get_by_payment_id, upsert}
use payment_webhook_processo.Repository.WebhookEvents.{insert}
use payment_webhook_processo.Service.PaymentProcessor.{update_payment}
use payment_webhook_processo.Service.PaymentProcessor as Processor
use payment_webhook_processo.Service.Idempotency.{process}
use payment_webhook_processo.Http.Message.{fresh_writer, write_json, write_header, set_header}
use payment_webhook_processo.Http.WebhookHandler.{serve_http}
use payment_webhook_processo.Http.Router.{
  Handler, new_router, with_request_id, serve_mux, lookup, request_id_for, new_request_id, with_id,
}
use payment_webhook_processo.Http.Router.Laws.{
  Routed, new_router-Routed, Identified, request_id_for-Identified,
}
use payment_webhook_processo.Tests.Fixture.{digest, decoders, empty_world, marshal_time}
use payment_webhook_processo.Tests.Serving.{handler, signed_request}

clean_tests :
    (clean_path "/webhooks//payment" ≡ "/webhooks/payment")
    × (clean_path "/a/../healthz" ≡ "/healthz")
    × (clean_path "/metrics/./" ≡ "/metrics/")
    × (clean_path "" ≡ "/")
    × (clean_path "/.." ≡ "/")
unfolding clean_path segments resolve rooted ends_with_slash
clean_tests = (refl, refl, refl, refl, refl)

abbrev redirect : String → Handler Memory
redirect path w r = pure (write_header 301 (set_header "Location" path w))

abbrev scrape : Handler Memory
scrape w r = pure (write_header 200 w)

abbrev webhook : Handler Memory
webhook = serve_http decoders digest handler

abbrev random : Result (List ℕ)
random = ok (1 ∷ 254 ∷ [])

random_bytes : (buffer : List ℕ) → random ≡ ok buffer → All (λ b. b < 256) buffer
random_bytes buffer h = rw (← ok-injective h) (omega arith, (omega arith, tt))

fresh_id : request_id_for random signed_request ≡ "01fe"
unfolding request_id_for new_request_id trim_space is_space encode_to_string
fresh_id = refl

request_id_for-Identified_example :
    Identified random signed_request (request_id_for random signed_request)
request_id_for-Identified_example = request_id_for-Identified random signed_request random_bytes

new_router-Routed_example :
    Routed redirect webhook scrape signed_request
      (with_id (request_id_for random signed_request) signed_request)
      fresh_writer
      (new_router redirect (some webhook) (some scrape) random fresh_writer signed_request)
new_router-Routed_example =
    new_router-Routed redirect webhook scrape random fresh_writer signed_request

routed_changes :
    (new_router redirect
      (some webhook)
      (some scrape)
      random
      fresh_writer
      signed_request
      empty_world).1.database
    ≢ empty_world.database
unfolding new_router with_request_id serve_mux lookup request_id_for new_request_id clean_path
    segments resolve rooted ends_with_slash serve_http parse_event unmarshal_payload trim_space
    is_space map_event_type_to_status validate_signature compute_signature decode_string
    encode_to_string hex_value constant_time_compare write_json process insert update_payment
    Processor.process Processor.body get_by_payment_id upsert is is_no_rows
routed_changes h = absurd (omega (arith, ap (λ (m : Memory). m.last_id) h))

abbrev serve : Handler Memory
serve =
    server_handler memory memory-IsPostgres none marshal_time decoders digest "secret" redirect
      (λ m. scrape) random

server_handler_changes_example :
    (signed_request.path ≡ "/webhooks/payment")
    × (raw_body : List ℕ) × (event : PaymentEvent) × (signed_request.body ≡ ok raw_body)
    × (decode_string (trim_space (signed_request.header "X-Webhook-Signature"))
        ≡ some (compute_signature digest raw_body "secret"))
    × IsParsed decoders raw_body event
server_handler_changes_example =
    server_handler_changes memory memory-IsPostgres none marshal_time decoders digest "secret"
      redirect (λ m. scrape) (λ path w r v. refl) (λ m w r v. refl) random signed_request
      empty_world routed_changes
