-- ===== src/Http/WebhookHandler.antt =====
-- internal/http/webhook_handler.go: `ServeHTTP`.
pub mod Laws
pub mod Outcomes
pub mod Accounting
use payment_webhook_processo.Prelude.{
  ℕ, ◌/◌, String, Bool, not, Option, none, some, List, [], ◌∷◌, ◌++◌, ◌==◌, if◌then◌else◌,
}
use payment_webhook_processo.Failure.{Error, Result, ok, err}
use payment_webhook_processo.World.{LogValue, int64, LogEvent, World, Action, pure, ◌>>=◌, ◌>>◌}
use payment_webhook_processo.Metrics.{
  Metrics, Timer, start_webhook_response_timer, observe_timer, inc_webhook_request,
  inc_webhook_success, inc_webhook_error, inc_signature_failure, inc_provider_event,
}
use payment_webhook_processo.Logging.{
  discard, Logger, new_json_logger, lines_to, LogFields, with_trace_context,
}
use payment_webhook_processo.Webhook.Event.{PaymentEvent, Decoders, parse_event}
use payment_webhook_processo.Webhook.Signature.{signature_header, validate_signature}
use payment_webhook_processo.Service.Idempotency.{ResultStatus, result_status_processed}
use payment_webhook_processo.Http.Message.{
  Request, ResponseWriter, write_header, write_json, status_json,
}
use payment_webhook_processo.Http.LogFields.{
  WebhookLogFields, apply, populate_log_fields_from_payload,
}

-- The interface `webhookProcessor`.
abbrev pub WebhookProcessor : Type 0 → Type 0
WebhookProcessor D = PaymentEvent → Action D (Result ResultStatus)

pub record WebhookHandler (D : Type 0) : Type 0 where
  pub signing_secret : String
  pub processor : WebhookProcessor D
  pub logger : Logger
  pub metrics : Option Metrics

abbrev given_logger : Option Logger → Logger
given_logger none = new_json_logger discard
given_logger (some logger) = logger

abbrev pub new_webhook_handler :
    {D : Type 0} → String → WebhookProcessor D → Option Logger → Option Metrics → WebhookHandler D
new_webhook_handler signing_secret processor logger handler_metrics = record {
  signing_secret = signing_secret;
  processor = processor;
  logger = given_logger logger;
  metrics = handler_metrics;
}

-- The variables of `ServeHTTP` that its deferred function reads.
pub record Locals : Type 0 where
  pub log_fields : WebhookLogFields
  pub result_label : String

-- `RequestIDFromContext`: "" where the context has none.
unfoldable pub request_id_from_context : Request → String
request_id_from_context r = elim r.request_id [ none ↦ "" | some id ↦ id ]

abbrev initial_fields : String → WebhookLogFields
initial_fields request_id = record {
  request_id = request_id;
  provider_event_id = "";
  payment_id = "";
  event_type = "";
  payment_status = "";
  processing_result = "";
  error_type = "";
}

abbrev pub initial_locals : Request → Locals
initial_locals r = record {
  log_fields = initial_fields (request_id_from_context r);
  result_label = "method_not_allowed";
}

abbrev pub event_fields : PaymentEvent → WebhookLogFields → WebhookLogFields
event_fields event f = record f {
  provider_event_id = event.provider_event_id;
  payment_id = event.payment_id;
  event_type = event.event_type;
  payment_status = event.payment_status;
}

abbrev with_error : String → Locals → Locals
with_error error_type l = record l { log_fields = record l.log_fields { error_type = error_type } }

abbrev line_of : Option LogFields → List LogEvent
line_of none = []
line_of (some fields) = record { fields = fields; message = "webhook request completed" } ∷ []

abbrev latency : ℕ → Option LogFields → Option LogFields
latency ms none = none
latency ms (some fields) = some (fields ++ ("latency_ms", int64 ms) ∷ [])

abbrev applied : WebhookLogFields → Option LogFields → Option LogFields
applied f none = none
applied f (some fields) = some (apply f fields)

module _ {D : Type 0} (decoders : Decoders) (hmac_sha256 : String → List ℕ → List ℕ)
    (h : WebhookHandler D) where
  -- The deferred function: the timer is observed, and one line is logged.
  complete : Request → Timer Locals → Locals → Action D (Unit {0})
  unfolding observe_timer with_trace_context apply
  complete r timer locals w =
      let (duration, w') = observe_timer timer locals w in
      let event = with_trace_context r.span (some []) in
      let with_latency = latency (duration / 1000000) event in
      let lines = line_of (applied locals.log_fields with_latency) in
      (tt, record w' { log = w'.log ++ lines_to h.logger.writer lines })

  refuse : Locals → String → String → ℕ → ResponseWriter → Action D (Locals × ResponseWriter)
  unfolding inc_webhook_error write_json
  refuse locals error_type result_label status_code w = do
    inc_webhook_error h.metrics result_label
    pure (
      record (with_error error_type locals) { result_label = result_label },
      write_json w status_code (status_json result_label),
    )

  succeed : Locals → ResultStatus → ResponseWriter → Action D (Locals × ResponseWriter)
  unfolding inc_webhook_success write_json
  succeed locals result w = do
    let status = if result == "" then result_status_processed else result
    inc_webhook_success h.metrics status
    pure (
      record {
        log_fields = record locals.log_fields { processing_result = status };
        result_label = status;
      },
      write_json w 200 (status_json status),
    )

  on_result : Locals → ResponseWriter → Result ResultStatus → Action D (Locals × ResponseWriter)
  unfolding refuse succeed
  on_result locals w (err e) = refuse locals "processing_error" "internal_error" 500 w
  on_result locals w (ok result) = succeed locals result w

  on_event : Locals → ResponseWriter → Result PaymentEvent → Action D (Locals × ResponseWriter)
  unfolding on_result inc_provider_event
  on_event locals w (err e) = refuse locals "invalid_payload" "invalid_payload" 400 w
  on_event locals w (ok event) = do
    inc_provider_event h.metrics event.event_type event.payment_status
    result ← h.processor event
    on_result (record locals { log_fields = event_fields event locals.log_fields }) w result

  on_signature :
      Locals → ResponseWriter → List ℕ → Result (Unit {0}) → Action D (Locals × ResponseWriter)
  unfolding on_event inc_signature_failure
  on_signature locals w raw_body (err e) = do
    inc_signature_failure h.metrics
    refuse locals "invalid_signature" "unauthorized" 401 w
  on_signature locals w raw_body (ok _) = on_event locals w (parse_event decoders raw_body)

  on_body : Locals → ResponseWriter → Request → Result (List ℕ) → Action D (Locals × ResponseWriter)
  unfolding on_signature populate_log_fields_from_payload
  on_body locals w r (err e) = refuse locals "body_read_error" "invalid_payload" 400 w
  on_body locals w r (ok raw_body) =
      on_signature
        (record locals {
          log_fields = populate_log_fields_from_payload decoders locals.log_fields raw_body;
        })
        w raw_body
        (validate_signature hmac_sha256 raw_body (r.header signature_header) h.signing_secret)

  handle : Request → ResponseWriter → Action D (Locals × ResponseWriter)
  unfolding on_body inc_webhook_error request_id_from_context
  handle r w =
      let locals = initial_locals r in
      if not (r.method == "POST")
      then (do
        inc_webhook_error h.metrics locals.result_label
        pure (with_error "method_not_allowed" locals, write_header 405 w))
      else on_body locals w r r.body

  unfoldable pub serve_http : ResponseWriter → Request → Action D ResponseWriter
  unfolding handle complete start_webhook_response_timer inc_webhook_request
  serve_http w r = do
    timer ← start_webhook_response_timer h.metrics (some (λ (l : Locals). l.result_label))
    inc_webhook_request h.metrics
    (locals, written) ← handle r w
    complete r timer locals
    pure written
