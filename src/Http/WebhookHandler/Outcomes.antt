-- ===== src/Http/WebhookHandler/Outcomes.antt =====
-- What `ServeHTTP` counts and logs of a request, by its answer.
use mathlib.Core.List.{append-nil, append_assoc}
use payment_webhook_processo.Prelude.{String, List, [], ◌∷◌, ◌++◌, ◌≡◌, sym, ap, ◌∙◌, ◌⊎◌}
use payment_webhook_processo.Failure.{Result}
use payment_webhook_processo.World.{Measurement, World, Action}
use payment_webhook_processo.Metrics.{Metrics, label_value, add}
use payment_webhook_processo.Webhook.Event.{PaymentEvent}
use payment_webhook_processo.Service.Idempotency.{ResultStatus}
use payment_webhook_processo.Http.Message.{ResponseWriter, fresh_writer, write_header}
use payment_webhook_processo.Http.WebhookHandler.{Locals}
use payment_webhook_processo.Http.WebhookHandler.Laws.{answer}

pub gather :
    (ms : List Measurement) (first outcome last : Measurement) (between : List Measurement)
    {result : List Measurement}
    → result ≡ (ms ++ first ∷ []) ++ between ++ outcome ∷ []
    → result ++ last ∷ [] ≡ ms ++ first ∷ (between ++ outcome ∷ last ∷ [])
gather ms first outcome last between h =
    ap (λ (l : List Measurement). l ++ last ∷ []) h
    ∙ append_assoc ((ms ++ first ∷ []) ++ between) (outcome ∷ []) (last ∷ [])
    ∙ append_assoc (ms ++ first ∷ []) between (outcome ∷ last ∷ [])
    ∙ append_assoc ms (first ∷ []) (between ++ outcome ∷ last ∷ [])

pub alone :
    (ms : List Measurement) (outcome : Measurement) → ms ++ outcome ∷ [] ≡ ms ++ [] ++ outcome ∷ []
alone ms outcome = ap (λ (l : List Measurement). l ++ outcome ∷ []) (sym (append-nil ms))

pub together :
    (ms : List Measurement) (first outcome : Measurement) (processed : List Measurement)
    {mid result : List Measurement}
    → mid ≡ ms ++ first ∷ []
    → result ≡ mid ++ processed
    → result ++ outcome ∷ [] ≡ ms ++ (first ∷ processed) ++ outcome ∷ []
together ms first outcome processed h k =
    ap (λ (l : List Measurement). l ++ outcome ∷ [])
      (k ∙ ap (λ (l : List Measurement). l ++ processed) h ∙ append_assoc ms (first ∷ []) processed)

module _ (m : Metrics) where
  -- What an answer counts as its outcome, under its label.
  abbrev pub failure : String → Measurement
  failure label = add m.webhook_errors_total (("result", label_value label) ∷ [])

  abbrev pub success : String → Measurement
  success label = add m.webhook_success_total (("result", label_value label) ∷ [])

  abbrev pub received : PaymentEvent → Measurement
  received event = add m.provider_events_total (
      ("event_type", label_value event.event_type)
      ∷ ("status", label_value event.payment_status)
      ∷ [])

module _ {D : Type 0} (processor : PaymentEvent → Action D (Result ResultStatus))
    (m : Metrics) where
  -- The response, what its log line says, what is counted before the outcome, and the outcome.
  -- `processed` is what the processor adds, given the event in the state `v`.
  pub data Told (before : D) (locals : Locals) (out : ResponseWriter) (between : List Measurement)
      (outcome : Measurement) : Type 0 where
    not_allowed :
        out ≡ write_header 405 fresh_writer
        → locals.log_fields.error_type ≡ "method_not_allowed"
        → between ≡ []
        → outcome ≡ failure m "method_not_allowed"
        → locals.result_label ≡ "method_not_allowed"
        → Told before locals out between outcome
    bad_request :
        out ≡ answer 400 "invalid_payload"
        → (locals.log_fields.error_type ≡ "body_read_error")
          ⊎ (locals.log_fields.error_type ≡ "invalid_payload")
        → between ≡ []
        → outcome ≡ failure m "invalid_payload"
        → locals.result_label ≡ "invalid_payload"
        → Told before locals out between outcome
    unauthorized :
        out ≡ answer 401 "unauthorized"
        → locals.log_fields.error_type ≡ "invalid_signature"
        → between ≡ add m.webhook_signature_failures [] ∷ []
        → outcome ≡ failure m "unauthorized"
        → locals.result_label ≡ "unauthorized"
        → Told before locals out between outcome
    failed :
        (event : PaymentEvent) (v : World D) (processed : List Measurement)
        → v.database ≡ before
        → (processor event v).1.measurements ≡ v.measurements ++ processed
        → out ≡ answer 500 "internal_error"
        → locals.log_fields.error_type ≡ "processing_error"
        → between ≡ received m event ∷ processed
        → outcome ≡ failure m "internal_error"
        → locals.result_label ≡ "internal_error"
        → Told before locals out between outcome
    succeeded :
        (event : PaymentEvent) (v : World D) (processed : List Measurement) (status : String)
        → v.database ≡ before
        → (processor event v).1.measurements ≡ v.measurements ++ processed
        → out ≡ answer 200 status
        → locals.log_fields.processing_result ≡ status
        → between ≡ received m event ∷ processed
        → outcome ≡ success m status
        → locals.result_label ≡ status
        → Told before locals out between outcome

  pub record Handled (w : World D) (result : (Locals × ResponseWriter) × World D) : Type 0 where
    pub between : List Measurement
    pub outcome : Measurement
    pub measured : result.1.measurements ≡ w.measurements ++ between ++ outcome ∷ []
    pub logged : result.1.log ≡ w.log
    pub told : Told w.database result.0.0 result.0.1 between outcome
