-- ===== src/Http/WebhookHandler/Accounting.antt =====
-- What `ServeHTTP` counts, times and logs, altogether.
use payment_webhook_processo.Prelude.{ℕ, String, some, List, [], ◌∷◌, ◌++◌, ◌≡◌}
use payment_webhook_processo.Failure.{Result}
use payment_webhook_processo.World.{Measurement, World, Action}
use payment_webhook_processo.Metrics.{Metrics, add, observation}
use payment_webhook_processo.Logging.{stdout, new_json_logger, LogFields}
use payment_webhook_processo.Webhook.Event.{PaymentEvent, Decoders}
use payment_webhook_processo.Service.Idempotency.{ResultStatus}
use payment_webhook_processo.Http.Message.{ResponseWriter}
use payment_webhook_processo.Http.LogFields.{apply}
use payment_webhook_processo.Http.WebhookHandler.{WebhookHandler, new_webhook_handler, Locals}
use payment_webhook_processo.Http.WebhookHandler.Outcomes.{Told}

module _ {D : Type 0} (decoders : Decoders) (hmac_sha256 : String → List ℕ → List ℕ)
    (signing_secret : String) (processor : PaymentEvent → Action D (Result ResultStatus))
    (m : Metrics) where
  abbrev h : WebhookHandler D
  h = new_webhook_handler signing_secret processor (some (new_json_logger stdout)) (some m)

  -- A request's measurements and its log line.
  pub record Accounted (w : World D) (out : ResponseWriter) (v : World D) : Type 0 where
    pub locals : Locals
    pub outcome : Measurement
    pub between : List Measurement
    pub duration : ℕ
    pub base : LogFields
    pub told : Told processor m w.database locals out between outcome
    pub measured :
        v.measurements
        ≡ w.measurements
          ++ add m.webhook_requests_total []
            ∷ (between
                ++ outcome
                  ∷ observation m.webhook_response_duration "result" locals.result_label duration
                  ∷ [])
    pub logged :
        v.log
        ≡ w.log
          ++ record { fields = apply locals.log_fields base; message = "webhook request completed" }
            ∷ []
