-- ===== src/Wiring/Served.antt =====
-- cmd/server/main.go: the handler of the server, the router over the webhook's handler and the
-- handler of the metrics. `serve_metrics` is what promhttp's handlers do.
use payment_webhook_processo.Prelude.{ℕ, String, Option, some, List, ◌≡◌, ◌≢◌, ap, ◌∙◌}
use payment_webhook_processo.Failure.{Result, ok}
use payment_webhook_processo.World.{World, Action}
use payment_webhook_processo.Metrics.{Metrics}
use payment_webhook_processo.Metrics.Stats.{MetricsHandler}
use payment_webhook_processo.Metrics.Stats
use payment_webhook_processo.Text.{trim_space, decode_string}
use payment_webhook_processo.Webhook.Event.{PaymentEvent, Decoders}
use payment_webhook_processo.Webhook.Event.Parsing.{IsParsed}
use payment_webhook_processo.Webhook.Signature.{signature_header, compute_signature}
use payment_webhook_processo.Repository.Postgres.{Postgres, IsPostgres}
use payment_webhook_processo.Http.Message.{Request, ResponseWriter, fresh_writer}
use payment_webhook_processo.Http.WebhookHandler.{WebhookHandler, serve_http}
use payment_webhook_processo.Http.WebhookHandler.Laws.{serve_http_changes}
use payment_webhook_processo.Http.Router.{Handler, new_router, request_id_for, with_id}
use payment_webhook_processo.Http.Router.Laws.{new_router_changes}
use payment_webhook_processo.Wiring.Serving.{handler}

module _ (pg : Postgres) (laws : IsPostgres pg) (metrics : Option Metrics)
    (marshal_time : ℕ → Result String) (decoders : Decoders)
    (hmac_sha256 : String → List ℕ → List ℕ) (secret : String)
    (redirect : String → Handler pg.State) (serve_metrics : MetricsHandler → Handler pg.State) where
  abbrev webhook_handler : WebhookHandler pg.State
  webhook_handler = handler pg laws metrics marshal_time decoders hmac_sha256 secret

  abbrev webhook : Handler pg.State
  webhook = serve_http decoders hmac_sha256 webhook_handler

  abbrev metrics_handler : Handler pg.State
  metrics_handler = serve_metrics (Stats.handler metrics)

  abbrev pub server_handler : Result (List ℕ) → Handler pg.State
  server_handler = new_router redirect (some webhook) (some metrics_handler)

  -- What is sent to the server changes the database only as a request for the webhook's path whose
  -- header, trimmed, is a hexadecimal form of the HMAC of its body under the secret, and whose body
  -- is an event; if redirecting and serving the metrics leave the database alone.
  pub server_handler_changes :
      ((path : String) (w : ResponseWriter) (r : Request) (v : World pg.State)
        → (redirect path w r v).1.database ≡ v.database)
      → ((m : MetricsHandler) (w : ResponseWriter) (r : Request) (v : World pg.State)
          → (serve_metrics m w r v).1.database ≡ v.database)
      → (random : Result (List ℕ)) (r : Request) (v : World pg.State)
      → (server_handler random fresh_writer r v).1.database ≢ v.database
      → (r.path ≡ "/webhooks/payment")
        × (raw_body : List ℕ) × (event : PaymentEvent) × (r.body ≡ ok raw_body)
        × (decode_string (trim_space (r.header signature_header))
            ≡ some (compute_signature hmac_sha256 raw_body secret))
        × IsParsed decoders raw_body event
  server_handler_changes redirect_keeps metrics_keeps random r v changed =
      let (path, run) =
        new_router_changes redirect webhook metrics_handler redirect_keeps
          (metrics_keeps (Stats.handler metrics)) random fresh_writer r v changed in
      let (raw_body, event, read, signed, parsed) =
        serve_http_changes decoders hmac_sha256 webhook_handler
          (with_id (request_id_for random r) r) v
          (λ same.
            absurd (
              changed
                (ap (λ (a : Action pg.State ResponseWriter). (a v).1.database) run ∙ same))) in
      (path, raw_body, event, read, signed, parsed)
