-- ===== src/Http/WebhookHandler/Laws.antt =====
-- How `ServeHTTP` answers, and what it does to the database, on every branch.
use payment_webhook_processo.Prelude.{
  ℕ, String, some, List, ◌≡◌, ◌≢◌, refl, inl, inr, Bool-cases, ◌==◌, eq_iff, if◌then◌else◌, arith,
}
use payment_webhook_processo.Failure.{Error, Result, ok, err, Result-cases}
use payment_webhook_processo.World.{World}
use payment_webhook_processo.Text.{trim_space, decode_string}
use payment_webhook_processo.Webhook.Event.{PaymentEvent, Decoders, parse_event}
use payment_webhook_processo.Webhook.Event.Parsing.{IsParsed, parse_event_sound}
use payment_webhook_processo.Webhook.Signature.{
  signature_header, validate_signature, compute_signature,
}
use payment_webhook_processo.Webhook.Signature.Laws.{validate_signature_iff}
use payment_webhook_processo.Http.Message.{
  Request, ResponseWriter, fresh_writer, write_header, write_json, status_json,
}
use payment_webhook_processo.Metrics.{inc_provider_event}
use payment_webhook_processo.Http.LogFields.{populate_log_fields_from_payload}
use payment_webhook_processo.Http.WebhookHandler.{
  WebhookHandler, Locals, initial_locals, on_event, on_signature, on_body, handle, serve_http,
}

abbrev pub answer : ℕ → String → ResponseWriter
answer status_code status = write_json fresh_writer status_code (status_json status)

abbrev pub or_processed : String → String
or_processed status = if status == "" then "processed" else status

module _ {D : Type 0} (decoders : Decoders) (hmac_sha256 : String → List ℕ → List ℕ)
    (h : WebhookHandler D) where
  -- The check of the request's signature header against its body.
  abbrev pub signed : Request → List ℕ → Result (Unit {0})
  signed r raw_body =
      validate_signature hmac_sha256 raw_body (r.header signature_header) h.signing_secret

  -- The request, the response, and the database before and after.
  pub data Served (r : Request) (before : D) (out : ResponseWriter) (after : D) : Type 0 where
    not_post :
        r.method ≢ "POST"
        → out ≡ write_header 405 fresh_writer
        → after ≡ before
        → Served r before out after
    unreadable :
        (x : Error)
        → r.method ≡ "POST"
        → r.body ≡ err x
        → out ≡ answer 400 "invalid_payload"
        → after ≡ before
        → Served r before out after
    unauthorized :
        (raw_body : List ℕ) (x : Error)
        → r.method ≡ "POST"
        → r.body ≡ ok raw_body
        → signed r raw_body ≡ err x
        → out ≡ answer 401 "unauthorized"
        → after ≡ before
        → Served r before out after
    malformed :
        (raw_body : List ℕ) (x : Error)
        → r.method ≡ "POST"
        → r.body ≡ ok raw_body
        → signed r raw_body ≡ ok tt
        → parse_event decoders raw_body ≡ err x
        → out ≡ answer 400 "invalid_payload"
        → after ≡ before
        → Served r before out after
    failed :
        (raw_body : List ℕ) (event : PaymentEvent) (v : World D) (x : Error)
        → r.method ≡ "POST"
        → r.body ≡ ok raw_body
        → signed r raw_body ≡ ok tt
        → parse_event decoders raw_body ≡ ok event
        → v.database ≡ before
        → (h.processor event v).0 ≡ err x
        → out ≡ answer 500 "internal_error"
        → after ≡ (h.processor event v).1.database
        → Served r before out after
    succeeded :
        (raw_body : List ℕ) (event : PaymentEvent) (v : World D) (status : String)
        → r.method ≡ "POST"
        → r.body ≡ ok raw_body
        → signed r raw_body ≡ ok tt
        → parse_event decoders raw_body ≡ ok event
        → v.database ≡ before
        → (h.processor event v).0 ≡ ok status
        → out ≡ answer 200 (or_processed status)
        → after ≡ (h.processor event v).1.database
        → Served r before out after

  on_event-Served :
      (r : Request) (raw_body : List ℕ) (locals : Locals) (w : World D) (p : Result PaymentEvent)
      → r.method ≡ "POST"
      → r.body ≡ ok raw_body
      → signed r raw_body ≡ ok tt
      → parse_event decoders raw_body ≡ p
      → Served r w.database
          (on_event decoders hmac_sha256 h locals fresh_writer p w).0.1
          (on_event decoders hmac_sha256 h locals fresh_writer p w).1.database
  unfolding on_event
  on_event-Served r raw_body locals w (err x) post read good parsed =
      malformed raw_body x post read good parsed refl refl
  on_event-Served r raw_body locals w (ok event) post read good parsed =
      let v : World D = (inc_provider_event h.metrics event.event_type event.payment_status w).1 in
      Result-cases (h.processor event v).0
        (λ status fine.
          rw fine (succeeded raw_body event v status post read good parsed refl fine refl refl))
        λ x bad. rw bad (failed raw_body event v x post read good parsed refl bad refl refl)

  on_signature-Served :
      (r : Request) (raw_body : List ℕ) (locals : Locals) (w : World D) (s : Result (Unit {0}))
      → r.method ≡ "POST"
      → r.body ≡ ok raw_body
      → signed r raw_body ≡ s
      → Served r w.database
          (on_signature decoders hmac_sha256 h locals fresh_writer raw_body s w).0.1
          (on_signature decoders hmac_sha256 h locals fresh_writer raw_body s w).1.database
  unfolding on_signature
  on_signature-Served r raw_body locals w (err x) post read bad =
      unauthorized raw_body x post read bad refl refl
  on_signature-Served r raw_body locals w (ok _) post read good =
      on_event-Served r raw_body locals w _ post read good refl

  on_body-Served :
      (r : Request) (locals : Locals) (w : World D) (b : Result (List ℕ))
      → r.method ≡ "POST"
      → r.body ≡ b
      → Served r w.database
          (on_body decoders hmac_sha256 h locals fresh_writer r b w).0.1
          (on_body decoders hmac_sha256 h locals fresh_writer r b w).1.database
  unfolding on_body
  on_body-Served r locals w (err x) post read = unreadable x post read refl refl
  on_body-Served r locals w (ok raw_body) post read =
      on_signature-Served r raw_body
        (record locals {
          log_fields = populate_log_fields_from_payload decoders locals.log_fields raw_body;
        })
        w _ post read refl

  handle-Served :
      (r : Request) (w : World D)
      → Served r w.database
          (handle decoders hmac_sha256 h r fresh_writer w).0.1
          (handle decoders hmac_sha256 h r fresh_writer w).1.database
  unfolding handle
  handle-Served r w = elim (Bool-cases (r.method == "POST")) [
    | inl post ↦ rw post (on_body-Served r (initial_locals r) w _ ((eq_iff _ _).0 post) refl)
    | inr other ↦ rw other (not_post (ground (arith, eq_iff r.method "POST")) refl refl)
  ]

  -- What `ServeHTTP` does, on every branch. A method other than POST is 405; an unreadable body or
  -- one that is no event is 400; a bad signature is 401; none of these touches the database. An
  -- authentic event is handed to the processor once, from the database as it was: its failure is
  -- 500, its success 200 with the result's status, and the database is as the processor leaves it.
  pub serve_http-Served :
      (r : Request) (w : World D)
      → Served r w.database
          (serve_http decoders hmac_sha256 h fresh_writer r w).0
          (serve_http decoders hmac_sha256 h fresh_writer r w).1.database
  unfolding serve_http
  serve_http-Served r w = handle-Served r _

  -- A request that changes the database is authentic and well formed: its header, trimmed, is the
  -- hexadecimal form of the HMAC of its body under the secret, and its body is an event.
  pub serve_http_changes :
      (r : Request) (w : World D)
      → (serve_http decoders hmac_sha256 h fresh_writer r w).1.database ≢ w.database
      → (raw_body : List ℕ) × (event : PaymentEvent) × (r.body ≡ ok raw_body)
        × (decode_string (trim_space (r.header signature_header))
            ≡ some (compute_signature hmac_sha256 raw_body h.signing_secret))
        × IsParsed decoders raw_body event
  serve_http_changes r w changed = authentic (serve_http-Served r w) changed
    where
      authentic :
          {before after : D} {out : ResponseWriter}
          → Served r before out after
          → after ≢ before
          → (raw_body : List ℕ) × (event : PaymentEvent) × (r.body ≡ ok raw_body)
            × (decode_string (trim_space (r.header signature_header))
                ≡ some (compute_signature hmac_sha256 raw_body h.signing_secret))
            × IsParsed decoders raw_body event
      authentic (not_post _ _ same) c = absurd (c same)
      authentic (unreadable _ _ _ _ same) c = absurd (c same)
      authentic (unauthorized _ _ _ _ _ _ same) c = absurd (c same)
      authentic (malformed _ _ _ _ _ _ _ same) c = absurd (c same)
      authentic (failed raw event v x post read good parsed _ _ _ _) c = (
        raw,
        event,
        read,
        ((validate_signature_iff hmac_sha256 raw _ h.signing_secret).0 good).1,
        parse_event_sound decoders raw event parsed,
      )
      authentic (succeeded raw event v status post read good parsed _ _ _ _) c = (
        raw,
        event,
        read,
        ((validate_signature_iff hmac_sha256 raw _ h.signing_secret).0 good).1,
        parse_event_sound decoders raw event parsed,
      )
