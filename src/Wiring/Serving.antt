-- ===== src/Wiring/Serving.antt =====
-- The webhook's handler over the services and PostgreSQL, as cmd/server/main.go puts them together.
use payment_webhook_processo.Prelude.{
  ℕ, String, true, false, Option, none, some, List, ◌≡◌, ◌≢◌, refl, Bool-cases, inl, inr, sym, ap,
  ◌∙◌, arith,
}
use payment_webhook_processo.Failure.{
  duplicate_provider_event_id, Error, is, Result, ok, err, err≢ok, ok-injective,
}
use payment_webhook_processo.World.{World}
use payment_webhook_processo.Metrics.{Metrics}
use payment_webhook_processo.Text.{trim_space, decode_string}
use payment_webhook_processo.Webhook.Event.{PaymentEvent, Decoders}
use payment_webhook_processo.Webhook.Event.Parsing.{IsParsed, parse_event_sound}
use payment_webhook_processo.Webhook.Signature.{signature_header, compute_signature}
use payment_webhook_processo.Webhook.Signature.Laws.{validate_signature_iff}
use payment_webhook_processo.Repository.Postgres.{Postgres, IsPostgres, Tables}
use payment_webhook_processo.Repository.WebhookEvents.Laws.{
  knows, Insertion, stored, duplicate, unknown, insert-Insertion, HasRow, Insertion_new,
}
use payment_webhook_processo.Service.Idempotency.{updated, process, after_insert}
use payment_webhook_processo.Http.Message.{Request, ResponseWriter, fresh_writer, write_json}
use payment_webhook_processo.Http.WebhookHandler.{WebhookHandler, new_webhook_handler, serve_http}
use payment_webhook_processo.Logging.{stdout, new_json_logger}
use payment_webhook_processo.Http.WebhookHandler.Laws.{
  answer, or_processed, Served, not_post, unreadable, unauthorized, malformed, failed, succeeded,
  serve_http-Served,
}
use payment_webhook_processo.Wiring.{webhook_processor}
use payment_webhook_processo.Wiring.Deliveries.{deliver, after_insert-failed, after_insert-events}

abbrev code_of : Option ℕ → ℕ
code_of none = 0
code_of (some code) = code

answer-ne-ok :
    (out : ResponseWriter) (code : ℕ) (label : String)
    → out ≡ answer code label
    → out.status ≡ some 200
    → code ≢ 200
    → ⊥
unfolding write_json
answer-ne-ok out code label h good other =
    other (ap (λ (o : ResponseWriter). code_of o.status) (sym h) ∙ ap code_of good)

module _ (pg : Postgres) (laws : IsPostgres pg) (metrics : Option Metrics)
    (marshal_time : ℕ → Result String) where
  pub after_insert_unknown :
      (event : PaymentEvent) (x : Error) (w : World pg.State) {status : String}
      → is x duplicate_provider_event_id ≡ false
      → (after_insert (webhook_processor pg metrics marshal_time) event (err x) w).0 ≡ ok status
      → ⊥
  unfolding after_insert
  after_insert_unknown event x w other = rw other (λ h. err≢ok h)

  -- What a delivery that does not fail has done: its event was new and is stored, or its provider id
  -- was stored before, and no table has changed.
  pub data Accepted (event : PaymentEvent) (before after : Tables) (status : String) : Type 0 where
    is_new :
        status ≡ "processed"
        → knows event before ≡ false
        → HasRow event after.webhook_events
        → Accepted event before after status
    is_known :
        status ≡ "duplicate"
        → knows event before ≡ true
        → after ≡ before
        → Accepted event before after status

  updated-ok : (e : Option Error) (status : String) → updated e ≡ ok status → status ≡ "processed"
  updated-ok none status h = sym (ok-injective h)
  updated-ok (some e) status h = cc

  after_insert_refused :
      (event : PaymentEvent) (x : Error) (w : World pg.State) (status : String)
      → (after_insert (webhook_processor pg metrics marshal_time) event (err x) w).0 ≡ ok status
      → (is x duplicate_provider_event_id ≡ true) × (status ≡ "duplicate")
  unfolding after_insert
  after_insert_refused event x w status = elim (Bool-cases (is x duplicate_provider_event_id)) [
    | inl known ↦ rw known (λ h. (refl, sym (ok-injective h)))
    | inr other ↦ rw other (λ h. absurd (err≢ok h))
  ]

  after_insert-Accepted :
      (before mid : Tables) (event : PaymentEvent) (r : Result ℕ) (w : World pg.State)
      (status : String)
      → pg.contents w.database ≡ mid
      → Insertion pg before mid event r
      → (after_insert (webhook_processor pg metrics marshal_time) event r w).0 ≡ ok status
      → Accepted event before
          (pg.contents
            (after_insert (webhook_processor pg metrics marshal_time) event r w).1.database)
          status
  unfolding after_insert
  after_insert-Accepted before mid event (ok n) w status same inserted h =
      let (new, row) = Insertion_new inserted refl in
      is_new (updated-ok _ status h) new (
        rw
          (
            after_insert-events pg laws metrics marshal_time event (ok n) w,
            ap (λ (t : Tables). t.webhook_events) same,
          )
          row)
  after_insert-Accepted before mid event (err x) w status same (stored id _ _ is_ok) h =
      absurd (cc is_ok)
  after_insert-Accepted before mid event (err x) w status same (duplicate known kept is_err) h =
      is_known (after_insert_refused event x w status h).1 known (
        ap pg.contents (after_insert-failed pg laws metrics marshal_time event w x).0 ∙ same ∙ kept)
  after_insert-Accepted before mid event (err x) w status same (unknown y other _ is_err) h =
      absurd (cc ((after_insert_refused event x w status h).0, other, is_err))

  pub deliver-Accepted :
      (event : PaymentEvent) (w : World pg.State) (status : String)
      → (deliver pg metrics marshal_time event w).0 ≡ ok status
      → Accepted event
          (pg.contents w.database)
          (pg.contents (deliver pg metrics marshal_time event w).1.database)
          status
  unfolding process
  deliver-Accepted event w status h =
      after_insert-Accepted _ _ event _ _ status refl (insert-Insertion pg laws metrics event w) h

  Accepted-label :
      {event : PaymentEvent} {before after : Tables} {status : String}
      → Accepted event before after status
      → or_processed status ≡ status
  Accepted-label (is_new same _ _) = rw same refl
  Accepted-label (is_known same _ _) = rw same refl

  module _ (decoders : Decoders) (hmac_sha256 : String → List ℕ → List ℕ) (secret : String) where
    abbrev pub handler : WebhookHandler pg.State
    handler =
        new_webhook_handler secret (deliver pg metrics marshal_time) (some (new_json_logger stdout))
          metrics

    -- What a request that is answered with 200 has sent, what the answer says, and what is stored.
    pub record IsStored (r : Request) (before : pg.State) (out : ResponseWriter) (after : pg.State)
        : Type 0 where
      pub raw_body : List ℕ
      pub event : PaymentEvent
      pub is_body : r.body ≡ ok raw_body
      pub is_signed :
          decode_string (trim_space (r.header signature_header))
          ≡ some (compute_signature hmac_sha256 raw_body secret)
      pub is_parsed : IsParsed decoders raw_body event
      pub status : String
      pub is_answer : out ≡ answer 200 status
      pub accepted : Accepted event (pg.contents before) (pg.contents after) status

    Served-IsStored :
        (r : Request) (w : World pg.State) (out : ResponseWriter) (after : pg.State)
        → Served decoders hmac_sha256 handler r w.database out after
        → out.status ≡ some 200
        → IsStored r w.database out after
    Served-IsStored r w out after (not_post _ h _) good =
        absurd
          (omega (arith, ap (λ (o : ResponseWriter). code_of o.status) (sym h) ∙ ap code_of good))
    Served-IsStored r w out after (unreadable _ _ _ h _) good =
        absurd (answer-ne-ok out 400 _ h good (λ x. omega (arith, x)))
    Served-IsStored r w out after (unauthorized _ _ _ _ _ h _) good =
        absurd (answer-ne-ok out 401 _ h good (λ x. omega (arith, x)))
    Served-IsStored r w out after (malformed _ _ _ _ _ _ h _) good =
        absurd (answer-ne-ok out 400 _ h good (λ x. omega (arith, x)))
    Served-IsStored r w out after (failed _ _ _ _ _ _ _ _ _ _ h _) good =
        absurd (answer-ne-ok out 500 _ h good (λ x. omega (arith, x)))
    Served-IsStored r w out after
          (succeeded raw event v status post read signed parsed same done label left) good =
        let accepted = deliver-Accepted event v status done in
        record {
          raw_body = raw;
          event = event;
          is_body = read;
          is_signed = ((validate_signature_iff hmac_sha256 raw _ secret).0 signed).1;
          is_parsed = parse_event_sound decoders raw event parsed;
          status = status;
          is_answer = label ∙ ap (answer 200) (Accepted-label accepted);
          accepted = rw (left, ← same) accepted;
        }

    -- A request that is answered with 200 is authentic, and its body is an event, which was new and
    -- is stored, or whose provider id was stored before.
    pub acknowledged-IsStored :
        (r : Request) (w : World pg.State)
        → (serve_http decoders hmac_sha256 handler fresh_writer r w).0.status ≡ some 200
        → IsStored r w.database
            (serve_http decoders hmac_sha256 handler fresh_writer r w).0
            (serve_http decoders hmac_sha256 handler fresh_writer r w).1.database
    acknowledged-IsStored r w good =
        Served-IsStored r w _ _ (serve_http-Served decoders hmac_sha256 handler r w) good
