-- ===== src/Webhook/Event/Parsing.antt =====
-- What `ParseEvent` accepts, and which error it returns.
use payment_webhook_processo.Prelude.{
  ℕ, String, List, ◌≡◌, ◌≢◌, refl, sym, ◌↔◌, inl, inr, Bool-cases, true, ◌==◌, eq_iff, arith,
}
use mathlib.Core.Path.{subst}
use payment_webhook_processo.Failure.{
  Sentinel, invalid_json, missing_provider_event_id, missing_payment_id, missing_event_type,
  missing_event_timestamp, unknown_event_type, invalid_event_timestamp, Error, is, Result, ok, err,
  ok-injective, err-injective, address_refl, bind-eq-ok, bind_err_cases, err≢ok,
}
use payment_webhook_processo.Text.{trim_space}
use payment_webhook_processo.Webhook.Event.Statuses.{map-eq-err}
use payment_webhook_processo.Webhook.Event.{
  PaymentEvent, PaymentEventPayload, Decoders, map_event_type_to_status, unmarshal_payload,
  parse_event, require, relabel,
}

relabel-eq-ok {ℓ} :
    {A : Type ℓ} (s : Sentinel) (r : Result A) {a : A} → relabel s r ≡ ok a → r ≡ ok a
relabel-eq-ok s (ok a) h = h
relabel-eq-ok s (err e) h = cc

require-eq-ok : (s : String) (m : Sentinel) {u : Unit {0}} → require s m ≡ ok u → s ≢ ""
require-eq-ok s m h = ground (arith, eq_iff s "")

require_of_ne : (s : String) (m : Sentinel) → s ≢ "" → require s m ≡ ok tt
require_of_ne s m h = ground (arith, eq_iff s "")

relabel-eq-err {ℓ} :
    {A : Type ℓ} (s : Sentinel) (r : Result A) {x : Error}
    → relabel s r ≡ err x
    → (e : Error) × (r ≡ err e) × (is x s ≡ true)
unfolding is
relabel-eq-err s (ok a) h = cc
relabel-eq-err s (err e) h = (e, refl, rw (← err-injective h) (address_refl s))

require-eq-err :
    (s : String) (m : Sentinel) {x : Error} → require s m ≡ err x → (s ≡ "") × (is x m ≡ true)
unfolding is
require-eq-err s m h = elim (Bool-cases (s == "")) [
  | inl empty ↦ ((eq_iff _ _).0 empty, rw (← err-injective (rw empty at h)) (address_refl m))
  | inr other ↦ cc (rw other at h)
]

module _ (decoders : Decoders) where
  -- The event is what the body's payload says, trimmed, with nothing missing.
  pub record IsParsed (raw : List ℕ) (e : PaymentEvent) : Type 0 where
    pub payload : PaymentEventPayload
    pub decoded : unmarshal_payload decoders raw ≡ ok payload
    pub provider_event_id : e.provider_event_id ≡ trim_space payload.provider_event_id
    pub payment_id : e.payment_id ≡ trim_space payload.payment_id
    pub event_type : e.event_type ≡ trim_space payload.event_type
    pub has_provider_event_id : e.provider_event_id ≢ ""
    pub has_payment_id : e.payment_id ≢ ""
    pub has_event_type : e.event_type ≢ ""
    pub has_timestamp : trim_space payload.event_timestamp ≢ ""
    pub payment_status : map_event_type_to_status e.event_type ≡ ok e.payment_status
    pub event_timestamp :
        decoders.rfc3339 (trim_space payload.event_timestamp) ≡ ok e.event_timestamp
    pub raw_payload : e.raw_payload ≡ raw

  pub parse_event_sound :
      (raw : List ℕ) (e : PaymentEvent) → parse_event decoders raw ≡ ok e → IsParsed raw e
  unfolding parse_event
  parse_event_sound raw e h =
      let (payload, p, h1) = bind-eq-ok _ _ h in
      let (_, has_id, h2) = bind-eq-ok _ _ h1 in
      let (_, has_payment, h3) = bind-eq-ok _ _ h2 in
      let (_, has_type, h4) = bind-eq-ok _ _ h3 in
      let (status, mapped, h5) = bind-eq-ok _ _ h4 in
      let (_, has_time, h6) = bind-eq-ok _ _ h5 in
      let (time, parsed, h7) = bind-eq-ok _ _ h6 in
      subst (IsParsed raw) (ok-injective h7) (record {
        payload = payload;
        decoded = relabel-eq-ok _ _ p;
        provider_event_id = refl;
        payment_id = refl;
        event_type = refl;
        has_provider_event_id = require-eq-ok _ _ has_id;
        has_payment_id = require-eq-ok _ _ has_payment;
        has_event_type = require-eq-ok _ _ has_type;
        has_timestamp = require-eq-ok _ _ has_time;
        payment_status = mapped;
        event_timestamp = relabel-eq-ok _ _ parsed;
        raw_payload = refl;
      })

  pub parse_event_complete :
      (raw : List ℕ) (e : PaymentEvent) → IsParsed raw e → parse_event decoders raw ≡ ok e
  unfolding parse_event
  parse_event_complete raw e h = ground (
    arith,
    eq_iff (trim_space h.payload.provider_event_id) "",
    eq_iff (trim_space h.payload.payment_id) "",
    eq_iff (trim_space h.payload.event_type) "",
    eq_iff (trim_space h.payload.event_timestamp) "",
  )

  -- A body parses to an event exactly when the event is what the body's payload says: the ids and
  -- the type trimmed and not empty, the status the one of the type, the instant the one of the
  -- trimmed timestamp, and the payload kept as it came.
  pub parse_event_iff :
      (raw : List ℕ) (e : PaymentEvent) → (parse_event decoders raw ≡ ok e) ↔ IsParsed raw e
  parse_event_iff raw e = (parse_event_sound raw e, parse_event_complete raw e)

  -- Why a body is refused. The checks are made in the order of the constructors, and each
  -- constructor says that the checks above it have passed.
  pub data Fails (raw : List ℕ) : Sentinel → Type 0 where
    bad_json : {x : Error} → unmarshal_payload decoders raw ≡ err x → Fails raw invalid_json
    no_event_id :
        {p : PaymentEventPayload}
        → unmarshal_payload decoders raw ≡ ok p
        → trim_space p.provider_event_id ≡ ""
        → Fails raw missing_provider_event_id
    no_payment_id :
        {p : PaymentEventPayload}
        → unmarshal_payload decoders raw ≡ ok p
        → trim_space p.provider_event_id ≢ ""
        → trim_space p.payment_id ≡ ""
        → Fails raw missing_payment_id
    no_event_type :
        {p : PaymentEventPayload}
        → unmarshal_payload decoders raw ≡ ok p
        → trim_space p.provider_event_id ≢ ""
        → trim_space p.payment_id ≢ ""
        → trim_space p.event_type ≡ ""
        → Fails raw missing_event_type
    bad_event_type :
        {p : PaymentEventPayload} {x : Error}
        → unmarshal_payload decoders raw ≡ ok p
        → trim_space p.provider_event_id ≢ ""
        → trim_space p.payment_id ≢ ""
        → trim_space p.event_type ≢ ""
        → map_event_type_to_status (trim_space p.event_type) ≡ err x
        → Fails raw unknown_event_type
    no_timestamp :
        {p : PaymentEventPayload} {s : String}
        → unmarshal_payload decoders raw ≡ ok p
        → trim_space p.provider_event_id ≢ ""
        → trim_space p.payment_id ≢ ""
        → map_event_type_to_status (trim_space p.event_type) ≡ ok s
        → trim_space p.event_timestamp ≡ ""
        → Fails raw missing_event_timestamp
    bad_timestamp :
        {p : PaymentEventPayload} {s : String} {x : Error}
        → unmarshal_payload decoders raw ≡ ok p
        → trim_space p.provider_event_id ≢ ""
        → trim_space p.payment_id ≢ ""
        → map_event_type_to_status (trim_space p.event_type) ≡ ok s
        → trim_space p.event_timestamp ≢ ""
        → decoders.rfc3339 (trim_space p.event_timestamp) ≡ err x
        → Fails raw invalid_event_timestamp

  abbrev pub Refused : List ℕ → Error → Type 0
  Refused raw x = (s : Sentinel) × Fails raw s × (is x s ≡ true)

  -- A body that does not parse fails one of the seven checks, in the order in which they are made,
  -- and the error is the one of that check.
  pub parse_event-Refused :
      (raw : List ℕ) (x : Error) → parse_event decoders raw ≡ err x → Refused raw x
  unfolding parse_event
  parse_event-Refused raw x h =
      bind_err_cases _ _ h
        (λ e. let (y, u, i) = relabel-eq-err _ _ e in (invalid_json, bad_json u, i))
        λ p dp h1.
          let d = relabel-eq-ok _ _ dp in
          bind_err_cases _ _ h1
            (λ e.
              let (z, i) = require-eq-err _ _ e in (missing_provider_event_id, no_event_id d z, i))
            λ _ r1 h2.
              let n1 = require-eq-ok _ _ r1 in
              bind_err_cases _ _ h2
                (λ e.
                  let (z, i) = require-eq-err _ _ e in
                  (missing_payment_id, no_payment_id d n1 z, i))
                λ _ r2 h3.
                  let n2 = require-eq-ok _ _ r2 in
                  bind_err_cases _ _ h3
                    (λ e.
                      let (z, i) = require-eq-err _ _ e in
                      (missing_event_type, no_event_type d n1 n2 z, i))
                    λ _ r3 h4.
                      let n3 = require-eq-ok _ _ r3 in
                      bind_err_cases _ _ h4
                        (λ e. (unknown_event_type, bad_event_type d n1 n2 n3 e, map-eq-err _ e))
                        λ s m h5.
                          bind_err_cases _ _ h5
                            (λ e.
                              let (z, i) = require-eq-err _ _ e in
                              (missing_event_timestamp, no_timestamp d n1 n2 m z, i))
                            λ _ r4 h6.
                              bind_err_cases _ _ h6
                                (λ e.
                                  let (y, u, i) = relabel-eq-err _ _ e in
                                  (
                                    invalid_event_timestamp,
                                    bad_timestamp d n1 n2 m (require-eq-ok _ _ r4) u,
                                    i,
                                  ))
                                λ _ _ h7. absurd (err≢ok (sym h7))
