-- ===== src/Repository/Origins.antt =====
-- Where the rows of payments come from: a row has the payment, the instant and the status of an
-- event that is stored.
pub mod Operations
use mathlib.Core.Path.{subst}
use payment_webhook_processo.Prelude.{
  ℕ, String, Option, some, List, [], ◌∷◌, ◌++◌, ◌≡◌, refl, sym, ap, ◌∙◌, ◌⊎◌, inl, inr, ◌==◌,
  Bool-cases,
}
use payment_webhook_processo.Failure.{Result, ok, err, Result-cases}
use payment_webhook_processo.World.{World}
use payment_webhook_processo.Metrics.{Metrics}
use payment_webhook_processo.Webhook.Event.{PaymentEvent, map_event_type_to_status}
use payment_webhook_processo.Repository.Rows.{Payment, Anomaly, NewWebhookEvent, WebhookEventRow}
use payment_webhook_processo.Repository.Postgres.{
  Postgres, IsPostgres, Tables, with_payment, with_event,
}
use payment_webhook_processo.Repository.Postgres
use payment_webhook_processo.Repository.Payments.{upsert}
use payment_webhook_processo.Repository.Anomalies.{record_anomaly}
use payment_webhook_processo.Repository.Anomalies.Laws.{Main, main_tables, record_anomaly-main}
use payment_webhook_processo.Repository.WebhookEvents.{event_columns}
use payment_webhook_processo.Repository.WebhookEvents.Laws.{Insertion, stored, duplicate, unknown}
use payment_webhook_processo.Service.PaymentProcessor.{payment_from_event}

-- The status of an event is the one that its type names, as ParseEvent makes it.
abbrev pub IsNamed : PaymentEvent → Type 0
IsNamed event = map_event_type_to_status event.event_type ≡ ok event.payment_status

module _ (stored_time : ℕ → ℕ) where
  pub record IsOrigin (e : NewWebhookEvent) (p : Payment) : Type 0 where
    pub of_payment : e.payment_id ≡ p.payment_id
    pub at_instant : stored_time e.event_timestamp ≡ p.status_timestamp
    pub with_status : map_event_type_to_status e.event_type ≡ ok p.status

  abbrev pub HasOrigin : Payment → List WebhookEventRow → Type 0
  HasOrigin p [] = ⊥
  HasOrigin p (row ∷ rows) = IsOrigin row.event p ⊎ HasOrigin p rows

  -- Every row of a payment has an origin.
  abbrev pub AllOrigins : Main → Type 0
  AllOrigins m = (id : String) (p : Payment) → m.0 id ≡ some p → HasOrigin p m.1

  pub HasOrigin-append :
      (p : Payment) (rows more : List WebhookEventRow)
      → HasOrigin p rows
      → HasOrigin p (rows ++ more)
  HasOrigin-append p [] more h = absurd h
  HasOrigin-append p (row ∷ rows) more (inl here) = inl here
  HasOrigin-append p (row ∷ rows) more (inr there) = inr (HasOrigin-append p rows more there)

  pub HasOrigin-last :
      (p : Payment) (rows : List WebhookEventRow) (row : WebhookEventRow)
      → IsOrigin row.event p
      → HasOrigin p (rows ++ row ∷ [])
  HasOrigin-last p [] row h = inl h
  HasOrigin-last p (r ∷ rows) row h = inr (HasOrigin-last p rows row h)

  -- What a change of the tables keeps.
  pub record Keeps (m n : Main) : Type 0 where
    pub origins : (p : Payment) → HasOrigin p m.1 → HasOrigin p n.1
    pub rows : AllOrigins m → AllOrigins n

  pub Keeps-refl : {m n : Main} → n ≡ m → Keeps m n
  Keeps-refl same = rw same (record { origins = λ p h. h; rows = λ h. h })

  pub Keeps-trans : {m n o : Main} → Keeps m n → Keeps n o → Keeps m o
  Keeps-trans k l = record {
    origins = λ p h. l.origins p (k.origins p h);
    rows = λ h. l.rows (k.rows h);
  }

some-injective : {p q : Payment} → some p ≡ some q → p ≡ q
some-injective h = cc

module _ (pg : Postgres) where
  open pg use {stored_time}

  -- The row that an event leads to, as it is read back.
  abbrev pub row_of : PaymentEvent → Payment
  row_of event = Postgres.stored pg (payment_from_event event)

  pub Keeps-with_event :
      (id : ℕ) (event : PaymentEvent) (t : Tables)
      → Keeps stored_time (main_tables t) (main_tables (with_event pg id (event_columns event) t))
  Keeps-with_event id event t = record {
    origins = λ p h. HasOrigin-append stored_time p t.webhook_events _ h;
    rows = λ all i p is_row. HasOrigin-append stored_time p t.webhook_events _ (all i p is_row);
  }

  pub Keeps-with_payment :
      (p : Payment) (t : Tables)
      → HasOrigin stored_time (Postgres.stored pg p) t.webhook_events
      → Keeps stored_time (main_tables t) (main_tables (with_payment pg p t))
  Keeps-with_payment p t origin = record { origins = λ q h. h; rows = λ all id q. row all id q }
    where
      row :
          AllOrigins stored_time (main_tables t)
          → (id : String) (q : Payment) → (with_payment pg p t).payments id ≡ some q
          → HasOrigin stored_time q t.webhook_events
      row all id q = elim (Bool-cases (p.payment_id == id)) [
        | inl same ↦ rw same (λ h.
            subst (λ (x : Payment). HasOrigin stored_time x t.webhook_events) (some-injective h)
              origin)
        | inr other ↦ rw other (λ h. all id q h)
      ]
