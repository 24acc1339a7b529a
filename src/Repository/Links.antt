-- ===== src/Repository/Links.antt =====
-- What the table of anomalies refers to: the event that an anomaly's row names is stored, for the
-- anomaly's payment, and this payment has a row.
pub mod Operations
use payment_webhook_processo.Prelude.{
  ℕ, ◌≤◌, String, Option, some, List, [], ◌∷◌, ◌++◌, ◌≡◌, refl, sym, ap, ◌⊎◌, inl, inr, ◌==◌,
  Bool-cases, All, All-append,
}
use payment_webhook_processo.Failure.{Result, ok, err, Result-cases}
use payment_webhook_processo.Webhook.Event.{PaymentEvent}
use payment_webhook_processo.World.{World}
use payment_webhook_processo.Metrics.{Metrics}
use payment_webhook_processo.Json.{Json}
use payment_webhook_processo.Repository.Rows.{Payment, Anomaly, WebhookEventRow, AnomalyRow}
use payment_webhook_processo.Repository.Postgres.{
  Postgres, IsPostgres, Tables, put, stored, with_payment, with_event, with_anomaly,
}
use payment_webhook_processo.Repository.Anomalies.{
  nullable_webhook_event_id, record_anomaly, insert_marshalled, anomaly_columns,
}
use payment_webhook_processo.Repository.WebhookEvents.{event_columns}
use payment_webhook_processo.Repository.WebhookEvents.Laws.{Insertion, duplicate, unknown}
use payment_webhook_processo.Repository.WebhookEvents.Laws

-- An event of the payment is stored under this identifier, which is not 0.
abbrev pub HasEvent : ℕ → String → List WebhookEventRow → Type 0
HasEvent id payment_id [] = ⊥
HasEvent id payment_id (row ∷ rows) =
    ((row.id ≡ id) × (1 ≤ id) × (row.event.payment_id ≡ payment_id)) ⊎ HasEvent id payment_id rows

abbrev pub HasPayment : String → Tables → Type 0
HasPayment payment_id t = (p : Payment) × (t.payments payment_id ≡ some p)

pub record IsLinked (t : Tables) (a : AnomalyRow) : Type 0 where
  pub id : ℕ
  pub is_id : a.webhook_event_id ≡ some id
  pub event : HasEvent id a.payment_id t.webhook_events
  pub payment : HasPayment a.payment_id t

abbrev pub AllLinked : Tables → Type 0
AllLinked t = All (IsLinked t) t.anomalies

HasEvent-append :
    (id : ℕ) (payment_id : String) (rows more : List WebhookEventRow)
    → HasEvent id payment_id rows
    → HasEvent id payment_id (rows ++ more)
HasEvent-append id payment_id [] more h = absurd h
HasEvent-append id payment_id (row ∷ rows) more (inl here) = inl here
HasEvent-append id payment_id (row ∷ rows) more (inr there) =
    inr (HasEvent-append id payment_id rows more there)

pub HasEvent-last :
    (rows : List WebhookEventRow) (row : WebhookEventRow)
    → 1 ≤ row.id
    → HasEvent row.id row.event.payment_id (rows ++ row ∷ [])
HasEvent-last [] row counted = inl (refl, counted, refl)
HasEvent-last (r ∷ rows) row counted = inr (HasEvent-last rows row counted)

pub HasEvent-positive :
    (id : ℕ) (payment_id : String) (rows : List WebhookEventRow)
    → HasEvent id payment_id rows
    → 1 ≤ id
HasEvent-positive id payment_id [] h = absurd h
HasEvent-positive id payment_id (row ∷ rows) (inl (_, counted, _)) = counted
HasEvent-positive id payment_id (row ∷ rows) (inr there) =
    HasEvent-positive id payment_id rows there

-- Tables that keep what others have.
pub record Extends (t u : Tables) : Type 0 where
  pub events :
      (id : ℕ) (payment_id : String)
      → HasEvent id payment_id t.webhook_events
      → HasEvent id payment_id u.webhook_events
  pub payments : (payment_id : String) → HasPayment payment_id t → HasPayment payment_id u
  pub linked : AllLinked t → AllLinked u

pub Extends-refl : {t u : Tables} → u ≡ t → Extends t u
Extends-refl same =
    rw same
      (record { events = λ id payment_id h. h; payments = λ payment_id h. h; linked = λ h. h })

pub Extends-trans : {t u v : Tables} → Extends t u → Extends u v → Extends t v
Extends-trans e f = record {
  events = λ id payment_id h. f.events id payment_id (e.events id payment_id h);
  payments = λ payment_id h. f.payments payment_id (e.payments payment_id h);
  linked = λ h. f.linked (e.linked h);
}

module _ (t u : Tables)
    (events : (id : ℕ) (payment_id : String)
      → HasEvent id payment_id t.webhook_events
      → HasEvent id payment_id u.webhook_events)
    (payments : (payment_id : String) → HasPayment payment_id t → HasPayment payment_id u) where
  IsLinked-mono : {a : AnomalyRow} → IsLinked t a → IsLinked u a
  IsLinked-mono {a} l = record {
    id = l.id;
    is_id = l.is_id;
    event = events l.id a.payment_id l.event;
    payment = payments a.payment_id l.payment;
  }

  IsLinked-All : (rows : List AnomalyRow) → All (IsLinked t) rows → All (IsLinked u) rows
  IsLinked-All [] ls = tt
  IsLinked-All (a ∷ rows) (l, ls) = (IsLinked-mono l, IsLinked-All rows ls)

module _ (pg : Postgres) where
  pub Extends-with_event :
      (id : ℕ) (event : PaymentEvent) (t : Tables)
      → Extends t (with_event pg id (event_columns event) t)
  Extends-with_event id event t =
      let grows : (n : ℕ) (payment_id : String)
          → HasEvent n payment_id t.webhook_events
          → HasEvent n payment_id (with_event pg id (event_columns event) t).webhook_events =
        λ n payment_id. HasEvent-append n payment_id t.webhook_events _ in
      record {
        events = grows;
        payments = λ payment_id h. h;
        linked =
            IsLinked-All t (with_event pg id (event_columns event) t) grows (λ payment_id h. h)
              t.anomalies;
      }

  HasPayment-put :
      (p : Payment) (t : Tables) (payment_id : String)
      → HasPayment payment_id t
      → HasPayment payment_id (with_payment pg p t)
  HasPayment-put p t payment_id (q, h) = elim (Bool-cases (p.payment_id == payment_id)) [
    | inl same ↦ rw same (_, refl)
    | inr other ↦ rw other (q, h)
  ]

  pub Extends-with_payment : (p : Payment) (t : Tables) → Extends t (with_payment pg p t)
  Extends-with_payment p t = record {
    events = λ id payment_id h. h;
    payments = HasPayment-put p t;
    linked =
        IsLinked-All t (with_payment pg p t) (λ id payment_id h. h) (HasPayment-put p t)
          t.anomalies;
  }

  pub Extends-with_anomaly :
      (a : AnomalyRow) (t : Tables) → IsLinked t a → Extends t (with_anomaly pg a t)
  Extends-with_anomaly a t l =
      let u = with_anomaly pg a t in
      record {
        events = λ id payment_id h. h;
        payments = λ payment_id h. h;
        linked = λ ls.
            All-append (IsLinked u) t.anomalies _
              (IsLinked-All t u (λ id payment_id h. h) (λ payment_id h. h) t.anomalies ls)
              (IsLinked-mono t u (λ id payment_id h. h) (λ payment_id h. h) l, tt);
      }
