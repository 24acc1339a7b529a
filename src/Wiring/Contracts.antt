-- ===== src/Wiring/Contracts.antt =====
-- The payment processor over PostgreSQL: its outcome, and what it leaves alone.
use payment_webhook_processo.Prelude.{
  ℕ, ◌≤◌, String, Option, some, ◌≡◌, ap, ◌⊎◌, inl, inr, true, List,
}
use payment_webhook_processo.Failure.{Result, Result-cases}
use payment_webhook_processo.World.{World}
use payment_webhook_processo.Metrics.{Metrics}
use payment_webhook_processo.Repository.Rows.{Payment, Anomaly, WebhookEventRow}
use payment_webhook_processo.Repository.Postgres.{Postgres, IsPostgres, Tables}
use payment_webhook_processo.Repository.Payments.{get_by_payment_id, upsert}
use payment_webhook_processo.Repository.Payments.Laws.{payment_repository-KeepsPayments}
use payment_webhook_processo.Repository.Anomalies.Laws.{Main, record_anomaly-main}
use payment_webhook_processo.Repository.Anomalies.{record_anomaly}
use payment_webhook_processo.Service.Anomaly.{is_transition_allowed}
use payment_webhook_processo.Service.PaymentProcessor.{PaymentUpdate, update_payment, with_current}
use payment_webhook_processo.Service.PaymentProcessor.Frame.{process-view, with_current-view}
use payment_webhook_processo.Service.PaymentProcessor.Outcomes.{process_advances}
use payment_webhook_processo.Wiring.{payment_processor}

module _ (pg : Postgres) where
  abbrev pub payments_of : pg.State → String → Option Payment
  payments_of s = (pg.contents s).payments

  abbrev pub events_of : pg.State → List WebhookEventRow
  events_of s = (pg.contents s).webhook_events

module _ (pg : Postgres) (laws : IsPostgres pg) (metrics : Option Metrics)
    (marshal_time : ℕ → Result String) where
  select_keeps-events :
      (id : String) (w : World pg.State)
      → events_of pg (pg.select_payment id w.database).1 ≡ events_of pg w.database
  select_keeps-events id w = ap (λ (t : Tables). t.webhook_events) (laws.select_keeps id w.database)

  upsert_payment-events :
      (p : Payment) (w : World pg.State)
      → events_of pg (pg.upsert_payment p w.database).1 ≡ events_of pg w.database
  upsert_payment-events p w =
      Result-cases (pg.upsert_payment p w.database).0
        (λ _ good. ap (λ (t : Tables). t.webhook_events) (laws.upsert_ok p w.database good))
        λ e bad. elim (laws.upsert_err p w.database e bad) [
          | inl same ↦ ap (λ (t : Tables). t.webhook_events) same
          | inr put ↦ ap (λ (t : Tables). t.webhook_events) put
        ]

  record_anomaly-events :
      (a : Anomaly) (w : World pg.State)
      → events_of pg (record_anomaly pg metrics marshal_time a w).1.database
        ≡ events_of pg w.database
  record_anomaly-events a w =
      ap (λ (m : Main). m.1) (record_anomaly-main pg laws metrics marshal_time a w)

  -- Every update of a payment leaves the stored events alone.
  pub update_payment-events :
      (update : PaymentUpdate) (w : World pg.State)
      → events_of pg
          (update_payment (payment_processor pg metrics marshal_time) update w).1.database
        ≡ events_of pg w.database
  unfolding update_payment get_by_payment_id upsert
  update_payment-events =
      process-view (payment_processor pg metrics marshal_time) (events_of pg) select_keeps-events
        upsert_payment-events record_anomaly-events

  -- So does its part after the read.
  pub with_current-events :
      (r : Result Payment) (update : PaymentUpdate) (w : World pg.State)
      → events_of pg
          (with_current (payment_processor pg metrics marshal_time) r update w).1.database
        ≡ events_of pg w.database
  unfolding get_by_payment_id upsert
  with_current-events =
      with_current-view (payment_processor pg metrics marshal_time) (events_of pg)
        select_keeps-events upsert_payment-events record_anomaly-events

  pub get_by_payment_id-events :
      (id : String) (w : World pg.State)
      → events_of pg (get_by_payment_id pg metrics id w).1.database ≡ events_of pg w.database
  unfolding get_by_payment_id
  get_by_payment_id-events id w = select_keeps-events id w

  pub update_payment_advances :
      (update : PaymentUpdate) (w : World pg.State) (id : String) (current : Payment)
      → payments_of pg w.database id ≡ some current
      → (next : Payment) × (payments_of pg
            (update_payment (payment_processor pg metrics marshal_time) update w).1.database
            id
          ≡ some next)
        × (current.status_timestamp ≤ next.status_timestamp)
        × ((next ≡ current) ⊎ (is_transition_allowed current.status next.status ≡ true))
  unfolding update_payment
  update_payment_advances =
      process_advances (payment_processor pg metrics marshal_time) (payments_of pg) pg.stored_time
        (payment_repository-KeepsPayments pg laws metrics)
        (λ a w'. ap (λ (m : Main). m.0) (record_anomaly-main pg laws metrics marshal_time a w'))
