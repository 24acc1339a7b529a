-- ===== src/Repository/Origins/Operations.antt =====
-- The repositories' operations keep the origins of the payments' rows.
use payment_webhook_processo.Prelude.{ℕ, String, Option, ◌≡◌, refl, ap, inl, inr}
use payment_webhook_processo.Failure.{Result, ok, Result-cases}
use payment_webhook_processo.World.{World}
use payment_webhook_processo.Metrics.{Metrics}
use payment_webhook_processo.Webhook.Event.{PaymentEvent}
use payment_webhook_processo.Repository.Rows.{Payment, Anomaly}
use payment_webhook_processo.Repository.Postgres.{Postgres, IsPostgres, Tables}
use payment_webhook_processo.Repository.Postgres
use payment_webhook_processo.Repository.Payments.{upsert}
use payment_webhook_processo.Repository.Anomalies.{record_anomaly}
use payment_webhook_processo.Repository.Anomalies.Laws.{Main, main_tables, record_anomaly-main}
use payment_webhook_processo.Repository.WebhookEvents.{event_columns}
use payment_webhook_processo.Repository.WebhookEvents.Laws.{Insertion, stored, duplicate, unknown}
use payment_webhook_processo.Repository.Origins.{
  IsNamed, HasOrigin, HasOrigin-last, Keeps, Keeps-refl, Keeps-trans, row_of, Keeps-with_event,
  Keeps-with_payment,
}

module _ (pg : Postgres) where
  open pg use {stored_time}

  moved :
      {m : Main} {u v : Tables}
      → v ≡ u
      → Keeps stored_time m (main_tables u)
      → Keeps stored_time m (main_tables v)
  moved same k = Keeps-trans stored_time k (Keeps-refl stored_time (ap main_tables same))

  same_tables : {t u : Tables} → u ≡ t → Keeps stored_time (main_tables t) (main_tables u)
  same_tables same = Keeps-refl stored_time (ap main_tables same)

  pub Insertion-Keeps :
      {t u : Tables} {event : PaymentEvent} {r : Result ℕ}
      → Insertion pg t u event r
      → Keeps stored_time (main_tables t) (main_tables u)
  Insertion-Keeps {t} {event} (stored id _ put _) = moved put (Keeps-with_event pg id event t)
  Insertion-Keeps (duplicate _ same _) = same_tables same
  Insertion-Keeps (unknown _ _ (inl same) _) = same_tables same
  Insertion-Keeps {t} {event} (unknown _ _ (inr (id, _, put)) _) =
      moved put (Keeps-with_event pg id event t)

  pub Insertion-HasOrigin :
      {t u : Tables} {event : PaymentEvent} {r : Result ℕ} {n : ℕ}
      → Insertion pg t u event r
      → IsNamed event
      → r ≡ ok n
      → HasOrigin stored_time (row_of pg event) u.webhook_events
  Insertion-HasOrigin {t} {event} (stored id _ put _) named h =
      rw (ap (λ (x : Tables). x.webhook_events) put) (
        HasOrigin-last stored_time (row_of pg event) t.webhook_events
          (record { id = id; event = event_columns event })
          (record { of_payment = refl; at_instant = refl; with_status = named }))
  Insertion-HasOrigin (duplicate _ _ is_err) named h = absurd (cc (is_err, h))
  Insertion-HasOrigin (unknown _ _ _ is_err) named h = absurd (cc (is_err, h))

  module _ (laws : IsPostgres pg) (metrics : Option Metrics) where
    -- A row is written where it has an origin.
    pub upsert-Keeps :
        (p : Payment) (w : World pg.State)
        → HasOrigin stored_time (Postgres.stored pg p) (pg.contents w.database).webhook_events
        → Keeps stored_time
            (main_tables (pg.contents w.database))
            (main_tables (pg.contents (upsert pg metrics p w).1.database))
    unfolding upsert
    upsert-Keeps p w origin =
        Result-cases (pg.upsert_payment p w.database).0
          (λ _ good.
            moved (laws.upsert_ok p w.database good)
              (Keeps-with_payment pg p (pg.contents w.database) origin))
          λ e bad. elim (laws.upsert_err p w.database e bad) [
            | inl same ↦ same_tables same
            | inr put ↦ moved put (Keeps-with_payment pg p (pg.contents w.database) origin)
          ]

    pub record_anomaly-Keeps :
        (marshal_time : ℕ → Result String) (a : Anomaly) (w : World pg.State)
        → Keeps stored_time
            (main_tables (pg.contents w.database))
            (main_tables (pg.contents (record_anomaly pg metrics marshal_time a w).1.database))
    record_anomaly-Keeps marshal_time a w =
        Keeps-refl stored_time (record_anomaly-main pg laws metrics marshal_time a w)
