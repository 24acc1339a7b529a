-- ===== src/Repository/Anomalies/Laws.antt =====
-- Recording an anomaly leaves the payments and the events alone, and adds a row at most.
use payment_webhook_processo.Prelude.{ℕ, String, Option, List, ◌≡◌, refl, ap, inl, inr}
use payment_webhook_processo.Failure.{Result, ok, err, Result-cases}
use payment_webhook_processo.World.{World}
use payment_webhook_processo.Json.{Json}
use payment_webhook_processo.Metrics.{Metrics}
use payment_webhook_processo.Repository.Rows.{Anomaly, WebhookEventRow, Payment}
use payment_webhook_processo.Repository.Postgres.{Postgres, IsPostgres, Tables}
use payment_webhook_processo.Repository.Anomalies.{
  record_anomaly, insert_marshalled, anomaly_columns,
}

-- The tables that an anomaly's payment and event are in.
abbrev pub Main : Type 0
Main = (String → Option Payment) × List WebhookEventRow

abbrev pub main_tables : Tables → Main
main_tables t = (t.payments, t.webhook_events)

module _ (pg : Postgres) (laws : IsPostgres pg) (metrics : Option Metrics)
    (marshal_time : ℕ → Result String) where
  insert_marshalled-main :
      (a : Anomaly) (details : Result Json) (w : World pg.State)
      → main_tables (pg.contents (insert_marshalled pg metrics marshal_time a details w).1.database)
        ≡ main_tables (pg.contents w.database)
  unfolding insert_marshalled
  insert_marshalled-main a (err e) w = refl
  insert_marshalled-main a (ok details) w =
      Result-cases (pg.insert_anomaly (anomaly_columns a details) w.database).0
        (λ _ good. ap main_tables (laws.insert_anomaly_ok _ w.database good))
        λ e bad. elim (laws.insert_anomaly_err _ w.database e bad) [
          | inl same ↦ ap main_tables same
          | inr put ↦ ap main_tables put
        ]

  pub record_anomaly-main :
      (a : Anomaly) (w : World pg.State)
      → main_tables (pg.contents (record_anomaly pg metrics marshal_time a w).1.database)
        ≡ main_tables (pg.contents w.database)
  unfolding record_anomaly
  record_anomaly-main a w = insert_marshalled-main a _ _
