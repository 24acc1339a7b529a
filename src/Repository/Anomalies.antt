-- ===== src/Repository/Anomalies.antt =====
-- internal/repository/anomalies.go.
pub mod Laws
use payment_webhook_processo.Prelude.{ℕ, String, Option, none, some, nat_eq, if◌then◌else◌}
use payment_webhook_processo.Failure.{Error, wrap, Result, ok, err}
use payment_webhook_processo.Failure
use payment_webhook_processo.Json.{Json, text, object, end, field}
use payment_webhook_processo.World.{Action, run, pure, ◌>>=◌, ◌>>◌}
use payment_webhook_processo.Metrics.{Metrics, start_database_write_timer, observe_timer}
use payment_webhook_processo.Repository.Rows.{Anomaly, AnomalyDetails, AnomalyRow}
use payment_webhook_processo.Repository.Postgres.{Postgres}
use payment_webhook_processo.Service.Interfaces.{AnomalyRecorder}
use payment_webhook_processo.Repository.Payments.{wrapped}

unfoldable pub nullable_webhook_event_id : ℕ → Option ℕ
nullable_webhook_event_id id = if nat_eq id 0 then none else some id

-- `marshal_time` is `time.Time.MarshalJSON`, which fails outside the years 0 to 9999.
module _ (marshal_time : ℕ → Result String) where
  unfoldable pub marshal_details : AnomalyDetails → Result Json
  marshal_details d = Failure.◌>>=◌ (marshal_time d.current_timestamp) λ current.
      Failure.◌>>=◌ (marshal_time d.incoming_timestamp) λ incoming. ok (
        object (
          field "provider_event_id" (text d.provider_event_id) (
            field "current_status" (text d.current_status) (
              field "current_timestamp" (text current) (
                field "incoming_status" (text d.incoming_status)
                  (field "incoming_timestamp" (text incoming) end))))))

abbrev pub anomaly_columns : Anomaly → Json → AnomalyRow
anomaly_columns a details = record {
  webhook_event_id = nullable_webhook_event_id a.webhook_event_id;
  payment_id = a.payment_id;
  anomaly_type = a.anomaly_type;
  details = details;
}

module _ (pg : Postgres) (metrics : Option Metrics) (marshal_time : ℕ → Result String) where
  unfoldable pub insert_marshalled : Anomaly → Result Json → Action pg.State (Result (Unit {0}))
  insert_marshalled anomaly (err e) = pure (err (wrap "marshal anomaly details" e))
  insert_marshalled anomaly (ok details) = do
    result ← run (pg.insert_anomaly (anomaly_columns anomaly details))
    pure (wrapped "insert anomaly" result)

  unfoldable pub record_anomaly : Anomaly → Action pg.State (Result (Unit {0}))
  unfolding insert_marshalled start_database_write_timer observe_timer
  record_anomaly anomaly = do
    timer ← start_database_write_timer {L = Unit {0}} metrics "insert_anomaly"
    result ← insert_marshalled anomaly (marshal_details marshal_time anomaly.details)
    observe_timer timer tt
    pure result

-- `NewAnomalyRepository`, with the method of the type.
abbrev pub new_anomaly_repository :
    (pg : Postgres) → Option Metrics → (ℕ → Result String) → AnomalyRecorder pg.State
new_anomaly_repository pg metrics marshal_time = record {
  record_anomaly = record_anomaly pg metrics marshal_time;
}
