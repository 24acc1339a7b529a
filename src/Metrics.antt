-- ===== src/Metrics.antt =====
-- internal/metrics/metrics.go: the instruments, the counters and the timers. A nil `*Metrics` is
-- `none`. A measurement is what is handed to an instrument; how OpenTelemetry and Prometheus
-- aggregate it is not modelled.
pub mod Sdk
pub mod Instruments
pub mod Stats
use payment_webhook_processo.Prelude.{
  ℕ, ◌+◌, ◌-◌, String, Bool, true, Option, none, some, List, [], ◌∷◌, ◌++◌, ◌==◌, if◌then◌else◌,
}
use payment_webhook_processo.Failure.{Result, ok, ◌>>=◌}
use payment_webhook_processo.World.{
  Kind, int64_counter, float64_histogram, int64_observable_gauge, int64_observable_counter,
  float64_observable_counter, Instrument, Measurement, Action,
}
use payment_webhook_processo.Metrics.Sdk.{
  Collector, go_collector, process_collector, otel_exporter, Registry, MeterProvider,
  duration_histogram_view, Otel,
}

abbrev pub namespace : String
namespace = "payment_webhook"

abbrev pub result_key : String
result_key = "result"

abbrev pub status_key : String
status_key = "status"

abbrev pub reason_key : String
reason_key = "reason"

abbrev pub operation_key : String
operation_key = "operation"

abbrev pub event_type_key : String
event_type_key = "event_type"

abbrev pub anomaly_type_key : String
anomaly_type_key = "anomaly_type"

pub record Metrics : Type 0 where
  pub registry : Registry
  pub meter_provider : Option MeterProvider
  pub webhook_requests_total : Instrument
  pub webhook_success_total : Instrument
  pub webhook_errors_total : Instrument
  pub webhook_signature_failures : Instrument
  pub webhook_duplicates_total : Instrument
  pub webhook_anomalies_total : Instrument
  pub provider_events_total : Instrument
  pub payment_processing_total : Instrument
  pub payment_ignored_total : Instrument
  pub webhook_response_duration : Instrument
  pub database_write_duration : Instrument
  pub payment_processing_duration : Instrument
  pub db_open_connections : Instrument
  pub db_in_use_connections : Instrument
  pub db_idle_connections : Instrument
  pub db_wait_count : Instrument
  pub db_wait_duration : Instrument

module _ (otel : Otel) where
  -- An error of the exporter or of the meter panics.
  unfoldable pub new_with_registry : Registry → Result Metrics
  new_with_registry registry = do
    exporting ← otel.new_exporter namespace registry
    let provider : MeterProvider = record {
      reader = otel_exporter namespace;
      views =
          duration_histogram_view "response.duration" (otel.exponential_buckets 5000 2 10)
          ∷ duration_histogram_view "database.write.duration" (otel.exponential_buckets 1000 2 10)
          ∷ duration_histogram_view "processing.duration" (otel.exponential_buckets 1000 2 10)
          ∷ [];
    }
    webhook_requests_total ← otel.create provider int64_counter "requests"
    webhook_success_total ← otel.create provider int64_counter "success"
    webhook_errors_total ← otel.create provider int64_counter "errors"
    webhook_signature_failures ← otel.create provider int64_counter "signature_failures"
    webhook_duplicates_total ← otel.create provider int64_counter "duplicates"
    webhook_anomalies_total ← otel.create provider int64_counter "anomalies"
    provider_events_total ← otel.create provider int64_counter "provider_events"
    payment_processing_total ← otel.create provider int64_counter "payment_processing"
    payment_ignored_total ← otel.create provider int64_counter "payment_ignored"
    webhook_response_duration ← otel.create provider float64_histogram "response.duration"
    database_write_duration ← otel.create provider float64_histogram "database.write.duration"
    payment_processing_duration ← otel.create provider float64_histogram "processing.duration"
    db_open_connections ← otel.create provider int64_observable_gauge "db.open_connections"
    db_in_use_connections ← otel.create provider int64_observable_gauge "db.in_use_connections"
    db_idle_connections ← otel.create provider int64_observable_gauge "db.idle_connections"
    db_wait_count ← otel.create provider int64_observable_counter "db.wait_count"
    db_wait_duration ← otel.create provider float64_observable_counter "db.wait_duration"
    ok (record {
      registry = exporting;
      meter_provider = some provider;
      webhook_requests_total = webhook_requests_total;
      webhook_success_total = webhook_success_total;
      webhook_errors_total = webhook_errors_total;
      webhook_signature_failures = webhook_signature_failures;
      webhook_duplicates_total = webhook_duplicates_total;
      webhook_anomalies_total = webhook_anomalies_total;
      provider_events_total = provider_events_total;
      payment_processing_total = payment_processing_total;
      payment_ignored_total = payment_ignored_total;
      webhook_response_duration = webhook_response_duration;
      database_write_duration = database_write_duration;
      payment_processing_duration = payment_processing_duration;
      db_open_connections = db_open_connections;
      db_in_use_connections = db_in_use_connections;
      db_idle_connections = db_idle_connections;
      db_wait_count = db_wait_count;
      db_wait_duration = db_wait_duration;
    })

  -- `MustRegister`: an error panics.
  abbrev must_register : List Collector → Registry → Result Registry
  must_register [] registry = ok registry
  must_register (c ∷ cs) registry = do more ← otel.register c registry; must_register cs more

  -- `New`; a panic is an error here.
  unfoldable pub new : Result Metrics
  unfolding new_with_registry
  new = do
    registry ← must_register (go_collector ∷ process_collector ∷ []) []
    new_with_registry registry

abbrev pub label_value : String → String
label_value value = if value == "" then "unknown" else value

abbrev pub add : Instrument → List (String × String) → Measurement
add i attributes = record { instrument = i; attributes = attributes; value = 1 }

abbrev pub observation : Instrument → String → String → ℕ → Measurement
observation i key label duration = record {
  instrument = i;
  attributes = (key, label_value label) ∷ [];
  value = duration;
}

-- What is measured: nothing on a nil receiver.
abbrev samples : (Metrics → Measurement) → Option Metrics → List Measurement
samples f none = []
samples f (some m) = f m ∷ []

abbrev emit : {D : Type 0} → List Measurement → Action D (Unit {0})
emit ms w = (tt, record w { measurements = w.measurements ++ ms })

module _ {D : Type 0} (metrics : Option Metrics) where
  unfoldable pub inc_webhook_request : Action D (Unit {0})
  inc_webhook_request = emit (samples (λ m. add m.webhook_requests_total []) metrics)

  unfoldable pub inc_webhook_success : String → Action D (Unit {0})
  inc_webhook_success result =
      emit
        (samples (λ m. add m.webhook_success_total ((result_key, label_value result) ∷ [])) metrics)

  unfoldable pub inc_webhook_error : String → Action D (Unit {0})
  inc_webhook_error result =
      emit
        (samples (λ m. add m.webhook_errors_total ((result_key, label_value result) ∷ [])) metrics)

  unfoldable pub inc_signature_failure : Action D (Unit {0})
  inc_signature_failure = emit (samples (λ m. add m.webhook_signature_failures []) metrics)

  unfoldable pub inc_webhook_duplicate : String → Action D (Unit {0})
  inc_webhook_duplicate event_type = emit (
      samples (λ m. add m.webhook_duplicates_total ((event_type_key, label_value event_type) ∷ []))
        metrics)

  unfoldable pub inc_anomaly : String → Action D (Unit {0})
  inc_anomaly anomaly_type = emit (
      samples
        (λ m. add m.webhook_anomalies_total ((anomaly_type_key, label_value anomaly_type) ∷ []))
        metrics)

  unfoldable pub inc_provider_event : String → String → Action D (Unit {0})
  inc_provider_event event_type status = emit (
      samples
        (λ m.
          add m.provider_events_total
            ((event_type_key, label_value event_type) ∷ (status_key, label_value status) ∷ []))
        metrics)

  unfoldable pub inc_payment_processing : String → Action D (Unit {0})
  inc_payment_processing status = emit (
      samples (λ m. add m.payment_processing_total ((status_key, label_value status) ∷ [])) metrics)

  unfoldable pub inc_payment_ignored : String → Action D (Unit {0})
  inc_payment_ignored reason =
      emit
        (samples (λ m. add m.payment_ignored_total ((reason_key, label_value reason) ∷ [])) metrics)

-- A timer over the caller's variables `L`: what it records when it is observed, by the values that
-- the variables then have. The zero time is `none`.
pub record Timer (L : Type 0) : Type 0 where
  pub started_at : Option ℕ
  pub observe : L → ℕ → List Measurement

abbrev zero_timer : {L : Type 0} → Timer L
zero_timer = record { started_at = none; observe = λ _ _. [] }

-- A nil pointer reads as "unknown".
abbrev pointed_label : {L : Type 0} → Option (L → String) → L → String
pointed_label none locals = "unknown"
pointed_label (some read) locals = read locals

-- `ObserveWebhookResponseDuration` and its like: what they record.
abbrev observe_webhook_response_duration : Option Metrics → String → ℕ → List Measurement
observe_webhook_response_duration metrics result duration =
    samples (λ m. observation m.webhook_response_duration result_key result duration) metrics

abbrev observe_database_write_duration : Option Metrics → String → ℕ → List Measurement
observe_database_write_duration metrics operation duration =
    samples (λ m. observation m.database_write_duration operation_key operation duration) metrics

abbrev observe_payment_processing_duration : Option Metrics → String → ℕ → List Measurement
observe_payment_processing_duration metrics status duration =
    samples (λ m. observation m.payment_processing_duration status_key status duration) metrics

abbrev response_timer : {L : Type 0} → Option (L → String) → ℕ → Option Metrics → Timer L
response_timer result now none = zero_timer
response_timer result now (some m) = record {
  started_at = some now;
  observe = λ locals duration.
      observe_webhook_response_duration (some m) (pointed_label result locals) duration;
}

abbrev write_timer : {L : Type 0} → String → ℕ → Option Metrics → Timer L
write_timer operation now none = zero_timer
write_timer operation now (some m) = record {
  started_at = some now;
  observe = λ locals duration. observe_database_write_duration (some m) operation duration;
}

abbrev processing_timer : {L : Type 0} → Option (L → String) → ℕ → Option Metrics → Timer L
processing_timer status now none = zero_timer
processing_timer status now (some m) = record {
  started_at = some now;
  observe = λ locals duration.
      observe_payment_processing_duration (some m) (pointed_label status locals) duration;
}

-- The clock is read where there is something to time.
abbrev pub reads_after {ℓ} : {A : Type ℓ} → Option A → ℕ → ℕ
reads_after none n = n
reads_after (some a) n = n + 1

abbrev start : {D L : Type 0} → (ℕ → Option Metrics → Timer L) → Option Metrics → Action D (Timer L)
start timer metrics w =
    (timer (w.clock w.reads) metrics, record w { reads = reads_after metrics w.reads })

module _ {D L : Type 0} (metrics : Option Metrics) where
  unfoldable pub start_webhook_response_timer : Option (L → String) → Action D (Timer L)
  start_webhook_response_timer result = start (response_timer result) metrics

  unfoldable pub start_database_write_timer : String → Action D (Timer L)
  start_database_write_timer operation = start (write_timer operation) metrics

  unfoldable pub start_payment_processing_timer : Option (L → String) → Action D (Timer L)
  start_payment_processing_timer status = start (processing_timer status) metrics

abbrev elapsed : Option ℕ → ℕ → ℕ
elapsed none now = 0
elapsed (some t) now = now - t

abbrev observed : {L : Type 0} → Timer L → Option ℕ → L → ℕ → List Measurement
observed timer none locals now = []
observed timer (some t) locals now = timer.observe locals (now - t)

-- `Timer.Observe`: the duration is returned, and recorded.
unfoldable pub observe_timer : {D L : Type 0} → Timer L → L → Action D ℕ
observe_timer timer locals w =
    let now = w.clock w.reads in
    (
      elapsed timer.started_at now,
      record w {
        reads = reads_after timer.started_at w.reads;
        measurements = w.measurements ++ observed timer timer.started_at locals now;
      },
    )
