-- ===== src/Tests/Fixture.antt =====
-- The fixtures of the tests: a database in memory, events, and stand-ins for the libraries.
use payment_webhook_processo.Prelude.{
  ℕ, zero, suc, ◌*◌, ◌%◌, String, Option, none, some, List, [], ◌∷◌, ◌==◌, if◌then◌else◌,
}
use payment_webhook_processo.Failure.{Result, ok, err, external}
use payment_webhook_processo.Json.{Json, text, null, object, field, end}
use payment_webhook_processo.World.{
  World, Kind, int64_counter, float64_histogram, int64_observable_gauge, int64_observable_counter,
  float64_observable_counter, Instrument,
}
use payment_webhook_processo.Metrics.{Metrics}
use payment_webhook_processo.Webhook.Event.{PaymentEvent, PaymentStatus, Decoders}
use payment_webhook_processo.Repository.Rows.{Payment}
use payment_webhook_processo.Repository.Memory.{Fault, Memory}

-- A digest of 32 bytes.
abbrev pub pad : ℕ → List ℕ → List ℕ
pad zero bs = []
pad (suc n) [] = 0 ∷ pad n []
pad (suc n) (b ∷ bs) = b % 256 ∷ pad n bs

abbrev pub digest : String → List ℕ → List ℕ
digest secret message = pad 32 message

-- Instants in nanoseconds; two of whole microseconds, and one between them.
abbrev pub noon : ℕ
noon = 5000

abbrev pub later : ℕ
later = 9000

abbrev pub off_grid : ℕ
off_grid = 5400

abbrev body_of : String → Json
body_of event_type = object (
    field "Provider_Event_ID" (text " evt_1 ") (
      field "payment_id" (text "pay_1") (
        field "event_type" (text event_type)
          (field "event_timestamp" (text "noon") (field "extra" null end)))))

-- The first byte chooses the body.
abbrev json_of : List ℕ → Result Json
json_of [] = err (external "unexpected end of JSON input")
json_of (zero ∷ bs) = ok (body_of "payment.unknown")
json_of (suc n ∷ bs) = ok (body_of "payment.paid")

abbrev pub decoders : Decoders
decoders = record {
  json = json_of;
  rfc3339 = λ s. if s == "noon" then ok noon else err (external "bad time");
}

abbrev pub event_of : String → String → PaymentStatus → ℕ → PaymentEvent
event_of id event_type status t = record {
  provider_event_id = id;
  payment_id = "pay_1";
  event_type = event_type;
  payment_status = status;
  event_timestamp = t;
  raw_payload = 1 ∷ [];
}

abbrev pub paid_event : PaymentEvent
paid_event = event_of "evt_1" "payment.paid" "paid" noon

abbrev pub refund_event : PaymentEvent
refund_event = event_of "evt_2" "payment.refunded" "refunded" later

abbrev pub database : List Fault → Option (PaymentStatus × ℕ) → Memory
database faults row = record {
  payments = λ id. if id == "pay_1" then row else none;
  webhook_events = [];
  anomalies = [];
  last_id = 0;
  faults = faults;
}

abbrev pub world : Memory → World Memory
world d = record { database = d; measurements = []; clock = λ n. n * 1000000; reads = 0; log = [] }

abbrev pub empty_world : World Memory
empty_world = world (database [] none)

abbrev pub paid_world : World Memory
paid_world = world (database [] (some ("paid", noon)))

abbrev pub paid_row : Payment
paid_row = record { payment_id = "pay_1"; status = "paid"; status_timestamp = noon }

abbrev pub marshal_time : ℕ → Result String
marshal_time t = ok "an instant"

abbrev instrument : Kind → String → Instrument
instrument kind name = record { kind = kind; name = name }

abbrev pub metrics : Metrics
metrics = record {
  registry = [];
  meter_provider = none;
  webhook_requests_total = instrument int64_counter "requests";
  webhook_success_total = instrument int64_counter "success";
  webhook_errors_total = instrument int64_counter "errors";
  webhook_signature_failures = instrument int64_counter "signature_failures";
  webhook_duplicates_total = instrument int64_counter "duplicates";
  webhook_anomalies_total = instrument int64_counter "anomalies";
  provider_events_total = instrument int64_counter "provider_events";
  payment_processing_total = instrument int64_counter "payment_processing";
  payment_ignored_total = instrument int64_counter "payment_ignored";
  webhook_response_duration = instrument float64_histogram "response.duration";
  database_write_duration = instrument float64_histogram "database.write.duration";
  payment_processing_duration = instrument float64_histogram "processing.duration";
  db_open_connections = instrument int64_observable_gauge "db.open_connections";
  db_in_use_connections = instrument int64_observable_gauge "db.in_use_connections";
  db_idle_connections = instrument int64_observable_gauge "db.idle_connections";
  db_wait_count = instrument int64_observable_counter "db.wait_count";
  db_wait_duration = instrument float64_observable_counter "db.wait_duration";
}
