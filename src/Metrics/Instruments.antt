-- ===== src/Metrics/Instruments.antt =====
-- The instruments that `newWithRegistry` creates.
use payment_webhook_processo.Prelude.{
  ℕ, zero, suc, ap, ◌∙◌, ◌+◌, ◌*◌, String, Bool, true, false, not, some, List, [], ◌∷◌, ◌≡◌, refl,
  ◌&&◌, ◌||◌, ◌==◌, ltb, nat_eq, length, if◌then◌else◌,
}
use payment_webhook_processo.Failure.{ok}
use payment_webhook_processo.World.{
  Kind, int64_counter, float64_histogram, int64_observable_gauge, int64_observable_counter,
  float64_observable_counter, Instrument,
}
use payment_webhook_processo.Metrics.Sdk.{
  View, MeterProvider, Otel, IsOtel, go_collector, process_collector, otel_exporter,
}
use payment_webhook_processo.Metrics.Stats.{
  DbStats, Observation, observe_int64, observe_float64, observe_stats, observed_instruments,
}
use payment_webhook_processo.Metrics.{Metrics, new_with_registry, new}

abbrev pub instruments : Metrics → List Instrument
instruments m =
    m.webhook_requests_total ∷ m.webhook_success_total ∷ m.webhook_errors_total
    ∷ m.webhook_signature_failures ∷ m.webhook_duplicates_total ∷ m.webhook_anomalies_total
    ∷ m.provider_events_total ∷ m.payment_processing_total ∷ m.payment_ignored_total
    ∷ m.webhook_response_duration ∷ m.database_write_duration ∷ m.payment_processing_duration
    ∷ m.db_open_connections ∷ m.db_in_use_connections ∷ m.db_idle_connections ∷ m.db_wait_count
    ∷ m.db_wait_duration ∷ []

abbrev is_named : String → List Instrument → Bool
is_named name [] = false
is_named name (i ∷ is) = i.name == name || is_named name is

abbrev pub names_distinct : List Instrument → Bool
names_distinct [] = true
names_distinct (i ∷ is) = not (is_named i.name is) && names_distinct is

abbrev count_views : String → List View → ℕ
count_views name [] = 0
count_views name (v ∷ vs) = (if v.name == name then 1 else 0) + count_views name vs

abbrev expected_views : Kind → ℕ
expected_views float64_histogram = 1
expected_views int64_counter = 0
expected_views int64_observable_gauge = 0
expected_views int64_observable_counter = 0
expected_views float64_observable_counter = 0

-- A histogram has one view, and any other instrument none.
abbrev pub views_fit : List View → List Instrument → Bool
views_fit views [] = true
views_fit views (i ∷ is) =
    nat_eq (count_views i.name views) (expected_views i.kind) && views_fit views is

abbrev ascending : List ℕ → Bool
ascending [] = true
ascending (a ∷ []) = true
ascending (a ∷ b ∷ bs) = ltb a b && ascending (b ∷ bs)

abbrev pub buckets_ascend : List View → Bool
buckets_ascend [] = true
buckets_ascend (v ∷ vs) = ltb 1 (length v.boundaries) && ascending v.boundaries && buckets_ascend vs

abbrev takes_int64 : Kind → Bool
takes_int64 int64_observable_gauge = true
takes_int64 int64_observable_counter = true
takes_int64 int64_counter = false
takes_int64 float64_histogram = false
takes_int64 float64_observable_counter = false

abbrev takes_float64 : Kind → Bool
takes_float64 float64_observable_counter = true
takes_float64 int64_observable_gauge = false
takes_float64 int64_observable_counter = false
takes_float64 int64_counter = false
takes_float64 float64_histogram = false

-- Each observation is made by the call for its instrument's kind.
abbrev pub observations_fit : List Observation → Bool
observations_fit [] = true
observations_fit (observe_int64 i value ∷ os) = takes_int64 i.kind && observations_fit os
observations_fit (observe_float64 i value ∷ os) = takes_float64 i.kind && observations_fit os

abbrev pub observed_by : List Observation → List Instrument
observed_by [] = []
observed_by (observe_int64 i value ∷ os) = i ∷ observed_by os
observed_by (observe_float64 i value ∷ os) = i ∷ observed_by os

pub record IsComplete (m : Metrics) : Type 0 where
  pub provider : MeterProvider
  pub provided : m.meter_provider ≡ some provider
  pub gathers : m.registry ≡ go_collector ∷ process_collector ∷ otel_exporter "payment_webhook" ∷ []
  pub reads : provider.reader ≡ otel_exporter "payment_webhook"
  pub distinct : names_distinct (instruments m) ≡ true
  pub viewed : views_fit provider.views (instruments m) ≡ true
  pub ascend : buckets_ascend provider.views ≡ true
  pub observed : (stats : DbStats) → observed_by (observe_stats m stats) ≡ observed_instruments m
  pub fit : (stats : DbStats) → observations_fit (observe_stats m stats) ≡ true

abbrev geometric : (start factor : ℕ) → ℕ → List ℕ
geometric start factor zero = start ∷ []
geometric start factor (suc n) = start ∷ geometric (start * factor) factor n

module _ (otel : Otel) (laws : IsOtel otel) where
  exponential_buckets-eq :
      (start factor n : ℕ)
      → otel.exponential_buckets start factor (suc n) ≡ geometric start factor n
  exponential_buckets-eq start factor zero = laws.buckets_one start factor
  exponential_buckets-eq start factor (suc n) =
      laws.buckets_more start factor n
      ∙ ap (◌∷◌ start) (exponential_buckets-eq (start * factor) factor n)

  abbrev provider : MeterProvider
  provider = record {
    reader = otel_exporter "payment_webhook";
    views =
        record { name = "response.duration"; boundaries = geometric 5000 2 9 }
        ∷ record { name = "database.write.duration"; boundaries = geometric 1000 2 9 }
        ∷ record { name = "processing.duration"; boundaries = geometric 1000 2 9 }
        ∷ [];
  }

  -- If the registry takes new collectors and the meter makes every instrument with a valid name, then
  -- `New` makes the metrics: the registry gathers from the Go runtime, the process and the exporter,
  -- which the meter provider reads; no two instruments have one name; each histogram has one view,
  -- with ascending buckets, and no other instrument has one; and the database's callback observes
  -- the instruments that it is registered for, each by the call for its kind.
  pub new-IsComplete : (m : Metrics) × (new otel ≡ ok m) × IsComplete m
  unfolding new new_with_registry
  new-IsComplete =
      rw
        (
          laws.registers go_collector [] refl,
          laws.registers process_collector (go_collector ∷ []) refl,
          laws.exports "payment_webhook" (go_collector ∷ process_collector ∷ []) refl,
          exponential_buckets-eq 5000 2 9,
          exponential_buckets-eq 1000 2 9,
          laws.creates provider int64_counter "requests" refl,
          laws.creates provider int64_counter "success" refl,
          laws.creates provider int64_counter "errors" refl,
          laws.creates provider int64_counter "signature_failures" refl,
          laws.creates provider int64_counter "duplicates" refl,
          laws.creates provider int64_counter "anomalies" refl,
          laws.creates provider int64_counter "provider_events" refl,
          laws.creates provider int64_counter "payment_processing" refl,
          laws.creates provider int64_counter "payment_ignored" refl,
          laws.creates provider float64_histogram "response.duration" refl,
          laws.creates provider float64_histogram "database.write.duration" refl,
          laws.creates provider float64_histogram "processing.duration" refl,
          laws.creates provider int64_observable_gauge "db.open_connections" refl,
          laws.creates provider int64_observable_gauge "db.in_use_connections" refl,
          laws.creates provider int64_observable_gauge "db.idle_connections" refl,
          laws.creates provider int64_observable_counter "db.wait_count" refl,
          laws.creates provider float64_observable_counter "db.wait_duration" refl,
        )
        (
          _,
          refl,
          record {
            provider = _;
            provided = refl;
            gathers = refl;
            reads = refl;
            distinct = refl;
            viewed = refl;
            ascend = refl;
            observed = λ stats. refl;
            fit = λ stats. refl;
          },
        )

  -- So no two of the instruments that are created over an empty registry have one name.
  pub new_with_registry_distinct :
      (m : Metrics) × (new_with_registry otel [] ≡ ok m) × (names_distinct (instruments m) ≡ true)
  unfolding new_with_registry
  new_with_registry_distinct =
      rw
        (
          laws.exports "payment_webhook" [] refl,
          exponential_buckets-eq 5000 2 9,
          exponential_buckets-eq 1000 2 9,
          laws.creates provider int64_counter "requests" refl,
          laws.creates provider int64_counter "success" refl,
          laws.creates provider int64_counter "errors" refl,
          laws.creates provider int64_counter "signature_failures" refl,
          laws.creates provider int64_counter "duplicates" refl,
          laws.creates provider int64_counter "anomalies" refl,
          laws.creates provider int64_counter "provider_events" refl,
          laws.creates provider int64_counter "payment_processing" refl,
          laws.creates provider int64_counter "payment_ignored" refl,
          laws.creates provider float64_histogram "response.duration" refl,
          laws.creates provider float64_histogram "database.write.duration" refl,
          laws.creates provider float64_histogram "processing.duration" refl,
          laws.creates provider int64_observable_gauge "db.open_connections" refl,
          laws.creates provider int64_observable_gauge "db.in_use_connections" refl,
          laws.creates provider int64_observable_gauge "db.idle_connections" refl,
          laws.creates provider int64_observable_counter "db.wait_count" refl,
          laws.creates provider float64_observable_counter "db.wait_duration" refl,
        )
        (_, refl, refl)
