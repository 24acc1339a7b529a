-- ===== src/Metrics/Stats.antt =====
-- internal/metrics/metrics.go: `RegisterDatabaseStatsCollector` and its callback, `Handler`,
-- `Registry` and `Shutdown`.
use payment_webhook_processo.Prelude.{ℕ, Option, none, some, List, [], ◌∷◌}
use payment_webhook_processo.Failure.{Result, ok}
use payment_webhook_processo.World.{Instrument}
use payment_webhook_processo.Metrics.Sdk.{Registry, MeterProvider, Otel}
use payment_webhook_processo.Metrics.{Metrics}

-- `sql.DBStats`; the duration is in nanoseconds.
pub record DbStats : Type 0 where
  pub open_connections : ℕ
  pub in_use : ℕ
  pub idle : ℕ
  pub wait_count : ℕ
  pub wait_duration : ℕ

-- A call of the observer.
pub data Observation : Type 0 where
  observe_int64 observe_float64 : Instrument → ℕ → Observation

-- The callback.
abbrev pub observe_stats : Metrics → DbStats → List Observation
observe_stats m stats =
    observe_int64 m.db_open_connections stats.open_connections
    ∷ observe_int64 m.db_in_use_connections stats.in_use
    ∷ observe_int64 m.db_idle_connections stats.idle
    ∷ observe_int64 m.db_wait_count stats.wait_count
    ∷ observe_float64 m.db_wait_duration stats.wait_duration
    ∷ []

-- The instruments that the callback is registered for.
abbrev pub observed_instruments : Metrics → List Instrument
observed_instruments m =
    m.db_open_connections ∷ m.db_in_use_connections ∷ m.db_idle_connections ∷ m.db_wait_count
    ∷ m.db_wait_duration ∷ []

module _ (otel : Otel) where
  abbrev register_with : Metrics → Option MeterProvider → Result (Unit {0})
  register_with m none = ok tt
  register_with m (some provider) = otel.register_callback provider (observed_instruments m)

  -- A nil `*sql.DB` is `none`.
  abbrev pub register_database_stats_collector {ℓ} :
      {Db : Type ℓ} → Option Metrics → Option Db → Result (Unit {0})
  register_database_stats_collector none db = ok tt
  register_database_stats_collector (some m) none = ok tt
  register_database_stats_collector (some m) (some db) = register_with m m.meter_provider

  abbrev shut_down : Option MeterProvider → Result (Unit {0})
  shut_down none = ok tt
  shut_down (some provider) = otel.shutdown provider

  abbrev pub shutdown : Option Metrics → Result (Unit {0})
  shutdown none = ok tt
  shutdown (some m) = shut_down m.meter_provider

-- The handler of the metrics' path: `promhttp.Handler()`, or one for a registry.
pub data MetricsHandler : Type 0 where
  default_handler : MetricsHandler
  handler_for : Registry → MetricsHandler

abbrev pub handler : Option Metrics → MetricsHandler
handler none = default_handler
handler (some m) = handler_for m.registry

abbrev pub registry_of : Option Metrics → Option Registry
registry_of none = none
registry_of (some m) = some m.registry
