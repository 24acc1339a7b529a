-- ===== src/Db/Migrations.antt =====
-- internal/db/migrations.go: `RunMigrations`, each migration in a transaction of its own.
pub mod Laws
pub mod Rerun
use Prim.Native.String.{◌++◌}
use payment_webhook_processo.Prelude.{String, Bool, true, false, List, [], ◌∷◌}
use payment_webhook_processo.Failure.{Error, wrap, Result, ok, err}
use payment_webhook_processo.Db.Schema.{Database}

pub record Migration : Type 0 where
  pub version : String
  pub sql : String

abbrev pub initial_migration_sql : String
initial_migration_sql =
    "\nCREATE TABLE IF NOT EXISTS payments (\n" ++ "\tpayment_id TEXT PRIMARY KEY,\n"
    ++ "\tstatus TEXT NOT NULL,\n" ++ "\tstatus_timestamp TIMESTAMPTZ NOT NULL,\n"
    ++ "\tupdated_at TIMESTAMPTZ NOT NULL DEFAULT NOW(),\n"
    ++ "\tcreated_at TIMESTAMPTZ NOT NULL DEFAULT NOW()\n"
    ++ ");\n\nCREATE TABLE IF NOT EXISTS webhook_events (\n" ++ "\tid BIGSERIAL PRIMARY KEY,\n"
    ++ "\tprovider_event_id TEXT NOT NULL UNIQUE,\n" ++ "\tpayment_id TEXT NOT NULL,\n"
    ++ "\tevent_type TEXT NOT NULL,\n" ++ "\tevent_timestamp TIMESTAMPTZ NOT NULL,\n"
    ++ "\traw_payload JSONB NOT NULL,\n" ++ "\tprocessing_status TEXT NOT NULL,\n"
    ++ "\tupdated_at TIMESTAMPTZ NOT NULL DEFAULT NOW(),\n"
    ++ "\tcreated_at TIMESTAMPTZ NOT NULL DEFAULT NOW()\n"
    ++ ");\n\nCREATE TABLE IF NOT EXISTS anomalies (\n" ++ "\tid BIGSERIAL PRIMARY KEY,\n"
    ++ "\twebhook_event_id BIGINT REFERENCES webhook_events(id) ON DELETE SET NULL,\n"
    ++ "\tpayment_id TEXT REFERENCES payments(payment_id) ON DELETE SET NULL,\n"
    ++ "\tanomaly_type TEXT NOT NULL,\n" ++ "\tdetails JSONB NOT NULL,\n"
    ++ "\tcreated_at TIMESTAMPTZ NOT NULL DEFAULT NOW()\n" ++ ");\n"

unfoldable pub migrations : List Migration
migrations = record { version = "001_init"; sql = initial_migration_sql } ∷ []

module _ (db : Database) where
  abbrev pub Outcome : Type 0
  Outcome = Result (Unit {0}) × db.State

  -- The rest of a function, unless the last statement failed.
  abbrev pub next : String → Result (Unit {0}) → db.State → (db.State → Outcome) → Outcome
  next text (ok _) s rest = rest s
  next text (err e) s rest = (err (wrap text e), s)

  abbrev checked : String → Outcome → (db.State → Outcome) → Outcome
  checked text outcome rest = next text outcome.0 outcome.1 rest

  -- The deferred function.
  abbrev pub rolled_back : Result (Unit {0}) → db.State → Outcome
  rolled_back (ok _) s = (ok tt, s)
  rolled_back (err e) s = (err e, (db.rollback s).1)

  abbrev pub in_transaction : Migration → db.State → Outcome
  in_transaction m s = checked ("apply migration " ++ m.version) (db.exec_tx m.sql s) λ s1.
      checked ("record migration " ++ m.version) (db.insert_version m.version s1)
        λ s2. checked ("commit migration " ++ m.version) (db.commit s2) λ s3. (ok tt, s3)

  abbrev pub deferred : Outcome → Outcome
  deferred outcome = rolled_back outcome.0 outcome.1

  unfoldable pub apply_migration : Migration → db.State → Outcome
  apply_migration m s =
      checked ("begin migration " ++ m.version) (db.begin_tx s) λ s1. deferred (in_transaction m s1)

  abbrev pub checked_version : String → Result Bool → Result Bool
  checked_version version (ok exists) = ok exists
  checked_version version (err e) = err (wrap ("check migration " ++ version) e)

  unfoldable pub migration_applied : String → db.State → Result Bool × db.State
  migration_applied version s =
      let (exists, s1) = db.version_exists version s in (checked_version version exists, s1)

  -- An error is returned as it is.
  abbrev pub proceed : Result (Unit {0}) → db.State → (db.State → Outcome) → Outcome
  proceed (ok _) s rest = rest s
  proceed (err e) s rest = (err e, s)

  abbrev unless_failed : Outcome → (db.State → Outcome) → Outcome
  unless_failed outcome rest = proceed outcome.0 outcome.1 rest

  -- The body of the loop, and the iterations after it.
  unfoldable pub visit : Migration → Result Bool → db.State → (db.State → Outcome) → Outcome
  unfolding apply_migration
  visit m (err e) s rest = (err e, s)
  visit m (ok true) s rest = rest s
  visit m (ok false) s rest = unless_failed (apply_migration m s) rest

  unfoldable pub run_all : List Migration → db.State → Outcome
  unfolding visit migration_applied
  run_all [] s = (ok tt, s)
  run_all (m ∷ ms) s =
      let (applied, s1) = migration_applied m.version s in visit m applied s1 (run_all ms)

  unfoldable pub run_migrations : db.State → Outcome
  unfolding run_all
  run_migrations s =
      checked "ensure schema migrations table" (db.ensure_table s) (run_all migrations)
