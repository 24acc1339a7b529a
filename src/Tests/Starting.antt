-- ===== src/Tests/Starting.antt =====
-- The configuration, the opening of the database and the start of the process, at an environment.
use payment_webhook_processo.Prelude.{
  ℕ, zero, suc, ◌*◌, ◌^◌, arith, List, ◌∷◌, ◌++◌, String, false, none, some, [], ◌≡◌, refl, ◌==◌,
  if◌then◌else◌,
}
use payment_webhook_processo.Failure.{Result, ok, err, external}
use payment_webhook_processo.Text.{trim_space, is_space}
use payment_webhook_processo.Text.Numbers.{ℤ, pos, negsuc, is_negative, atoi, digits}
use payment_webhook_processo.Metrics.{Metrics, new}
use payment_webhook_processo.Metrics.Sdk.{otel_exporter, Otel, IsOtel}
use payment_webhook_processo.Metrics.Instruments.{IsComplete, new-IsComplete}
use payment_webhook_processo.Config.{
  first_non_empty, env_or_default, int_env_or_default, duration_env_or_default, load,
}
use payment_webhook_processo.Config.{Config}
use payment_webhook_processo.Text.Numbers.Decimal.{format_int}
use payment_webhook_processo.Config.RoundTrip.{
  environment_of, int_env_or_default-format_int, load-environment_of,
}
use payment_webhook_processo.Config.Laws.{load_not_negative}
use payment_webhook_processo.Db.Memory.{SchemaMemory, schema_memory, schema_memory-IsDatabase}
use payment_webhook_processo.Db.Pool.{
  Pool, set_max_open_conns, set_max_idle_conns, set_conn_max_lifetime, open_database,
}
use payment_webhook_processo.Db.Pool.Laws.{Opened, open_database-Opened}
use payment_webhook_processo.Db.Migrations.{
  migrations, apply_migration, migration_applied, visit, run_all, run_migrations,
}
use payment_webhook_processo.Wiring.Startup.{serving, start, IsReady, start_serving}

-- Three open connections, a number of idle ones that is refused, and a lifetime.
abbrev pub getenv : String → String
getenv key =
    if key == "DATABASE_URL"
    then "postgres://localhost/db"
    else if key == "ENV"
    then "staging"
    else if key == "DB_MAX_OPEN_CONNS"
    then "3"
    else if key == "DB_MAX_IDLE_CONNS"
    then "-1"
    else if key == "DB_CONN_MAX_LIFETIME"
    then "1h"
    else ""

abbrev pub parse_duration : String → Result ℤ
parse_duration s = if s == "1h" then ok (pos 3600000000000) else err (external "bad duration")

abbrev pub any_url : String → Result (Unit {0})
any_url url = ok tt

atoi_tests :
    (atoi "+21" ≡ ok (pos 21))
    × (atoi "-1" ≡ ok (negsuc 0))
    × (atoi "9223372036854775808" ≡ err (external "value out of range"))
    × (atoi "1_0" ≡ err (external "invalid syntax"))
unfolding atoi digits
atoi_tests = (refl, refl, refl, refl)

loaded : load getenv parse_duration ≡ record {
  port = "8080";
  database_url = "postgres://localhost/db";
  webhook_signing_secret = "";
  environment = "staging";
  db_max_open_conns = pos 3;
  db_max_idle_conns = pos 5;
  db_conn_max_lifetime = pos 3600000000000;
}
unfolding load env_or_default int_env_or_default duration_env_or_default first_non_empty atoi digits
loaded = refl

load_not_negative_example :
    (is_negative (load getenv parse_duration).db_max_open_conns ≡ false)
    × (is_negative (load getenv parse_duration).db_max_idle_conns ≡ false)
    × (is_negative (load getenv parse_duration).db_conn_max_lifetime ≡ false)
load_not_negative_example = load_not_negative getenv parse_duration

abbrev small : Config
small = record {
  port = "9000";
  database_url = "postgres://localhost/db";
  webhook_signing_secret = "secret";
  environment = "test";
  db_max_open_conns = pos 12;
  db_max_idle_conns = pos 0;
  db_conn_max_lifetime = pos 3600000000000;
}

load-environment_of_example : load (environment_of "1h" small) parse_duration ≡ small
load-environment_of_example =
    load-environment_of parse_duration small "1h" 12 0 3600000000000 (λ h. cc) (λ h. cc) refl refl
      refl (omega arith) (omega arith) (λ h. cc) refl

-- A negative number and one of more than 64 bits are passed over.
abbrev outside : String → String
outside key = if key == "A" then format_int (negsuc 6) else format_int (pos (2 ^ 63))

passed_over :
    (int_env_or_default outside parse_duration "A" (pos 5) ≡ pos 5)
    × (int_env_or_default outside parse_duration "B" (pos 5) ≡ pos 5)
passed_over = (
  int_env_or_default-format_int outside parse_duration "A" (negsuc 6) (pos 5) refl,
  int_env_or_default-format_int outside parse_duration "B" (pos (2 ^ 63)) (pos 5) refl,
)

open_database-Opened_example :
    Opened any_url
      (ok tt)
      "postgres://localhost/db"
      3
      5
      0
      7
      (open_database any_url
        (ok tt)
        "postgres://localhost/db"
        (record { max_open_conns = pos 3; max_idle_conns = pos 5; conn_max_lifetime = pos 0 })
        7).0
      (open_database any_url
        (ok tt)
        "postgres://localhost/db"
        (record { max_open_conns = pos 3; max_idle_conns = pos 5; conn_max_lifetime = pos 0 })
        7).1
open_database-Opened_example =
    open_database-Opened any_url (ok tt) "postgres://localhost/db" 3 5 0 7

abbrev pub before : SchemaMemory
before = record {
  contents = record { versions = []; statements = [] };
  pending = none;
  faults = [];
}

-- The five idle connections of the default are cut to the three open ones.
abbrev pool : Pool
pool = record { max_open = 3; max_idle_count = pos 3; max_lifetime = 3600000000000 }

serves :
    (start getenv parse_duration any_url (ok tt) (λ database. ok tt) schema_memory before).0
    ≡ serving ":8080" (some pool)
unfolding start load env_or_default int_env_or_default duration_env_or_default first_non_empty atoi
    digits open_database trim_space is_space set_max_open_conns set_max_idle_conns
    set_conn_max_lifetime run_migrations run_all migrations visit apply_migration migration_applied
serves = refl

start_serving_example :
    IsReady getenv parse_duration any_url
      (ok tt)
      (λ database. ok tt)
      schema_memory
      schema_memory-IsDatabase
      before
      (start getenv parse_duration any_url (ok tt) (λ database. ok tt) schema_memory before).1
      ":8080"
      (some pool)
start_serving_example =
    start_serving getenv parse_duration any_url (ok tt) (λ database. ok tt) schema_memory
      schema_memory-IsDatabase before ":8080" (some pool) refl serves

-- The buckets of a histogram.
abbrev buckets : (start factor count : ℕ) → List ℕ
buckets start factor zero = []
buckets start factor (suc n) = start ∷ buckets (start * factor) factor n

abbrev pub otel : Otel
otel = record {
  register = λ c registry. ok (registry ++ c ∷ []);
  new_exporter = λ ns registry. ok (registry ++ otel_exporter ns ∷ []);
  exponential_buckets = buckets;
  create = λ provider kind name. ok (record { kind = kind; name = name });
  register_callback = λ provider instruments. ok tt;
  shutdown = λ provider. ok tt;
}

otel-IsOtel : IsOtel otel
otel-IsOtel = record {
  registers = λ c registry new. refl;
  exports = λ ns registry new. refl;
  buckets_one = λ start factor. refl;
  buckets_more = λ start factor n. refl;
  creates = λ provider kind name valid. refl;
}

new-IsComplete_example : (m : Metrics) × (new otel ≡ ok m) × IsComplete m
new-IsComplete_example = new-IsComplete otel otel-IsOtel
