-- ===== src/Config.antt =====
-- internal/config/config.go: the configuration that the environment gives. `getenv` is `os.Getenv`,
-- which gives "" for a variable that is not set; `parse_duration` is `time.ParseDuration`, in
-- nanoseconds.
pub mod Laws
pub mod RoundTrip
use payment_webhook_processo.Prelude.{
  ℕ, String, Bool, List, [], ◌∷◌, ◌*◌, ◌==◌, ◌||◌, not, if◌then◌else◌,
}
use payment_webhook_processo.Failure.{Result, ok, err}
use payment_webhook_processo.Text.Numbers.{ℤ, pos, is_negative, atoi}

abbrev pub default_port : String
default_port = "8080"

abbrev pub default_environment : String
default_environment = "development"

abbrev pub default_db_max_open_conns : ℤ
default_db_max_open_conns = pos 10

abbrev pub default_db_max_idle_conns : ℤ
default_db_max_idle_conns = pos 5

-- Thirty minutes.
abbrev pub default_db_conn_max_lifetime : ℤ
default_db_conn_max_lifetime = pos (30 * 60 * 1000000000)

pub record Config : Type 0 where
  pub port : String
  pub database_url : String
  pub webhook_signing_secret : String
  pub environment : String
  pub db_max_open_conns : ℤ
  pub db_max_idle_conns : ℤ
  pub db_conn_max_lifetime : ℤ

unfoldable pub first_non_empty : List String → String
first_non_empty [] = ""
first_non_empty (value ∷ values) =
    let rest = first_non_empty values in if not (value == "") then value else rest

abbrev unless_negative : Result ℤ → ℤ → ℤ
unless_negative (ok parsed) fallback = if is_negative parsed then fallback else parsed
unless_negative (err e) fallback = fallback

module _ (getenv : String → String) (parse_duration : String → Result ℤ) where
  unfoldable pub env_or_default : String → String → String
  unfolding first_non_empty
  env_or_default key fallback = first_non_empty (getenv key ∷ fallback ∷ [])

  unfoldable pub int_env_or_default : String → ℤ → ℤ
  unfolding atoi
  int_env_or_default key fallback =
      let value = getenv key in
      if value == "" then fallback else unless_negative (atoi value) fallback

  unfoldable pub duration_env_or_default : String → ℤ → ℤ
  duration_env_or_default key fallback =
      let value = getenv key in
      if value == "" then fallback else unless_negative (parse_duration value) fallback

  unfoldable pub load : Config
  unfolding env_or_default int_env_or_default duration_env_or_default first_non_empty
  load = record {
    port = env_or_default "PORT" default_port;
    database_url = getenv "DATABASE_URL";
    webhook_signing_secret = getenv "WEBHOOK_SIGNING_SECRET";
    environment = first_non_empty (getenv "APP_ENV" ∷ getenv "ENV" ∷ default_environment ∷ []);
    db_max_open_conns = int_env_or_default "DB_MAX_OPEN_CONNS" default_db_max_open_conns;
    db_max_idle_conns = int_env_or_default "DB_MAX_IDLE_CONNS" default_db_max_idle_conns;
    db_conn_max_lifetime =
        duration_env_or_default "DB_CONN_MAX_LIFETIME" default_db_conn_max_lifetime;
  }
