-- ===== src/Config/RoundTrip.antt =====
-- A configuration written to the environment, and loaded.
use payment_webhook_processo.Prelude.{
  ℕ, List, [], ◌∷◌, ◌∙◌, ◌^◌, ◌<◌, String, true, false, ◌≡◌, ◌≢◌, refl, inl, inr, Bool-cases,
  eq_iff, ◌==◌, ltb, if◌then◌else◌, arith,
}
use payment_webhook_processo.Failure.{Result, ok}
use payment_webhook_processo.Text.Numbers.{ℤ, pos, negsuc}
use payment_webhook_processo.Text.Numbers.Decimal.{
  format_int, int64, atoi-format_int, format_int-ne-empty,
}
use payment_webhook_processo.Config.{
  Config, default_db_conn_max_lifetime, unless_negative, first_non_empty, env_or_default,
  int_env_or_default, duration_env_or_default, load,
}

-- The environment that says what a configuration holds; `lifetime` is how its
-- lifetime is written.
abbrev pub environment_of : (lifetime : String) → Config → String → String
environment_of lifetime config key =
    if key == "PORT"
    then config.port
    else if key == "DATABASE_URL"
    then config.database_url
    else if key == "WEBHOOK_SIGNING_SECRET"
    then config.webhook_signing_secret
    else if key == "APP_ENV"
    then config.environment
    else if key == "DB_MAX_OPEN_CONNS"
    then format_int config.db_max_open_conns
    else if key == "DB_MAX_IDLE_CONNS"
    then format_int config.db_max_idle_conns
    else if key == "DB_CONN_MAX_LIFETIME"
    then lifetime
    else ""

-- The integer where it has 64 bits and is not negative, and the fallback otherwise.
abbrev pub chosen : ℤ → ℤ → ℤ
chosen (pos n) fallback = if ltb n (2 ^ 63) then pos n else fallback
chosen (negsuc n) fallback = fallback

unless_negative-int64 : (z fallback : ℤ) → unless_negative (int64 z) fallback ≡ chosen z fallback
unless_negative-int64 (pos n) fallback = elim (Bool-cases (ltb n (2 ^ 63))) [
  | inl fits ↦ rw fits refl
  | inr large ↦ rw large refl
]
unless_negative-int64 (negsuc n) fallback = elim (Bool-cases (ltb n (2 ^ 63))) [
  | inl fits ↦ rw fits refl
  | inr large ↦ rw large refl
]

given : (s : String) → s ≢ "" → (s == "") ≡ false
given s h = elim (Bool-cases (s == "")) [
  | inl blank ↦ absurd (h ((eq_iff s "").0 blank))
  | inr set ↦ set
]

chosen_lem : (z fallback : ℤ) (n : ℕ) → z ≡ pos n → n < 2 ^ 63 → chosen z fallback ≡ z
chosen_lem z fallback n is_pos fits =
    let small : ltb n (2 ^ 63) ≡ true = ground (arith, fits) in rw (is_pos, small) refl

first_non_empty_lem :
    (value : String) (values : List String) → value ≢ "" → first_non_empty (value ∷ values) ≡ value
unfolding first_non_empty
first_non_empty_lem value values h = rw (given value h) refl

module _ (getenv : String → String) (parse_duration : String → Result ℤ) where
  -- A variable that holds the numeral of an integer.
  pub int_env_or_default-format_int :
      (key : String) (z fallback : ℤ)
      → getenv key ≡ format_int z
      → int_env_or_default getenv parse_duration key fallback ≡ chosen z fallback
  unfolding int_env_or_default
  int_env_or_default-format_int key z fallback h =
      rw (h, given (format_int z) (format_int-ne-empty z), atoi-format_int z)
        (unless_negative-int64 z fallback)

  duration_env_or_default_lem :
      (key : String) (z fallback : ℤ) (n : ℕ)
      → getenv key ≢ ""
      → parse_duration (getenv key) ≡ ok z
      → z ≡ pos n
      → duration_env_or_default getenv parse_duration key fallback ≡ z
  unfolding duration_env_or_default
  duration_env_or_default_lem key z fallback n h parsed is_pos =
      rw (given (getenv key) h, parsed, is_pos) refl

module _ (parse_duration : String → Result ℤ) where
  -- A configuration whose port and environment are not empty, and whose limits are not negative and
  -- have 64 bits, is loaded again from the environment that it is written to, if ParseDuration reads
  -- the lifetime as it is written there, which is not empty.
  pub load-environment_of :
      (config : Config) (lifetime : String) (open_conns idle_conns nanoseconds : ℕ)
      → config.port ≢ ""
      → config.environment ≢ ""
      → config.db_max_open_conns ≡ pos open_conns
      → config.db_max_idle_conns ≡ pos idle_conns
      → config.db_conn_max_lifetime ≡ pos nanoseconds
      → open_conns < 2 ^ 63
      → idle_conns < 2 ^ 63
      → lifetime ≢ ""
      → parse_duration lifetime ≡ ok config.db_conn_max_lifetime
      → load (environment_of lifetime config) parse_duration ≡ config
  unfolding load env_or_default
  load-environment_of config lifetime o i l port environment open_is idle_is lifetime_is open_fits
        idle_fits written parsed =
      let getenv = environment_of lifetime config in
      let open_same : int_env_or_default getenv parse_duration "DB_MAX_OPEN_CONNS" (pos 10)
          ≡ config.db_max_open_conns =
        int_env_or_default-format_int getenv parse_duration "DB_MAX_OPEN_CONNS" _ (pos 10) refl
        ∙ chosen_lem _ (pos 10) o open_is open_fits in
      let idle_same : int_env_or_default getenv parse_duration "DB_MAX_IDLE_CONNS" (pos 5)
          ≡ config.db_max_idle_conns =
        int_env_or_default-format_int getenv parse_duration "DB_MAX_IDLE_CONNS" _ (pos 5) refl
        ∙ chosen_lem _ (pos 5) i idle_is idle_fits in
      let lifetime_same =
        duration_env_or_default_lem getenv parse_duration "DB_CONN_MAX_LIFETIME"
          config.db_conn_max_lifetime default_db_conn_max_lifetime l written parsed lifetime_is in
      rw
        (
          first_non_empty_lem config.port ("8080" ∷ []) port,
          first_non_empty_lem config.environment (getenv "ENV" ∷ "development" ∷ []) environment,
          open_same,
          idle_same,
          lifetime_same,
        )
        refl
