-- ===== src/Config/Laws.antt =====
-- What a loaded configuration guarantees.
use payment_webhook_processo.Prelude.{
  String, List, [], ◌∷◌, ◌++◌, eq_iff, false, ◌≡◌, ◌≢◌, refl, inl, inr, Bool-cases, ◌==◌,
  if◌then◌else◌,
}
use payment_webhook_processo.Failure.{Result, ok, err}
use payment_webhook_processo.Text.Numbers.{ℤ, pos, is_negative, atoi}
use payment_webhook_processo.Config.{
  unless_negative, first_non_empty, env_or_default, int_env_or_default, duration_env_or_default,
  load,
}

-- A list whose last text is given has a first one that is.
first_non_empty-last :
    (values : List String) (last : String) → last ≢ "" → first_non_empty (values ++ last ∷ []) ≢ ""
unfolding first_non_empty
first_non_empty-last [] last given = elim (Bool-cases (last == "")) [
  | inl blank ↦ absurd (given ((eq_iff _ _).0 blank))
  | inr set ↦ rw set given
]
first_non_empty-last (value ∷ values) last given = elim (Bool-cases (value == "")) [
  | inl blank ↦ rw blank (first_non_empty-last values last given)
  | inr set ↦ rw set (λ h. cc ((eq_iff value "").1 h, set))
]

unless_negative-lem :
    (r : Result ℤ) (fallback : ℤ)
    → is_negative fallback ≡ false
    → is_negative (unless_negative r fallback) ≡ false
unless_negative-lem (err e) fallback h = h
unless_negative-lem (ok z) fallback h = elim (Bool-cases (is_negative z)) [
  | inl bad ↦ rw bad h
  | inr good ↦ rw (good, good) refl
]

guarded :
    (value : String) (r : Result ℤ) (fallback : ℤ)
    → is_negative fallback ≡ false
    → is_negative (if value == "" then fallback else unless_negative r fallback) ≡ false
guarded value r fallback h = elim (Bool-cases (value == "")) [
  | inl blank ↦ rw blank h
  | inr set ↦ rw set (unless_negative-lem r fallback h)
]

module _ (getenv : String → String) (parse_duration : String → Result ℤ) where
  -- The limits of the pool that a configuration holds are not negative, whatever the environment.
  pub load_not_negative :
      (is_negative (load getenv parse_duration).db_max_open_conns ≡ false)
      × (is_negative (load getenv parse_duration).db_max_idle_conns ≡ false)
      × (is_negative (load getenv parse_duration).db_conn_max_lifetime ≡ false)
  unfolding load int_env_or_default duration_env_or_default
  load_not_negative = (
    guarded (getenv "DB_MAX_OPEN_CONNS") (atoi (getenv "DB_MAX_OPEN_CONNS")) (pos 10) refl,
    guarded (getenv "DB_MAX_IDLE_CONNS") (atoi (getenv "DB_MAX_IDLE_CONNS")) (pos 5) refl,
    guarded (getenv "DB_CONN_MAX_LIFETIME") (parse_duration (getenv "DB_CONN_MAX_LIFETIME")) _ refl,
  )

  -- The port and the environment's name are never empty.
  pub load_not_empty :
      ((load getenv parse_duration).port ≢ "") × ((load getenv parse_duration).environment ≢ "")
  unfolding load env_or_default
  load_not_empty = (
    first_non_empty-last (getenv "PORT" ∷ []) "8080" (λ h. cc),
    first_non_empty-last (getenv "APP_ENV" ∷ getenv "ENV" ∷ []) "development" λ h. cc,
  )
