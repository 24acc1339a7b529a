-- ===== src/Failure.antt =====
-- Go's error values, as far as this repository builds and inspects them, and results that may fail.
-- A sentinel stands for a package variable made by `errors.New`; the variables are those of
-- internal/webhook/event.go, internal/webhook/signature.go, internal/repository/payments.go,
-- internal/repository/webhook_events.go and internal/db/db.go.
use payment_webhook_processo.Prelude.{
  ℕ, String, Bool, true, false, Option, none, some, ◌≡◌, refl, arith, nat_eq,
}

pub data Sentinel : Type 0 where
  invalid_json missing_provider_event_id missing_payment_id missing_event_type : Sentinel
  missing_event_timestamp unknown_event_type invalid_event_timestamp : Sentinel
  missing_signature invalid_signature : Sentinel
  payment_not_found duplicate_provider_event_id missing_database_url : Sentinel

-- The variables are distinct pointers: each has its own number.
abbrev pub address : Sentinel → ℕ
address invalid_json = 0
address missing_provider_event_id = 1
address missing_payment_id = 2
address missing_event_type = 3
address missing_event_timestamp = 4
address unknown_event_type = 5
address invalid_event_timestamp = 6
address missing_signature = 7
address invalid_signature = 8
address payment_not_found = 9
address duplicate_provider_event_id = 10
address missing_database_url = 11

-- `wrap` is fmt.Errorf("<text>: %w", err), `detail` is fmt.Errorf("%w: <text>", err). The other
-- errors are those that libraries return: `sql.ErrNoRows`, a `*pgconn.PgError`, any other.
pub data Error : Type 0 where
  sentinel : Sentinel → Error
  wrap : String → Error → Error
  detail : Error → String → Error
  no_rows : Error
  pg_error : (code constraint_name : String) → Error
  external : String → Error

-- `errors.Is(err, target)` for a sentinel as the target.
unfoldable pub is : Error → Sentinel → Bool
is (sentinel s) t = nat_eq (address s) (address t)
is (wrap text e) t = is e t
is (detail e text) t = is e t
is no_rows t = false
is (pg_error code constraint_name) t = false
is (external text) t = false

-- `errors.Is(err, sql.ErrNoRows)`.
unfoldable pub is_no_rows : Error → Bool
is_no_rows no_rows = true
is_no_rows (wrap text e) = is_no_rows e
is_no_rows (detail e text) = is_no_rows e
is_no_rows (sentinel s) = false
is_no_rows (pg_error code constraint_name) = false
is_no_rows (external text) = false

-- `errors.As(err, &pgErr)`: the code and the constraint of the first `*pgconn.PgError`.
unfoldable pub as_pg_error : Error → Option (String × String)
as_pg_error (pg_error code constraint_name) = some (code, constraint_name)
as_pg_error (wrap text e) = as_pg_error e
as_pg_error (detail e text) = as_pg_error e
as_pg_error (sentinel s) = none
as_pg_error no_rows = none
as_pg_error (external text) = none

-- A Go function's `(value, error)` results, of which callers read one.
pub data Result {ℓ} (T : Type ℓ) : Type ℓ where
  err : Error → Result T
  ok : T → Result T

module _ {ℓ κ} {T : Type ℓ} {U : Type κ} where
  -- The rest of a function after `if err != nil { return err }`.
  infixl 5 ◌>>=◌
  abbrev pub ◌>>=◌ : (first : Result T) (rest : T → Result U) → Result U
  err e >>= rest = err e
  ok value >>= rest = rest value

  -- A chain that succeeds: so did its first step, and the rest on its value.
  pub bind-eq-ok :
      (first : Result T) (rest : T → Result U) {last : U}
      → (first >>= rest) ≡ ok last
      → (value : T) × (first ≡ ok value) × (rest value ≡ ok last)
  bind-eq-ok (err e) rest h = cc
  bind-eq-ok (ok value) rest h = (value, refl, h)

module _ {κ} {U : Type κ} where
  infixl 5 ◌>>◌
  abbrev pub ◌>>◌ : (check : Result (Unit {0})) (rest : Result U) → Result U
  check >> rest = check >>= λ _. rest

pub ok-injective {ℓ} : {T : Type ℓ} {x y : T} → ok x ≡ ok y → x ≡ y
ok-injective h = cc

pub err≢ok {ℓ} : {T : Type ℓ} {x : T} {e : Error} → ◌≡◌ {A = Result T} (err e) (ok x) → ⊥
err≢ok h = cc

-- A chain that fails: its first step does, or a later one.
pub bind_err_cases {ℓ κ μ} :
    {T : Type ℓ} {U : Type κ} {C : Type μ} (first : Result T) (rest : T → Result U) {e : Error}
    → (first >>= rest) ≡ err e
    → (first ≡ err e → C)
    → ((value : T) → first ≡ ok value → rest value ≡ err e → C)
    → C
bind_err_cases (ok value) rest h at_once later = later value refl h
bind_err_cases (err e) rest h at_once later = at_once (cc)

pub err-injective {ℓ} : {A : Type ℓ} {x y : Error} → ◌≡◌ {A = Result A} (err x) (err y) → x ≡ y
err-injective h = cc

pub address_refl : (s : Sentinel) → nat_eq (address s) (address s) ≡ true
address_refl s = ground arith

-- To split on a computed result and keep the equation.
pub Result-cases {ℓ κ} :
    {A : Type ℓ} {C : Type κ} (r : Result A)
    → ((a : A) → r ≡ ok a → C)
    → ((e : Error) → r ≡ err e → C)
    → C
Result-cases (ok a) good bad = good a refl
Result-cases (err e) good bad = bad e refl
