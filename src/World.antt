-- ===== src/World.antt =====
-- The state that a request's code reads and writes: the database behind the connection pool, the
-- measurements handed to the OpenTelemetry instruments, the clock, and the log lines written. An
-- operation of the program is an action: a function from the state to its result and the new state.
pub mod Growth
use payment_webhook_processo.Prelude.{ℕ, String, List}

-- The kinds of instruments that internal/metrics/metrics.go creates.
pub data Kind : Type 0 where
  int64_counter float64_histogram : Kind
  int64_observable_gauge int64_observable_counter float64_observable_counter : Kind

pub record Instrument : Type 0 where
  pub kind : Kind
  pub name : String

-- One call of `Add` or `Record`; a duration is in nanoseconds.
pub record Measurement : Type 0 where
  pub instrument : Instrument
  pub attributes : List (String × String)
  pub value : ℕ

pub data LogValue : Type 0 where
  str : String → LogValue
  int64 : ℕ → LogValue

pub record LogEvent : Type 0 where
  pub fields : List (String × LogValue)
  pub message : String

-- `clock n` is the n-th reading of the monotonic clock, and `reads` counts the readings made.
pub record World (D : Type 0) : Type 0 where
  pub database : D
  pub measurements : List Measurement
  pub clock : ℕ → ℕ
  pub reads : ℕ
  pub log : List LogEvent

abbrev pub Action : Type 0 → Type 0 → Type 0
Action D A = World D → A × World D

module _ {D A : Type 0} where
  abbrev pub pure : A → Action D A
  pure a w = (a, w)

  -- A statement sent to the database.
  abbrev pub run : (D → A × D) → Action D A
  run statement w = let (a, d) = statement w.database in (a, record w { database = d })

module _ {D A B : Type 0} where
  infixl 5 ◌>>=◌ ◌>>◌
  abbrev pub ◌>>=◌ : Action D A → (A → Action D B) → Action D B
  ◌>>=◌ m f w = let (a, w') = m w in f a w'

  abbrev pub ◌>>◌ : Action D A → Action D B → Action D B
  ◌>>◌ m n w = n (m w).1
