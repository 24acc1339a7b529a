-- ===== src/Metrics/Sdk.antt =====
-- What internal/metrics/metrics.go uses of Prometheus and of OpenTelemetry: a registry and what it
-- gathers from, a meter provider and its views, and the calls, which are parameters. A boundary of a
-- bucket is in microseconds; the source writes seconds, as floats.
use Prim.Native.Char.{code}
use Prim.Native.String as Str
use payment_webhook_processo.Prelude.{
  ℕ, ◌*◌, zero, suc, String, Bool, true, false, List, [], ◌∷◌, ◌++◌, ◌≡◌, ◌||◌, ◌&&◌, ◌==◌, leb,
  nat_eq,
}
use payment_webhook_processo.Failure.{Result, ok}
use payment_webhook_processo.World.{Kind, Instrument}

pub data Collector : Type 0 where
  go_collector process_collector : Collector
  otel_exporter : (namespace : String) → Collector

abbrev pub Registry : Type 0
Registry = List Collector

pub record View : Type 0 where
  pub name : String
  pub boundaries : List ℕ

-- `durationHistogramView`.
abbrev pub duration_histogram_view : String → List ℕ → View
duration_histogram_view name buckets = record { name = name; boundaries = buckets }

pub record MeterProvider : Type 0 where
  pub reader : Collector
  pub views : List View

-- The calls. `new_exporter` is otelprom.New, which registers the exporter that it makes; `create` is
-- the meter's constructor of instruments; `register_callback` takes the instruments of a callback.
pub record Otel : Type 0 where
  pub register : Collector → Registry → Result Registry
  pub new_exporter : String → Registry → Result Registry
  pub exponential_buckets : (start factor count : ℕ) → List ℕ
  pub create : MeterProvider → Kind → String → Result Instrument
  pub register_callback : MeterProvider → List Instrument → Result (Unit {0})
  pub shutdown : MeterProvider → Result (Unit {0})

abbrev same_collector : Collector → Collector → Bool
same_collector go_collector go_collector = true
same_collector process_collector process_collector = true
same_collector (otel_exporter a) (otel_exporter b) = a == b
same_collector _ _ = false

abbrev pub is_registered : Collector → Registry → Bool
is_registered c [] = false
is_registered c (d ∷ registry) = same_collector c d || is_registered c registry

abbrev is_letter : ℕ → Bool
is_letter n = leb b'A' n && leb n b'Z' || leb b'a' n && leb n b'z'

abbrev is_name_character : ℕ → Bool
is_name_character n =
    is_letter n
    || leb b'0' n && leb n b'9'
    || nat_eq n b'_'
    || nat_eq n b'.'
    || nat_eq n b'-'
    || nat_eq n b'/'

abbrev goes_on : ℕ → String → Bool
goes_on room Str.[] = true
goes_on zero (Str.◌∷◌ c s) = false
goes_on (suc room) (Str.◌∷◌ c s) = is_name_character (code c) && goes_on room s

-- An instrument's name begins with a letter, goes on with letters, digits and "_.-/", and has no
-- more than 255 characters.
abbrev pub is_instrument_name : String → Bool
is_instrument_name Str.[] = false
is_instrument_name (Str.◌∷◌ c s) = is_letter (code c) && goes_on 254 s

-- What their documentation says of a registry that takes new collectors, and of a meter that makes
-- instruments with valid names.
pub record IsOtel (otel : Otel) : Type 0 where
  pub registers :
      (c : Collector) (registry : Registry)
      → is_registered c registry ≡ false
      → otel.register c registry ≡ ok (registry ++ c ∷ [])
  pub exports :
      (namespace : String) (registry : Registry)
      → is_registered (otel_exporter namespace) registry ≡ false
      → otel.new_exporter namespace registry ≡ ok (registry ++ otel_exporter namespace ∷ [])
  pub buckets_one : (start factor : ℕ) → otel.exponential_buckets start factor 1 ≡ start ∷ []
  pub buckets_more :
      (start factor n : ℕ)
      → otel.exponential_buckets start factor (suc (suc n))
        ≡ start ∷ otel.exponential_buckets (start * factor) factor (suc n)
  pub creates :
      (provider : MeterProvider) (kind : Kind) (name : String)
      → is_instrument_name name ≡ true
      → otel.create provider kind name ≡ ok (record { kind = kind; name = name })
