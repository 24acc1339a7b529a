-- ===== src/Wiring/Lifecycle.antt =====
-- cmd/server/main.go: `main` as a whole. The process starts, or exits; its server listens in a
-- goroutine of its own, with a channel for its error; and `main` waits for a signal or for the
-- channel. A step is one of the goroutine, one of the outside world, or what `main` does after its
-- `select`, which is one step: `main` waits for nothing else from there on. Deferred functions run,
-- last one first, when `main` returns; os.Exit runs none of them.
pub mod Channel
pub mod Exits
use Prim.Native.String as Str
use payment_webhook_processo.Prelude.{
  ℕ, String, Bool, true, false, Option, none, some, List, [], ◌∷◌, ◌++◌, ◌≡◌,
}
use payment_webhook_processo.Failure.{Error, Result, ok, err}
use payment_webhook_processo.Config.{load}
use payment_webhook_processo.Db.Schema.{Database}
use payment_webhook_processo.Metrics.{Metrics, new}
use payment_webhook_processo.Metrics.Sdk.{Otel}
use payment_webhook_processo.Metrics.Stats.{register_database_stats_collector, shutdown}
use payment_webhook_processo.Text.Numbers.{ℤ}
use payment_webhook_processo.Wiring.Startup.{Startup, exited, serving, start}

-- What the process does that can be seen, in order: lines logged, and calls made.
pub data Notice : Type 0 where
  log_error : (message : String) (error : Error) → Notice
  log_starting : (addr environment : String) → Notice
  shut_server_down shut_metrics_down close_database : Notice
  cancel_startup stop_signals cancel_shutdown : Notice

-- The deferred calls of `main`; `close_all` is its deferred function.
pub data Deferred : Type 0 where
  startup_context close_all signals shutdown_context : Deferred

pub record Process : Type 0 where
  pub deferred : List Deferred
  pub notices : List Notice
  pub exit_code : Option ℕ

-- The goroutine of the server: not yet running, in ListenAndServe, past it, or over.
pub data Server : Type 0 where
  created listening returned finished : Server

-- The process with its goroutine, what ListenAndServe returned to it, the channel `serverErrors`, and
-- the signal.
pub record Run : Type 0 where
  pub process : Process
  pub server : Server
  pub serve_error : Option Error
  pub buffer : Option Error
  pub closed : Bool
  pub signalled : Bool

abbrev with_notices : List Notice → Process → Process
with_notices notices p = record p { notices = p.notices ++ notices }

abbrev defer : Deferred → Process → Process
defer d p = record p { deferred = d ∷ p.deferred }

-- An error is logged and the process exits with 1.
abbrev fail : String → Error → Process → Process
fail message e p = record (with_notices (log_error message e ∷ []) p) { exit_code = some 1 }

abbrev log_failure : String → Result (Unit {0}) → List Notice
log_failure message (ok _) = []
log_failure message (err e) = log_error message e ∷ []

-- `metrics_shutdown`, `close` and `server_shutdown` are what `Shutdown` of the metrics, `Close` of
-- the database and `Shutdown` of the server return.
module _ (metrics_shutdown close server_shutdown : Result (Unit {0})) where
  abbrev pub close_everything : List Notice
  close_everything =
      shut_metrics_down ∷ log_failure "metrics shutdown failed" metrics_shutdown
      ++ close_database ∷ log_failure "database close failed" close

  abbrev pub call : Deferred → List Notice
  call startup_context = cancel_startup ∷ []
  call close_all = close_everything
  call signals = stop_signals ∷ []
  call shutdown_context = cancel_shutdown ∷ []

  abbrev pub call_all : List Deferred → List Notice
  call_all [] = []
  call_all (d ∷ ds) = call d ++ call_all ds

  abbrev pub return : Process → Process
  return p = record (with_notices (call_all p.deferred) p) { exit_code = some 0 }

  abbrev after_shutdown : Result (Unit {0}) → Process → Process
  after_shutdown (ok _) p = return p
  after_shutdown (err e) p = fail "graceful shutdown failed" e p

  -- The case of the signal.
  abbrev pub on_done : Process → Process
  on_done p =
      after_shutdown server_shutdown
        (with_notices (shut_server_down ∷ []) (defer shutdown_context p))

  -- The case of the channel: its error, or nothing, when it is closed and empty.
  abbrev pub on_server_errors : Option Error → Process → Process
  on_server_errors (some e) p = fail "server failed" e p
  on_server_errors none p = return p

  abbrev fresh : Process
  fresh = record { deferred = []; notices = []; exit_code = none }

  abbrev run_of : Process → Run
  run_of p = record {
    process = p;
    server = created;
    serve_error = none;
    buffer = none;
    closed = false;
    signalled = false;
  }

  -- A failure before the server exits, and what is deferred by then is not called.
  abbrev pub started : Startup → Process
  started (exited message e) = fail message e (defer startup_context fresh)
  started (serving addr database) = defer signals (defer close_all (defer startup_context fresh))

  -- A panic of `metrics.New` ends the process with 2; nothing is deferred before it.
  abbrev pub launch : Result Metrics → Startup → Run
  launch (err e) startup = run_of (record fresh { exit_code = some 2 })
  launch (ok m) startup = run_of (started startup)

  module _ (is_server_closed : Error → Bool) (addr environment : String) where
    pub data Step (r : Run) : Run → Type 0 where
      announce :
          r.process.exit_code ≡ none
          → r.server ≡ created
          → Step r (record r {
            process = with_notices (log_starting addr environment ∷ []) r.process;
            server = listening;
          })
      -- ListenAndServe returns an error, which is sent.
      send :
          (e : Error)
          → r.process.exit_code ≡ none
          → r.server ≡ listening
          → is_server_closed e ≡ false
          → Step r (record r { server = returned; serve_error = some e; buffer = some e })
      -- It returns http.ErrServerClosed.
      leave :
          (e : Error)
          → r.process.exit_code ≡ none
          → r.server ≡ listening
          → is_server_closed e ≡ true
          → Step r (record r { server = returned; serve_error = some e })
      close_channel :
          r.process.exit_code ≡ none
          → r.server ≡ returned
          → Step r (record r { server = finished; closed = true })
      signal : r.process.exit_code ≡ none → Step r (record r { signalled = true })
      done :
          r.process.exit_code ≡ none
          → r.signalled ≡ true
          → Step r (record r { process = on_done r.process })
      receive :
          (e : Error)
          → r.process.exit_code ≡ none
          → r.buffer ≡ some e
          → Step r (record r { process = on_server_errors (some e) r.process; buffer = none })
      receive_closed :
          r.process.exit_code ≡ none
          → r.buffer ≡ none
          → r.closed ≡ true
          → Step r (record r { process = on_server_errors none r.process })

    pub data Steps (r : Run) : Run → Type 0 where
      stop : Steps r r
      step : {s t : Run} → Steps r s → Step s t → Steps r t

abbrev metrics_of : Result Metrics → Option Metrics
metrics_of (err e) = none
metrics_of (ok m) = some m

module _ (getenv : String → String) (parse_duration : String → Result ℤ)
    (sql_open : String → Result (Unit {0})) (ping close server_shutdown : Result (Unit {0}))
    (otel : Otel) (db : Database) where
  abbrev pub app_metrics : Option Metrics
  app_metrics = metrics_of (new otel)

  abbrev pub startup : db.State → Startup
  startup s =
      (start getenv parse_duration sql_open ping
        (register_database_stats_collector otel app_metrics) db s).0

  -- `main` up to its `select`, over the database's state `s`.
  unfoldable pub main : db.State → Run
  main s = launch (shutdown otel app_metrics) close server_shutdown (new otel) (startup s)

  -- The steps from there.
  abbrev pub RunsTo : (is_server_closed : Error → Bool) → db.State → Run → Type 0
  RunsTo is_server_closed s =
      Steps (shutdown otel app_metrics) close server_shutdown is_server_closed
        (Str.◌++◌ ":" (load getenv parse_duration).port) (load getenv parse_duration).environment
        (main s)
