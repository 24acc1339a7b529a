-- ===== src/Tests/Ending.antt =====
-- The process from its start to a signal.
use payment_webhook_processo.Prelude.{ℕ, Bool, true, false, none, some, [], ◌∷◌, ◌≡◌, refl, inl}
use payment_webhook_processo.Failure.{Error, ok}
use payment_webhook_processo.Text.{trim_space, is_space}
use payment_webhook_processo.Text.Numbers.{atoi, digits}
use payment_webhook_processo.Config.{
  first_non_empty, env_or_default, int_env_or_default, duration_env_or_default, load,
}
use payment_webhook_processo.Db.Memory.{schema_memory}
use payment_webhook_processo.Db.Migrations.{
  migrations, apply_migration, migration_applied, visit, run_all, run_migrations,
}
use payment_webhook_processo.Db.Pool.{
  set_max_open_conns, set_max_idle_conns, set_conn_max_lifetime, open_database,
}
use payment_webhook_processo.Metrics.{new, new_with_registry}
use payment_webhook_processo.Wiring.Startup.{start}
use payment_webhook_processo.Wiring.Lifecycle.{
  log_starting, shut_server_down, shut_metrics_down, close_database, cancel_startup, stop_signals,
  cancel_shutdown, startup_context, close_all, signals, shutdown_context, listening, Run, announce,
  signal, done, stop, step, startup, main, RunsTo,
}
use payment_webhook_processo.Wiring.Lifecycle.Exits.{Ended, main-Ended, ends_next}
use payment_webhook_processo.Tests.Starting.{getenv, parse_duration, any_url, before, otel}

abbrev never : Error → Bool
never e = false

-- The server listens and a signal has come.
abbrev signalled : Run
signalled = record {
  process = record {
    deferred = signals ∷ close_all ∷ startup_context ∷ [];
    notices = log_starting ":8080" "staging" ∷ [];
    exit_code = none;
  };
  server = listening;
  serve_error = none;
  buffer = none;
  closed = false;
  signalled = true;
}

abbrev ended_process : Run
ended_process = record signalled {
  process = record {
    deferred = shutdown_context ∷ signals ∷ close_all ∷ startup_context ∷ [];
    notices =
        log_starting ":8080" "staging"
        ∷ shut_server_down
        ∷ cancel_shutdown
        ∷ stop_signals
        ∷ shut_metrics_down
        ∷ close_database
        ∷ cancel_startup
        ∷ [];
    exit_code = some 0;
  };
}

to_signalled :
    RunsTo getenv parse_duration any_url
      (ok tt)
      (ok tt)
      (ok tt)
      otel
      schema_memory
      never
      before
      signalled
unfolding main new new_with_registry start load env_or_default int_env_or_default
    duration_env_or_default first_non_empty atoi digits open_database trim_space is_space
    set_max_open_conns set_max_idle_conns set_conn_max_lifetime run_migrations run_all migrations
    visit apply_migration migration_applied
to_signalled = step (step stop (announce refl refl)) (signal refl)

to_end :
    RunsTo getenv parse_duration any_url
      (ok tt)
      (ok tt)
      (ok tt)
      otel
      schema_memory
      never
      before
      ended_process
unfolding new new_with_registry load env_or_default
to_end = step to_signalled (done refl refl)

main-Ended_example :
    Ended
      (ok tt)
      (ok tt)
      (ok tt)
      never
      (new otel)
      (startup getenv parse_duration any_url (ok tt) (ok tt) (ok tt) otel schema_memory before)
      ended_process
unfolding new
main-Ended_example =
    main-Ended getenv parse_duration any_url (ok tt) (ok tt) (ok tt) otel schema_memory never before
      to_end

ends_next_example :
    (t : Run) × (code : ℕ) × RunsTo getenv parse_duration any_url
      (ok tt)
      (ok tt)
      (ok tt)
      otel
      schema_memory
      never
      before
      t
    × (t.process.exit_code ≡ some code)
ends_next_example =
    ends_next getenv parse_duration any_url (ok tt) (ok tt) (ok tt) otel schema_memory never before
      to_signalled refl (inl refl)
