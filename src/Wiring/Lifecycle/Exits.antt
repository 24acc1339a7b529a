-- ===== src/Wiring/Lifecycle/Exits.antt =====
-- How the process ends.
use mathlib.Core.List.{append_assoc}
use payment_webhook_processo.Prelude.{
  ℕ, String, Bool, true, false, Option, none, some, List, [], ◌∷◌, ◌++◌, ◌≡◌, refl, ap, ◌⊎◌, inl,
  inr, All, All-append,
}
use payment_webhook_processo.Failure.{Error, Result, ok, err, Result-cases}
use payment_webhook_processo.Db.Schema.{Database}
use payment_webhook_processo.Metrics.{Metrics, new}
use payment_webhook_processo.Metrics.Sdk.{Otel}
use payment_webhook_processo.Metrics.Stats.{shutdown}
use payment_webhook_processo.Text.Numbers.{ℤ}
use payment_webhook_processo.Wiring.Startup.{Startup, exited, serving}
use payment_webhook_processo.Wiring.Lifecycle.{
  main, app_metrics, RunsTo, Notice, log_error, log_starting, shut_server_down, shut_metrics_down,
  close_database, cancel_startup, stop_signals, cancel_shutdown, startup_context, close_all,
  signals, Deferred, finished, Run, close_everything, call_all, startup, on_done, launch, Step,
  announce, send, leave, close_channel, signal, done, receive, receive_closed, Steps, stop, step,
}
use payment_webhook_processo.Wiring.Lifecycle.Channel.{
  Heard, launch-Heard, Step-Heard, received, closed_well, Steps-IsClosed,
}

abbrev is_starting : Notice → Bool
is_starting (log_starting addr environment) = true
is_starting (log_error message e) = false
is_starting shut_server_down = false
is_starting shut_metrics_down = false
is_starting close_database = false
is_starting cancel_startup = false
is_starting stop_signals = false
is_starting cancel_shutdown = false

-- Nothing but the line that says that the server starts.
abbrev pub OnlyStarting : List Notice → Type 0
OnlyStarting ns = All (λ (n : Notice). is_starting n ≡ true) ns

Option-cases : (o : Option Error) → (o ≡ none) ⊎ ((e : Error) × (o ≡ some e))
Option-cases none = inl refl
Option-cases (some e) = inr (e, refl)

module _ (metrics_shutdown close server_shutdown : Result (Unit {0})) where
  -- The end of a process that returns from `main`.
  abbrev pub unwound : List Notice
  unwound =
      stop_signals ∷ close_everything metrics_shutdown close server_shutdown ++ cancel_startup ∷ []

  -- How a run ends that began with the metrics `made` and the start `startup`.
  module _ (is_server_closed : Error → Bool) (made : Result Metrics) (startup : Startup) where
    pub data Ended (r : Run) : Type 0 where
      going :
          r.process.exit_code ≡ none
          → r.process.deferred ≡ signals ∷ close_all ∷ startup_context ∷ []
          → OnlyStarting r.process.notices
          → Ended r
      stopped :
          (before : List Notice)
          → r.process.exit_code ≡ some 0
          → r.signalled ≡ true
          → server_shutdown ≡ ok tt
          → OnlyStarting before
          → r.process.notices ≡ before ++ shut_server_down ∷ cancel_shutdown ∷ unwound
          → Ended r
      left :
          (before : List Notice) (e : Error)
          → r.process.exit_code ≡ some 0
          → r.serve_error ≡ some e
          → is_server_closed e ≡ true
          → OnlyStarting before
          → r.process.notices ≡ before ++ unwound
          → Ended r
      not_stopped :
          (before : List Notice) (e : Error)
          → r.process.exit_code ≡ some 1
          → r.signalled ≡ true
          → server_shutdown ≡ err e
          → OnlyStarting before
          → r.process.notices
            ≡ before ++ shut_server_down ∷ log_error "graceful shutdown failed" e ∷ []
          → Ended r
      broken :
          (before : List Notice) (e : Error)
          → r.process.exit_code ≡ some 1
          → r.serve_error ≡ some e
          → is_server_closed e ≡ false
          → OnlyStarting before
          → r.process.notices ≡ before ++ log_error "server failed" e ∷ []
          → Ended r
      not_started :
          (message : String) (e : Error)
          → r.process.exit_code ≡ some 1
          → startup ≡ exited message e
          → r.process.notices ≡ log_error message e ∷ []
          → Ended r
      panicked :
          (e : Error)
          → r.process.exit_code ≡ some 2
          → made ≡ err e
          → r.process.notices ≡ []
          → Ended r

    Ended-going :
        {r : Run}
        → r.process.exit_code ≡ none
        → Ended r
        → (r.process.deferred ≡ signals ∷ close_all ∷ startup_context ∷ [])
          × OnlyStarting r.process.notices
    Ended-going h (going _ d q) = (d, q)
    Ended-going h (stopped _ c _ _ _ _) = absurd (cc (h, c))
    Ended-going h (left _ _ c _ _ _ _) = absurd (cc (h, c))
    Ended-going h (not_stopped _ _ c _ _ _ _) = absurd (cc (h, c))
    Ended-going h (broken _ _ c _ _ _ _) = absurd (cc (h, c))
    Ended-going h (not_started _ _ c _ _) = absurd (cc (h, c))
    Ended-going h (panicked _ c _ _) = absurd (cc (h, c))

  launch-Ended :
      (is_server_closed : Error → Bool) (m : Result Metrics) (s : Startup)
      → Ended is_server_closed m s (launch metrics_shutdown close server_shutdown m s)
  launch-Ended is_server_closed (err e) s = panicked e refl refl refl
  launch-Ended is_server_closed (ok m) (exited message e) = not_started message e refl refl refl
  launch-Ended is_server_closed (ok m) (serving addr database) = going refl refl tt

  module _ (is_server_closed : Error → Bool) (addr environment : String) where
    abbrev Next : Run → Run → Type 0
    Next = Step metrics_shutdown close server_shutdown is_server_closed addr environment

    module _ (m : Result Metrics) (s : Startup) where
      abbrev Ends : Run → Type 0
      Ends = Ended is_server_closed m s

      done-Ended :
          (r : Run)
          → r.process.exit_code ≡ none
          → r.signalled ≡ true
          → Ends r
          → Ends (record r { process = on_done metrics_shutdown close server_shutdown r.process })
      done-Ended r h came ends =
          let (d, q) = Ended-going is_server_closed m s h ends in
          let before = r.process.notices in
          Result-cases server_shutdown
            (λ u good.
              rw (good, d)
                (stopped before refl came refl q (append_assoc before (shut_server_down ∷ []) _)))
            λ e bad. rw bad (
              not_stopped before e refl came refl q (append_assoc before (shut_server_down ∷ []) _))

      Step-Ended :
          {r t : Run}
          → Next r t
          → Heard metrics_shutdown close server_shutdown is_server_closed r
          → Ends r
          → Ends t
      Step-Ended {r} (announce h _) heard ends =
          let (d, q) = Ended-going is_server_closed m s h ends in
          going h d
            (All-append (λ (n : Notice). is_starting n ≡ true) r.process.notices _ q (refl, tt))
      Step-Ended (send _ h _ _) heard ends =
          let (d, q) = Ended-going is_server_closed m s h ends in going h d q
      Step-Ended (leave _ h _ _) heard ends =
          let (d, q) = Ended-going is_server_closed m s h ends in going h d q
      Step-Ended (close_channel h _) heard ends =
          let (d, q) = Ended-going is_server_closed m s h ends in going h d q
      Step-Ended (signal h) heard ends =
          let (d, q) = Ended-going is_server_closed m s h ends in going h d q
      Step-Ended {r} (done h came) heard ends = done-Ended r h came ends
      Step-Ended {r} (receive e h full) heard ends =
          let (told, bad) =
            received metrics_shutdown close server_shutdown is_server_closed addr environment h full
              heard in
          broken r.process.notices e refl told bad (Ended-going is_server_closed m s h ends).1 refl
      Step-Ended {r} (receive_closed h empty shut) heard ends =
          let (e, told, good) =
            closed_well metrics_shutdown close server_shutdown is_server_closed addr environment h
              empty shut heard in
          let (d, q) = Ended-going is_server_closed m s h ends in
          left r.process.notices e refl told good q (
            ap
              (λ (ds : List Deferred).
                r.process.notices ++ call_all metrics_shutdown close server_shutdown ds)
              d)

      launch-Steps-Ended :
          {r : Run}
          → Steps metrics_shutdown close server_shutdown is_server_closed addr environment
              (launch metrics_shutdown close server_shutdown m s)
              r
          → Heard metrics_shutdown close server_shutdown is_server_closed r × Ends r
      launch-Steps-Ended stop = (
        launch-Heard metrics_shutdown close server_shutdown is_server_closed m s,
        launch-Ended is_server_closed m s,
      )
      launch-Steps-Ended (step ss t) =
          let (heard, ends) = launch-Steps-Ended ss in
          (
            Step-Heard metrics_shutdown close server_shutdown is_server_closed addr environment t
                heard,
            Step-Ended t heard ends,
          )

    launch_ends_next :
        (m : Result Metrics) (s : Startup) {r : Run}
        → Steps metrics_shutdown close server_shutdown is_server_closed addr environment
            (launch metrics_shutdown close server_shutdown m s)
            r
        → r.process.exit_code ≡ none
        → (r.signalled ≡ true) ⊎ (r.server ≡ finished)
        → (t : Run) × (code : ℕ) × Step metrics_shutdown close server_shutdown is_server_closed addr
            environment r t
          × (t.process.exit_code ≡ some code)
    launch_ends_next m s {r} ss h (inl signalled) =
        Result-cases server_shutdown (λ u good. (_, 0, done h signalled, rw good refl))
          λ e bad. (_, 1, done h signalled, rw bad refl)
    launch_ends_next m s {r} ss h (inr over) = elim (Option-cases r.buffer) [
      | inl empty ↦ (
        _,
        0,
        receive_closed h empty (
            Steps-IsClosed metrics_shutdown close server_shutdown is_server_closed addr environment
              m s ss over),
        refl,
      )
      | inr (e, sent) ↦ (_, 1, receive e h sent, refl)
    ]

module _ (getenv : String → String) (parse_duration : String → Result ℤ)
    (sql_open : String → Result (Unit {0})) (ping close server_shutdown : Result (Unit {0}))
    (otel : Otel) (db : Database) (is_server_closed : Error → Bool) where
  -- How the process ends. With 2 if `New` of the metrics panicked, with nothing done. With 1 if the
  -- start failed, if the server failed, or if it could not be shut down for a signal; then the error
  -- is logged, no other is, and nothing is closed. With 0 if the server was shut down for a signal,
  -- or ListenAndServe returned that it was closed; then the metrics are shut down and after them the
  -- database is closed, once each. While it goes on, none of this has happened.
  pub main-Ended :
      (s : db.State) {r : Run}
      → RunsTo getenv parse_duration sql_open ping close server_shutdown otel db is_server_closed s
          r
      → Ended
          (shutdown otel
            (app_metrics getenv parse_duration sql_open ping close server_shutdown otel db))
          close
          server_shutdown
          is_server_closed
          (new otel)
          (startup getenv parse_duration sql_open ping close server_shutdown otel db s)
          r
  unfolding main
  main-Ended s ss =
      (launch-Steps-Ended _ close server_shutdown is_server_closed _ _ (new otel) _ ss).1

  -- A process that goes on after a signal has come, or after its server's goroutine is over, has a
  -- step with which it ends.
  pub ends_next :
      (s : db.State) {r : Run}
      → RunsTo getenv parse_duration sql_open ping close server_shutdown otel db is_server_closed s
          r
      → r.process.exit_code ≡ none
      → (r.signalled ≡ true) ⊎ (r.server ≡ finished)
      → (t : Run) × (code : ℕ) × RunsTo getenv parse_duration sql_open ping close server_shutdown
          otel db is_server_closed s t
        × (t.process.exit_code ≡ some code)
  unfolding main
  ends_next s ss h why =
      let (t, code, next, ended) =
        launch_ends_next _ close server_shutdown is_server_closed _ _ (new otel) _ ss h why in
      (t, code, step ss next, ended)
