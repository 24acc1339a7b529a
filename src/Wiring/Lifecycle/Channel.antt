-- ===== src/Wiring/Lifecycle/Channel.antt =====
-- What ListenAndServe returns to the goroutine of the server, and the channel of its error.
use mathlib.Core.Option
use payment_webhook_processo.Prelude.{
  ℕ, String, Bool, true, false, none, some, ◌≡◌, refl, sym, ap, ◌∙◌,
}
use payment_webhook_processo.Failure.{Error, Result, ok, err, Result-cases}
use payment_webhook_processo.Metrics.{Metrics}
use payment_webhook_processo.Wiring.Startup.{Startup}
use payment_webhook_processo.Wiring.Lifecycle.{
  Server, created, listening, returned, finished, Run, on_done, launch, Step, announce, send, leave,
  close_channel, signal, done, receive, receive_closed, Steps, stop, step,
}

module _ (metrics_shutdown close server_shutdown : Result (Unit {0})) where
  abbrev is_over : Server → Bool
  is_over created = false
  is_over listening = false
  is_over returned = true
  is_over finished = true

  -- What ListenAndServe has returned, and what stands in the channel.
  pub data Heard (is_server_closed : Error → Bool) (r : Run) : Type 0 where
    nothing :
        is_over r.server ≡ false → r.buffer ≡ none → r.closed ≡ false → Heard is_server_closed r
    failure :
        (e : Error)
        → is_over r.server ≡ true
        → r.serve_error ≡ some e
        → is_server_closed e ≡ false
        → r.buffer ≡ some e
        → Heard is_server_closed r
    closing :
        (e : Error)
        → is_over r.server ≡ true
        → r.serve_error ≡ some e
        → is_server_closed e ≡ true
        → r.buffer ≡ none
        → Heard is_server_closed r
    exited_with : (code : ℕ) → r.process.exit_code ≡ some code → Heard is_server_closed r

  pub launch-Heard :
      (is_server_closed : Error → Bool) (m : Result Metrics) (s : Startup)
      → Heard is_server_closed (launch metrics_shutdown close server_shutdown m s)
  launch-Heard is_server_closed (err e) s = nothing refl refl refl
  launch-Heard is_server_closed (ok m) s = nothing refl refl refl

  module _ (is_server_closed : Error → Bool) (addr environment : String) where
    abbrev Next : Run → Run → Type 0
    Next = Step metrics_shutdown close server_shutdown is_server_closed addr environment

    done-Heard :
        (r : Run)
        → Heard is_server_closed
            (record r { process = on_done metrics_shutdown close server_shutdown r.process })
    done-Heard r =
        Result-cases server_shutdown (λ u good. exited_with 0 (rw good refl))
          λ e bad. exited_with 1 (rw bad refl)

    pub Step-Heard : {r s : Run} → Next r s → Heard is_server_closed r → Heard is_server_closed s
    Step-Heard (announce h at) (nothing _ empty unclosed) = nothing refl empty unclosed
    Step-Heard (announce h at) (failure e past _ _ _) = absurd (cc (past, ap is_over at))
    Step-Heard (announce h at) (closing e past _ _ _) = absurd (cc (past, ap is_over at))
    Step-Heard (announce h at) (exited_with code over) = absurd (cc (h, over))
    Step-Heard (send e h at bad) heard = failure e refl refl bad refl
    Step-Heard (leave e h at good) (nothing _ empty _) = closing e refl refl good empty
    Step-Heard (leave e h at good) (failure x past _ _ _) = absurd (cc (past, ap is_over at))
    Step-Heard (leave e h at good) (closing x past _ _ _) = absurd (cc (past, ap is_over at))
    Step-Heard (leave e h at good) (exited_with code over) = absurd (cc (h, over))
    Step-Heard (close_channel h at) (nothing early _ _) = absurd (cc (early, ap is_over at))
    Step-Heard (close_channel h at) (failure e _ told bad full) = failure e refl told bad full
    Step-Heard (close_channel h at) (closing e _ told good empty) = closing e refl told good empty
    Step-Heard (close_channel h at) (exited_with code over) = absurd (cc (h, over))
    Step-Heard (signal h) (nothing early empty unclosed) = nothing early empty unclosed
    Step-Heard (signal h) (failure e past told bad full) = failure e past told bad full
    Step-Heard (signal h) (closing e past told good empty) = closing e past told good empty
    Step-Heard (signal h) (exited_with code over) = exited_with code over
    Step-Heard {r} (done h _) heard = done-Heard r
    Step-Heard (receive e _ _) heard = exited_with 1 refl
    Step-Heard (receive_closed _ _ _) heard = exited_with 0 refl

    -- The error that is received is the one that the server failed with.
    pub received :
        {r : Run} {e : Error}
        → r.process.exit_code ≡ none
        → r.buffer ≡ some e
        → Heard is_server_closed r
        → (r.serve_error ≡ some e) × (is_server_closed e ≡ false)
    received h full (nothing _ empty _) = absurd (cc (full, empty))
    received h full (failure x _ told bad there) =
        let same = Option.some-injective _ _ (sym there ∙ full) in
        (told ∙ ap some same, rw same at bad)
    received h full (closing x _ _ _ empty) = absurd (cc (full, empty))
    received h full (exited_with code over) = absurd (cc (h, over))

    -- A channel is closed with nothing in it if the server was closed.
    pub closed_well :
        {r : Run}
        → r.process.exit_code ≡ none
        → r.buffer ≡ none
        → r.closed ≡ true
        → Heard is_server_closed r
        → (e : Error) × (r.serve_error ≡ some e) × (is_server_closed e ≡ true)
    closed_well h empty shut (nothing _ _ unclosed) = absurd (cc (shut, unclosed))
    closed_well h empty shut (failure x _ _ _ full) = absurd (cc (empty, full))
    closed_well h empty shut (closing e _ told good _) = (e, told, good)
    closed_well h empty shut (exited_with code over) = absurd (cc (h, over))

    -- What the channel is like when the goroutine is over.
    abbrev pub IsClosed : Run → Type 0
    IsClosed r = r.server ≡ finished → r.closed ≡ true

    Step-IsClosed :
        {r s : Run}
        → Step metrics_shutdown close server_shutdown is_server_closed addr environment r s
        → IsClosed r
        → IsClosed s
    Step-IsClosed (announce _ _) k h = cc
    Step-IsClosed (send _ _ _ _) k h = cc
    Step-IsClosed (leave _ _ _ _) k h = cc
    Step-IsClosed (close_channel _ _) k h = refl
    Step-IsClosed (signal _) k h = k h
    Step-IsClosed (done _ _) k h = k h
    Step-IsClosed (receive _ _ _) k h = k h
    Step-IsClosed (receive_closed _ _ _) k h = k h

    launch-IsClosed :
        (m : Result Metrics) (s : Startup)
        → IsClosed (launch metrics_shutdown close server_shutdown m s)
    launch-IsClosed (err e) s h = cc
    launch-IsClosed (ok m) s h = cc

    pub Steps-IsClosed :
        (m : Result Metrics) (s : Startup) {r : Run}
        → Steps metrics_shutdown close server_shutdown is_server_closed addr environment
            (launch metrics_shutdown close server_shutdown m s)
            r
        → IsClosed r
    Steps-IsClosed m s stop = launch-IsClosed m s
    Steps-IsClosed m s (step ss t) = Step-IsClosed t (Steps-IsClosed m s ss)
