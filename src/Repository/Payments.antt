-- ===== src/Repository/Payments.antt =====
-- internal/repository/payments.go.
pub mod Laws
use payment_webhook_processo.Prelude.{String, Option, ◌≡◌, refl, if◌then◌else◌}
use payment_webhook_processo.Failure.{
  payment_not_found, Error, sentinel, wrap, is_no_rows, Result, ok, err,
}
use payment_webhook_processo.World.{Action, run, pure, ◌>>=◌, ◌>>◌}
use payment_webhook_processo.Metrics.{Metrics, start_database_write_timer, observe_timer}
use payment_webhook_processo.Repository.Rows.{Payment}
use payment_webhook_processo.Repository.Postgres.{Postgres}
use payment_webhook_processo.Service.Interfaces.{PaymentStateRepository}

abbrev found_payment : Result Payment → Result Payment
found_payment (ok p) = ok p
found_payment (err e) =
    if is_no_rows e then err (sentinel payment_not_found) else err (wrap "get payment by id" e)

-- fmt.Errorf("<text>: %w", err) of a statement's error.
abbrev pub wrapped : String → Result (Unit {0}) → Result (Unit {0})
wrapped text (ok u) = ok u
wrapped text (err e) = err (wrap text e)

module _ (pg : Postgres) (metrics : Option Metrics) where
  unfoldable pub get_by_payment_id : String → Action pg.State (Result Payment)
  get_by_payment_id payment_id = do
    row ← run (pg.select_payment payment_id)
    pure (found_payment row)

  unfoldable pub upsert : Payment → Action pg.State (Result (Unit {0}))
  unfolding start_database_write_timer observe_timer
  upsert payment = do
    timer ← start_database_write_timer {L = Unit {0}} metrics "upsert_payment"
    result ← run (pg.upsert_payment payment)
    observe_timer timer tt
    pure (wrapped "upsert payment" result)

-- `NewPaymentRepository`, with the methods of the type.
abbrev pub new_payment_repository :
    (pg : Postgres) → Option Metrics → PaymentStateRepository pg.State
new_payment_repository pg metrics = record {
  get_by_payment_id = get_by_payment_id pg metrics;
  upsert = upsert pg metrics;
}

-- A wrapped result succeeds or fails with the statement's.
pub wrapped-eq-ok :
    (text : String) (r : Result (Unit {0})) {u : Unit {0}} → wrapped text r ≡ ok u → r ≡ ok tt
wrapped-eq-ok text (ok u) h = refl
wrapped-eq-ok text (err e) h = cc

pub wrapped-eq-err :
    (text : String) (r : Result (Unit {0})) {e : Error}
    → wrapped text r ≡ err e
    → (x : Error) × (r ≡ err x)
wrapped-eq-err text (ok u) h = cc
wrapped-eq-err text (err x) h = (x, refl)
