-- ===== src/Service/PaymentProcessor/Precision.antt =====
-- The test for an equal instant, where the store keeps instants at a coarser precision.
use payment_webhook_processo.Prelude.{ℕ, ◌<◌, String, Option, some, ◌≡◌, ◌≢◌, ap, eq_iff, arith}
use payment_webhook_processo.Failure.{Error, Result}
use payment_webhook_processo.World.{World}
use payment_webhook_processo.Webhook.Event.{PaymentEvent}
use payment_webhook_processo.Repository.Rows.{Payment}
use payment_webhook_processo.Service.Interfaces.{KeepsPayments, RecorderKeeps}
use payment_webhook_processo.Service.PaymentProcessor.{
  PaymentProcessor, PaymentUpdate, PaymentProcessingResult, process,
}
use payment_webhook_processo.Service.PaymentProcessor.Rows.{
  Rows, result_of, Outcome, created, updated, older, same_instant, forbidden, unread, unwritten,
}
use payment_webhook_processo.Service.PaymentProcessor.Outcomes.{process-Outcome}

reasons_differ : {a b : String} {s t : String} → a ≢ b → result_of s a ≢ result_of t b
reasons_differ ne h = ne (ap (λ (r : PaymentProcessingResult). r.reason) h)

equal_only_at_the_instant :
    {D : Type 0} {p : PaymentProcessor D} {rows : D → Rows} {stored_time : ℕ → ℕ}
    {read : Result Payment} {before after : Rows} {event : PaymentEvent}
    {result : PaymentProcessingResult} {error : Option Error}
    → Outcome p rows stored_time read before after event result error
    → result.reason ≡ "equal_timestamp"
    → (current : Payment) × (before event.payment_id ≡ some current)
      × (event.event_timestamp ≡ current.status_timestamp)
equal_only_at_the_instant (same_instant current old equal _ _ _) h = (current, old, equal)
equal_only_at_the_instant (created _ _ r _) h =
    absurd (ground (arith, r, eq_iff "" "equal_timestamp"))
equal_only_at_the_instant (updated _ _ _ _ _ r _) h =
    absurd (ground (arith, r, eq_iff "" "equal_timestamp"))
equal_only_at_the_instant (older _ _ _ _ r _) h =
    absurd (ground (arith, r, eq_iff "older_timestamp" "equal_timestamp"))
equal_only_at_the_instant (forbidden _ _ _ _ _ r _) h =
    absurd (ground (arith, r, eq_iff "invalid_terminal_transition" "equal_timestamp"))
equal_only_at_the_instant (unread _ _ _ _ r _) h =
    absurd (ground (arith, r, eq_iff "" "equal_timestamp"))
equal_only_at_the_instant (unwritten _ _ _ _ _ _ _ r _) h =
    absurd (ground (arith, r, eq_iff "" "equal_timestamp"))

module _ {D : Type 0} (p : PaymentProcessor D) (rows : D → Rows) (stored_time : ℕ → ℕ)
    (keeps : KeepsPayments p.repository rows stored_time)
    (recorder_keeps : RecorderKeeps rows p.anomaly_recorder) where
  -- If the store cuts an instant off, then a second event of the very instant that the row was
  -- written for is not ignored as one of an equal instant.
  pub process_misses_equal :
      (update : PaymentUpdate) (w : World D) (current : Payment)
      → rows w.database update.event.payment_id ≡ some current
      → current.status_timestamp ≡ stored_time update.event.event_timestamp
      → stored_time update.event.event_timestamp < update.event.event_timestamp
      → (process p update w).0.0.reason ≢ "equal_timestamp"
  process_misses_equal update w current old written cut h =
      let (c, found, equal) =
        equal_only_at_the_instant (process-Outcome p rows stored_time keeps recorder_keeps update w)
          h in
      let same : c ≡ current = cc in
      absurd (omega (arith, equal, ap (λ (q : Payment). q.status_timestamp) same))
