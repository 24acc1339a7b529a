-- ===== src/Service/PaymentProcessor/Rows.antt =====
-- The branches of `PaymentProcessor.Process`: what each does to the payments table, and returns.
use payment_webhook_processo.Prelude.{
  ℕ, ◌<◌, String, true, false, Option, none, some, ◌≡◌, refl, ◌⊎◌, inl, inr, Bool-cases, ltb,
  nat_eq, arith,
}
use payment_webhook_processo.Failure.{Error, payment_not_found, wrap, is, Result, err, Result-cases}
use payment_webhook_processo.World.{World}
use payment_webhook_processo.Webhook.Event.{PaymentEvent}
use payment_webhook_processo.Repository.Rows.{Payment}
use payment_webhook_processo.Repository.Postgres.{put}
use payment_webhook_processo.Service.Interfaces.{KeepsPayments, at_precision}
use payment_webhook_processo.Service.Anomaly.{is_transition_allowed}
use payment_webhook_processo.Service.PaymentProcessor.{
  PaymentProcessor, PaymentUpdate, PaymentProcessingResult, payment_processing_status_created,
  payment_processing_status_updated, payment_from_event, write, apply_event, Return,
}

abbrev pub Rows : Type 0
Rows = String → Option Payment

-- The event may be written: its payment is new, or the event is newer and its status may follow.
pub data MayWrite (before : Rows) (event : PaymentEvent) : Type 0 where
  fresh : before event.payment_id ≡ none → MayWrite before event
  newer :
      (current : Payment)
      → before event.payment_id ≡ some current
      → current.status_timestamp < event.event_timestamp
      → is_transition_allowed current.status event.payment_status ≡ true
      → MayWrite before event

-- The table with the event's payment in it.
abbrev pub with_event_row : (ℕ → ℕ) → Rows → PaymentEvent → Rows
with_event_row stored_time before event =
    put before (at_precision stored_time (payment_from_event event))

abbrev pub result_of : String → String → PaymentProcessingResult
result_of status reason = record { status = status; reason = reason }

-- What the payment's row was read as, the table before and after, and what is returned.
pub data Outcome {D : Type 0} (p : PaymentProcessor D) (rows : D → Rows) (stored_time : ℕ → ℕ)
    (read : Result Payment) (before after : Rows) (event : PaymentEvent)
    (result : PaymentProcessingResult) (error : Option Error) : Type 0 where
  created :
      before event.payment_id ≡ none
      → after ≡ with_event_row stored_time before event
      → result ≡ result_of "created" ""
      → error ≡ none
      → Outcome p rows stored_time read before after event result error
  updated :
      (current : Payment)
      → before event.payment_id ≡ some current
      → current.status_timestamp < event.event_timestamp
      → is_transition_allowed current.status event.payment_status ≡ true
      → after ≡ with_event_row stored_time before event
      → result ≡ result_of "updated" ""
      → error ≡ none
      → Outcome p rows stored_time read before after event result error
  older :
      (current : Payment)
      → before event.payment_id ≡ some current
      → event.event_timestamp < current.status_timestamp
      → after ≡ before
      → result ≡ result_of "ignored" "older_timestamp"
      → error ≡ none
      → Outcome p rows stored_time read before after event result error
  same_instant :
      (current : Payment)
      → before event.payment_id ≡ some current
      → event.event_timestamp ≡ current.status_timestamp
      → after ≡ before
      → result ≡ result_of "ignored" "equal_timestamp"
      → error ≡ none
      → Outcome p rows stored_time read before after event result error
  forbidden :
      (current : Payment)
      → before event.payment_id ≡ some current
      → current.status_timestamp < event.event_timestamp
      → is_transition_allowed current.status event.payment_status ≡ false
      → after ≡ before
      → result ≡ result_of "ignored" "invalid_terminal_transition"
      → error ≡ none
      → Outcome p rows stored_time read before after event result error
  unread :
      (e : Error)
      → read ≡ err e
      → is e payment_not_found ≡ false
      → after ≡ before
      → result ≡ result_of "failed" ""
      → error ≡ some (wrap "get current payment state" e)
      → Outcome p rows stored_time read before after event result error
  -- `v` is the state in which the event's payment was sent.
  unwritten :
      (v : World D) (e : Error)
      → MayWrite before event
      → rows v.database ≡ before
      → (p.repository.upsert (payment_from_event event) v).0 ≡ err e
      → after ≡ rows (p.repository.upsert (payment_from_event event) v).1.database
      → (after ≡ before) ⊎ (after ≡ with_event_row stored_time before event)
      → result ≡ result_of "failed" ""
      → (text : String) × (error ≡ some (wrap text e))
      → Outcome p rows stored_time read before after event result error

abbrev pub ReturnOutcome :
    {D : Type 0}
    → PaymentProcessor D
    → (D → Rows)
    → (ℕ → ℕ)
    → Result Payment
    → Rows
    → Rows
    → PaymentEvent
    → Return
    → Type 0
ReturnOutcome p rows stored_time read before after event r =
    Outcome p rows stored_time read before after event r.result r.error

-- Every outcome leaves the table alone or writes the event's payment, where it may be written.
pub Outcome-writes :
    {D : Type 0} {p : PaymentProcessor D} {rows : D → Rows} {stored_time : ℕ → ℕ}
    {read : Result Payment} {before after : Rows} {event : PaymentEvent}
    {result : PaymentProcessingResult} {error : Option Error}
    → Outcome p rows stored_time read before after event result error
    → (after ≡ before) ⊎ (MayWrite before event × (after ≡ with_event_row stored_time before event))
Outcome-writes (created new put _ _) = inr (fresh new, put)
Outcome-writes (updated current old lt good put _ _) = inr (newer current old lt good, put)
Outcome-writes (older current old lt same _ _) = inl same
Outcome-writes (same_instant current old eq same _ _) = inl same
Outcome-writes (forbidden current old lt bad same _ _) = inl same
Outcome-writes (unread e _ _ same _ _) = inl same
Outcome-writes (unwritten v e may _ _ _ (inl same) _ _) = inl same
Outcome-writes (unwritten v e may _ _ _ (inr put) _ _) = inr (may, put)

module _ {D : Type 0} (p : PaymentProcessor D) (rows : D → Rows) (stored_time : ℕ → ℕ)
    (keeps : KeepsPayments p.repository rows stored_time) where
  pub create-Outcome :
      (read : Result Payment) (update : PaymentUpdate) (w : World D)
      → rows w.database update.event.payment_id ≡ none
      → ReturnOutcome p rows stored_time read
          (rows w.database)
          (rows
            (write p update payment_processing_status_created "create payment state" w).1.database)
          update.event
          (write p update payment_processing_status_created "create payment state" w).0
  unfolding write
  create-Outcome read update w new =
      Result-cases (p.repository.upsert (payment_from_event update.event) w).0
        (λ _ good. rw good (created new (keeps.upsert_ok _ w good) refl refl))
        (λ e bad.
          rw bad
            (unwritten w e (fresh new) refl bad refl (keeps.upsert_err _ w e bad) refl (_, refl)))

  update-Outcome :
      (read : Result Payment) (update : PaymentUpdate) (w : World D) (current : Payment)
      → rows w.database update.event.payment_id ≡ some current
      → current.status_timestamp < update.event.event_timestamp
      → is_transition_allowed current.status update.event.payment_status ≡ true
      → ReturnOutcome p rows stored_time read
          (rows w.database)
          (rows
            (write p update payment_processing_status_updated "update payment state" w).1.database)
          update.event
          (write p update payment_processing_status_updated "update payment state" w).0
  unfolding write
  update-Outcome read update w current old lt good =
      Result-cases (p.repository.upsert (payment_from_event update.event) w).0
        (λ _ fine. rw fine (updated current old lt good (keeps.upsert_ok _ w fine) refl refl))
        (λ e bad. rw bad (
          unwritten w e (newer current old lt good) refl bad refl (keeps.upsert_err _ w e bad) refl
            (_, refl)))

  pub apply_event-Outcome :
      (read : Result Payment) (update : PaymentUpdate) (w : World D) (current : Payment)
      → rows w.database update.event.payment_id ≡ some current
      → ReturnOutcome p rows stored_time read
          (rows w.database)
          (rows (apply_event p current update w).1.database)
          update.event
          (apply_event p current update w).0
  unfolding apply_event
  apply_event-Outcome read update w current old =
      elim (Bool-cases (ltb current.status_timestamp update.event.event_timestamp)) [
        | inr not_after ↦
            elim (Bool-cases (nat_eq update.event.event_timestamp current.status_timestamp)) [
              | inl equal ↦
                  rw (not_after, equal) (same_instant current old (ground arith) refl refl refl)
              | inr other ↦ rw (not_after, other) (older current old (ground arith) refl refl refl)
            ]
        | inl later ↦
            elim (Bool-cases (is_transition_allowed current.status update.event.payment_status)) [
              | inl good ↦
                  rw (later, good) (update-Outcome read update w current old (ground arith) good)
              | inr bad ↦ rw (later, bad) (forbidden current old (ground arith) bad refl refl refl)
            ]
      ]
