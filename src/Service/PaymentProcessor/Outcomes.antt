-- ===== src/Service/PaymentProcessor/Outcomes.antt =====
-- `PaymentProcessor.Process` as a whole: its outcome, and what follows for the payments table.
use payment_webhook_processo.Prelude.{
  ℕ, ◌≤◌, ◌<◌, String, true, none, some, List, ◌≡◌, ◌≢◌, refl, sym, ◌∙◌, ◌⊎◌, inl, inr, Bool-cases,
  ◌==◌, eq_iff, eq_refl, arith,
}
use payment_webhook_processo.Failure.{Error, payment_not_found, is, Result, ok, err}
use payment_webhook_processo.World.{World}
use payment_webhook_processo.Metrics.{start_payment_processing_timer}
use payment_webhook_processo.Webhook.Event.{PaymentEvent}
use payment_webhook_processo.Repository.Rows.{Payment, Anomaly}
use payment_webhook_processo.Repository.Postgres.{put}
use payment_webhook_processo.Service.Interfaces.{KeepsPayments, RecorderKeeps, at_precision}
use payment_webhook_processo.Service.Anomaly.{is_transition_allowed, detect_anomalies}
use payment_webhook_processo.Service.PaymentProcessor.{
  PaymentProcessor, PaymentUpdate, payment_from_event, record_anomalies, with_current, body,
  process,
}
use payment_webhook_processo.Service.PaymentProcessor.Frame.{record_with-view}
use payment_webhook_processo.Service.PaymentProcessor.Rows.{
  Rows, MayWrite, fresh, newer, with_event_row, Outcome, Outcome-writes, unread, ReturnOutcome,
  create-Outcome, apply_event-Outcome,
}

-- A row after an event's payment was written over `before`, from a row `current`.
abbrev pub Advanced : Rows → String → Payment → Type 0
Advanced after id current =
    (next : Payment) × (after id ≡ some next)
    × (current.status_timestamp ≤ next.status_timestamp)
    × ((next ≡ current) ⊎ (is_transition_allowed current.status next.status ≡ true))

module _ (stored_time : ℕ → ℕ) (mono : (a b : ℕ) → a ≤ b → stored_time a ≤ stored_time b)
    (before : Rows) (event : PaymentEvent) where
  newer-Advanced :
      (current c : Payment)
      → before event.payment_id ≡ some current
      → before event.payment_id ≡ some c
      → stored_time current.status_timestamp ≡ current.status_timestamp
      → c.status_timestamp < event.event_timestamp
      → is_transition_allowed c.status event.payment_status ≡ true
      → Advanced (with_event_row stored_time before event) event.payment_id current
  newer-Advanced current c old found kept lt good =
      let same : c ≡ current = cc in
      (
        at_precision stored_time (payment_from_event event),
        ground (arith, eq_refl event.payment_id),
        omega (
          arith,
          kept,
          mono current.status_timestamp event.event_timestamp (rw (← same) (omega arith)),
        ),
        inr (rw (← same) good),
      )

  MayWrite-Advanced :
      (id : String) (current : Payment)
      → before id ≡ some current
      → stored_time current.status_timestamp ≡ current.status_timestamp
      → MayWrite before event
      → Advanced (with_event_row stored_time before event) id current
  MayWrite-Advanced id current old kept may = elim (Bool-cases (event.payment_id == id)) [
    | inr other ↦ (current, rw other old, omega arith, inl refl)
    | inl equal ↦
        let same : event.payment_id ≡ id = (eq_iff _ _).0 equal in
        rw (← same) (at_own_id current (rw same old) kept may)
  ]
    where
      at_own_id :
          (current : Payment)
          → before event.payment_id ≡ some current
          → stored_time current.status_timestamp ≡ current.status_timestamp
          → MayWrite before event
          → Advanced (with_event_row stored_time before event) event.payment_id current
      at_own_id current old kept (fresh absent) = absurd (cc (sym absent ∙ old))
      at_own_id current old kept (newer c found lt good) =
          newer-Advanced current c old found kept lt good

module _ {D : Type 0} (p : PaymentProcessor D) (rows : D → Rows) (stored_time : ℕ → ℕ)
    (keeps : KeepsPayments p.repository rows stored_time)
    (recorder_keeps : RecorderKeeps rows p.anomaly_recorder) where
  record_anomalies-rows :
      (anomalies : List Anomaly) (w : World D)
      → rows (record_anomalies p anomalies w).1.database ≡ rows w.database
  unfolding record_anomalies
  record_anomalies-rows anomalies w =
      record_with-view p rows p.anomaly_recorder recorder_keeps anomalies w

  with_current-Outcome :
      (update : PaymentUpdate) (before : Rows) (w : World D) (r : Result Payment)
      → rows w.database ≡ before
      → ((current : Payment) → r ≡ ok current → before update.event.payment_id ≡ some current)
      → ((e : Error)
          → r ≡ err e
          → is e payment_not_found ≡ true
          → before update.event.payment_id ≡ none)
      → ReturnOutcome p rows stored_time r before
          (rows (with_current p r update w).1.database)
          update.event
          (with_current p r update w).0
  unfolding with_current
  with_current-Outcome update before w (ok current) same found missing =
      let w' =
        (record_anomalies p (detect_anomalies current update.event update.webhook_event_id) w).1 in
      let same' : rows w'.database ≡ before = record_anomalies-rows _ w ∙ same in
      rw (← same') (
        apply_event-Outcome p rows stored_time keeps _ update w' current
          (rw same' (found current refl)))
  with_current-Outcome update before w (err e) same found missing =
      elim (Bool-cases (is e payment_not_found)) [
        | inl absent ↦
            rw (absent, ← same)
              (create-Outcome p rows stored_time keeps _ update w (rw same (missing e refl absent)))
        | inr other ↦ rw other (unread e refl other same refl refl)
      ]

  body-Outcome :
      (update : PaymentUpdate) (w : World D)
      → ReturnOutcome p rows stored_time
          (p.repository.get_by_payment_id update.event.payment_id w).0
          (rows w.database)
          (rows (body p update w).1.database)
          update.event
          (body p update w).0
  unfolding body
  body-Outcome update w =
      let id = update.event.payment_id in
      with_current-Outcome update (rows w.database) _ (p.repository.get_by_payment_id id w).0
        (keeps.get_keeps id w) (keeps.get_ok id w) (keeps.get_not_found id w)

  -- What the payment's row is read as, once the timer is started.
  abbrev pub row_read : PaymentUpdate → World D → Result Payment
  row_read update w =
      (p.repository.get_by_payment_id update.event.payment_id
        (start_payment_processing_timer p.metrics (some (λ (label : String). label)) w).1).0

  -- What `Process` does, on every branch. An event for a payment with no row creates it. Else the
  -- current row decides: a newer event whose status may follow replaces the row; an older one, one
  -- of the same instant, and one whose status may not follow leave the table alone and are ignored,
  -- each for its own reason. It fails only where the read fails, for another reason than that there
  -- is no row, with this error and the table left alone; or where the event may be written and its
  -- write fails, with this error, and with the table as the write leaves it, as before or with the
  -- event's row.
  pub process-Outcome :
      (update : PaymentUpdate) (w : World D)
      → Outcome p rows stored_time
          (row_read update w)
          (rows w.database)
          (rows (process p update w).1.database)
          update.event
          (process p update w).0.0
          (process p update w).0.1
  unfolding process
  process-Outcome update w = body-Outcome update _

  process-writes :
      (update : PaymentUpdate) (w : World D)
      → (rows (process p update w).1.database ≡ rows w.database)
        ⊎ (MayWrite (rows w.database) update.event
            × (rows (process p update w).1.database
                ≡ with_event_row stored_time (rows w.database) update.event))
  process-writes update w = Outcome-writes (process-Outcome update w)

  -- A payment's row of one id is not touched by an event of another.
  pub process_other :
      (update : PaymentUpdate) (w : World D) (id : String)
      → id ≢ update.event.payment_id
      → rows (process p update w).1.database id ≡ rows w.database id
  process_other update w id other = elim (process-writes update w) [
    | inl same ↦ rw same refl
    | inr (_, put) ↦ rw put (ground (arith, eq_iff update.event.payment_id id))
  ]

  -- Whatever the event, the row of a payment that exists stays, its instant never falls, and its
  -- status is the old one or one that may follow it.
  pub process_advances :
      (update : PaymentUpdate) (w : World D) (id : String) (current : Payment)
      → rows w.database id ≡ some current
      → (next : Payment) × (rows (process p update w).1.database id ≡ some next)
        × (current.status_timestamp ≤ next.status_timestamp)
        × ((next ≡ current) ⊎ (is_transition_allowed current.status next.status ≡ true))
  process_advances update w id current old = elim (process-writes update w) [
    | inl same ↦ (current, rw same old, omega arith, inl refl)
    | inr (may, put) ↦ rw put (
        MayWrite-Advanced stored_time keeps.stored_time_mono _ update.event id current old
          (keeps.rows_stored _ id current old).1 may)
  ]
