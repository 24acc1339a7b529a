-- ===== src/Service/PaymentProcessor/Growth.antt =====
-- `PaymentProcessor.Process` only adds measurements, if its repository and its recorder do.
use payment_webhook_processo.Prelude.{
  String, Option, none, some, List, [], ◌∷◌, refl, inl, inr, Bool-cases, ltb, nat_eq, if◌then◌else◌,
}
use payment_webhook_processo.Failure.{payment_not_found, is, Result, ok, err}
use payment_webhook_processo.World.{World}
use payment_webhook_processo.World.Growth.{Grown-refl, Grown-trans, Grows}
use payment_webhook_processo.Metrics.{
  inc_anomaly, inc_payment_ignored, inc_payment_processing, reads_after,
  start_payment_processing_timer, observe_timer,
}
use payment_webhook_processo.Repository.Rows.{Payment, Anomaly}
use payment_webhook_processo.Service.Interfaces.{AnomalyRecorder}
use payment_webhook_processo.Service.Anomaly.{is_transition_allowed, detect_anomalies}
use payment_webhook_processo.Service.PaymentProcessor.{
  PaymentProcessor, PaymentUpdate, ignore_reason_invalid_transition, ignore_reason_equal_timestamp,
  ignore_reason_older_timestamp, record_all, record_with, record_anomalies, ignore, write,
  apply_event, with_current, body, process, update_payment,
}

abbrev pub RecorderGrows : {D : Type 0} → Option (AnomalyRecorder D) → Type 0
RecorderGrows none = Unit
RecorderGrows (some r) = (a : Anomaly) → Grows (r.record_anomaly a)

module _ {D : Type 0} (p : PaymentProcessor D)
    (get_grows : (id : String) → Grows (p.repository.get_by_payment_id id))
    (upsert_grows : (payment : Payment) → Grows (p.repository.upsert payment))
    (recorder_grows : RecorderGrows p.anomaly_recorder) where
  record_all-Grows :
      (r : AnomalyRecorder D)
      → ((a : Anomaly) → Grows (r.record_anomaly a))
      → (anomalies : List Anomaly) → Grows (record_all p r anomalies)
  unfolding record_all inc_anomaly
  record_all-Grows r grows [] w = Grown-refl w w refl refl
  record_all-Grows r grows (a ∷ rest) w =
      Grown-trans (Grown-trans (record { added = _; measured = refl; logged = refl }) (grows a _))
        (record_all-Grows r grows rest _)

  record_with-Grows :
      (r : Option (AnomalyRecorder D))
      → RecorderGrows r
      → (anomalies : List Anomaly) → Grows (record_with p r anomalies)
  unfolding record_with
  record_with-Grows none h anomalies w = Grown-refl w w refl refl
  record_with-Grows (some r) h anomalies w = record_all-Grows r h anomalies w

  ignore-Grows : (reason : String) → Grows (ignore p reason)
  unfolding ignore inc_payment_ignored
  ignore-Grows reason w = record { added = _; measured = refl; logged = refl }

  apply_event-Grows :
      (current : Payment) (update : PaymentUpdate) → Grows (apply_event p current update)
  unfolding apply_event write
  apply_event-Grows current update w =
      elim (Bool-cases (ltb current.status_timestamp update.event.event_timestamp)) [
        | inr not_after ↦ rw not_after (
            ignore-Grows
              (if nat_eq update.event.event_timestamp current.status_timestamp
                then ignore_reason_equal_timestamp
                else ignore_reason_older_timestamp)
              w)
        | inl later ↦
            elim (Bool-cases (is_transition_allowed current.status update.event.payment_status)) [
              | inl good ↦ rw (later, good) (upsert_grows _ w)
              | inr bad ↦ rw (later, bad) (ignore-Grows ignore_reason_invalid_transition w)
            ]
      ]

  with_current-Grows :
      (r : Result Payment) (update : PaymentUpdate) → Grows (with_current p r update)
  unfolding with_current record_anomalies write
  with_current-Grows (ok current) update w =
      Grown-trans
        (record_with-Grows p.anomaly_recorder recorder_grows
          (detect_anomalies current update.event update.webhook_event_id) w)
        (apply_event-Grows current update _)
  with_current-Grows (err e) update w = elim (Bool-cases (is e payment_not_found)) [
    | inl absent ↦ rw absent (upsert_grows _ w)
    | inr other ↦ rw other (Grown-refl w w refl refl)
  ]

  body-Grows : (update : PaymentUpdate) → Grows (body p update)
  unfolding body
  body-Grows update w =
      Grown-trans (get_grows update.event.payment_id w) (with_current-Grows _ update _)

  pub update_payment-Grows : (update : PaymentUpdate) → Grows (update_payment p update)
  unfolding update_payment process inc_payment_processing start_payment_processing_timer
      observe_timer
  update_payment-Grows update w =
      let w1 : World D = record w { reads = reads_after p.metrics w.reads } in
      let (return, u) = body p update w1 in
      let v : World D = (inc_payment_processing p.metrics return.result_status u).1 in
      Grown-trans {v = v}
        (Grown-trans (Grown-trans (Grown-refl w w1 refl refl) (body-Grows update w1))
          (record { added = _; measured = refl; logged = refl }))
        (record { added = _; measured = refl; logged = refl })
