-- ===== src/Service/PaymentProcessor/Preorder.antt =====
-- How `PaymentProcessor.Process` moves the state, for any preorder on states in which the
-- repository's writes and the recorder move it.
use payment_webhook_processo.Prelude.{
  Option, none, some, List, [], ◌∷◌, ◌≡◌, refl, inl, inr, Bool-cases, ltb, All,
}
use payment_webhook_processo.Failure.{payment_not_found, is, Result, ok, err}
use payment_webhook_processo.World.{World}
use payment_webhook_processo.Repository.Rows.{Payment, Anomaly}
use payment_webhook_processo.Service.Interfaces.{AnomalyRecorder}
use payment_webhook_processo.Service.Anomaly.{is_transition_allowed, detect_anomalies}
use payment_webhook_processo.Service.PaymentProcessor.{
  PaymentProcessor, PaymentUpdate, payment_from_event, record_all, record_with, apply_event,
  with_current,
}

-- `Recordable a d`: the anomaly may be recorded on the state `d`; `Writable p d`: the row may be
-- written on it.
pub record Order (D : Type 0) : Type 1 where
  pub Leads : D → D → Type 0
  pub Recordable : Anomaly → D → Type 0
  pub Writable : Payment → D → Type 0
  pub leads_refl : (d : D) → Leads d d
  pub leads_trans : {d e f : D} → Leads d e → Leads e f → Leads d f
  pub recordable_mono : (a : Anomaly) {d e : D} → Leads d e → Recordable a d → Recordable a e
  pub writable_mono : (p : Payment) {d e : D} → Leads d e → Writable p d → Writable p e

-- A nil recorder does nothing.
abbrev pub RecorderLeads : {D : Type 0} → Order D → Option (AnomalyRecorder D) → Type 0
RecorderLeads o none = Unit
RecorderLeads {D} o (some r) =
    (a : Anomaly) (w : World D)
    → o.Recordable a w.database
    → o.Leads w.database (r.record_anomaly a w).1.database

module _ {D : Type 0} (p : PaymentProcessor D) (o : Order D) where
  All-Recordable :
      {d e : D}
      → o.Leads d e
      → (anomalies : List Anomaly) → All (λ (a : Anomaly). o.Recordable a d) anomalies
      → All (λ (a : Anomaly). o.Recordable a e) anomalies
  All-Recordable l [] hs = tt
  All-Recordable l (a ∷ rest) (h, hs) = (o.recordable_mono a l h, All-Recordable l rest hs)

  record_all-Leads :
      (r : AnomalyRecorder D)
      → RecorderLeads o (some r)
      → (anomalies : List Anomaly) (w : World D)
      → All (λ (a : Anomaly). o.Recordable a w.database) anomalies
      → o.Leads w.database (record_all p r anomalies w).1.database
  unfolding record_all
  record_all-Leads r leads [] w hs = o.leads_refl w.database
  record_all-Leads r leads (a ∷ rest) w (h, hs) =
      let first = leads a _ h in
      o.leads_trans first (record_all-Leads r leads rest _ (All-Recordable first rest hs))

  pub record_with-Leads :
      (r : Option (AnomalyRecorder D))
      → RecorderLeads o r
      → (anomalies : List Anomaly) (w : World D)
      → All (λ (a : Anomaly). o.Recordable a w.database) anomalies
      → o.Leads w.database (record_with p r anomalies w).1.database
  unfolding record_with
  record_with-Leads none leads anomalies w hs = o.leads_refl w.database
  record_with-Leads (some r) leads anomalies w hs = record_all-Leads r leads anomalies w hs

module _ {D : Type 0} (p : PaymentProcessor D) (o : Order D)
    (upsert_leads : (payment : Payment) (w : World D)
      → o.Writable payment w.database
      → o.Leads w.database (p.repository.upsert payment w).1.database)
    (recorder_leads : RecorderLeads o p.anomaly_recorder) where
  apply_event-Leads :
      (current : Payment) (update : PaymentUpdate) (w : World D)
      → o.Writable (payment_from_event update.event) w.database
      → o.Leads w.database (apply_event p current update w).1.database
  unfolding apply_event
  apply_event-Leads current update w writable =
      elim (Bool-cases (ltb current.status_timestamp update.event.event_timestamp)) [
        | inr not_after ↦ rw not_after (o.leads_refl w.database)
        | inl later ↦
            elim (Bool-cases (is_transition_allowed current.status update.event.payment_status)) [
              | inl good ↦ rw (later, good) (upsert_leads _ w writable)
              | inr bad ↦ rw (later, bad) (o.leads_refl w.database)
            ]
      ]

  -- After a read, if the event's row may be written, and the anomalies that the read leads to may
  -- be recorded.
  pub with_current-Leads :
      (r : Result Payment) (update : PaymentUpdate) (w : World D)
      → o.Writable (payment_from_event update.event) w.database
      → ((current : Payment)
          → r ≡ ok current
          → All
              (λ (a : Anomaly). o.Recordable a w.database)
              (detect_anomalies current update.event update.webhook_event_id))
      → o.Leads w.database (with_current p r update w).1.database
  unfolding with_current
  with_current-Leads (ok current) update w writable recordable =
      let recorded =
        record_with-Leads p o p.anomaly_recorder recorder_leads _ w (recordable current refl) in
      o.leads_trans recorded
        (apply_event-Leads current update _ (o.writable_mono _ recorded writable))
  with_current-Leads (err e) update w writable recordable =
      elim (Bool-cases (is e payment_not_found)) [
        | inl absent ↦ rw absent (upsert_leads _ w writable)
        | inr other ↦ rw other (o.leads_refl w.database)
      ]
