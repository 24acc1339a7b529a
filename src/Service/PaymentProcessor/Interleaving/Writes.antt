-- ===== src/Service/PaymentProcessor/Interleaving/Writes.antt =====
-- What any interleaving of requests leaves in the payments table.
use payment_webhook_processo.Prelude.{
  ℕ, String, some, List, [], ◌∷◌, ◌≡◌, refl, ap, ◌∙◌, ◌⊎◌, ◌==◌, eq_iff, inl, inr, Bool-cases, ltb,
}
use payment_webhook_processo.Failure.{payment_not_found, is, Result, ok, err, Result-cases}
use payment_webhook_processo.World.{World}
use payment_webhook_processo.Repository.Rows.{Payment}
use payment_webhook_processo.Service.Interfaces.{KeepsPayments, RecorderKeeps, at_precision}
use payment_webhook_processo.Service.Anomaly.{is_transition_allowed, detect_anomalies}
use payment_webhook_processo.Service.PaymentProcessor.{
  PaymentProcessor, PaymentUpdate, PaymentProcessingStatus, payment_processing_status_created,
  payment_processing_status_updated, payment_from_event, record_anomalies, apply_event, write,
  with_current,
}
use payment_webhook_processo.Service.PaymentProcessor.Frame.{record_with-view}
use payment_webhook_processo.Service.PaymentProcessor.Rows.{Rows, with_event_row}
use payment_webhook_processo.Service.PaymentProcessor.Interleaving.{
  Thread, waiting, has_read, finished, Step, read, act, other, Steps, stop, step,
}

abbrev update_of : Thread → PaymentUpdate
update_of (waiting u) = u
update_of (has_read u r) = u
update_of (finished u r) = u

-- One of the requests is about the update.
abbrev pub Among : PaymentUpdate → List Thread → Type 0
Among u [] = ⊥
Among u (t ∷ ts) = (u ≡ update_of t) ⊎ Among u ts

-- A row is the old one, or the one of an event among the requests.
abbrev pub FromRequests : (ℕ → ℕ) → List Thread → Rows → Rows → Type 0
FromRequests stored_time ts before after =
    (id : String)
    → (after id ≡ before id)
      ⊎ ((u : PaymentUpdate) × Among u ts
          × (u.event.payment_id ≡ id)
          × (after id ≡ some (at_precision stored_time (payment_from_event u.event))))

module _ {D : Type 0} (p : PaymentProcessor D) (rows : D → Rows) (stored_time : ℕ → ℕ)
    (keeps : KeepsPayments p.repository rows stored_time)
    (recorder_keeps : RecorderKeeps rows p.anomaly_recorder) where
  abbrev Wrote : Rows → Rows → PaymentUpdate → Type 0
  Wrote before after u = (after ≡ before) ⊎ (after ≡ with_event_row stored_time before u.event)

  write-Wrote :
      (u : PaymentUpdate) (status : PaymentProcessingStatus) (text : String) (w : World D)
      → Wrote (rows w.database) (rows (write p u status text w).1.database) u
  unfolding write
  write-Wrote u status text w =
      Result-cases (p.repository.upsert (payment_from_event u.event) w).0
        (λ _ good. inr (keeps.upsert_ok _ w good)) λ e bad. keeps.upsert_err _ w e bad

  apply_event-Wrote :
      (current : Payment) (u : PaymentUpdate) (w : World D)
      → Wrote (rows w.database) (rows (apply_event p current u w).1.database) u
  unfolding apply_event
  apply_event-Wrote current u w =
      elim (Bool-cases (ltb current.status_timestamp u.event.event_timestamp)) [
        | inr not_after ↦ rw not_after (inl refl)
        | inl later ↦
            elim (Bool-cases (is_transition_allowed current.status u.event.payment_status)) [
              | inl good ↦
                  rw (later, good)
                    (write-Wrote u payment_processing_status_updated "update payment state" w)
              | inr bad ↦ rw (later, bad) (inl refl)
            ]
      ]

  with_current-Wrote :
      (r : Result Payment) (u : PaymentUpdate) (w : World D)
      → Wrote (rows w.database) (rows (with_current p r u w).1.database) u
  unfolding with_current record_anomalies
  with_current-Wrote (ok current) u w =
      let anomalies = detect_anomalies current u.event u.webhook_event_id in
      let v = (record_anomalies p anomalies w).1 in
      let same : rows v.database ≡ rows w.database =
        record_with-view p rows p.anomaly_recorder recorder_keeps anomalies w in
      rw (← same) (apply_event-Wrote current u v)
  with_current-Wrote (err e) u w = elim (Bool-cases (is e payment_not_found)) [
    | inl absent ↦
        rw absent (write-Wrote u payment_processing_status_created "create payment state" w)
    | inr failed ↦ rw failed (inl refl)
  ]

  Wrote-FromRequests :
      (t : Thread) (ts : List Thread) (before after : Rows)
      → Wrote before after (update_of t)
      → FromRequests stored_time (t ∷ ts) before after
  Wrote-FromRequests t ts before after (inl same) id = inl (ap (λ (rs : Rows). rs id) same)
  Wrote-FromRequests t ts before after (inr put) id =
      elim (Bool-cases ((update_of t).event.payment_id == id)) [
        | inl here ↦ inr (
          update_of t,
          inl refl,
          (eq_iff _ _).0 here,
          ap (λ (rs : Rows). rs id) put ∙ rw here refl,
        )
        | inr elsewhere ↦ inl (ap (λ (rs : Rows). rs id) put ∙ rw elsewhere refl)
      ]

  FromRequests-later :
      (t : Thread) (ts : List Thread) (before after : Rows)
      → FromRequests stored_time ts before after
      → FromRequests stored_time (t ∷ ts) before after
  FromRequests-later t ts before after h id = elim (h id) [
    | inl same ↦ inl same
    | inr (u, among, is_own, row) ↦ inr (u, inr among, is_own, row)
  ]

  Step-FromRequests :
      {ts us : List Thread} {w v : World D}
      → Step p ts w us v
      → FromRequests stored_time ts (rows w.database) (rows v.database)
  Step-FromRequests (read {u} {ts} {w}) =
      Wrote-FromRequests (waiting u) ts _ _ (inl (keeps.get_keeps u.event.payment_id w))
  Step-FromRequests (act {u} {r} {ts} {w}) =
      Wrote-FromRequests (has_read u r) ts _ _ (with_current-Wrote r u w)
  Step-FromRequests (other {t} {ts} s) = FromRequests-later t ts _ _ (Step-FromRequests s)

  Step-Among :
      {ts us : List Thread} {w v : World D} (u : PaymentUpdate)
      → Step p ts w us v
      → Among u us
      → Among u ts
  Step-Among u read h = h
  Step-Among u act h = h
  Step-Among u (other s) (inl here) = inl here
  Step-Among u (other s) (inr h) = inr (Step-Among u s h)

  -- However requests are interleaved, each row is afterwards what it was, or the one of an event of
  -- its payment among the requests.
  pub Steps-FromRequests :
      {ts us : List Thread} {w v : World D}
      → Steps p ts w us v
      → FromRequests stored_time ts (rows w.database) (rows v.database)
  Steps-FromRequests stop id = inl refl
  Steps-FromRequests (step s rest) id = elim (Steps-FromRequests rest id) [
    | inl same ↦ elim (Step-FromRequests s id) [
      | inl same' ↦ inl (same ∙ same')
      | inr (u, among, is_own, row) ↦ inr (u, among, is_own, same ∙ row)
    ]
    | inr (u, among, is_own, row) ↦ inr (u, Step-Among u s among, is_own, row)
  ]
