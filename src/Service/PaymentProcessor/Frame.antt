-- ===== src/Service/PaymentProcessor/Frame.antt =====
-- What of the state `PaymentProcessor.Process` leaves alone: any part that the repository's two
-- operations and the recorder leave alone.
use payment_webhook_processo.Prelude.{String, Option, none, some, List, ◌≡◌, refl, ◌∙◌, All_of}
use payment_webhook_processo.Failure.{Result}
use payment_webhook_processo.World.{World}
use payment_webhook_processo.Repository.Rows.{Payment, Anomaly}
use payment_webhook_processo.Service.Interfaces.{AnomalyRecorder, RecorderKeeps}
use payment_webhook_processo.Service.PaymentProcessor.{
  PaymentProcessor, PaymentUpdate, record_with, with_current, body, process,
}
use payment_webhook_processo.Service.PaymentProcessor.Preorder.{
  Order, RecorderLeads, record_with-Leads, with_current-Leads,
}

-- The order of states that agree on a part; any anomaly may be recorded.
abbrev agreeing : {D X : Type 0} → (D → X) → Order D
agreeing view = record {
  Leads = λ d e. view e ≡ view d;
  Recordable = λ a d. Unit;
  Writable = λ q d. Unit;
  leads_refl = λ d. refl;
  leads_trans = λ h k. k ∙ h;
  recordable_mono = λ a l h. tt;
  writable_mono = λ q l h. tt;
}

module _ {D X : Type 0} (p : PaymentProcessor D) (view : D → X) where
  agreeing_recorder :
      (r : Option (AnomalyRecorder D)) → RecorderKeeps view r → RecorderLeads (agreeing view) r
  agreeing_recorder none keeps = tt
  agreeing_recorder (some r) keeps = λ a w h. keeps a w

  pub record_with-view :
      (r : Option (AnomalyRecorder D))
      → RecorderKeeps view r
      → (anomalies : List Anomaly) (w : World D)
      → view (record_with p r anomalies w).1.database ≡ view w.database
  record_with-view r keeps anomalies w =
      record_with-Leads p (agreeing view) r (agreeing_recorder r keeps) anomalies w
        (All_of _ (λ a. tt) anomalies)

module _ {D X : Type 0} (p : PaymentProcessor D) (view : D → X)
    (get_keeps : (id : String) (w : World D)
      → view (p.repository.get_by_payment_id id w).1.database ≡ view w.database)
    (upsert_keeps : (payment : Payment) (w : World D)
      → view (p.repository.upsert payment w).1.database ≡ view w.database)
    (recorder_keeps : RecorderKeeps view p.anomaly_recorder) where
  pub with_current-view :
      (r : Result Payment) (update : PaymentUpdate) (w : World D)
      → view (with_current p r update w).1.database ≡ view w.database
  with_current-view r update w =
      with_current-Leads p (agreeing view) (λ q v h. upsert_keeps q v)
        (agreeing_recorder p view p.anomaly_recorder recorder_keeps) r update w tt
        (λ current is_ok. All_of _ (λ a. tt) _)

  body-view :
      (update : PaymentUpdate) (w : World D) → view (body p update w).1.database ≡ view w.database
  unfolding body
  body-view update w =
      let id = update.event.payment_id in
      with_current-view (p.repository.get_by_payment_id id w).0 update _ ∙ get_keeps id w

  pub process-view :
      (update : PaymentUpdate) (w : World D)
      → view (process p update w).1.database ≡ view w.database
  unfolding process
  process-view update w = body-view update _
