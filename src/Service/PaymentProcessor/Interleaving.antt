-- ===== src/Service/PaymentProcessor/Interleaving.antt =====
-- `PaymentProcessor.Process` of several requests at once. A request reads its payment's row and acts
-- on what it read; between the two, others may read and act. What a request does with the database
-- after its read, the anomalies and the write, is one step here.
pub mod Writes
use payment_webhook_processo.Prelude.{
  ℕ, ◌<◌, String, true, Option, none, some, List, [], ◌∷◌, ◌≡◌, refl, sym, ap, ◌∙◌, ◌==◌, eq_iff,
  eq_refl, Bool-cases, inl, inr, ltb, if◌then◌else◌, arith,
}
use payment_webhook_processo.Failure.{Result, ok, err, Result-cases}
use payment_webhook_processo.World.{World}
use payment_webhook_processo.Repository.Rows.{Payment}
use payment_webhook_processo.Service.Interfaces.{KeepsPayments, RecorderKeeps, at_precision}
use payment_webhook_processo.Service.Anomaly.{is_transition_allowed, detect_anomalies}
use payment_webhook_processo.Service.PaymentProcessor.{
  PaymentProcessor, PaymentUpdate, Return, payment_from_event, record_anomalies, apply_event, write,
  with_current,
}
use payment_webhook_processo.Service.PaymentProcessor.Frame.{record_with-view}
use payment_webhook_processo.Service.PaymentProcessor.Rows.{Rows, with_event_row, result_of}

-- Where a request is.
pub data Thread : Type 0 where
  waiting : PaymentUpdate → Thread
  has_read : PaymentUpdate → Result Payment → Thread
  finished : PaymentUpdate → Return → Thread

module _ {D : Type 0} (p : PaymentProcessor D) where
  pub data Step : List Thread → World D → List Thread → World D → Type 0 where
    read :
        {u : PaymentUpdate} {ts : List Thread} {w : World D}
        → Step
            (waiting u ∷ ts)
            w
            (has_read u (p.repository.get_by_payment_id u.event.payment_id w).0 ∷ ts)
            (p.repository.get_by_payment_id u.event.payment_id w).1
    act :
        {u : PaymentUpdate} {r : Result Payment} {ts : List Thread} {w : World D}
        → Step
            (has_read u r ∷ ts)
            w
            (finished u (with_current p r u w).0 ∷ ts)
            (with_current p r u w).1
    other :
        {t : Thread} {ts us : List Thread} {w v : World D}
        → Step ts w us v
        → Step (t ∷ ts) w (t ∷ us) v

  pub data Steps : List Thread → World D → List Thread → World D → Type 0 where
    stop : {ts : List Thread} {w : World D} → Steps ts w ts w
    step :
        {ts us vs : List Thread} {w v x : World D}
        → Step ts w us v
        → Steps us v vs x
        → Steps ts w vs x

module _ {D : Type 0} (p : PaymentProcessor D) (rows : D → Rows) (stored_time : ℕ → ℕ)
    (keeps : KeepsPayments p.repository rows stored_time)
    (recorder_keeps : RecorderKeeps rows p.anomaly_recorder) where
  apply_event_stale :
      (current : Payment) (u : PaymentUpdate) (w : World D)
      → current.status_timestamp < u.event.event_timestamp
      → is_transition_allowed current.status u.event.payment_status ≡ true
      → (apply_event p current u w).0.error ≡ none
      → (rows (apply_event p current u w).1.database
          ≡ with_event_row stored_time (rows w.database) u.event)
        × ((apply_event p current u w).0.result ≡ result_of "updated" "")
  unfolding apply_event write
  apply_event_stale current u w newer good =
      rw (later, good)
        (Result-cases (p.repository.upsert (payment_from_event u.event) w).0
          (λ _ fine. rw fine (λ h. (keeps.upsert_ok _ w fine, refl))) λ e bad. rw bad (λ h. cc))
    where
      later : ltb current.status_timestamp u.event.event_timestamp ≡ true
      later = ground arith

  with_current_stale :
      (current : Payment) (r : Result Payment) (u : PaymentUpdate) (w : World D)
      → r ≡ ok current
      → current.status_timestamp < u.event.event_timestamp
      → is_transition_allowed current.status u.event.payment_status ≡ true
      → (with_current p r u w).0.error ≡ none
      → (rows (with_current p r u w).1.database
          ≡ with_event_row stored_time (rows w.database) u.event)
        × ((with_current p r u w).0.result ≡ result_of "updated" "")
  unfolding with_current record_anomalies
  with_current_stale current r u w is_read newer good = rw is_read (λ fine.
      let anomalies = detect_anomalies current u.event u.webhook_event_id in
      let v = (record_anomalies p anomalies w).1 in
      let same : rows v.database ≡ rows w.database =
        record_with-view p rows p.anomaly_recorder recorder_keeps anomalies w in
      let (put, updated) = apply_event_stale current u v newer good fine in
      (put ∙ ap (λ (before : Rows). with_event_row stored_time before u.event) same, updated))

-- The schedule in which both requests read, then the second one acts, then the first.
module _ {D : Type 0} (p : PaymentProcessor D) (first second : PaymentUpdate) (w : World D) where
  abbrev pub first_read : Result Payment × World D
  first_read = p.repository.get_by_payment_id first.event.payment_id w

  abbrev pub second_read : Result Payment × World D
  second_read = p.repository.get_by_payment_id second.event.payment_id first_read.1

  abbrev pub second_act : Return × World D
  second_act = with_current p second_read.0 second second_read.1

  abbrev pub first_act : Return × World D
  first_act = with_current p first_read.0 first second_act.1

module _ {D : Type 0} (p : PaymentProcessor D) (rows : D → Rows) (stored_time : ℕ → ℕ)
    (keeps : KeepsPayments p.repository rows stored_time)
    (recorder_keeps : RecorderKeeps rows p.anomaly_recorder) where
  -- Two events of one payment that both may follow its row, the first one older than the second:
  -- if both requests read the row before either acts, the second acts first, and neither fails,
  -- then both are answered "updated", and the row is the one of the older event.
  pub newer_overwritten :
      (current : Payment) (first second : PaymentUpdate) (w : World D)
      → current.status_timestamp < first.event.event_timestamp
      → first.event.event_timestamp < second.event.event_timestamp
      → is_transition_allowed current.status first.event.payment_status ≡ true
      → is_transition_allowed current.status second.event.payment_status ≡ true
      → (first_read p first second w).0 ≡ ok current
      → (second_read p first second w).0 ≡ ok current
      → (second_act p first second w).0.error ≡ none
      → (first_act p first second w).0.error ≡ none
      → Steps p
          (waiting first ∷ waiting second ∷ [])
          w
          (finished first (first_act p first second w).0
            ∷ finished second (second_act p first second w).0
            ∷ [])
          (first_act p first second w).1
        × ((first_act p first second w).0.result ≡ result_of "updated" "")
        × ((second_act p first second w).0.result ≡ result_of "updated" "")
        × (rows (first_act p first second w).1.database first.event.payment_id
            ≡ some (at_precision stored_time (payment_from_event first.event)))
  newer_overwritten current first second w newer1 newer2 good1 good2 read1 read2 fine2 fine1 =
      let (put, updated1) =
        with_current_stale p rows stored_time keeps recorder_keeps current _ first _ read1 newer1
          good1 fine1 in
      let (_, updated2) =
        with_current_stale p rows stored_time keeps recorder_keeps current _ second _ read2
          (omega arith) good2 fine2 in
      (
        step read (step (other read) (step (other act) (step act stop))),
        updated1,
        updated2,
        ap (λ (t : Rows). t first.event.payment_id) put
            ∙ ground (arith, eq_refl first.event.payment_id),
      )
