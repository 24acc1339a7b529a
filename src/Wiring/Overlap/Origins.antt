-- ===== src/Wiring/Overlap/Origins.antt =====
-- The rows of payments that deliveries write when they overlap come from events that are stored.
use payment_webhook_processo.Prelude.{ℕ, String, Option, some, List, refl, ap, All, All_of}
use payment_webhook_processo.Failure.{Result, ok, err}
use payment_webhook_processo.World.{World}
use payment_webhook_processo.Metrics.{
  Metrics, start_payment_processing_timer, inc_payment_processing, observe_timer,
}
use payment_webhook_processo.Webhook.Event.{PaymentEvent}
use payment_webhook_processo.Repository.Rows.{Payment}
use payment_webhook_processo.Repository.Postgres.{Postgres, IsPostgres, Tables}
use payment_webhook_processo.Repository.Postgres
use payment_webhook_processo.Repository.WebhookEvents.Laws.{Insertion, insert-Insertion}
use payment_webhook_processo.Repository.Payments.{get_by_payment_id}
use payment_webhook_processo.Repository.Anomalies.Laws.{Main, main_tables}
use payment_webhook_processo.Repository.Origins.{
  IsNamed, HasOrigin, AllOrigins, Keeps, Keeps-refl, Keeps-trans, row_of,
}
use payment_webhook_processo.Repository.Origins.Operations.{
  Insertion-Keeps, Insertion-HasOrigin, upsert-Keeps, record_anomaly-Keeps,
}
use payment_webhook_processo.Service.PaymentProcessor.{with_current}
use payment_webhook_processo.Service.PaymentProcessor.Preorder.{Order, with_current-Leads}
use payment_webhook_processo.Wiring.{payment_processor}
use payment_webhook_processo.Wiring.Deliveries.{after_insert-failed}
use payment_webhook_processo.Wiring.Overlap.{
  Delivery, arrived, stored, has_read, answered, update_of, begin_update, finish_update, advance,
  Steps,
}
use payment_webhook_processo.Wiring.Overlap.Claims.{arrivals}
use payment_webhook_processo.Wiring.Overlap.Invariants.{Invariant, arrivals-Holds}

module _ (pg : Postgres) where
  open pg use {State, stored_time}

  abbrev main_of : State → Main
  main_of s = main_tables (pg.contents s)

  abbrev HasRow : State → PaymentEvent → Type 0
  HasRow s event = HasOrigin stored_time (row_of pg event) (main_of s).1

  abbrev AfterInsert : State → PaymentEvent → Result ℕ → Type 0
  AfterInsert s event (ok n) = HasRow s event
  AfterInsert s event (err e) = Unit

  -- What a delivery knows: that its status is the one that its type names, and then that the row
  -- that it may write has an origin.
  abbrev Knows : State → Delivery → Type 0
  Knows s (arrived event) = IsNamed event
  Knows s (stored event r) = AfterInsert s event r
  Knows s (has_read event n timer r) = HasRow s event
  Knows s (answered event r) = Unit

  Knows-Keeps :
      {s t : State}
      → Keeps stored_time (main_of s) (main_of t)
      → (d : Delivery) → Knows s d
      → Knows t d
  Knows-Keeps k (arrived event) h = h
  Knows-Keeps k (stored event (ok n)) h = k.origins (row_of pg event) h
  Knows-Keeps k (stored event (err e)) h = tt
  Knows-Keeps k (has_read event n timer r) h = k.origins (row_of pg event) h
  Knows-Keeps k (answered event r) h = tt

  Insertion-AfterInsert :
      (event : PaymentEvent) (r : Result ℕ) (t : Tables) (s : State)
      → Insertion pg t (pg.contents s) event r
      → IsNamed event
      → AfterInsert s event r
  Insertion-AfterInsert event (ok n) t s i named = Insertion-HasOrigin pg i named refl
  Insertion-AfterInsert event (err e) t s i named = tt

  -- The order of states in which rows keep their origins; a row that has one may be written.
  keeping : Order State
  keeping = record {
    Leads = λ s t. Keeps stored_time (main_of s) (main_of t);
    Recordable = λ a s. Unit;
    Writable = λ p s. HasOrigin stored_time (Postgres.stored pg p) (main_of s).1;
    leads_refl = λ s. Keeps-refl stored_time refl;
    leads_trans = λ k l. Keeps-trans stored_time k l;
    recordable_mono = λ a k h. tt;
    writable_mono = λ p k h. k.origins (Postgres.stored pg p) h;
  }

  module _ (laws : IsPostgres pg) (metrics : Option Metrics)
      (marshal_time : ℕ → Result String) where
    with_current-Keeps :
        (r : Result Payment) (event : PaymentEvent) (n : ℕ) (w : World State)
        → HasRow w.database event
        → Keeps stored_time (main_of w.database) (
            main_of
              (with_current
                (payment_processor pg metrics marshal_time)
                r
                (update_of pg metrics marshal_time event n)
                w).1.database)
    unfolding keeping
    with_current-Keeps r event n w h =
        with_current-Leads (payment_processor pg metrics marshal_time) keeping
          (upsert-Keeps pg laws metrics)
          (λ a v able. record_anomaly-Keeps pg laws metrics marshal_time a v) r
          (update_of pg metrics marshal_time event n) w h λ current is_ok. All_of _ (λ a. tt) _

    get_by_payment_id-Keeps :
        (payment_id : String) (w : World State)
        → Keeps stored_time
            (main_of w.database)
            (main_of (get_by_payment_id pg metrics payment_id w).1.database)
    unfolding get_by_payment_id
    get_by_payment_id-Keeps payment_id w =
        Keeps-refl stored_time (ap main_tables (laws.select_keeps payment_id w.database))

    advance-Keeps :
        (d : Delivery) (w : World State)
        → Knows w.database d
        → Keeps stored_time
            (main_of w.database)
            (main_of (advance pg metrics marshal_time d w).1.database)
          × Knows
              (advance pg metrics marshal_time d w).1.database
              (advance pg metrics marshal_time d w).0
    unfolding advance begin_update finish_update start_payment_processing_timer
        inc_payment_processing observe_timer
    advance-Keeps (arrived event) w named =
        let inserted = insert-Insertion pg laws metrics event w in
        (Insertion-Keeps pg inserted, Insertion-AfterInsert event _ _ _ inserted named)
    advance-Keeps (stored event (ok n)) w h =
        let v = (start_payment_processing_timer metrics (some (λ (label : String). label)) w).1 in
        let kept = get_by_payment_id-Keeps event.payment_id v in
        (kept, kept.origins (row_of pg event) h)
    advance-Keeps (stored event (err e)) w h = (
      Keeps-refl stored_time
          (ap main_of (after_insert-failed pg laws metrics marshal_time event w e).0),
      tt,
    )
    advance-Keeps (has_read event n timer r) w h = (with_current-Keeps r event n w h, tt)
    advance-Keeps (answered event r) w h = (Keeps-refl stored_time refl, tt)

    originating : Invariant pg metrics marshal_time
    originating = record {
      Leads = λ s t. Keeps stored_time (main_of s) (main_of t);
      Knows = Knows;
      Holds = λ s. AllOrigins stored_time (main_of s);
      knows_mono = λ k d h. Knows-Keeps k d h;
      holds_mono = λ k h. k.rows h;
      advances = advance-Keeps;
    }

    -- However deliveries of events overlap, each with the status that its type names, every row of a
    -- payment has the payment, the instant, at the store's precision, and the status of an event that
    -- is stored, if this was so before.
    pub Steps-AllOrigins :
        (events : List PaymentEvent) {ds : List Delivery} {w v : World State}
        → All IsNamed events
        → Steps pg metrics marshal_time (arrivals events) w ds v
        → AllOrigins stored_time (main_tables (pg.contents w.database))
        → AllOrigins stored_time (main_tables (pg.contents v.database))
    unfolding originating
    Steps-AllOrigins events named ss h =
        arrivals-Holds pg metrics marshal_time originating events named ss h
