-- ===== src/Wiring/Overlap/Links.antt =====
-- The anomalies that deliveries record when they overlap refer to what is stored.
use payment_webhook_processo.Prelude.{
  ℕ, ◌≤◌, String, Option, some, List, ◌≡◌, refl, ap, ◌∙◌, All, All_of,
}
use payment_webhook_processo.Failure.{Result, ok, err}
use payment_webhook_processo.World.{World}
use payment_webhook_processo.Metrics.{
  Metrics, start_payment_processing_timer, inc_payment_processing, observe_timer,
}
use payment_webhook_processo.Webhook.Event.{PaymentEvent}
use payment_webhook_processo.Repository.Rows.{Payment, Anomaly}
use payment_webhook_processo.Repository.Postgres.{Postgres, IsPostgres, Tables}
use payment_webhook_processo.Repository.WebhookEvents.Laws.{Insertion, insert-Insertion, insert_id}
use payment_webhook_processo.Repository.Payments.{get_by_payment_id}
use payment_webhook_processo.Repository.Payments.Laws.{payment_repository-KeepsPayments}
use payment_webhook_processo.Repository.Links.{
  HasEvent, HasPayment, Extends, Extends-refl, Extends-trans, AllLinked,
}
use payment_webhook_processo.Repository.Links.Operations.{
  Insertion-Extends, Insertion-HasEvent, upsert-Extends, record_anomaly-Extends,
}
use payment_webhook_processo.Service.Anomaly.Detection.{
  Found, stale, same_instant, allowed, forbidden, detect_anomalies-Found,
}
use payment_webhook_processo.Service.PaymentProcessor.{with_current}
use payment_webhook_processo.Service.PaymentProcessor.Preorder.{Order, with_current-Leads}
use payment_webhook_processo.Wiring.{payment_processor}
use payment_webhook_processo.Wiring.Deliveries.{after_insert-failed}
use payment_webhook_processo.Wiring.Overlap.{
  Delivery, arrived, stored, has_read, answered, update_of, begin_update, finish_update, advance,
  Steps,
}
use payment_webhook_processo.Wiring.Overlap.Claims.{arrivals}
use payment_webhook_processo.Wiring.Overlap.Invariants.{Invariant, arrivals-Holds}

abbrev ReadAs : String → Result Payment → Tables → Type 0
ReadAs payment_id (ok current) t = HasPayment payment_id t
ReadAs payment_id (err e) t = Unit

ReadAs_lem :
    (payment_id : String) (r : Result Payment) (t : Tables)
    → ((p : Payment) → r ≡ ok p → t.payments payment_id ≡ some p)
    → ReadAs payment_id r t
ReadAs_lem payment_id (ok p) t h = (p, h p refl)
ReadAs_lem payment_id (err e) t h = tt

abbrev StoredAs : String → Result ℕ → Tables → Type 0
StoredAs payment_id (ok n) t = HasEvent n payment_id t.webhook_events
StoredAs payment_id (err e) t = Unit

-- What a delivery knows to be in the tables.
abbrev Ready : Tables → Delivery → Type 0
Ready t (arrived event) = Unit
Ready t (stored event r) = StoredAs event.payment_id r t
Ready t (has_read event n timer r) =
    HasEvent n event.payment_id t.webhook_events × ReadAs event.payment_id r t
Ready t (answered event r) = Unit

Ready-Extends : {t u : Tables} → Extends t u → (d : Delivery) → Ready t d → Ready u d
Ready-Extends e (arrived event) h = tt
Ready-Extends e (stored event (ok n)) h = e.events n event.payment_id h
Ready-Extends e (stored event (err x)) h = tt
Ready-Extends e (has_read event n timer (ok current)) (h, k) =
    (e.events n event.payment_id h, e.payments event.payment_id k)
Ready-Extends e (has_read event n timer (err x)) (h, k) = (e.events n event.payment_id h, tt)
Ready-Extends e (answered event r) h = tt

Insertion-StoredAs :
    {pg : Postgres} {t u : Tables} {event : PaymentEvent} {r : Result ℕ}
    → Insertion pg t u event r
    → ((n : ℕ) → r ≡ ok n → 1 ≤ n)
    → StoredAs event.payment_id r u
Insertion-StoredAs {pg} {r = ok n} i counted = Insertion-HasEvent pg i refl (counted n refl)
Insertion-StoredAs {r = err e} i counted = tt

module _ (pg : Postgres) (laws : IsPostgres pg) (metrics : Option Metrics)
    (marshal_time : ℕ → Result String) where
  abbrev tables : World pg.State → Tables
  tables w = pg.contents w.database

  -- The order of states whose tables extend others.
  growing : Order pg.State
  growing = record {
    Leads = λ s t. Extends (pg.contents s) (pg.contents t);
    Recordable = λ a s.
        HasEvent a.webhook_event_id a.payment_id (pg.contents s).webhook_events
        × HasPayment a.payment_id (pg.contents s);
    Writable = λ p s. Unit;
    leads_refl = λ s. Extends-refl refl;
    leads_trans = λ e f. Extends-trans e f;
    recordable_mono =
        λ a e h. (e.events a.webhook_event_id a.payment_id h.0, e.payments a.payment_id h.1);
    writable_mono = λ p e h. tt;
  }

  Found-All :
      (P : ℕ → String → Type 0) (current : Payment) (event : PaymentEvent) (n : ℕ)
      {anomalies : List Anomaly}
      → Found current event n anomalies
      → P n event.payment_id
      → All (λ (a : Anomaly). P a.webhook_event_id a.payment_id) anomalies
  Found-All P current event n (stale _) h = (h, tt)
  Found-All P current event n (same_instant _) h = tt
  Found-All P current event n (allowed _ _) h = tt
  Found-All P current event n (forbidden _ _) h = (h, tt)

  with_current-Extends :
      (r : Result Payment) (event : PaymentEvent) (n : ℕ) (w : World pg.State)
      → HasEvent n event.payment_id (tables w).webhook_events
      → ReadAs event.payment_id r (tables w)
      → Extends (tables w) (
          tables
            (with_current
              (payment_processor pg metrics marshal_time)
              r
              (update_of pg metrics marshal_time event n)
              w).1)
  unfolding growing
  with_current-Extends r event n w h k =
      with_current-Leads (payment_processor pg metrics marshal_time) growing
        (λ p v h. upsert-Extends pg laws metrics p v)
        (λ a v able. record_anomaly-Extends pg laws metrics marshal_time a v able.0 able.1) r
        (update_of pg metrics marshal_time event n) w tt
        λ current is_ok.
          Found-All
            (λ id payment_id.
              HasEvent id payment_id (tables w).webhook_events × HasPayment payment_id (tables w))
            current event n (detect_anomalies-Found current event n) (h, (rw is_ok at k))

  get_by_payment_id-ReadAs :
      (payment_id : String) (w : World pg.State)
      → ReadAs payment_id
          (get_by_payment_id pg metrics payment_id w).0
          (tables (get_by_payment_id pg metrics payment_id w).1)
  get_by_payment_id-ReadAs payment_id w =
      let keeps = payment_repository-KeepsPayments pg laws metrics in
      ReadAs_lem payment_id _ _ (λ p good.
        ap (λ (rows : String → Option Payment). rows payment_id) (keeps.get_keeps payment_id w)
        ∙ keeps.get_ok payment_id w p good)

  get_by_payment_id-Extends :
      (payment_id : String) (w : World pg.State)
      → Extends (tables w) (tables (get_by_payment_id pg metrics payment_id w).1)
  unfolding get_by_payment_id
  get_by_payment_id-Extends payment_id w = Extends-refl (laws.select_keeps payment_id w.database)

  -- What a step of a delivery does to the tables.
  advance-Extends :
      (d : Delivery) (w : World pg.State)
      → Ready (tables w) d
      → Extends (tables w) (tables (advance pg metrics marshal_time d w).1)
        × Ready
            (tables (advance pg metrics marshal_time d w).1)
            (advance pg metrics marshal_time d w).0
  unfolding advance begin_update finish_update start_payment_processing_timer inc_payment_processing
      observe_timer
  advance-Extends (arrived event) w h =
      let inserted = insert-Insertion pg laws metrics event w in
      (
        Insertion-Extends pg inserted,
        Insertion-StoredAs inserted (insert_id pg laws metrics event w),
      )
  advance-Extends (stored event (ok n)) w h =
      let v = (start_payment_processing_timer metrics (some (λ (label : String). label)) w).1 in
      let grown = get_by_payment_id-Extends event.payment_id v in
      (grown, (grown.events n event.payment_id h, get_by_payment_id-ReadAs event.payment_id v))
  advance-Extends (stored event (err e)) w h = (
    Extends-refl (ap pg.contents (after_insert-failed pg laws metrics marshal_time event w e).0),
    tt,
  )
  advance-Extends (has_read event n timer r) w (h, k) = (with_current-Extends r event n w h k, tt)
  advance-Extends (answered event r) w h = (Extends-refl refl, tt)

  linking : Invariant pg metrics marshal_time
  linking = record {
    Leads = λ s t. Extends (pg.contents s) (pg.contents t);
    Knows = λ s d. Ready (pg.contents s) d;
    Holds = λ s. AllLinked (pg.contents s);
    knows_mono = λ e d h. Ready-Extends e d h;
    holds_mono = λ e h. e.linked h;
    advances = advance-Extends;
  }

  -- However deliveries overlap, each anomaly in the tables has the identifier of an event that is
  -- stored, not NULL, and this event is one of the anomaly's payment, which has a row; if this was so
  -- before.
  pub Steps-AllLinked :
      (events : List PaymentEvent) {ds : List Delivery} {w v : World pg.State}
      → Steps pg metrics marshal_time (arrivals events) w ds v
      → AllLinked (pg.contents w.database)
      → AllLinked (pg.contents v.database)
  unfolding linking
  Steps-AllLinked events ss linked =
      arrivals-Holds pg metrics marshal_time linking events (All_of _ (λ event. tt) events) ss
        linked
