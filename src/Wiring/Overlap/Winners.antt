-- ===== src/Wiring/Overlap/Winners.antt =====
-- Of the deliveries of one new event that overlap, one is the first to store it.
use payment_webhook_processo.Prelude.{
  ℕ, ◌+◌, ◌≤◌, String, true, false, Option, some, List, [], ◌∷◌, ◌≡◌, refl, ap, ◌∙◌, All, inl, inr,
  Bool-cases, ◌==◌, arith,
}
use payment_webhook_processo.Failure.{Error, duplicate_provider_event_id, is, Result, ok, err}
use payment_webhook_processo.World.{World}
use payment_webhook_processo.Metrics.{
  Metrics, start_payment_processing_timer, inc_payment_processing, observe_timer,
}
use payment_webhook_processo.Webhook.Event.{PaymentEvent}
use payment_webhook_processo.Repository.Postgres.{Postgres, IsPostgres, has_event}
use payment_webhook_processo.Repository.WebhookEvents.Laws.{insert-Insertion}
use payment_webhook_processo.Service.Idempotency.{after_insert}
use payment_webhook_processo.Wiring.{webhook_processor}
use payment_webhook_processo.Wiring.Contracts.{
  events_of, with_current-events, get_by_payment_id-events,
}
use payment_webhook_processo.Wiring.Known.{is_delivered}
use payment_webhook_processo.Wiring.Overlap.{
  Delivery, update_of, arrived, has_read, answered, begin_update, finish_update, advance, Step,
  move, other, Steps, stop, step,
}
use payment_webhook_processo.Wiring.Overlap
use payment_webhook_processo.Wiring.Overlap.Claims.{
  bit, claim, claims, claims-arrivals, processed_count, arrivals, known_ap, is_known,
  Steps-processed_count,
}
use payment_webhook_processo.Wiring.Overlap.Failing.{
  failure, failures, tried, delivered, all_delivered, AllSucceeded, all_delivered-arrivals,
  failures-arrivals, settled, all_settled, Insertion-mass, updated-mass,
}

module _ (pg : Postgres) (laws : IsPostgres pg) (metrics : Option Metrics)
    (marshal_time : ℕ → Result String) where
  abbrev known : String → World pg.State → ℕ
  known = is_known pg laws metrics marshal_time

  -- The delivery has found its provider id stored, or fails.
  abbrev Found : String → World pg.State → Delivery → Type 0
  Found id w d = tried id d ≤ known id w + failure d

  abbrev Moved : String → World pg.State → Delivery → World pg.State → Delivery → Type 0
  Moved id w d v e =
      (claim id d + failure d + known id v ≤ claim id e + failure e + known id w)
      × (Found id w d → Found id v e)
      × (known id w ≤ known id v)

  refused-Moved :
      (id : String) (event : PaymentEvent) (e : Error) (w : World pg.State)
      → Moved id w
          (Overlap.stored event (err e))
          (after_insert (webhook_processor pg metrics marshal_time) event (err e) w).1
          (answered event
            (after_insert (webhook_processor pg metrics marshal_time) event (err e) w).0)
  unfolding after_insert
  refused-Moved id event e w = elim (Bool-cases (is e duplicate_provider_event_id)) [
    | inl old ↦ rw old (omega arith, λ h. h, omega arith)
    | inr differs ↦ rw differs (omega arith, λ h. h, omega arith)
  ]

  advance-Moved :
      (id : String) (d : Delivery) (w : World pg.State)
      → Moved id w d (advance pg metrics marshal_time d w).1 (advance pg metrics marshal_time d w).0
  unfolding advance begin_update finish_update start_payment_processing_timer inc_payment_processing
      observe_timer
  advance-Moved id (arrived event) w =
      let (grows, finds, keeps) = Insertion-mass id (insert-Insertion pg laws metrics event w) in
      (omega (arith, grows), λ h. omega (arith, finds), omega (arith, keeps))
  advance-Moved id (Overlap.stored event (ok n)) w =
      let v = (start_payment_processing_timer metrics (some (λ (label : String). label)) w).1 in
      let same =
        known_ap id (get_by_payment_id-events pg laws metrics marshal_time event.payment_id v) in
      (omega (arith, same), λ h. omega (arith, same, h), omega (arith, same))
  advance-Moved id (Overlap.stored event (err e)) w = refused-Moved id event e w
  advance-Moved id (has_read event n timer r) w =
      let same = known_ap id (
        with_current-events pg laws metrics marshal_time r
          (update_of pg metrics marshal_time event n) w) in
      (
        omega (arith, same, updated-mass id event _),
        λ h. omega (arith, same, h),
        omega (arith, same),
      )
  advance-Moved id (answered event r) w = (omega arith, λ h. h, omega arith)

  AllFound-later :
      (id : String) (ds : List Delivery) (w v : World pg.State)
      → known id w ≤ known id v
      → All (Found id w) ds
      → All (Found id v) ds
  AllFound-later id [] w v le hs = tt
  AllFound-later id (d ∷ ds) w v le (h, hs) = (omega (arith, le, h), AllFound-later id ds w v le hs)

  -- What a step does to all of the deliveries.
  record Went (id : String) (ds : List Delivery) (w : World pg.State) (es : List Delivery)
      (v : World pg.State) : Type 0 where
    mass : claims id ds + failures ds + known id v ≤ claims id es + failures es + known id w
    found : All (Found id w) ds → All (Found id v) es
    keeps : known id w ≤ known id v
    same : all_delivered es ≡ all_delivered ds

  advance-delivered :
      (d : Delivery) (w : World pg.State)
      → delivered (advance pg metrics marshal_time d w).0 ≡ delivered d
  unfolding advance
  advance-delivered (arrived event) w = refl
  advance-delivered (Overlap.stored event (ok n)) w = refl
  advance-delivered (Overlap.stored event (err e)) w = refl
  advance-delivered (has_read event n timer r) w = refl
  advance-delivered (answered event r) w = refl

  Step-Went :
      (id : String) {ds es : List Delivery} {w v : World pg.State}
      → Step pg metrics marshal_time ds w es v
      → Went id ds w es v
  Step-Went id (move {d} {ds} {w} _) =
      let (mass, finds, keeps) = advance-Moved id d w in
      record {
        mass = omega (arith, mass);
        found = λ hs.
            (finds hs.0, AllFound-later id ds w (advance pg metrics marshal_time d w).1 keeps hs.1);
        keeps = keeps;
        same = ap (λ (event : PaymentEvent). event ∷ all_delivered ds) (advance-delivered d w);
      }
  Step-Went id (other {d} {w} {v} s) =
      let rest = Step-Went id s in
      record {
        mass = omega (arith, rest.mass);
        found = λ hs. (omega (arith, rest.keeps, hs.0), rest.found hs.1);
        keeps = rest.keeps;
        same = ap (◌∷◌ (delivered d)) rest.same;
      }

  Steps-Went :
      (id : String) {ds es : List Delivery} {w v : World pg.State}
      → Steps pg metrics marshal_time ds w es v
      → Went id ds w es v
  Steps-Went id stop = record {
    mass = omega arith;
    found = λ h. h;
    keeps = omega arith;
    same = refl;
  }
  Steps-Went id (step s ss) =
      let first = Step-Went id s in
      let rest = Steps-Went id ss in
      record {
        mass = omega (arith, first.mass, rest.mass);
        found = λ h. rest.found (first.found h);
        keeps = omega (arith, first.keeps, rest.keeps);
        same = rest.same ∙ first.same;
      }

  arrivals-Found :
      (id : String) (w : World pg.State) (events : List PaymentEvent)
      → All (Found id w) (arrivals events)
  arrivals-Found id w [] = tt
  arrivals-Found id w (event ∷ events) = (omega arith, arrivals-Found id w events)

  -- A provider id that was delivered is known when its deliveries have succeeded.
  delivered-known :
      (id : String) (ds : List Delivery) (v : World pg.State)
      → AllSucceeded ds
      → All (Found id v) ds
      → is_delivered id (all_delivered ds) ≡ true
      → 1 ≤ known id v
  delivered-known id [] v _ _ = λ h. cc
  delivered-known id (d ∷ ds) v (here, there) (found, rest) =
      let (none_failed, _, has_tried) = settled id d here in
      elim (Bool-cases ((delivered d).provider_event_id == id)) [
        | inl same ↦ λ h. omega (arith, none_failed, found, rw same at has_tried)
        | inr differs ↦ rw differs (delivered-known id ds v there rest)
      ]

  -- However the deliveries of events overlap, if all of them are answered and none fails, then of
  -- those with one provider id exactly one is answered "processed", unless that id was stored before
  -- any of them arrived.
  pub Steps-one_processed :
      (id : String) (events : List PaymentEvent) {ds : List Delivery} {w v : World pg.State}
      → Steps pg metrics marshal_time (arrivals events) w ds v
      → AllSucceeded ds
      → is_delivered id events ≡ true
      → has_event id (events_of pg w.database) ≡ false
      → processed_count id ds ≡ 1
  Steps-one_processed id events {ds} {w} {v} ss good came new =
      let went = Steps-Went id ss in
      let (none_failed, same) = all_settled id ds good in
      let here =
        delivered-known id ds v good (went.found (arrivals-Found id w events))
          (ap (is_delivered id) (went.same ∙ all_delivered-arrivals events) ∙ came) in
      omega (
        arith,
        went.mass,
        none_failed,
        same,
        here,
        claims-arrivals id events,
        failures-arrivals events,
        ap bit new,
        rw new at (Steps-processed_count pg laws metrics marshal_time id events ss),
      )
