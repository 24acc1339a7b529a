-- ===== src/Wiring/Histories.antt =====
-- Any number of deliveries, one after another: stored events stay, an event is processed once at most, and a payment goes only through allowed status changes.
use mathlib.Core.Path.{subst}
use payment_webhook_processo.Prelude.{
  ℕ, ◌≤◌, String, true, Option, some, List, [], ◌∷◌, ◌≡◌, ◌≢◌, refl, sym, ap, ◌∙◌, ◌⊎◌, inl, inr,
  arith,
}
use payment_webhook_processo.Failure.{Result, ok}
use payment_webhook_processo.World.{World}
use payment_webhook_processo.Metrics.{Metrics}
use payment_webhook_processo.Webhook.Event.{PaymentEvent, PaymentStatus}
use payment_webhook_processo.Webhook.Event.Statuses.{Status, status_name}
use payment_webhook_processo.Repository.Rows.{Payment}
use payment_webhook_processo.Repository.Postgres.{Postgres, IsPostgres, Tables, has_event}
use payment_webhook_processo.Repository.WebhookEvents.Laws.{
  has_event-append, Insertion, stored, duplicate, unknown, insert-Insertion,
}
use payment_webhook_processo.Service.Anomaly.{is_transition_allowed}
use payment_webhook_processo.Service.Anomaly.Transitions.{
  is_transition_allowed_iff, status_name-injective, Run, here, next, WasPaid, Run-WasPaid,
}
use payment_webhook_processo.Wiring.Contracts.{payments_of, events_of}
use payment_webhook_processo.Wiring.Deliveries.{
  deliver, deliver_advances, deliver-events, redelivery, processed_stored,
}

-- Stored events stay stored.
Insertion-keeps :
    {pg : Postgres} {before after : Tables} {event : PaymentEvent} {r : Result ℕ}
    → Insertion pg before after event r
    → (id : String) → has_event id before.webhook_events ≡ true
    → has_event id after.webhook_events ≡ true
Insertion-keeps (stored n new put _) id h =
    rw (ap (λ (t : Tables). t.webhook_events) put, has_event-append, h) refl
Insertion-keeps (duplicate _ same _) id h = rw (ap (λ (t : Tables). t.webhook_events) same) h
Insertion-keeps (unknown x _ (inl same) _) id h = rw (ap (λ (t : Tables). t.webhook_events) same) h
Insertion-keeps (unknown x _ (inr (n, new, put)) _) id h =
    rw (ap (λ (t : Tables). t.webhook_events) put, has_event-append, h) refl

-- The reflexive and transitive closure of `isTransitionAllowed`.
pub data Follows (s : PaymentStatus) : PaymentStatus → Type 0 where
  same : Follows s s
  then_allowed :
      {t u : PaymentStatus} → Follows s t → is_transition_allowed t u ≡ true → Follows s u

Follows-trans : {s t u : PaymentStatus} → Follows s t → Follows t u → Follows s u
Follows-trans f same = f
Follows-trans f (then_allowed g h) = then_allowed (Follows-trans f g) h

-- One delivery's change, and then others.
Follows-first :
    {p q : Payment} {u : PaymentStatus}
    → (q ≡ p) ⊎ (is_transition_allowed p.status q.status ≡ true)
    → Follows q.status u
    → Follows p.status u
Follows-first {u} (inl e) f = subst (λ (x : Payment). Follows x.status u) e f
Follows-first (inr h) f = Follows-trans (then_allowed same h) f

Follows-Run :
    {s t : PaymentStatus} (a : Status)
    → s ≡ status_name a
    → Follows s t
    → (b : Status) × (t ≡ status_name b) × Run a b
Follows-Run a e same = (a, e, here)
Follows-Run a e (then_allowed f h) =
    let (b, named, run) = Follows-Run a e f in
    let allowed = (is_transition_allowed_iff _ _).0 h in
    let at_b = status_name-injective _ b (sym allowed.current_status ∙ named) in
    (allowed.to, allowed.next_status, next run (rw at_b at allowed.transition))

module _ (pg : Postgres) (laws : IsPostgres pg) (metrics : Option Metrics)
    (marshal_time : ℕ → Result String) where
  unfoldable pub deliver_all : List PaymentEvent → World pg.State → World pg.State
  deliver_all [] w = w
  deliver_all (event ∷ events) w = deliver_all events (deliver pg metrics marshal_time event w).1

  pub deliver_all-keeps :
      (events : List PaymentEvent) (w : World pg.State) (id : String)
      → has_event id (events_of pg w.database) ≡ true
      → has_event id (events_of pg (deliver_all events w).database) ≡ true
  unfolding deliver_all
  deliver_all-keeps [] w id h = h
  deliver_all-keeps (event ∷ events) w id h = deliver_all-keeps events _ id (
      rw (deliver-events pg laws metrics marshal_time event w)
        (Insertion-keeps (insert-Insertion pg laws metrics event w) id h))

  -- An event that was answered "processed" is not answered so again, whatever is delivered between.
  pub processed_once :
      (event : PaymentEvent) (w : World pg.State) (between : List PaymentEvent)
      → (deliver pg metrics marshal_time event w).0 ≡ ok "processed"
      → (deliver pg metrics marshal_time event
          (deliver_all between (deliver pg metrics marshal_time event w).1)).0
        ≢ ok "processed"
  processed_once event w between done =
      (redelivery pg laws metrics marshal_time event _ (
        deliver_all-keeps between _ event.provider_event_id
          (processed_stored pg laws metrics marshal_time event w done))).1

  -- Whatever is delivered, the row of a payment stays, its instant never falls, and its status is
  -- reached from the old one by allowed changes.
  pub deliver_all_advances :
      (events : List PaymentEvent) (w : World pg.State) (id : String) (current : Payment)
      → payments_of pg w.database id ≡ some current
      → (last : Payment) × (payments_of pg (deliver_all events w).database id ≡ some last)
        × (current.status_timestamp ≤ last.status_timestamp)
        × Follows current.status last.status
  unfolding deliver_all
  deliver_all_advances [] w id current old = (current, old, omega arith, same)
  deliver_all_advances (event ∷ events) w id current old =
      let (mid, at_mid, grows, step) =
        deliver_advances pg laws metrics marshal_time event w id current old in
      let (last, at_last, grows', follows) = deliver_all_advances events _ id mid at_mid in
      (last, at_last, omega (arith, grows, grows'), Follows-first step follows)

  -- A payment whose status says that it was paid (paid, partially refunded, refunded, disputed,
  -- chargeback) has such a status after any deliveries.
  pub paid_stays_paid :
      (events : List PaymentEvent) (w : World pg.State) (id : String) (current : Payment)
      (a : Status)
      → payments_of pg w.database id ≡ some current
      → current.status ≡ status_name a
      → WasPaid a
      → (last : Payment) × (b : Status) × (payments_of pg (deliver_all events w).database id
          ≡ some last)
        × (last.status ≡ status_name b)
        × WasPaid b
  paid_stays_paid events w id current a old named paid =
      let (last, at_last, _, follows) = deliver_all_advances events w id current old in
      let (b, named_b, run) = Follows-Run a named follows in
      (last, b, at_last, named_b, Run-WasPaid run paid)
