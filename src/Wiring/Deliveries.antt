-- ===== src/Wiring/Deliveries.antt =====
-- One delivery of an event, `IdempotencyService.Process` over PostgreSQL.
use payment_webhook_processo.Prelude.{
  ℕ, String, true, Option, some, ◌≡◌, ◌≢◌, refl, ap, ◌∙◌, inl, inr, Bool-cases, eq_iff, arith,
}
use payment_webhook_processo.Failure.{
  duplicate_provider_event_id, Error, is, Result, ok, err, ok-injective, err≢ok,
}
use payment_webhook_processo.World.{World, Action}
use payment_webhook_processo.Metrics.{Metrics}
use payment_webhook_processo.Webhook.Event.{PaymentEvent}
use payment_webhook_processo.Repository.Rows.{Payment}
use payment_webhook_processo.Repository.Postgres.{Postgres, IsPostgres, Tables}
use payment_webhook_processo.Repository.WebhookEvents.{insert}
use payment_webhook_processo.Repository.WebhookEvents.Laws.{
  knows, Insertion, stored, duplicate, unknown, insert-Insertion, Insertion_ok,
}
use payment_webhook_processo.Service.PaymentProcessor.Outcomes.{Advanced}
use payment_webhook_processo.Service.Idempotency.{ResultStatus, process, after_insert}
use payment_webhook_processo.Wiring.{webhook_processor}
use payment_webhook_processo.Wiring.Contracts.{
  payments_of, events_of, update_payment-events, update_payment_advances,
}

abbrev pub deliver :
    (pg : Postgres)
    → Option Metrics
    → (ℕ → Result String)
    → PaymentEvent
    → Action pg.State (Result ResultStatus)
deliver pg metrics marshal_time = process (webhook_processor pg metrics marshal_time)

-- Storing an event leaves the payments alone.
Insertion-payments :
    {pg : Postgres} {before after : Tables} {event : PaymentEvent} {r : Result ℕ}
    → Insertion pg before after event r
    → after.payments ≡ before.payments
Insertion-payments (stored id _ put _) = ap (λ (t : Tables). t.payments) put
Insertion-payments (duplicate _ same _) = ap (λ (t : Tables). t.payments) same
Insertion-payments (unknown x _ (inl same) _) = ap (λ (t : Tables). t.payments) same
Insertion-payments (unknown x _ (inr (_, _, put)) _) = ap (λ (t : Tables). t.payments) put

-- An event that is stored already is not stored again, and is never taken for a new one.
Insertion_known :
    {pg : Postgres} {before after : Tables} {event : PaymentEvent} {r : Result ℕ}
    → Insertion pg before after event r
    → knows event before ≡ true
    → (after ≡ before) × ((e : Error) × (r ≡ err e))
Insertion_known (stored id new _ _) old = absurd (cc (new, old))
Insertion_known (duplicate _ same r) old = (same, (_, r))
Insertion_known (unknown x _ (inl same) r) old = (same, (_, r))
Insertion_known (unknown x _ (inr (_, new, _)) r) old = absurd (cc (new, old))

module _ (pg : Postgres) (laws : IsPostgres pg) (metrics : Option Metrics)
    (marshal_time : ℕ → Result String) where
  pub after_insert-failed :
      (event : PaymentEvent) (w : World pg.State) (e : Error)
      → ((after_insert (webhook_processor pg metrics marshal_time) event (err e) w).1.database
          ≡ w.database)
        × ((after_insert (webhook_processor pg metrics marshal_time) event (err e) w).0
            ≢ ok "processed")
  unfolding after_insert
  after_insert-failed event w e = elim (Bool-cases (is e duplicate_provider_event_id)) [
    | inl old ↦ rw old (refl, λ h. absurd (not_processed (ok-injective h)))
    | inr other ↦ rw other (refl, λ h. err≢ok h)
  ]
    where
      not_processed : ◌≡◌ {A = String} "duplicate" "processed" → ⊥
      not_processed h = cc ((eq_iff "duplicate" "processed").1 h)

  -- An event whose provider id is stored already changes none of the tables, and is not answered
  -- "processed".
  pub redelivery :
      (event : PaymentEvent) (w : World pg.State)
      → knows event (pg.contents w.database) ≡ true
      → (pg.contents (deliver pg metrics marshal_time event w).1.database ≡ pg.contents w.database)
        × ((deliver pg metrics marshal_time event w).0 ≢ ok "processed")
  unfolding process
  redelivery event w old =
      let (same, (e, failed)) = Insertion_known (insert-Insertion pg laws metrics event w) old in
      let w1 = (insert pg metrics event w).1 in
      let (kept, answer) = after_insert-failed event w1 e in
      rw failed (ap pg.contents kept ∙ same, answer)

  after_insert-advances :
      (event : PaymentEvent) (r : Result ℕ) (w : World pg.State) (id : String) (current : Payment)
      → payments_of pg w.database id ≡ some current
      → Advanced
          (payments_of pg
            (after_insert (webhook_processor pg metrics marshal_time) event r w).1.database)
          id
          current
  unfolding after_insert
  after_insert-advances event (ok n) w id current old =
      update_payment_advances pg laws metrics marshal_time _ w id current old
  after_insert-advances event (err e) w id current old =
      elim (Bool-cases (is e duplicate_provider_event_id)) [
        | inl known ↦ rw known (current, old, omega arith, inl refl)
        | inr other ↦ rw other (current, old, omega arith, inl refl)
      ]

  pub deliver_advances :
      (event : PaymentEvent) (w : World pg.State) (id : String) (current : Payment)
      → payments_of pg w.database id ≡ some current
      → Advanced (payments_of pg (deliver pg metrics marshal_time event w).1.database) id current
  unfolding process
  deliver_advances event w id current old =
      after_insert-advances event _ (insert pg metrics event w).1 id current
        (rw (Insertion-payments (insert-Insertion pg laws metrics event w)) old)

  pub after_insert-events :
      (event : PaymentEvent) (r : Result ℕ) (w : World pg.State)
      → events_of pg (after_insert (webhook_processor pg metrics marshal_time) event r w).1.database
        ≡ events_of pg w.database
  unfolding after_insert
  after_insert-events event (ok n) w = update_payment-events pg laws metrics marshal_time _ w
  after_insert-events event (err e) w = elim (Bool-cases (is e duplicate_provider_event_id)) [
    | inl known ↦ rw known refl
    | inr other ↦ rw other refl
  ]

  pub deliver-events :
      (event : PaymentEvent) (w : World pg.State)
      → events_of pg (deliver pg metrics marshal_time event w).1.database
        ≡ events_of pg (insert pg metrics event w).1.database
  unfolding process
  deliver-events event w = after_insert-events event _ (insert pg metrics event w).1

  after_insert-processed :
      (event : PaymentEvent) (r : Result ℕ) (w : World pg.State)
      → (after_insert (webhook_processor pg metrics marshal_time) event r w).0 ≡ ok "processed"
      → (n : ℕ) × (r ≡ ok n)
  after_insert-processed event (ok n) w h = (n, refl)
  after_insert-processed event (err e) w h = absurd ((after_insert-failed event w e).1 h)

  -- An event that was answered "processed" is stored.
  pub processed_stored :
      (event : PaymentEvent) (w : World pg.State)
      → (deliver pg metrics marshal_time event w).0 ≡ ok "processed"
      → knows event (pg.contents (deliver pg metrics marshal_time event w).1.database) ≡ true
  unfolding process
  processed_stored event w done =
      let (n, inserted) = after_insert-processed event _ (insert pg metrics event w).1 done in
      let known = Insertion_ok (insert-Insertion pg laws metrics event w) inserted in
      rw (after_insert-events event (insert pg metrics event w).0 (insert pg metrics event w).1)
        known
