-- ===== src/Repository/Links/Operations.antt =====
-- The repositories' operations keep the links of the anomalies.
use payment_webhook_processo.Prelude.{
  ℕ, ◌≤◌, String, Option, some, arith, ◌≡◌, refl, sym, ap, ◌∙◌, inl, inr,
}
use payment_webhook_processo.Failure.{Result, ok, err, ok-injective, Result-cases}
use payment_webhook_processo.World.{World}
use payment_webhook_processo.Json.{Json}
use payment_webhook_processo.Metrics.{Metrics}
use payment_webhook_processo.Webhook.Event.{PaymentEvent}
use payment_webhook_processo.Repository.Rows.{Payment, Anomaly}
use payment_webhook_processo.Repository.Postgres.{Postgres, IsPostgres, Tables}
use payment_webhook_processo.Repository.Payments.{upsert}
use payment_webhook_processo.Repository.Anomalies.{
  nullable_webhook_event_id, record_anomaly, insert_marshalled, anomaly_columns,
}
use payment_webhook_processo.Repository.WebhookEvents.{event_columns}
use payment_webhook_processo.Repository.WebhookEvents.Laws.{Insertion, stored, duplicate, unknown}
use payment_webhook_processo.Repository.Links.{
  HasEvent, HasPayment, HasEvent-last, HasEvent-positive, Extends, Extends-refl, Extends-trans,
  Extends-with_event, Extends-with_payment, Extends-with_anomaly,
}

module _ (pg : Postgres) where
  -- Tables that are others with a change of one kind.
  moved : {t u v : Tables} → v ≡ u → Extends t u → Extends t v
  moved same e = Extends-trans e (Extends-refl same)

  pub Insertion-Extends :
      {t u : Tables} {event : PaymentEvent} {r : Result ℕ} → Insertion pg t u event r → Extends t u
  Insertion-Extends {t} {event} (stored id _ put _) = moved put (Extends-with_event pg id event t)
  Insertion-Extends (duplicate _ same _) = Extends-refl same
  Insertion-Extends (unknown _ _ (inl same) _) = Extends-refl same
  Insertion-Extends {t} {event} (unknown _ _ (inr (id, _, put)) _) =
      moved put (Extends-with_event pg id event t)

  pub Insertion-HasEvent :
      {t u : Tables} {event : PaymentEvent} {r : Result ℕ} {n : ℕ}
      → Insertion pg t u event r
      → r ≡ ok n
      → 1 ≤ n
      → HasEvent n event.payment_id u.webhook_events
  Insertion-HasEvent {t} {event} (stored id _ put is_ok) h counted =
      let same = ok-injective (sym h ∙ is_ok) in
      rw (ap (λ (x : Tables). x.webhook_events) put, same)
        (HasEvent-last t.webhook_events (record { id = id; event = event_columns event })
          (rw same at counted))
  Insertion-HasEvent (duplicate _ _ is_err) h _ = absurd (cc (is_err, h))
  Insertion-HasEvent (unknown _ _ _ is_err) h _ = absurd (cc (is_err, h))

  module _ (laws : IsPostgres pg) (metrics : Option Metrics) where
    pub upsert-Extends :
        (p : Payment) (w : World pg.State)
        → Extends (pg.contents w.database) (pg.contents (upsert pg metrics p w).1.database)
    unfolding upsert
    upsert-Extends p w =
        Result-cases (pg.upsert_payment p w.database).0
          (λ _ good. moved (laws.upsert_ok p w.database good) (Extends-with_payment pg p _))
          λ e bad. elim (laws.upsert_err p w.database e bad) [
            | inl same ↦ Extends-refl same
            | inr put ↦ moved put (Extends-with_payment pg p _)
          ]

    nullable_webhook_event_id-positive : (id : ℕ) → 1 ≤ id → nullable_webhook_event_id id ≡ some id
    unfolding nullable_webhook_event_id
    nullable_webhook_event_id-positive id h = ground arith

    module _ (marshal_time : ℕ → Result String) where
      insert_marshalled-Extends :
          (a : Anomaly) (details : Result Json) (w : World pg.State)
          → HasEvent a.webhook_event_id a.payment_id (pg.contents w.database).webhook_events
          → HasPayment a.payment_id (pg.contents w.database)
          → Extends
              (pg.contents w.database)
              (pg.contents (insert_marshalled pg metrics marshal_time a details w).1.database)
      unfolding insert_marshalled
      insert_marshalled-Extends a (err e) w event payment = Extends-refl refl
      insert_marshalled-Extends a (ok details) w event payment =
          let added =
            Extends-with_anomaly pg (anomaly_columns a details) (pg.contents w.database) (record {
              id = a.webhook_event_id;
              is_id =
                  nullable_webhook_event_id-positive a.webhook_event_id
                    (HasEvent-positive _ _ _ event);
              event = event;
              payment = payment;
            }) in
          Result-cases (pg.insert_anomaly (anomaly_columns a details) w.database).0
            (λ _ good. moved (laws.insert_anomaly_ok _ w.database good) added)
            λ e bad. elim (laws.insert_anomaly_err _ w.database e bad) [
              | inl same ↦ Extends-refl same
              | inr put ↦ moved put added
            ]

      -- An anomaly is recorded for an event that is stored, and a payment that has a row.
      pub record_anomaly-Extends :
          (a : Anomaly) (w : World pg.State)
          → HasEvent a.webhook_event_id a.payment_id (pg.contents w.database).webhook_events
          → HasPayment a.payment_id (pg.contents w.database)
          → Extends
              (pg.contents w.database)
              (pg.contents (record_anomaly pg metrics marshal_time a w).1.database)
      unfolding record_anomaly
      record_anomaly-Extends a w event payment = insert_marshalled-Extends a _ _ event payment
