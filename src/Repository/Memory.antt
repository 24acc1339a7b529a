-- ===== src/Repository/Memory.antt =====
-- An in-memory database with the laws of PostgreSQL that the repositories use, to run the program
-- on. A list of faults says of each statement whether it is carried out, refused, or carried out
-- with its answer lost. Instants are kept to the microsecond.
pub mod Laws
use mathlib.Core.Path.{fun_ext}
use mathlib.Core.Option
use payment_webhook_processo.Prelude.{
  ℕ, ◌+◌, ◌*◌, ◌/◌, ◌≤◌, String, Bool, true, false, Option, none, some, List, [], ◌∷◌, ◌++◌, ◌≡◌,
  refl, ◌⊎◌, inl, inr, ap, Bool-cases, ◌==◌, eq_iff, if◌then◌else◌, arith,
}
use payment_webhook_processo.Failure.{
  payment_not_found, duplicate_provider_event_id, Error, no_rows, pg_error, external, is,
  is_no_rows, as_pg_error, Result, ok, err,
}
use payment_webhook_processo.Webhook.Event.{PaymentStatus}
use payment_webhook_processo.Repository.Rows.{Payment, NewWebhookEvent, WebhookEventRow, AnomalyRow}
use payment_webhook_processo.Repository.Postgres.{
  Postgres, IsPostgres, Tables, has_event, put, stored, with_payment, with_event, with_anomaly,
}

pub data Fault : Type 0 where
  fine refused lost : Fault

pub record Memory : Type 0 where
  pub payments : String → Option (PaymentStatus × ℕ)
  pub webhook_events : List WebhookEventRow
  pub anomalies : List AnomalyRow
  pub last_id : ℕ
  pub faults : List Fault

abbrev pub next_fault : List Fault → Fault
next_fault [] = fine
next_fault (f ∷ fs) = f

abbrev pub later : List Fault → List Fault
later [] = []
later (f ∷ fs) = fs

abbrev to_micros : ℕ → ℕ
to_micros t = t / 1000 * 1000

abbrev as_payment : String → Option (PaymentStatus × ℕ) → Option Payment
as_payment id none = none
as_payment id (some (status, t)) =
    some (record { payment_id = id; status = status; status_timestamp = to_micros t })

abbrev contents : Memory → Tables
contents m = record {
  payments = λ id. as_payment id (m.payments id);
  webhook_events = m.webhook_events;
  anomalies = m.anomalies;
}

abbrev step : Memory → Memory
step m = record m { faults = later m.faults }

abbrev down : {A : Type 0} → Result A
down = err (external "connection refused")

abbrev found : Option Payment → Result Payment
found none = err no_rows
found (some p) = ok p

abbrev select : Fault → String → Memory → Result Payment
select fine id m = found (as_payment id (m.payments id))
select refused id m = down
select lost id m = down

abbrev upserted : Payment → Memory → Memory
upserted p m = record m {
  payments =
      λ id. if p.payment_id == id then some (p.status, p.status_timestamp) else m.payments id;
}

abbrev upsert : Fault → Payment → Memory → Result (Unit {0}) × Memory
upsert fine p m = (ok tt, upserted p m)
upsert refused p m = (down, m)
upsert lost p m = (down, upserted p m)

abbrev event_added : NewWebhookEvent → Memory → Memory
event_added e m = record m {
  webhook_events = m.webhook_events ++ record { id = m.last_id + 1; event = e } ∷ [];
  last_id = m.last_id + 1;
}

abbrev violation : Result ℕ
violation = err (pg_error "23505" "webhook_events_provider_event_id_key")

abbrev insert_new : Fault → NewWebhookEvent → Memory → Result ℕ × Memory
insert_new fine e m = (ok (m.last_id + 1), event_added e m)
insert_new refused e m = (down, m)
insert_new lost e m = (down, event_added e m)

abbrev insert : Bool → Fault → NewWebhookEvent → Memory → Result ℕ × Memory
insert true f e m = (violation, m)
insert false f e m = insert_new f e m

abbrev anomaly_added : AnomalyRow → Memory → Memory
anomaly_added a m = record m { anomalies = m.anomalies ++ a ∷ [] }

abbrev add_anomaly : Fault → AnomalyRow → Memory → Result (Unit {0}) × Memory
add_anomaly fine a m = (ok tt, anomaly_added a m)
add_anomaly refused a m = (down, m)
add_anomaly lost a m = (down, anomaly_added a m)

abbrev pub memory : Postgres
memory = record {
  State = Memory;
  contents = contents;
  stored_time = to_micros;
  select_payment = λ id m. (select (next_fault m.faults) id m, step m);
  upsert_payment = λ p m. upsert (next_fault m.faults) p (step m);
  insert_webhook_event = λ e m.
      insert (has_event e.provider_event_id m.webhook_events) (next_fault m.faults) e (step m);
  insert_anomaly = λ a m. add_anomaly (next_fault m.faults) a (step m);
}
