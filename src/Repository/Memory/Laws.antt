-- ===== src/Repository/Memory/Laws.antt =====
-- The in-memory database has the laws of PostgreSQL.
use mathlib.Core.Path.{fun_ext}
use payment_webhook_processo.Prelude.{
  ℕ, ◌+◌, ◌≤◌, String, Bool, true, false, Option, none, some, ◌≡◌, refl, ◌⊎◌, inl, inr, ap, eq_iff,
  arith,
}
use payment_webhook_processo.Failure.{
  payment_not_found, duplicate_provider_event_id, Error, is, is_no_rows, as_pg_error, ok, err,
}
use payment_webhook_processo.Repository.Rows.{Payment, NewWebhookEvent, AnomalyRow}
use payment_webhook_processo.Repository.Postgres.{
  IsPostgres, put, stored, with_payment, with_event, with_anomaly,
}
use payment_webhook_processo.Repository.Memory.{
  Fault, fine, refused, lost, Memory, memory, contents, as_payment, to_micros, select, upserted,
  upsert, insert, add_anomaly, next_fault, step,
}

contents-upserted :
    (p : Payment) (m : Memory) → contents (upserted p m) ≡ with_payment memory p (contents m)
contents-upserted p m = λ i. record {
  payments =
      fun_ext {f = λ id. as_payment id ((upserted p m).payments id)}
        {g = put (contents m).payments (stored memory p)} (at p m) i;
  webhook_events = m.webhook_events;
  anomalies = m.anomalies;
}
  where
    at :
        (p : Payment) (m : Memory) (id : String)
        → as_payment id ((upserted p m).payments id)
          ≡ put (contents m).payments (stored memory p) id
    at p m id = ground (arith, eq_iff p.payment_id id)

as_payment_stored :
    (id : String) (o : Option (String × ℕ)) (p : Payment)
    → as_payment id o ≡ some p
    → (p.payment_id ≡ id) × (to_micros p.status_timestamp ≡ p.status_timestamp)
as_payment_stored id none p h = cc
as_payment_stored id (some (status, t)) p h = ground arith

select-ok :
    (f : Fault) (id : String) (m : Memory) (p : Payment)
    → select f id m ≡ ok p
    → as_payment id (m.payments id) ≡ some p
select-ok fine id m p h = ground arith
select-ok refused id m p h = cc
select-ok lost id m p h = cc

select-err :
    (f : Fault) (id : String) (m : Memory) (e : Error)
    → select f id m ≡ err e
    → (is e payment_not_found ≡ false)
      × (is_no_rows e ≡ true → as_payment id (m.payments id) ≡ none)
unfolding is is_no_rows
select-err fine id m e h = ground arith
select-err refused id m e h = ground arith
select-err lost id m e h = ground arith

upsert-ok :
    (f : Fault) (p : Payment) (m : Memory)
    → (upsert f p m).0 ≡ ok tt
    → contents (upsert f p m).1 ≡ with_payment memory p (contents m)
upsert-ok fine p m h = contents-upserted p m
upsert-ok refused p m h = cc
upsert-ok lost p m h = cc

upsert-err :
    (f : Fault) (p : Payment) (m : Memory) (e : Error)
    → (upsert f p m).0 ≡ err e
    → (contents (upsert f p m).1 ≡ contents m)
      ⊎ (contents (upsert f p m).1 ≡ with_payment memory p (contents m))
upsert-err fine p m e h = cc
upsert-err refused p m e h = inl refl
upsert-err lost p m e h = inr (contents-upserted p m)

insert-ok :
    (b : Bool) (f : Fault) (e : NewWebhookEvent) (m : Memory) (id : ℕ)
    → (insert b f e m).0 ≡ ok id
    → (b ≡ false) × (contents (insert b f e m).1 ≡ with_event memory id e (contents m))
insert-ok true f e m id h = cc
insert-ok false fine e m id h =
    let same : m.last_id + 1 ≡ id = cc in (refl, ap (λ n. with_event memory n e (contents m)) same)
insert-ok false refused e m id h = cc
insert-ok false lost e m id h = cc

insert_id :
    (b : Bool) (f : Fault) (e : NewWebhookEvent) (m : Memory) (id : ℕ)
    → (insert b f e m).0 ≡ ok id
    → 1 ≤ id
insert_id true f e m id h = cc
insert_id false fine e m id h = let same : m.last_id + 1 ≡ id = cc in omega (arith, same)
insert_id false refused e m id h = cc
insert_id false lost e m id h = cc

insert-err :
    (b : Bool) (f : Fault) (e : NewWebhookEvent) (m : Memory) (x : Error)
    → (insert b f e m).0 ≡ err x
    → (contents (insert b f e m).1 ≡ contents m)
      ⊎ ((id : ℕ) × (b ≡ false)
          × (contents (insert b f e m).1 ≡ with_event memory id e (contents m)))
insert-err true f e m x h = inl refl
insert-err false fine e m x h = cc
insert-err false refused e m x h = inl refl
insert-err false lost e m x h = inr (m.last_id + 1, refl, refl)

insert_unique :
    (b : Bool) (f : Fault) (e : NewWebhookEvent) (m : Memory) (x : Error)
    → (insert b f e m).0 ≡ err x
    → as_pg_error x ≡ some ("23505", "webhook_events_provider_event_id_key")
    → (b ≡ true) × (contents (insert b f e m).1 ≡ contents m)
unfolding as_pg_error
insert_unique true f e m x h u = (refl, refl)
insert_unique false fine e m x h u = cc
insert_unique false refused e m x h u = ground arith
insert_unique false lost e m x h u = ground arith

insert-foreign :
    (b : Bool) (f : Fault) (e : NewWebhookEvent) (m : Memory) (x : Error)
    → (insert b f e m).0 ≡ err x
    → is x duplicate_provider_event_id ≡ false
unfolding is
insert-foreign true f e m x h = ground arith
insert-foreign false fine e m x h = cc
insert-foreign false refused e m x h = ground arith
insert-foreign false lost e m x h = ground arith

add_anomaly-ok :
    (f : Fault) (a : AnomalyRow) (m : Memory)
    → (add_anomaly f a m).0 ≡ ok tt
    → contents (add_anomaly f a m).1 ≡ with_anomaly memory a (contents m)
add_anomaly-ok fine a m h = refl
add_anomaly-ok refused a m h = cc
add_anomaly-ok lost a m h = cc

add_anomaly-err :
    (f : Fault) (a : AnomalyRow) (m : Memory) (e : Error)
    → (add_anomaly f a m).0 ≡ err e
    → (contents (add_anomaly f a m).1 ≡ contents m)
      ⊎ (contents (add_anomaly f a m).1 ≡ with_anomaly memory a (contents m))
add_anomaly-err fine a m e h = cc
add_anomaly-err refused a m e h = inl refl
add_anomaly-err lost a m e h = inr refl

pub memory-IsPostgres : IsPostgres memory
memory-IsPostgres = record {
  stored_time_mono = λ a b h. omega arith;
  payments_stored = λ s id p h. as_payment_stored id (s.payments id) p h;
  select_keeps = λ id s. refl;
  select_ok = λ id s p h. select-ok (next_fault s.faults) id s p h;
  select_no_rows = λ id s e h absent. (select-err (next_fault s.faults) id s e h).1 absent;
  select_foreign = λ id s e h. (select-err (next_fault s.faults) id s e h).0;
  upsert_ok = λ p s h. upsert-ok (next_fault s.faults) p (step s) h;
  upsert_err = λ p s e h. upsert-err (next_fault s.faults) p (step s) e h;
  insert_event_ok = λ e s id h. insert-ok _ (next_fault s.faults) e (step s) id h;
  insert_event_id = λ e s id h. insert_id _ (next_fault s.faults) e (step s) id h;
  insert_event_err = λ e s x h. insert-err _ (next_fault s.faults) e (step s) x h;
  insert_event_unique = λ e s x h u. insert_unique _ (next_fault s.faults) e (step s) x h u;
  insert_event_foreign = λ e s x h. insert-foreign _ (next_fault s.faults) e (step s) x h;
  insert_anomaly_ok = λ a s h. add_anomaly-ok (next_fault s.faults) a (step s) h;
  insert_anomaly_err = λ a s e h. add_anomaly-err (next_fault s.faults) a (step s) e h;
}
