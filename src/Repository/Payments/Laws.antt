-- ===== src/Repository/Payments/Laws.antt =====
-- The payments repository keeps payments as the services suppose.
use payment_webhook_processo.Prelude.{
  ◌≡◌, refl, ap, inl, inr, true, false, Bool-cases, Option, arith,
}
use payment_webhook_processo.Failure.{
  Error, payment_not_found, is, is_no_rows, Result, ok, err, err-injective,
}
use payment_webhook_processo.Metrics.{Metrics}
use payment_webhook_processo.Repository.Rows.{Payment}
use payment_webhook_processo.Repository.Postgres.{Postgres, IsPostgres, Tables}
use payment_webhook_processo.Repository.Payments.{
  found_payment, get_by_payment_id, upsert, wrapped-eq-ok, wrapped-eq-err,
}
use payment_webhook_processo.Service.Interfaces.{KeepsPayments}

found_payment-eq-ok : (r : Result Payment) (p : Payment) → found_payment r ≡ ok p → r ≡ ok p
found_payment-eq-ok (ok q) p h = h
found_payment-eq-ok (err e) p h = ground arith

-- "Not found" comes from an empty result, if the driver's errors are not the program's.
found_payment-not_found :
    (r : Result Payment) (e : Error)
    → ((x : Error) → r ≡ err x → is x payment_not_found ≡ false)
    → found_payment r ≡ err e
    → is e payment_not_found ≡ true
    → (x : Error) × (r ≡ err x) × (is_no_rows x ≡ true)
unfolding is
found_payment-not_found (ok q) e foreign h missing = cc
found_payment-not_found (err x) e foreign h missing = elim (Bool-cases (is_no_rows x)) [
  | inl absent ↦ (x, refl, absent)
  | inr other ↦
      let wrapped = err-injective (rw other at h) in
      absurd (cc (foreign x refl, ap (λ (y : Error). is y payment_not_found) wrapped))
]

module _ (pg : Postgres) (laws : IsPostgres pg) (metrics : Option Metrics) where
  -- The payments repository over PostgreSQL fills the contract that the payment processor supposes: a
  -- found row is the table's, "not found" is reported only where there is none, and an upsert writes
  -- its row at its id.
  pub payment_repository-KeepsPayments :
      KeepsPayments
        (record { get_by_payment_id = get_by_payment_id pg metrics; upsert = upsert pg metrics })
        (λ s. (pg.contents s).payments)
        pg.stored_time
  unfolding get_by_payment_id upsert
  payment_repository-KeepsPayments = record {
    stored_time_mono = laws.stored_time_mono;
    rows_stored = laws.payments_stored;
    get_keeps = λ id w. ap (λ (t : Tables). t.payments) (laws.select_keeps id w.database);
    get_ok = λ id w p h. laws.select_ok id w.database p (found_payment-eq-ok _ p h);
    get_not_found = λ id w e h missing.
        let (x, failed, absent) =
          found_payment-not_found _ e (laws.select_foreign id w.database) h missing in
        laws.select_no_rows id w.database x failed absent;
    upsert_ok = λ p w h.
        ap (λ (t : Tables). t.payments) (laws.upsert_ok p w.database (wrapped-eq-ok _ _ h));
    upsert_err = λ p w e h.
        let (x, failed) = wrapped-eq-err _ _ h in
        elim (laws.upsert_err p w.database x failed) [
          | inl same ↦ inl (ap (λ (t : Tables). t.payments) same)
          | inr put ↦ inr (ap (λ (t : Tables). t.payments) put)
        ];
  }
