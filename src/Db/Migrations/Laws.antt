-- ===== src/Db/Migrations/Laws.antt =====
-- What a run of the migrations leaves in the database.
use payment_webhook_processo.Prelude.{
  String, Bool, true, false, none, some, List, [], ◌∷◌, ◌++◌, ◌≡◌, refl, sym, ap, ◌∙◌, ◌⊎◌, inl,
  inr, if◌then◌else◌,
}
use payment_webhook_processo.Failure.{Error, wrap, Result, ok, err}
use payment_webhook_processo.Db.Schema.{
  Contents, has_version, executed, recorded, Database, IsDatabase,
}
use payment_webhook_processo.Db.Migrations.{
  Migration, migrations, next, proceed, rolled_back, in_transaction, apply_migration,
  checked_version, migration_applied, visit, run_all, run_migrations,
}

-- A migration carried out and recorded.
abbrev pub with_migration : Migration → Contents → Contents
with_migration m c = recorded m.version (executed m.sql c)

abbrev pub unless_recorded : Bool → Migration → Contents → Contents
unless_recorded b m c = if b then c else with_migration m c

-- The contents that the migrations are meant to lead to: each is carried out and recorded, once.
abbrev pub migrated : List Migration → Contents → Contents
migrated [] c = c
migrated (m ∷ ms) c = migrated ms (unless_recorded (has_version m.version c.versions) m c)

-- A transaction's result, and the contents before and after it.
abbrev pub Applied : Migration → Contents → Result (Unit {0}) → Contents → Type 0
Applied m c (ok _) after = after ≡ with_migration m c
Applied m c (err e) after = (after ≡ c) ⊎ (after ≡ with_migration m c)

-- A run's result, and the contents before and after it.
abbrev pub Ran : List Migration → Contents → Result (Unit {0}) → Contents → Type 0
Ran ms c (ok _) after = after ≡ migrated ms c
Ran ms c (err e) after =
    (done : List Migration) × (rest : List Migration) × (ms ≡ done ++ rest)
    × (after ≡ migrated done c)

Ran-cons :
    (m : Migration) (ms : List Migration) (c after : Contents) (r : Result (Unit {0}))
    → Ran ms (unless_recorded (has_version m.version c.versions) m c) r after
    → Ran (m ∷ ms) c r after
Ran-cons m ms c after (ok _) h = h
Ran-cons m ms c after (err e) (done, rest, split, h) =
    (m ∷ done, rest, ap (λ (l : List Migration). m ∷ l) split, h)

module _ (db : Database) (laws : IsDatabase db) where
  open db use {State, contents, pending}

  abbrev Both : (Result (Unit {0}) → State → Type 0) → Result (Unit {0}) × State → Type 0
  Both P outcome = P outcome.0 outcome.1

  next-P :
      (P : Result (Unit {0}) → State → Type 0) (text : String) (r : Result (Unit {0})) (s : State)
      (rest : State → Result (Unit {0}) × State)
      → (r ≡ ok tt → Both P (rest s))
      → ((e : Error) → r ≡ err e → P (err (wrap text e)) s)
      → Both P (next db text r s rest)
  next-P P text (ok _) s rest good bad = good refl
  next-P P text (err e) s rest good bad = bad e refl

  abbrev Worked : Migration → Contents → Result (Unit {0}) → State → Type 0
  Worked m c r s = Applied m c r (contents s) × (r ≡ ok tt → pending s ≡ none)

  abbrev Ended : Migration → Contents → Result (Unit {0}) → State → Type 0
  Ended m c r s = Applied m c r (contents s) × (pending s ≡ none)

  in_transaction-Worked :
      (m : Migration) (s : State) (c : Contents)
      → contents s ≡ c
      → pending s ≡ some c
      → Both (Worked m c) (in_transaction db m s)
  in_transaction-Worked m s c same open_tx =
      next-P (Worked m c) _ _ _ _
        (λ ran.
          let s1 = (db.exec_tx m.sql s).1 in
          let open1 = laws.exec_ok m.sql s c open_tx ran in
          let same1 = laws.exec_contents m.sql s ∙ same in
          next-P (Worked m c) _ _ _ _
            (λ added.
              let s2 = (db.insert_version m.version s1).1 in
              let open2 = laws.insert_ok m.version s1 _ open1 added in
              let same2 = laws.insert_contents m.version s1 ∙ same1 in
              next-P (Worked m c) _ _ _ _
                (λ kept. (laws.commit_ok s2 _ open2 kept, λ _. laws.commit_pending s2))
                λ e lost. (
                  elim (laws.commit_err s2 _ e open2 lost) [
                    | inl left ↦ inl (left ∙ same2)
                    | inr done ↦ inr done
                  ],
                  λ h. cc,
                ))
            λ e _. (inl (laws.insert_contents m.version s1 ∙ same1), λ h. cc))
        λ e _. (inl (laws.exec_contents m.sql s ∙ same), λ h. cc)

  rolled_back-Ended :
      (m : Migration) (c : Contents) (r : Result (Unit {0})) (s : State)
      → Worked m c r s
      → Both (Ended m c) (rolled_back db r s)
  rolled_back-Ended m c (ok _) s (h, closed) = (h, closed refl)
  rolled_back-Ended m c (err e) s (h, _) =
      (rw (laws.rollback_contents s) h, laws.rollback_pending s)

  apply_migration-Ended :
      (m : Migration) (s : State) (c : Contents)
      → contents s ≡ c
      → pending s ≡ none
      → Both (Ended m c) (apply_migration db m s)
  unfolding apply_migration
  apply_migration-Ended m s c same closed =
      next-P (Ended m c) _ _ _ _
        (λ begun. rolled_back-Ended m c _ _ (
          in_transaction-Worked m _ c (laws.begin_contents s ∙ same)
            (laws.begin_ok s begun ∙ ap some same)))
        λ e failed. (inl (laws.begin_contents s ∙ same), laws.begin_err s e failed ∙ closed)

  Ends : List Migration → Contents → Result (Unit {0}) → State → Type 0
  Ends ms c r s = Ran ms c r (contents s) × (pending s ≡ none)

  proceed-Ends :
      (m : Migration) (ms : List Migration) (c : Contents) (r : Result (Unit {0})) (s : State)
      (rest : State → Result (Unit {0}) × State)
      → has_version m.version c.versions ≡ false
      → Ended m c r s
      → ((t : State)
          → contents t ≡ with_migration m c
          → pending t ≡ none
          → Both (Ends ms (with_migration m c)) (rest t))
      → Both (Ends (m ∷ ms) c) (proceed db r s rest)
  unfolding Ends
  proceed-Ends m ms c (ok _) s rest new (h, closed) go =
      let (ran, ended) = go s h closed in (Ran-cons m ms c _ _ (rw new ran), ended)
  proceed-Ends m ms c (err e) s rest new (inl same, closed) go = (([], m ∷ ms, refl, same), closed)
  proceed-Ends m ms c (err e) s rest new (inr done, closed) go =
      ((m ∷ [], ms, refl, rw new done), closed)

  visit-Ends :
      (m : Migration) (ms : List Migration) (c : Contents) (r : Result Bool) (s : State)
      (rest : State → Result (Unit {0}) × State)
      → contents s ≡ c
      → pending s ≡ none
      → ((b : Bool) → r ≡ ok b → has_version m.version c.versions ≡ b)
      → ((d : Contents) (t : State) → contents t ≡ d → pending t ≡ none → Both (Ends ms d) (rest t))
      → Both (Ends (m ∷ ms) c) (visit db m (checked_version db m.version r) s rest)
  unfolding visit Ends
  visit-Ends m ms c (err e) s rest same closed known go = (([], m ∷ ms, refl, same), closed)
  visit-Ends m ms c (ok true) s rest same closed known go =
      let (ran, ended) = go c s same closed in
      (Ran-cons m ms c _ _ (rw (known true refl) ran), ended)
  visit-Ends m ms c (ok false) s rest same closed known go =
      proceed-Ends m ms c _ _ rest (known false refl) (apply_migration-Ended m s c same closed)
        (go (with_migration m c))

  run_all-Ends :
      (ms : List Migration) (c : Contents) (s : State)
      → contents s ≡ c
      → pending s ≡ none
      → Both (Ends ms c) (run_all db ms s)
  unfolding run_all migration_applied Ends
  run_all-Ends [] c s same closed = (same, closed)
  run_all-Ends (m ∷ ms) c s same closed =
      visit-Ends m ms c _ _ (run_all db ms) (laws.exists_contents m.version s ∙ same)
        (laws.exists_pending m.version s ∙ closed)
        (λ b h. rw (sym same) (laws.exists_ok m.version s b h)) (run_all-Ends ms)

  -- From a database with no transaction open, a run that succeeds leaves the contents with every
  -- migration carried out and recorded, those recorded before left out; one that fails leaves them
  -- so for the first migrations of the list, and no part of another. No transaction stays open.
  pub run_migrations-Ran :
      (s : State)
      → pending s ≡ none
      → Ran migrations (contents s) (run_migrations db s).0 (contents (run_migrations db s).1)
        × (pending (run_migrations db s).1 ≡ none)
  unfolding run_migrations Ends
  run_migrations-Ran s closed =
      next-P (Ends migrations (contents s)) "ensure schema migrations table" (db.ensure_table s).0 _
        (run_all db migrations)
        (λ _.
          run_all-Ends migrations (contents s) _ (laws.ensure_contents s)
            (laws.ensure_pending s ∙ closed))
        λ e _. (([], migrations, refl, laws.ensure_contents s), laws.ensure_pending s ∙ closed)
