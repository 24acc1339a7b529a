-- ===== src/Db/Migrations/Rerun.antt =====
-- A second run of the migrations.
use payment_webhook_processo.Prelude.{
  String, Bool, true, false, none, List, [], ◌∷◌, ◌++◌, ◌≡◌, refl, sym, ◌∙◌, inl, inr, Bool-cases,
  All, ◌==◌, eq_refl,
}
use mathlib.Core.List.{append-nil}
use payment_webhook_processo.Failure.{Result, ok, err}
use payment_webhook_processo.Db.Schema.{Contents, has_version, Database, IsDatabase}
use payment_webhook_processo.Db.Migrations.{Migration, migrations, run_migrations}
use payment_webhook_processo.Db.Migrations.Laws.{unless_recorded, migrated, Ran, run_migrations-Ran}

abbrev IsRecorded : Contents → Migration → Type 0
IsRecorded c m = has_version m.version c.versions ≡ true

has_version-append :
    (v : String) (vs ws : List String) → has_version v vs ≡ true → has_version v (vs ++ ws) ≡ true
has_version-append v [] ws h = cc
has_version-append v (x ∷ vs) ws h = elim (Bool-cases (x == v)) [
  | inl same ↦ rw same refl
  | inr other ↦ rw other (has_version-append v vs ws (rw other at h))
]

has_version-last : (v : String) (vs : List String) → has_version v (vs ++ v ∷ []) ≡ true
has_version-last v [] = rw (eq_refl v) refl
has_version-last v (x ∷ vs) = elim (Bool-cases (x == v)) [
  | inl same ↦ rw same refl
  | inr other ↦ rw other (has_version-last v vs)
]

-- One migration keeps the versions recorded, and records its own.
unless_recorded-IsRecorded :
    (m n : Migration) (c : Contents) (b : Bool)
    → IsRecorded c n
    → IsRecorded (unless_recorded b m c) n
unless_recorded-IsRecorded m n c true h = h
unless_recorded-IsRecorded m n c false h = has_version-append n.version c.versions _ h

visited-IsRecorded :
    (m : Migration) (c : Contents) (b : Bool)
    → has_version m.version c.versions ≡ b
    → IsRecorded (unless_recorded b m c) m
visited-IsRecorded m c true h = h
visited-IsRecorded m c false h = has_version-last m.version c.versions

migrated-IsRecorded :
    (ms : List Migration) (n : Migration) (c : Contents)
    → IsRecorded c n
    → IsRecorded (migrated ms c) n
migrated-IsRecorded [] n c h = h
migrated-IsRecorded (m ∷ ms) n c h =
    migrated-IsRecorded ms n _ (unless_recorded-IsRecorded m n c _ h)

migrated-All : (ms : List Migration) (c : Contents) → All (IsRecorded (migrated ms c)) ms
migrated-All [] c = tt
migrated-All (m ∷ ms) c =
    (migrated-IsRecorded ms m _ (visited-IsRecorded m c _ refl), migrated-All ms _)

-- Nothing is done where the versions of the first migrations are recorded.
migrated-recorded :
    (ns rest ms : List Migration) (c : Contents)
    → ms ≡ ns ++ rest
    → All (IsRecorded c) ms
    → migrated ns c ≡ c
migrated-recorded [] rest ms c split all = refl
migrated-recorded (n ∷ ns) rest ms c split all =
    let (first, others) : All (IsRecorded c) (n ∷ ns ++ rest) = rw split at all in
    rw first (migrated-recorded ns rest _ c refl others)

-- A run from contents that every migration is recorded in leaves them as they are.
Ran-recorded :
    (ms : List Migration) (c after : Contents) (r : Result (Unit {0}))
    → All (IsRecorded c) ms
    → Ran ms c r after
    → after ≡ c
Ran-recorded ms c after (ok _) all h = h ∙ migrated-recorded ms [] ms c (sym (append-nil ms)) all
Ran-recorded ms c after (err e) all (done, rest, split, h) =
    h ∙ migrated-recorded done rest ms c split all

module _ (db : Database) (laws : IsDatabase db) where
  open db use {State, contents, pending}

  -- If a run of the migrations succeeded, from a database with no transaction open, then another
  -- run, whether it succeeds or fails, leaves the contents as they are.
  pub run_migrations_again :
      (s : State)
      → pending s ≡ none
      → (run_migrations db s).0 ≡ ok tt
      → contents (run_migrations db (run_migrations db s).1).1 ≡ contents (run_migrations db s).1
  run_migrations_again s closed good =
      let (ran, ended) = run_migrations-Ran db laws s closed in
      let done : contents (run_migrations db s).1 ≡ migrated migrations (contents s) =
        rw good at ran in
      Ran-recorded migrations _ _ _ (rw done (migrated-All migrations (contents s)))
        (run_migrations-Ran db laws _ ended).0
