-- ===== src/Db/Schema.antt =====
-- A database as internal/db/migrations.go uses it: one operation for each statement and each call
-- on a transaction, over a state that is not known. `contents` is what is committed, `pending` what
-- the open transaction would commit; the program has at most one, and no operation that reads
-- either. The laws are those of SQL transactions: a transaction's work is seen by nobody before it is
-- committed, an ended transaction is closed even if its end is reported to have failed, and a
-- commit whose answer was lost may have been carried out.
use payment_webhook_processo.Prelude.{
  String, Bool, false, Option, none, some, List, [], ◌∷◌, ◌++◌, ◌≡◌, ◌⊎◌, ◌||◌, ◌==◌,
}
use payment_webhook_processo.Failure.{Error, Result, ok, err}

-- The rows of `schema_migrations`, and the migrations carried out, in order.
pub record Contents : Type 0 where
  pub versions : List String
  pub statements : List String

abbrev pub has_version : String → List String → Bool
has_version version [] = false
has_version version (v ∷ vs) = v == version || has_version version vs

abbrev pub executed : String → Contents → Contents
executed sql c = record c { statements = c.statements ++ sql ∷ [] }

abbrev pub recorded : String → Contents → Contents
recorded version c = record c { versions = c.versions ++ version ∷ [] }

pub record Database : Type 1 where
  pub State : Type 0
  pub contents : State → Contents
  pub pending : State → Option Contents
  pub ensure_table : State → Result (Unit {0}) × State
  pub version_exists : String → State → Result Bool × State
  pub begin_tx : State → Result (Unit {0}) × State
  pub exec_tx : String → State → Result (Unit {0}) × State
  pub insert_version : String → State → Result (Unit {0}) × State
  pub commit : State → Result (Unit {0}) × State
  pub rollback : State → Result (Unit {0}) × State

module _ (db : Database) where
  open db use {State, contents, pending}

  pub record IsDatabase : Type 0 where
    pub ensure_contents : (s : State) → contents (db.ensure_table s).1 ≡ contents s
    pub ensure_pending : (s : State) → pending (db.ensure_table s).1 ≡ pending s
    pub exists_contents :
        (version : String) (s : State) → contents (db.version_exists version s).1 ≡ contents s
    pub exists_pending :
        (version : String) (s : State) → pending (db.version_exists version s).1 ≡ pending s
    pub exists_ok :
        (version : String) (s : State) (b : Bool)
        → (db.version_exists version s).0 ≡ ok b
        → has_version version (contents s).versions ≡ b
    pub begin_contents : (s : State) → contents (db.begin_tx s).1 ≡ contents s
    pub begin_ok :
        (s : State) → (db.begin_tx s).0 ≡ ok tt → pending (db.begin_tx s).1 ≡ some (contents s)
    pub begin_err :
        (s : State) (e : Error) → (db.begin_tx s).0 ≡ err e → pending (db.begin_tx s).1 ≡ pending s
    pub exec_contents : (sql : String) (s : State) → contents (db.exec_tx sql s).1 ≡ contents s
    pub exec_ok :
        (sql : String) (s : State) (c : Contents)
        → pending s ≡ some c
        → (db.exec_tx sql s).0 ≡ ok tt
        → pending (db.exec_tx sql s).1 ≡ some (executed sql c)
    pub insert_contents :
        (version : String) (s : State) → contents (db.insert_version version s).1 ≡ contents s
    pub insert_ok :
        (version : String) (s : State) (c : Contents)
        → pending s ≡ some c
        → (db.insert_version version s).0 ≡ ok tt
        → pending (db.insert_version version s).1 ≡ some (recorded version c)
    pub commit_pending : (s : State) → pending (db.commit s).1 ≡ none
    pub commit_ok :
        (s : State) (c : Contents)
        → pending s ≡ some c
        → (db.commit s).0 ≡ ok tt
        → contents (db.commit s).1 ≡ c
    pub commit_err :
        (s : State) (c : Contents) (e : Error)
        → pending s ≡ some c
        → (db.commit s).0 ≡ err e
        → (contents (db.commit s).1 ≡ contents s) ⊎ (contents (db.commit s).1 ≡ c)
    pub rollback_contents : (s : State) → contents (db.rollback s).1 ≡ contents s
    pub rollback_pending : (s : State) → pending (db.rollback s).1 ≡ none
