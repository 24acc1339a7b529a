-- ===== src/Db/Memory.antt =====
-- A database in memory that fills the laws of Db.Schema, to run the migrations on. A list of faults
-- says of each call whether it is carried out, refused, or carried out with its answer lost.
use payment_webhook_processo.Prelude.{Option, none, some, List, ◌≡◌, refl, ◌⊎◌, inl, inr}
use payment_webhook_processo.Failure.{Error, external, Result, ok, err}
use payment_webhook_processo.Repository.Memory.{Fault, fine, refused, lost, next_fault, later}
use payment_webhook_processo.Db.Schema.{
  Contents, has_version, executed, recorded, Database, IsDatabase,
}

pub record SchemaMemory : Type 0 where
  pub contents : Contents
  pub pending : Option Contents
  pub faults : List Fault

abbrev step : SchemaMemory → SchemaMemory
step m = record m { faults = later m.faults }

abbrev reply {ℓ} : {A : Type ℓ} → Fault → A → Result A
reply fine a = ok a
reply refused a = err (external "connection refused")
reply lost a = err (external "connection lost")

abbrev worked : Fault → (Contents → Contents) → Option Contents → Option Contents
worked fine f (some c) = some (f c)
worked fine f none = none
worked refused f p = p
worked lost f p = p

abbrev begun : Fault → Contents → Option Contents → Option Contents
begun fine c p = some c
begun refused c p = p
begun lost c p = p

abbrev kept : Fault → Option Contents → Contents → Contents
kept fine (some d) c = d
kept lost (some d) c = d
kept fine none c = c
kept lost none c = c
kept refused p c = c

abbrev in_open : (Contents → Contents) → SchemaMemory → Result (Unit {0}) × SchemaMemory
in_open f m = (
  reply (next_fault m.faults) tt,
  record (step m) { pending = worked (next_fault m.faults) f m.pending },
)

abbrev pub schema_memory : Database
schema_memory = record {
  State = SchemaMemory;
  contents = λ m. m.contents;
  pending = λ m. m.pending;
  ensure_table = λ m. (reply (next_fault m.faults) tt, step m);
  version_exists =
      λ version m. (reply (next_fault m.faults) (has_version version m.contents.versions), step m);
  begin_tx = λ m. (
    reply (next_fault m.faults) tt,
    record (step m) { pending = begun (next_fault m.faults) m.contents m.pending },
  );
  exec_tx = λ sql. in_open (executed sql);
  insert_version = λ version. in_open (recorded version);
  commit = λ m. (
    reply (next_fault m.faults) tt,
    record (step m) { contents = kept (next_fault m.faults) m.pending m.contents; pending = none },
  );
  rollback = λ m. (reply (next_fault m.faults) tt, record (step m) { pending = none });
}

reply-eq-ok {ℓ} : {A : Type ℓ} (f : Fault) {a b : A} → reply f a ≡ ok b → (f ≡ fine) × (a ≡ b)
reply-eq-ok fine h = (refl, cc)
reply-eq-ok refused h = cc
reply-eq-ok lost h = cc

kept_cases :
    (f : Fault) (p : Option Contents) (c d : Contents)
    → p ≡ some d
    → (kept f p c ≡ c) ⊎ (kept f p c ≡ d)
kept_cases fine p c d h = rw h (inr refl)
kept_cases refused p c d h = inl refl
kept_cases lost p c d h = rw h (inr refl)

worked-fine :
    (f : Fault) (g : Contents → Contents) (p : Option Contents) (c : Contents)
    → p ≡ some c
    → f ≡ fine
    → worked f g p ≡ some (g c)
worked-fine f g p c h good = rw (h, good) refl

begun-failed :
    (f : Fault) (c : Contents) (p : Option Contents) {e : Error}
    → reply {A = Unit {0}} f tt ≡ err e
    → begun f c p ≡ p
begun-failed fine c p h = cc
begun-failed refused c p h = refl
begun-failed lost c p h = refl

pub schema_memory-IsDatabase : IsDatabase schema_memory
schema_memory-IsDatabase = record {
  ensure_contents = λ s. refl;
  ensure_pending = λ s. refl;
  exists_contents = λ version s. refl;
  exists_pending = λ version s. refl;
  exists_ok = λ version s b h. (reply-eq-ok (next_fault s.faults) h).1;
  begin_contents = λ s. refl;
  begin_ok = λ s h. rw (reply-eq-ok (next_fault s.faults) h).0 refl;
  begin_err = λ s e h. begun-failed (next_fault s.faults) s.contents s.pending h;
  exec_contents = λ sql s. refl;
  exec_ok = λ sql s c h good.
      worked-fine _ (executed sql) s.pending c h (reply-eq-ok (next_fault s.faults) good).0;
  insert_contents = λ version s. refl;
  insert_ok = λ version s c h good.
      worked-fine _ (recorded version) s.pending c h (reply-eq-ok (next_fault s.faults) good).0;
  commit_pending = λ s. refl;
  commit_ok = λ s c h good. rw ((reply-eq-ok (next_fault s.faults) good).0, h) refl;
  commit_err = λ s c e h bad. kept_cases (next_fault s.faults) s.pending s.contents c h;
  rollback_contents = λ s. refl;
  rollback_pending = λ s. refl;
}
