-- ===== src/Tests/Migrating.antt =====
-- Runs of the migrations on the database in memory.
use payment_webhook_processo.Prelude.{none, List, [], ◌∷◌, ◌≡◌, refl}
use payment_webhook_processo.Failure.{ok}
use payment_webhook_processo.Repository.Memory.{Fault, fine, refused, lost}
use payment_webhook_processo.Db.Schema.{Contents}
use payment_webhook_processo.Db.Memory.{SchemaMemory, schema_memory, schema_memory-IsDatabase}
use payment_webhook_processo.Db.Migrations.{
  initial_migration_sql, migrations, apply_migration, migration_applied, visit, run_all,
  run_migrations,
}
use payment_webhook_processo.Db.Migrations.Laws.{Ran, run_migrations-Ran}
use payment_webhook_processo.Db.Migrations.Rerun.{run_migrations_again}

abbrev empty : Contents
empty = record { versions = []; statements = [] }

abbrev first_migrated : Contents
first_migrated = record { versions = "001_init" ∷ []; statements = initial_migration_sql ∷ [] }

abbrev database_with : List Fault → SchemaMemory
database_with faults = record { contents = empty; pending = none; faults = faults }

migrated_once : (run_migrations schema_memory (database_with [])).1.contents ≡ first_migrated
unfolding run_migrations run_all migrations visit apply_migration migration_applied
migrated_once = refl

-- The statement is refused: nothing of the migration stays, and nothing is left open.
refused_statement :
    (run_migrations schema_memory (database_with (fine ∷ fine ∷ fine ∷ refused ∷ []))).1
    ≡ database_with []
unfolding run_migrations run_all migrations visit apply_migration migration_applied
refused_statement = refl

-- The commit's answer is lost: the run fails, and the migration is recorded.
lost_commit :
    (run_migrations schema_memory
      (database_with (fine ∷ fine ∷ fine ∷ fine ∷ fine ∷ lost ∷ []))).1.contents
    ≡ first_migrated
unfolding run_migrations run_all migrations visit apply_migration migration_applied
lost_commit = refl

succeeds : (run_migrations schema_memory (database_with [])).0 ≡ ok tt
unfolding run_migrations run_all migrations visit apply_migration migration_applied
succeeds = refl

run_migrations-Ran_example :
    Ran migrations empty
      (run_migrations schema_memory (database_with [])).0
      (run_migrations schema_memory (database_with [])).1.contents
    × ((run_migrations schema_memory (database_with [])).1.pending ≡ none)
run_migrations-Ran_example =
    run_migrations-Ran schema_memory schema_memory-IsDatabase (database_with []) refl

run_migrations_again_example :
    (run_migrations schema_memory (run_migrations schema_memory (database_with [])).1).1.contents
    ≡ (run_migrations schema_memory (database_with [])).1.contents
run_migrations_again_example =
    run_migrations_again schema_memory schema_memory-IsDatabase (database_with []) refl succeeds
