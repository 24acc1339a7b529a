-- ===== src/Wiring/Startup.antt =====
-- cmd/server/main.go: `main` up to the server's start. The three failures end the process.
use Prim.Native.String.{◌++◌}
use payment_webhook_processo.Prelude.{ℕ, String, false, Option, none, some, ◌≡◌, ◌≢◌, refl, ◌∙◌}
use payment_webhook_processo.Failure.{Error, Result, ok, err, ok-injective}
use payment_webhook_processo.Text.Numbers.{ℤ, pos, negsuc, is_negative}
use payment_webhook_processo.Config.{Config, load}
use payment_webhook_processo.Config.Laws.{load_not_negative}
use payment_webhook_processo.Text.{trim_space}
use payment_webhook_processo.Db.Schema.{Contents, Database, IsDatabase}
use payment_webhook_processo.Db.Pool.{PoolConfig, Pool, open_database}
use payment_webhook_processo.Db.Pool.Laws.{
  HasLimits, Opened, blank, refused, silent, opened, open_database-Opened,
}
use payment_webhook_processo.Db.Migrations.{migrations, run_migrations}
use payment_webhook_processo.Db.Migrations.Laws.{migrated, Ran, run_migrations-Ran}

abbrev pub pool_config : Config → PoolConfig
pool_config cfg = record {
  max_open_conns = cfg.db_max_open_conns;
  max_idle_conns = cfg.db_max_idle_conns;
  conn_max_lifetime = cfg.db_conn_max_lifetime;
}

-- A process that logged a message and exited with 1, or one that serves at an address over a pool.
pub data Startup : Type 0 where
  exited : (message : String) (error : Error) → Startup
  serving : (addr : String) (database : Option Pool) → Startup

-- `register` is RegisterDatabaseStatsCollector of the process's metrics.
module _ (getenv : String → String) (parse_duration : String → Result ℤ)
    (sql_open : String → Result (Unit {0})) (ping : Result (Unit {0}))
    (register : Option Pool → Result (Unit {0})) (db : Database) where
  abbrev cfg : Config
  cfg = load getenv parse_duration

  abbrev after_migrations : Option Pool → Result (Unit {0}) → Startup
  after_migrations database (ok _) = serving (":" ++ cfg.port) database
  after_migrations database (err e) = exited "database migration failed" e

  abbrev migrate : Option Pool → db.State → Startup × db.State
  migrate database s =
      let (result, s1) = run_migrations db s in (after_migrations database result, s1)

  abbrev after_register : Option Pool → Result (Unit {0}) → db.State → Startup × db.State
  after_register database (ok _) s = migrate database s
  after_register database (err e) s = (exited "database metrics registration failed" e, s)

  abbrev after_open : Result (Option Pool) → db.State → Startup × db.State
  after_open (ok database) s = after_register database (register database) s
  after_open (err e) s = (exited "database initialization failed" e, s)

  unfoldable pub start : db.State → Startup × db.State
  start s = after_open (open_database sql_open ping cfg.database_url (pool_config cfg) 0).0 s

to_pos : (z : ℤ) → is_negative z ≡ false → (n : ℕ) × (z ≡ pos n)
to_pos (pos n) h = (n, refl)
to_pos (negsuc n) h = cc

module _ (getenv : String → String) (parse_duration : String → Result ℤ)
    (sql_open : String → Result (Unit {0})) (ping : Result (Unit {0}))
    (register : Option Pool → Result (Unit {0})) (db : Database) (laws : IsDatabase db) where
  open db use {State, contents, pending}

  abbrev conf : Config
  conf = load getenv parse_duration

  abbrev begin_at : State → Startup × State
  begin_at = start getenv parse_duration sql_open ping register db

  -- What holds of a process that serves, which began on the state `s` and left `t`.
  pub record IsReady (s t : State) (addr : String) (database : Option Pool) : Type 0 where
    pub open_conns : ℕ
    pub idle_conns : ℕ
    pub lifetime : ℕ
    pub pool : Pool
    pub open_conns_loaded : conf.db_max_open_conns ≡ pos open_conns
    pub idle_conns_loaded : conf.db_max_idle_conns ≡ pos idle_conns
    pub lifetime_loaded : conf.db_conn_max_lifetime ≡ pos lifetime
    pub is_pool : database ≡ some pool
    pub has_limits : HasLimits open_conns idle_conns lifetime pool
    pub url_given : trim_space conf.database_url ≢ ""
    pub at_port : addr ≡ ":" ++ conf.port
    pub is_migrated : contents t ≡ migrated migrations (contents s)

  after_migrations-ok :
      (database : Option Pool) (r : Result (Unit {0})) (before after : Contents) {addr : String}
      {shown : Option Pool}
      → Ran migrations before r after
      → after_migrations getenv parse_duration sql_open ping register db database r
        ≡ serving addr shown
      → (after ≡ migrated migrations before) × (addr ≡ ":" ++ conf.port) × (shown ≡ database)
  after_migrations-ok database (ok _) before after ran h = (ran, cc, cc)
  after_migrations-ok database (err e) before after ran h = cc

  after_register-IsReady :
      (o i l : ℕ) (p : Pool) (database : Option Pool) (r : Result (Unit {0})) (s : State)
      (addr : String) (shown : Option Pool)
      → conf.db_max_open_conns ≡ pos o
      → conf.db_max_idle_conns ≡ pos i
      → conf.db_conn_max_lifetime ≡ pos l
      → pending s ≡ none
      → trim_space conf.database_url ≢ ""
      → database ≡ some p
      → HasLimits o i l p
      → (after_register getenv parse_duration sql_open ping register db database r s).0
        ≡ serving addr shown
      → IsReady s
          (after_register getenv parse_duration sql_open ping register db database r s).1
          addr
          shown
  after_register-IsReady o i l p database (err e) s addr shown ho hi hl closed url is_p limits h =
      cc
  after_register-IsReady o i l p database (ok _) s addr shown ho hi hl closed url is_p limits h =
      let (done, at_addr, same) =
        after_migrations-ok database _ _ _ (run_migrations-Ran db laws s closed).0 h in
      record {
        open_conns = o;
        idle_conns = i;
        lifetime = l;
        pool = p;
        open_conns_loaded = ho;
        idle_conns_loaded = hi;
        lifetime_loaded = hl;
        is_pool = same ∙ is_p;
        has_limits = limits;
        url_given = url;
        at_port = at_addr;
        is_migrated = done;
      }

  after_open-IsReady :
      (o i l : ℕ) (r : Result (Option Pool)) (handles : ℕ) (s : State) (addr : String)
      (shown : Option Pool)
      → conf.db_max_open_conns ≡ pos o
      → conf.db_max_idle_conns ≡ pos i
      → conf.db_conn_max_lifetime ≡ pos l
      → pending s ≡ none
      → Opened sql_open ping conf.database_url o i l 0 r handles
      → (after_open getenv parse_duration sql_open ping register db r s).0 ≡ serving addr shown
      → IsReady s (after_open getenv parse_duration sql_open ping register db r s).1 addr shown
  after_open-IsReady o i l (err e) handles s addr shown ho hi hl closed end h = cc
  after_open-IsReady o i l (ok database) handles s addr shown ho hi hl closed end h = elim end [
    | blank _ bad _ ↦ cc
    | refused e _ _ bad _ ↦ cc
    | silent e _ _ _ bad _ ↦ cc
    | opened p url _ _ good limits _ ↦
        after_register-IsReady o i l p database (register database) s addr shown ho hi hl closed url
          (ok-injective good) limits h
  ]

  -- A process that serves has a pool with the limits that its configuration gives, none of them
  -- negative, to a database whose URL is not blank; it listens on the configured port; and the
  -- migrations are carried out and recorded, if no transaction was open when it began.
  pub start_serving :
      (s : State) (addr : String) (shown : Option Pool)
      → pending s ≡ none
      → (begin_at s).0 ≡ serving addr shown
      → IsReady s (begin_at s).1 addr shown
  unfolding start
  start_serving s addr shown closed h =
      let (open_ok, idle_ok, lifetime_ok) = load_not_negative getenv parse_duration in
      let (o, ho) = to_pos _ open_ok in
      let (i, hi) = to_pos _ idle_ok in
      let (l, hl) = to_pos _ lifetime_ok in
      let same : record {
        max_open_conns = pos o;
        max_idle_conns = pos i;
        conn_max_lifetime = pos l;
      }
          ≡ pool_config conf =
        cc in
      let end = open_database-Opened sql_open ping conf.database_url o i l 0 in
      after_open-IsReady o i l _ _ s addr shown ho hi hl closed (rw same at end) h
