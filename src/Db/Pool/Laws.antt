-- ===== src/Db/Pool/Laws.antt =====
-- The limits of an opened database, and that none is left open on an error.
use payment_webhook_processo.Prelude.{
  ℕ, zero, suc, ◌+◌, String, Bool, true, Option, some, ◌≡◌, ◌≢◌, refl, ap, ◌∙◌, inl, inr,
  Bool-cases, ◌&&◌, ltb, ◌==◌, if◌then◌else◌, arith, eq_iff,
}
use payment_webhook_processo.Failure.{
  missing_database_url, Error, sentinel, wrap, Result, ok, err, Result-cases,
}
use payment_webhook_processo.Text.{trim_space}
use payment_webhook_processo.Text.Numbers.{pos}
use payment_webhook_processo.Db.Pool.{
  PoolConfig, Pool, fresh_pool, max_idle_conns_locked, idle_conns, to_count, set_max_idle_conns,
  set_max_open_conns, set_conn_max_lifetime, configure, open_database,
}

-- The idle connections that fit under a limit of open ones, where 0 is no limit.
abbrev pub fitting : (open_conns idle_conns : ℕ) → ℕ
fitting open_conns idle_conns =
    if ltb 0 open_conns && ltb open_conns idle_conns then open_conns else idle_conns

pub record HasLimits (open_conns idle_conns lifetime : ℕ) (db : Pool) : Type 0 where
  pub open_ok : db.max_open ≡ open_conns
  pub idle_ok : max_idle_conns_locked db ≡ fitting open_conns idle_conns
  pub lifetime_ok : db.max_lifetime ≡ lifetime

idle_conns-to_count : (i : ℕ) → idle_conns (to_count (pos i)) ≡ i
idle_conns-to_count zero = refl
idle_conns-to_count (suc i) = refl

idle_conns-limit : (o : ℕ) (b : Bool) → (ltb 0 o && b) ≡ true → idle_conns (pos o) ≡ o
idle_conns-limit zero b h = cc
idle_conns-limit (suc o) b h = refl

-- Setting the limit of idle connections leaves the limit of open ones, and keeps to it.
set_max_idle_conns-lem :
    (i : ℕ) (db : Pool)
    → ((set_max_idle_conns (pos i) db).max_open ≡ db.max_open)
      × (max_idle_conns_locked (set_max_idle_conns (pos i) db) ≡ fitting db.max_open i)
unfolding set_max_idle_conns
set_max_idle_conns-lem i db =
    rw (idle_conns-to_count i) (elim (Bool-cases (ltb 0 db.max_open && ltb db.max_open i)) [
      | inl many ↦ rw many (refl, idle_conns-limit _ _ many)
      | inr fits ↦ rw fits (refl, idle_conns-to_count i)
    ])

set_max_open_conns-lem : (o : ℕ) → (set_max_open_conns (pos o) fresh_pool).max_open ≡ o
unfolding set_max_open_conns
set_max_open_conns-lem o = elim (Bool-cases (ltb 0 o && ltb o 2)) [
  | inl many ↦ rw many (set_max_idle_conns-lem o (record fresh_pool { max_open = o })).0
  | inr fits ↦ rw fits refl
]

pub configure-HasLimits :
    (o i l : ℕ)
    → HasLimits o i l (
        configure
          (record { max_open_conns = pos o; max_idle_conns = pos i; conn_max_lifetime = pos l })
          fresh_pool)
unfolding set_conn_max_lifetime
configure-HasLimits o i l =
    let db = set_max_open_conns (pos o) fresh_pool in
    let opened = set_max_open_conns-lem o in
    let (same, fits) = set_max_idle_conns-lem i db in
    record {
      open_ok = same ∙ opened;
      idle_ok = fits ∙ ap (λ (x : ℕ). fitting x i) opened;
      lifetime_ok = refl;
    }

module _ (sql_open : String → Result (Unit {0})) (ping : Result (Unit {0})) where
  -- The ways in which `Open` ends.
  pub data Opened (url : String) (o i l handles : ℕ) (result : Result (Option Pool)) (after : ℕ)
      : Type 0 where
    blank :
        trim_space url ≡ ""
        → result ≡ err (sentinel missing_database_url)
        → after ≡ handles
        → Opened url o i l handles result after
    refused :
        (e : Error)
        → trim_space url ≢ ""
        → sql_open url ≡ err e
        → result ≡ err (wrap "open database" e)
        → after ≡ handles
        → Opened url o i l handles result after
    silent :
        (e : Error)
        → trim_space url ≢ ""
        → sql_open url ≡ ok tt
        → ping ≡ err e
        → result ≡ err (wrap "ping database" e)
        → after ≡ handles
        → Opened url o i l handles result after
    opened :
        (db : Pool)
        → trim_space url ≢ ""
        → sql_open url ≡ ok tt
        → ping ≡ ok tt
        → result ≡ ok (some db)
        → HasLimits o i l db
        → after ≡ handles + 1
        → Opened url o i l handles result after

  -- With limits that are not negative, `Open` ends with an error and no database more than before,
  -- for a blank URL, one that sql.Open refuses, or a ping that fails; otherwise with one database
  -- more, whose limits are the ones given, the idle connections cut to the open ones if those are
  -- limited.
  pub open_database-Opened :
      (url : String) (o i l handles : ℕ)
      → let config : PoolConfig = record {
        max_open_conns = pos o;
        max_idle_conns = pos i;
        conn_max_lifetime = pos l;
      } in
        Opened url o i l handles
          (open_database sql_open ping url config handles).0
          (open_database sql_open ping url config handles).1
  unfolding open_database
  open_database-Opened url o i l handles = elim (Bool-cases (trim_space url == "")) [
    | inl empty ↦ rw empty (blank ((eq_iff _ _).0 empty) refl refl)
    | inr set ↦
        let given : trim_space url ≢ "" = ground (arith, eq_iff (trim_space url) "") in
        rw set (
          Result-cases (sql_open url)
            (λ u good. rw good (
              Result-cases ping
                (λ u answered.
                  rw answered (opened _ given good refl refl (configure-HasLimits o i l) refl))
                λ e lost. rw lost (silent e given good refl refl (omega arith))))
            λ e bad. rw bad (refused e given bad refl refl))
  ]
