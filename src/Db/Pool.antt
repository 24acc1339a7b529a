-- ===== src/Db/Pool.antt =====
-- internal/db/db.go: `Open` and `ApplyPoolConfig`, with what they use of Go's `database/sql`: the
-- limits that a `*sql.DB` keeps, and how its setters correct them. `sql_open` says whether sql.Open
-- takes the URL, `ping` whether the database answers within the context's time.
pub mod Laws
use payment_webhook_processo.Prelude.{
  ℕ, zero, suc, ◌+◌, ◌-◌, String, Bool, true, false, Option, none, some, not, ◌&&◌, ltb, ◌==◌,
  if◌then◌else◌,
}
use payment_webhook_processo.Failure.{
  Sentinel, missing_database_url, Error, sentinel, wrap, Result, ok, err,
}
use payment_webhook_processo.Text.{trim_space}
use payment_webhook_processo.Text.Numbers.{ℤ, pos, negsuc, is_negative}

pub record PoolConfig : Type 0 where
  pub max_open_conns : ℤ
  pub max_idle_conns : ℤ
  pub conn_max_lifetime : ℤ

-- The fields of a `*sql.DB` that the setters write; 0 open connections are no limit, 0 idle ones
-- are the default of two, and a negative number of idle ones is none.
pub record Pool : Type 0 where
  pub max_open : ℕ
  pub max_idle_count : ℤ
  pub max_lifetime : ℕ

abbrev pub fresh_pool : Pool
fresh_pool = record { max_open = 0; max_idle_count = pos 0; max_lifetime = 0 }

abbrev pub idle_conns : ℤ → ℕ
idle_conns (pos zero) = 2
idle_conns (pos (suc n)) = suc n
idle_conns (negsuc n) = 0

-- `maxIdleConnsLocked`.
abbrev pub max_idle_conns_locked : Pool → ℕ
max_idle_conns_locked db = idle_conns db.max_idle_count

abbrev pub to_count : ℤ → ℤ
to_count (pos zero) = negsuc 0
to_count (pos (suc n)) = pos (suc n)
to_count (negsuc n) = negsuc 0

abbrev at_least_zero : ℤ → ℕ
at_least_zero (pos n) = n
at_least_zero (negsuc n) = 0

abbrev too_many_idle : Pool → Bool
too_many_idle db = ltb 0 db.max_open && ltb db.max_open (max_idle_conns_locked db)

abbrev cut_idle : Pool → Pool
cut_idle db = if too_many_idle db then record db { max_idle_count = pos db.max_open } else db

unfoldable pub set_max_idle_conns : ℤ → Pool → Pool
set_max_idle_conns n db = cut_idle (record db { max_idle_count = to_count n })

unfoldable pub set_max_open_conns : ℤ → Pool → Pool
unfolding set_max_idle_conns
set_max_open_conns n db =
    let opened = record db { max_open = at_least_zero n } in
    if too_many_idle opened then set_max_idle_conns n opened else opened

unfoldable pub set_conn_max_lifetime : ℤ → Pool → Pool
set_conn_max_lifetime d db = record db { max_lifetime = at_least_zero d }

abbrev unless_negative : ℤ → (ℤ → Pool → Pool) → Pool → Pool
unless_negative n set db = if not (is_negative n) then set n db else db

abbrev pub configure : PoolConfig → Pool → Pool
configure pool_config db = unless_negative pool_config.conn_max_lifetime set_conn_max_lifetime (
    unless_negative pool_config.max_idle_conns set_max_idle_conns
      (unless_negative pool_config.max_open_conns set_max_open_conns db))

-- A nil `*sql.DB` is left as it is.
abbrev pub apply_pool_config : Option Pool → PoolConfig → Option Pool
apply_pool_config none pool_config = none
apply_pool_config (some db) pool_config = some (configure pool_config db)

-- What `Open` returns, with the number of databases that are open and not closed.
abbrev Opening : Type 0
Opening = Result (Option Pool) × ℕ

-- `db.Close` takes one away.
abbrev pinged : Result (Unit {0}) → Option Pool → ℕ → Opening
pinged (ok _) db handles = (ok db, handles)
pinged (err e) db handles = (err (wrap "ping database" e), handles - 1)

module _ (sql_open : String → Result (Unit {0})) (ping : Result (Unit {0})) where
  abbrev opened : Result (Unit {0}) → PoolConfig → ℕ → Opening
  opened (err e) pool_config handles = (err (wrap "open database" e), handles)
  opened (ok _) pool_config handles =
      pinged ping (apply_pool_config (some fresh_pool) pool_config) (handles + 1)

  unfoldable pub open_database : String → PoolConfig → ℕ → Opening
  open_database database_url pool_config handles =
      if trim_space database_url == ""
      then (err (sentinel missing_database_url), handles)
      else opened (sql_open database_url) pool_config handles
