-- ===== src/Programs/Pool.antt =====
-- NewPool of internal/storage/postgres/db.go, and the effects of a program that are in its order.
-- The library of the pool is a parameter: what each of its calls returns. Durations are in
-- nanoseconds.
use go_ledger.Base.{ℕ, ◌*◌, ℤ, String, Option, none, some, List, [], ◌∷◌, ◌++◌}
use go_ledger.Domain.Errors.{Error, wrap, Result, ok, err}
use go_ledger.Programs.Config.{second}

-- pgxpool.Config, as far as NewPool sets it
pub record PoolConfig : Type 0 where
  pub max_conns : ℕ
  pub max_conn_lifetime : ℕ
  pub max_conn_idle_time : ℕ
  pub connect_timeout : ℕ

abbrev pub pool_config : PoolConfig
pool_config = record {
  max_conns = 10;
  max_conn_lifetime = 3600 * second;
  max_conn_idle_time = 5 * 60 * second;
  connect_timeout = 5 * second;
}

-- http.Server, as far as the program sets it
pub record HttpServer : Type 0 where
  pub addr : String
  pub read_header_timeout : ℕ
  pub read_timeout : ℕ
  pub write_timeout : ℕ
  pub idle_timeout : ℕ

pub data Effect : Type 0 where
  logs_at : ℤ → Effect
  opens_pool : PoolConfig → Effect
  closes_pool : Effect
  -- the relay beside the server, and the relay as the program's own loop
  starts_relay runs_relay : Effect
  serves : HttpServer → Effect
  -- srv.Shutdown, with the time that it is given
  shuts_down : ℤ → Effect
  -- the end of the relay, or of the time for it
  awaits_relay : Effect

-- The calls of pgxpool that can fail.
pub record PoolLibrary : Type 0 where
  pub parse_config : String → Option Error
  pub new_with_config : Option Error
  pub ping : Option Error

module _ (library : PoolLibrary) where
  abbrev pub pinged : Option Error → Result (Unit {0}) × List Effect
  pinged none = (ok tt, opens_pool pool_config ∷ [])
  pinged (some e) = (err (wrap "ping database" e), opens_pool pool_config ∷ closes_pool ∷ [])

  abbrev pub created : Option Error → Result (Unit {0}) × List Effect
  created none = pinged library.ping
  created (some e) = (err (wrap "create pool" e), [])

  abbrev pub parsed : Option Error → Result (Unit {0}) × List Effect
  parsed none = created library.new_with_config
  parsed (some e) = (err (wrap "parse database url" e), [])

  -- NewPool
  unfoldable pub new_pool : String → Result (Unit {0}) × List Effect
  new_pool database_url = parsed (library.parse_config database_url)

  -- what is left to do with a pool, which is closed at the end
  abbrev pub with_pool :
      Result (Unit {0}) × List Effect
      → Result (Unit {0}) × List Effect
      → Result (Unit {0}) × List Effect
  with_pool (err e, effects) rest = (err e, effects)
  with_pool (ok _, effects) (r, more) = (r, effects ++ more ++ (closes_pool ∷ []))
