-- ===== src/Programs/Api.antt =====
-- cmd/api/main.go: start-up, and shutdown in order. What the program waits for is a parameter: how
-- the server ends, what Shutdown returns. The relay that it starts is that of
-- internal/outbox/relay.go.
use go_ledger.Base.{ℕ, ◌+◌, ◌*◌, ℤ, pos, String, Option, none, some, List, [], ◌∷◌}
use go_ledger.Domain.Errors.{Error, Result, ok, err}
use go_ledger.Programs.Config.{second, Config, Environment, load}
use go_ledger.Programs.Pool.{
  HttpServer, Effect, logs_at, starts_relay, serves, shuts_down, awaits_relay, PoolLibrary,
  new_pool, with_pool,
}

-- RequestTimeout of internal/httpapi/router.go
abbrev pub request_timeout : ℕ
request_timeout = 30 * second

abbrev pub http_server : Config → HttpServer
http_server cfg = record {
  addr = cfg.http_addr;
  read_header_timeout = 5 * second;
  read_timeout = 15 * second;
  write_timeout = request_timeout + 5 * second;
  idle_timeout = 60 * second;
}

-- slog.LevelInfo, for a text that is not a level
abbrev pub level_of : Option ℤ → ℤ
level_of none = pos 0
level_of (some level) = level

-- what the select of run receives: an error of ListenAndServe, or a signal, with the error of
-- Shutdown
pub data Woken : Type 0 where
  listen_fails : Error → Woken
  signalled : Option Error → Woken

abbrev pub after_shutdown : Option Error → Result (Unit {0}) × List Effect
after_shutdown none = (ok tt, awaits_relay ∷ [])
after_shutdown (some e) = (err e, [])

abbrev pub ends : Config → Woken → Result (Unit {0}) × List Effect
ends cfg (listen_fails e) = (err e, [])
ends cfg (signalled shutdown_error) =
    let (r, more) = after_shutdown shutdown_error in (r, shuts_down cfg.shutdown_timeout ∷ more)

abbrev pub served : Config → Result (Unit {0}) × List Effect → Result (Unit {0}) × List Effect
served cfg (r, more) = (r, starts_relay ∷ serves (http_server cfg) ∷ more)

-- setupLogging, before the rest
abbrev pub logged : ℤ → Result (Unit {0}) × List Effect → Result (Unit {0}) × List Effect
logged level (r, effects) = (r, logs_at level ∷ effects)

module _ (parse_level : String → Option ℤ) (library : PoolLibrary) (woken : Woken) where
  abbrev pub configured : Result Config → Result (Unit {0}) × List Effect
  configured (err e) = (err e, [])
  configured (ok cfg) =
      logged (level_of (parse_level cfg.log_level))
        (with_pool library (new_pool library cfg.database_url) (served cfg (ends cfg woken)))

  -- run
  unfoldable pub run : Environment → (String → Result ℤ) → Result (Unit {0}) × List Effect
  unfolding load new_pool
  run getenv parse_duration = configured (load getenv parse_duration)
