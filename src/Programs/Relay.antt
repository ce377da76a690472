-- ===== src/Programs/Relay.antt =====
-- cmd/relay/main.go: the relay of internal/outbox/relay.go on its own, over the store.
use go_ledger.Base.{ℕ, ℤ, pos, String, Bool, true, false, Option, none, some, List, [], ◌∷◌, ◌++◌}
use go_ledger.Domain.Errors.{Result, ok, err}
use go_ledger.Storage.Session.{Session}
use go_ledger.Relay.{RelayOptions, new_relay, Signal}
use go_ledger.Relay.{run as run_relay}
use go_ledger.Programs.Config.{Config, Environment, load}
use go_ledger.Programs.Pool.{Effect, logs_at, closes_pool, runs_relay, PoolLibrary, new_pool}
use go_ledger.Programs.Api.{level_of}

abbrev pub no_options : RelayOptions
no_options = record { interval = pos 0; batch_size = pos 0 }

-- The program's result, `none` while it runs, with its effects so far and the session.
pub record Progress : Type 0 where
  pub result : Option (Result (Unit {0}))
  pub effects : List Effect
  pub session : Session

-- after the loop of the relay
abbrev pub relayed : List Effect → Option (Bool × Session) → Option Progress
relayed effects none = none
relayed effects (some (true, s)) = some (record {
  result = some (ok tt);
  effects = effects ++ (runs_relay ∷ closes_pool ∷ []);
  session = s;
})
relayed effects (some (false, s)) =
    some (record { result = none; effects = effects ++ (runs_relay ∷ []); session = s })

module _ (parse_level : String → Option ℤ) (library : PoolLibrary) (fuel : ℕ)
    (signals : List Signal) (s : Session) where
  abbrev pub with_store : ℤ → Result (Unit {0}) × List Effect → Option Progress
  with_store level (err e, effects) =
      some (record { result = some (err e); effects = logs_at level ∷ effects; session = s })
  with_store level (ok _, effects) =
      relayed (logs_at level ∷ effects) (run_relay fuel (new_relay no_options) signals s)

  abbrev pub configured : Result Config → Option Progress
  configured (err e) = some (record { result = some (err e); effects = []; session = s })
  configured (ok cfg) =
      with_store (level_of (parse_level cfg.log_level)) (new_pool library cfg.database_url)

  -- run
  unfoldable pub run : Environment → (String → Result ℤ) → Option Progress
  unfolding load new_pool run_relay
  run getenv parse_duration = configured (load getenv parse_duration)
