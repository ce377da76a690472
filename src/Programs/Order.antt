-- ===== src/Programs/Order.antt =====
-- The order in which the programs of cmd start and stop.
use go_ledger.Base.{
  ℕ, ℤ, ◌<◌, ◌≡◌, refl, String, Bool, true, false, ltb, Option, none, some, List, [], ◌∷◌, ◌⊎◌, inl,
  inr, if◌then◌else◌,
}
use go_ledger.Domain.Errors.{Error, Result, ok, err}
use go_ledger.Storage.Session.{Session}
use go_ledger.Storage.Outbox.Settle.{OutboxValid}
use go_ledger.Storage.Outbox.Remaining.{remaining}
use go_ledger.Relay.{Signal}
use go_ledger.Relay.Drain.{Runs, is_cancelled, run-Runs}
use go_ledger.Programs.Config.{Config, Environment, load}
use go_ledger.Programs.Pool.{
  Effect, logs_at, opens_pool, closes_pool, starts_relay, runs_relay, serves, shuts_down,
  awaits_relay, PoolLibrary, pool_config, new_pool, parsed, created, pinged, with_pool,
}
use go_ledger.Programs.Api.{
  request_timeout, http_server, Woken, listen_fails, signalled, ends, served, logged as api_logged,
  level_of,
}
use go_ledger.Programs.Api
use go_ledger.Programs.Relay.{Progress, no_options, relayed}
use go_ledger.Programs.Relay

-- Where a program stands. It is closed with all done, or early.
pub data Phase : Type 0 where
  booting opened relaying serving stopping awaited : Phase
  closed : Bool → Phase

-- The effects that each phase allows. The server's time to write is longer than a handler's.
abbrev pub next : Phase → Effect → Option Phase
next booting (logs_at level) = some booting
next booting (opens_pool config) = some opened
next opened closes_pool = some (closed false)
next opened starts_relay = some relaying
next opened runs_relay = some awaited
next relaying closes_pool = some (closed false)
next relaying (serves server) =
    if ltb request_timeout server.write_timeout then some serving else none
next serving closes_pool = some (closed false)
next serving (shuts_down timeout) = some stopping
next stopping closes_pool = some (closed false)
next stopping awaits_relay = some awaited
next awaited closes_pool = some (closed true)
next _ _ = none

abbrev pub advanced : Option Phase → Effect → Option Phase
advanced none e = none
advanced (some p) e = next p e

unfoldable pub phase_after : Option Phase → List Effect → Option Phase
phase_after o [] = o
phase_after o (e ∷ effects) = phase_after (advanced o e) effects

-- how NewPool can end
module _ (library : PoolLibrary) (Q : Result (Unit {0}) × List Effect → Type 0)
    (unopened : (e : Error) → Q (err e, []))
    (unreachable : (e : Error) → Q (err e, opens_pool pool_config ∷ closes_pool ∷ []))
    (works : Q (ok tt, opens_pool pool_config ∷ [])) where
  pinged_cases : (o : Option Error) → Q (pinged library o)
  pinged_cases none = works
  pinged_cases (some e) = unreachable _

  created_cases : (o : Option Error) → Q (created library o)
  created_cases none = pinged_cases library.ping
  created_cases (some e) = unopened _

  parsed_cases : (o : Option Error) → Q (parsed library o)
  parsed_cases none = created_cases library.new_with_config
  parsed_cases (some e) = unopened _

  new_pool_cases : (database_url : String) → Q (new_pool library database_url)
  unfolding new_pool
  new_pool_cases database_url = parsed_cases (library.parse_config database_url)

-- A program that ends without an error has done all of its shutdown; one that ends with an error has
-- opened no pool, or has closed it.
abbrev pub IsEnd : Result (Unit {0}) → Option Phase → Type 0
IsEnd (ok _) o = o ≡ some (closed true)
IsEnd (err e) o = (o ≡ some booting) ⊎ (o ≡ some (closed false))

abbrev pub IsOrdered : Result (Unit {0}) × List Effect → Type 0
IsOrdered p = IsEnd p.0 (phase_after (some booting) p.1)

module _ (parse_level : String → Option ℤ) (library : PoolLibrary) (woken : Woken) where
  ends-IsOrdered :
      (level : ℤ) (cfg : Config) (w : Woken)
      → IsOrdered (
          api_logged level
            (with_pool library (ok tt, opens_pool pool_config ∷ []) (served cfg (ends cfg w))))
  unfolding phase_after
  ends-IsOrdered level cfg (listen_fails e) = inr refl
  ends-IsOrdered level cfg (signalled none) = refl
  ends-IsOrdered level cfg (signalled (some e)) = inr refl

  configured-IsOrdered :
      (r : Result Config) → IsOrdered (Api.configured parse_level library woken r)
  unfolding phase_after
  configured-IsOrdered (err e) = inl refl
  configured-IsOrdered (ok cfg) =
      let level : ℤ = level_of (parse_level cfg.log_level) in
      new_pool_cases library
        (λ p. IsOrdered (api_logged level (with_pool library p (served cfg (ends cfg woken)))))
        (λ e. inl refl) (λ e. inr refl) (ends-IsOrdered level cfg woken) cfg.database_url

  -- The order of cmd/api. With any environment, any failures of the pool's library, and however the
  -- server ends, run logs, opens the pool, starts the relay, serves (with more time to write a
  -- response than a handler has), shuts the server down, awaits the relay and closes the pool, in
  -- this order. Without an error it has done all of these; with an error it has opened no pool, or
  -- gone a part of the way and then closed it, once and last.
  pub run-IsOrdered :
      (getenv : Environment) (parse_duration : String → Result ℤ)
      → IsOrdered (Api.run parse_level library woken getenv parse_duration)
  unfolding Api.run
  run-IsOrdered getenv parse_duration = configured-IsOrdered (load getenv parse_duration)

-- How cmd/relay ends with a valid outbox: `stopped` says whether it was cancelled.
abbrev pub IsStopped : Bool → Option (Result (Unit {0})) → Option Phase → Type 0
IsStopped stopped none o = (stopped ≡ false) × (o ≡ some awaited)
IsStopped stopped (some (ok _)) o = (stopped ≡ true) × (o ≡ some (closed true))
IsStopped stopped (some (err e)) o = (o ≡ some booting) ⊎ (o ≡ some (closed false))

pub record IsRelayed (stopped : Bool) (o : Option Progress) : Type 0 where
  pub progress : Progress
  pub reached : o ≡ some progress
  pub valid : OutboxValid progress.session.store
  pub stands : IsStopped stopped progress.result (phase_after (some booting) progress.effects)

module _ (parse_level : String → Option ℤ) (library : PoolLibrary) (fuel : ℕ)
    (signals : List Signal) (s : Session) (valid : OutboxValid s.store)
    (enough : remaining s.store.outbox_events < fuel) where
  relayed-IsRelayed :
      (level : ℤ) (stopped : Bool) (o : Option (Bool × Session))
      → Runs stopped o
      → IsRelayed stopped (relayed (logs_at level ∷ opens_pool pool_config ∷ []) o)
  unfolding phase_after
  relayed-IsRelayed level true o runs = rw runs.reached (record {
    progress = record {
      result = some (ok tt);
      effects = logs_at level ∷ opens_pool pool_config ∷ runs_relay ∷ closes_pool ∷ [];
      session = runs.session;
    };
    reached = refl;
    valid = runs.valid;
    stands = (refl, refl);
  })
  relayed-IsRelayed level false o runs = rw runs.reached (record {
    progress = record {
      result = none;
      effects = logs_at level ∷ opens_pool pool_config ∷ runs_relay ∷ [];
      session = runs.session;
    };
    reached = refl;
    valid = runs.valid;
    stands = (refl, refl);
  })

  failed-IsRelayed :
      (e : Error) (effects : List Effect) (stopped : Bool)
      → (phase_after (some booting) effects ≡ some booting)
        ⊎ (phase_after (some booting) effects ≡ some (closed false))
      → IsRelayed stopped (some (record { result = some (err e); effects = effects; session = s }))
  failed-IsRelayed e effects stopped stands = record {
    progress = record { result = some (err e); effects = effects; session = s };
    reached = refl;
    valid = valid;
    stands = stands;
  }

  configured-IsRelayed :
      (r : Result Config)
      → IsRelayed (is_cancelled signals) (Relay.configured parse_level library fuel signals s r)
  unfolding phase_after
  configured-IsRelayed (err e) = failed-IsRelayed e [] _ (inl refl)
  configured-IsRelayed (ok cfg) =
      let level : ℤ = level_of (parse_level cfg.log_level) in
      new_pool_cases library
        (λ p.
          IsRelayed (is_cancelled signals)
            (Relay.with_store parse_level library fuel signals s level p))
        (λ e. failed-IsRelayed e (logs_at level ∷ []) _ (inl refl))
        (λ e.
          failed-IsRelayed e (logs_at level ∷ opens_pool pool_config ∷ closes_pool ∷ []) _
            (inr refl))
        (relayed-IsRelayed level _ _ (run-Runs no_options fuel signals s valid enough))
        cfg.database_url

  -- cmd/relay over a valid outbox. With any environment, any failures of the pool's library and of
  -- the driver, any answers of the publisher, and more fuel than the outbox has attempts left, the
  -- program keeps the outbox valid; it has ended without an error, with its pool opened and closed,
  -- only if it was cancelled; it still runs, with its pool open, only if it was not; and if it has
  -- ended with an error, it has opened no pool or closed it.
  pub relay_run-IsRelayed :
      (getenv : Environment) (parse_duration : String → Result ℤ)
      → IsRelayed
          (is_cancelled signals)
          (Relay.run parse_level library fuel signals s getenv parse_duration)
  unfolding Relay.run
  relay_run-IsRelayed getenv parse_duration = configured-IsRelayed (load getenv parse_duration)
