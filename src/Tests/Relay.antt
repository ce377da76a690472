-- ===== src/Tests/Relay.antt =====
-- Relays and replays at concrete inputs: one event that is due, and a publisher that refuses it.
use go_ledger.Base.{pos, ◌<◌, refl, some, [], ◌∷◌, false, arith}
use go_ledger.Storage.Outbox.{Publisher, dispatch_batch}
use go_ledger.Storage.Outbox.Settle.{count_deliveries}
use go_ledger.Storage.Outbox.Remaining.{remaining}
use go_ledger.Storage.Outbox.Dispatched.{Dispatched, dispatch_batch-Dispatched}
use go_ledger.Relay.{RelayOptions, new_relay, Round, drain, tick, cancelled, run}
use go_ledger.Relay.Drain.{Drains, drain-Drains, Runs, is_cancelled, run-Runs, new_relay-positive}
use go_ledger.Service.Cases.{moves}
use go_ledger.System.{requests, dispatches, replays, perform_all, IsSound}
use go_ledger.System.Outbox.{perform_all-IsSound}
use go_ledger.Service.Requests.{empty_database-WellFormed}
use go_ledger.Service.Cases.{opens}
use go_ledger.Tests.{
  test_env, start, funding, user, deposit, test_claim, test_render, outbox_start,
  outbox_start-Valid,
}

abbrev pub no_broker : Publisher
no_broker = λ _. some "no broker"

dispatch_batch-Dispatched_example :
    Dispatched test_env
      (λ _. false)
      10
      no_broker
      outbox_start
      outbox_start-Valid
      (dispatch_batch test_env (λ _. false) 10 no_broker outbox_start).0
      (dispatch_batch test_env (λ _. false) 10 no_broker outbox_start).1.store
dispatch_batch-Dispatched_example =
    dispatch_batch-Dispatched test_env (λ _. false) 10 no_broker outbox_start outbox_start-Valid

abbrev pub test_round : Round
test_round = record { env = test_env; held = λ _. false; publish = no_broker }

abbrev no_options : RelayOptions
no_options = record { interval = pos 0; batch_size = pos 0 }

pub few_attempts : remaining outbox_start.store.outbox_events < 50
unfolding remaining
few_attempts = omega arith

drain-Drains_example :
    Drains
      (new_relay no_options)
      (λ _. test_round)
      (remaining outbox_start.store.outbox_events)
      (λ f. drain f (new_relay no_options) (λ _. test_round) outbox_start)
      50
drain-Drains_example =
    drain-Drains (new_relay no_options) ((new_relay-positive no_options).0) 50 (λ _. test_round)
      outbox_start outbox_start-Valid few_attempts

run-Runs_example :
    Runs
      (is_cancelled (tick (λ _. test_round) ∷ cancelled ∷ []))
      (run 50 (new_relay no_options) (tick (λ _. test_round) ∷ cancelled ∷ []) outbox_start)
run-Runs_example =
    run-Runs no_options 50 (tick (λ _. test_round) ∷ cancelled ∷ []) outbox_start outbox_start-Valid
      few_attempts

pub start-IsSound : IsSound start.store
unfolding count_deliveries
start-IsSound = record {
  ledger = empty_database-WellFormed;
  outbox = record { distinct = tt; counted = λ id. refl; consistent = λ id e found. ground arith };
}

perform_all-IsSound_example :
    IsSound
      (perform_all start (
        requests (opens test_env funding)
        ∷ requests (opens test_env user)
        ∷ requests (moves test_env deposit test_claim test_render)
        ∷ dispatches test_env (λ _. false) 10 no_broker
        ∷ replays test_env 102 no_broker
        ∷ [])).store
perform_all-IsSound_example =
    perform_all-IsSound start
      (requests (opens test_env funding)
        ∷ requests (opens test_env user)
        ∷ requests (moves test_env deposit test_claim test_render)
        ∷ dispatches test_env (λ _. false) 10 no_broker
        ∷ replays test_env 102 no_broker
        ∷ [])
      start-IsSound
