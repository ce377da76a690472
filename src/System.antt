-- ===== src/System.antt =====
-- The whole system: requests to the service (internal/ledger/service.go), relays that dispatch
-- batches (internal/outbox/relay.go) and manual replays (internal/httpapi/events.go), in any order,
-- on one database.
pub mod Outbox
pub mod Cases
pub mod Keys
pub mod Totals
pub mod History
use go_ledger.Base.{ℕ, Bool, List, [], ◌∷◌}
use go_ledger.Domain.Errors.{Uuid}
use go_ledger.Storage.Database.{Database}
use go_ledger.Storage.Session.{Env, Session}
use go_ledger.Storage.Outbox.{Publisher, dispatch_batch, replay_event}
use go_ledger.Storage.Outbox.Settle.{OutboxValid}
use go_ledger.Storage.Invariant.{WellFormed}
use go_ledger.Service.Cases.{Request, serve}

-- One database transaction of the system, with all that it meets.
pub data Call : Type 0 where
  requests : Request → Call
  dispatches : Env → (Uuid → Bool) → ℕ → Publisher → Call
  replays : Env → Uuid → Publisher → Call

unfoldable pub perform_call : Session → Call → Session
perform_call s (requests r) = serve s r
perform_call s (dispatches env held limit publish) = (dispatch_batch env held limit publish s).1
perform_call s (replays env id publish) = (replay_event env id publish s).1

unfoldable pub perform_all : Session → List Call → Session
unfolding perform_call
perform_all s [] = s
perform_all s (c ∷ calls) = perform_all (perform_call s c) calls

-- the ledger and the outbox together
pub record IsSound (db : Database) : Type 0 where
  pub ledger : WellFormed db
  pub outbox : OutboxValid db
