-- ===== src/Service/Requests.antt =====
-- The ledger under any sequence of requests to the service, with any faults of the driver.
use go_ledger.Base.{◌≡◌, refl, List, [], ◌∷◌}
use go_ledger.Domain.Errors.{ok}
use go_ledger.Domain.Transaction.{TransferCommand, validate_transfer}
use go_ledger.Domain.Idempotency.{Claim, RenderFunc}
use go_ledger.Storage.Database.{Database}
use go_ledger.Storage.Session.{Env, Session}
use go_ledger.Storage.Statements.{sum_legs, count_legs}
use go_ledger.Storage.Transfer.{transfer}
use go_ledger.Storage.Transfer.Outcome.{transfer-Outcome}
use go_ledger.Storage.Invariant.{posted, count_events, WellFormed}
use go_ledger.Storage.Invariant.Posting.{Posted-WellFormed}
use go_ledger.Service.{service_transfer}
use go_ledger.Service.Cases.{Request, serve, serve_all, serve_cases, checked-Outcome}
use go_ledger.Storage.Invariant.Opening.{with_account-WellFormed}

-- For a command that passes validation Service.Transfer is Store.Transfer: the check of Balanced
-- never refuses a result.
pub service_transfer-validated :
    (env : Env) (cmd : TransferCommand) (claim : Claim) (render : RenderFunc) (s : Session)
    → validate_transfer cmd ≡ ok tt
    → service_transfer env cmd claim render s ≡ transfer env cmd claim render s
unfolding service_transfer
service_transfer-validated env cmd claim render s valid =
    rw valid (checked-Outcome env cmd claim render s _ (transfer-Outcome env cmd claim render s))

abbrev pub empty_database : Database
empty_database = record {
  accounts = [];
  transactions = [];
  ledger_entries = [];
  idempotency_keys = [];
  outbox_events = [];
  outbox_deliveries = [];
}

pub empty_database-WellFormed : WellFormed empty_database
unfolding posted sum_legs count_legs count_events
empty_database-WellFormed = record {
  accounts_distinct = tt;
  allowed = tt;
  cached = λ _. refl;
  zero_sum = λ _. refl;
  two_legs = λ _. refl;
  one_event = λ _. refl;
  answered = tt;
}

serve-WellFormed : (s : Session) (r : Request) → WellFormed s.store → WellFormed (serve s r).store
serve-WellFormed s r valid =
    serve_cases WellFormed s r valid
      (λ env a zero_balance fresh. with_account-WellFormed env a s.store zero_balance fresh valid)
      (λ env cmd claim render status body after differ posting.
        Posted-WellFormed env cmd claim render s status body after differ valid posting)

-- From a well-formed database, any sequence of requests, whether they succeed, replay, fail or lose
-- their acknowledgement, leaves a well-formed database.
pub serve_all-WellFormed :
    (s : Session) (rs : List Request) → WellFormed s.store → WellFormed (serve_all s rs).store
unfolding serve_all
serve_all-WellFormed s [] valid = valid
serve_all-WellFormed s (r ∷ rs) valid =
    serve_all-WellFormed (serve s r) rs (serve-WellFormed s r valid)
