-- ===== src/Tests/Batches.antt =====
-- Batches of two events that are due, the younger one first in the table.
use go_ledger.Base.{◌≡◌, refl, false, none, [], ◌∷◌, length, Bytes, arith}
use go_ledger.Domain.Errors.{Result, ok}
use go_ledger.Storage.Session.{begin_tx, exec}
use go_ledger.Storage.Statements.{run_deferred}
use go_ledger.Storage.Transfer.{commit}
use go_ledger.Storage.Outbox.{
  dispatch_batch, select_due, due_events, limited, insert_by_creation, settle_batch, settle_attempt,
  update_event, record_delivery, insert_delivery,
}
use go_ledger.Base.{ℕ, List}
use go_ledger.Outbox.Event.{Event, pending, envelope}
use go_ledger.Storage.Session.{Session}
use go_ledger.Storage.Outbox.Settle.{OutboxValid, count_deliveries}
use go_ledger.Storage.Outbox.Oldest.{ClaimsOldest, dispatch_batch_takes_oldest}
use go_ledger.Storage.Outbox.Dispatched.{BatchSettled}
use go_ledger.Service.Requests.{empty_database}
use go_ledger.Tests.{test_env, start}
use go_ledger.Tests.Relay.{no_broker}
use go_ledger.Outbox.Event.{Envelope}
use go_ledger.Outbox.Publisher.{log_publish}
use go_ledger.Storage.Outbox.Through.{dispatch_through}
use go_ledger.Storage.Outbox.Logged.{log_answers, Logs, dispatch_through-Logs}

abbrev braces : Bytes
braces = 123 ∷ 125 ∷ []

abbrev waiting_event : ℕ → ℕ → Event
waiting_event id created_at = record {
  id = id;
  aggregate_type = "transaction";
  aggregate_id = 3;
  event_type = "ledger.transaction.created";
  schema_version = 1;
  payload = [];
  status = pending;
  attempts = 0;
  last_error = none;
  available_at = 0;
  published_at = none;
  created_at = created_at;
}

-- two events that are due, the younger one first
abbrev two_due : Session
two_due = record start {
  store = record empty_database { outbox_events = waiting_event 7 5 ∷ waiting_event 8 3 ∷ [] };
}

two_due-Valid : OutboxValid two_due.store
unfolding count_deliveries
two_due-Valid = record {
  distinct = (refl, (refl, tt));
  counted = λ id. ground arith;
  consistent = λ id e found. ground arith;
}

dispatch-run : (dispatch_batch test_env (λ _. false) 1 no_broker two_due).0 ≡ ok 1
unfolding dispatch_batch select_due due_events limited insert_by_creation settle_batch
    settle_attempt update_event record_delivery insert_delivery begin_tx exec commit run_deferred
    envelope
dispatch-run = refl

dispatch_batch_takes_oldest_example :
    (batch : List Event) × (1 ≡ length batch)
    × ClaimsOldest test_env (λ _. false) 1 two_due.store batch
    × BatchSettled test_env no_broker batch two_due.store
        (dispatch_batch test_env (λ _. false) 1 no_broker two_due).1.store
dispatch_batch_takes_oldest_example =
    dispatch_batch_takes_oldest test_env (λ _. false) 1 no_broker two_due 1 two_due-Valid
      dispatch-run

abbrev marshalled : Envelope → Result Bytes
marshalled e = ok braces

dispatch_through-Logs_example :
    ((dispatch_through (λ _. "") test_env (λ _. false) 1 (log_publish marshalled) [] two_due).0
      ≡ dispatch_batch test_env (λ _. false) 1 (log_answers (λ _. "") marshalled) two_due)
    × Logs test_env
        (λ _. false)
        1
        marshalled
        []
        two_due
        (dispatch_through (λ _. "") test_env (λ _. false) 1 (log_publish marshalled) [] two_due).0.0
        (dispatch_through (λ _. "") test_env (λ _. false) 1 (log_publish marshalled) [] two_due).1
dispatch_through-Logs_example =
    dispatch_through-Logs (λ _. "") test_env (λ _. false) 1 marshalled [] two_due
