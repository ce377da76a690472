-- ===== src/Tests.antt =====
-- The theorems at concrete inputs: a ledger with a funding account and a user, and a deposit of 500
-- that is posted, retried and published.
pub mod Ledger
pub mod Rules
pub mod Relay
pub mod Http
pub mod Migrate
pub mod Transfers
pub mod Postings
pub mod Batches
pub mod System
pub mod Programs
pub mod Locks
pub mod Overdraft
use go_ledger.Base.{
  ℕ, pos, ◌+◌, ◌≡◌, ◌≢◌, refl, wrap64, true, false, none, some, [], ◌∷◌, Bytes, bytes_equal,
  bytes_equal_refl, if◌then◌else◌, ap, length, arith, ◌+ℤ◌, ◌-ℤ◌,
}
use go_ledger.Domain.Errors.{ok, err}
use go_ledger.Domain.Account.{CreateAccountCommand, validate_account, valid_kind}
use go_ledger.Domain.Money.{valid_currency, all_letters}
use go_ledger.Domain.Transaction.{TransferCommand, validate_transfer, balanced}
use go_ledger.Domain.Idempotency.{Claim, RenderFunc, TransferResult}
use go_ledger.Storage.Text.{has_nul}
use go_ledger.Storage.Database.{KeyRow}
use go_ledger.Storage.Session.{Env, Session, ack_lost, rolled_back}
use go_ledger.Storage.Transfer.{transfer}
use go_ledger.Storage.Transfer.Cases.{transaction_of}
use go_ledger.Storage.Transfer.Outcome.{Outcome, transfer-Outcome}
use go_ledger.Storage.Transfer.Retry.{transfer_used_key, replay_of, reuse_error}
use go_ledger.Storage.Invariant.{WellFormed}
use go_ledger.Service.{open_account, service_transfer}
use go_ledger.Service.Cases.{Request, opens, moves, serve, serve_all}
use go_ledger.Service.Requests.{
  empty_database, empty_database-WellFormed, service_transfer-validated, serve_all-WellFormed,
}
use go_ledger.Service.Retries.{told, retry_after_success, retry_after_change}
use go_ledger.Storage.Accounts.{create_account, insert_account_row}
use go_ledger.Storage.Session.{begin_tx, exec, draw_uuid}
use go_ledger.Storage.Transfer.{
  claim_key, perform, prepare, lock_accounts, collect, lookup, require_found, write_transaction,
  insert_leg, apply_balances, record_event, record_answer, insert_event, store_response, commit,
}
use go_ledger.Storage.Statements.{
  insert_claim, select_for_update, where_any_of, any_of, order_by_id, insert_by_id,
  insert_transaction_row, insert_entry_row, ref_taken, update_balances, update_rows, update_row,
  insert_event_row, update_claim, answer_rows, run_deferred, assert_transaction_balanced, sum_legs,
  count_legs,
}
use go_ledger.Storage.Database.{find_key, key_matches}
use go_ledger.Outbox.Event.{new_transaction_created}
use go_ledger.Outbox.Event.{Event, pending}
use go_ledger.Storage.Outbox.{replay_event}
use go_ledger.Storage.Outbox.Settle.{OutboxValid, count_deliveries}
use go_ledger.Storage.Outbox.Replay.{Replays, replay_event-Replays}
use go_ledger.Http.Errors.{
  write_domain_error, root, status_of, detail_of, write_domain_error-response,
}
use go_ledger.Idempotency.{
  max_key_length, IsPrintable, validate_key, validate_key-accepts, IsOneLine, hash_input-injective,
}
use go_ledger.Base.{All, ◌↔◌, ◌≤◌, ◌<◌}

abbrev pub test_env : Env
test_env = record {
  new_uuid = λ n. n + 100;
  now = 1000;
  fault = λ _. none;
  commit_fault = none;
  marshal = λ _. some (123 ∷ 125 ∷ []);
  jsonb = λ b. b;
  json_valid = λ _. true;
  jsonb_takes = λ _. true;
  index_takes = λ _. true;
}

abbrev pub start : Session
start = record {
  store = empty_database;
  tx = empty_database;
  deferred = [];
  drawn = 0;
  delivery_seq = 0;
}

abbrev pub funding : CreateAccountCommand
funding = record {
  name = "funding";
  kind = "equity";
  currency = "BRL";
  allow_negative_balance = true;
}

abbrev pub user : CreateAccountCommand
user = record { name = "user"; kind = "asset"; currency = "BRL"; allow_negative_balance = false }

abbrev pub opened : Session
opened = serve_all start (opens test_env funding ∷ opens test_env user ∷ [])

abbrev pub deposit : TransferCommand
deposit = record {
  debit_account_id = 101;
  credit_account_id = 100;
  amount = pos 500;
  currency = "BRL";
  description = "deposit";
  external_ref = none;
}

abbrev pub test_claim : Claim
test_claim = record { key = 107 ∷ []; endpoint = "POST /transfers"; fingerprint = 1 ∷ 2 ∷ [] }

abbrev pub test_render : RenderFunc
test_render = λ _. ok (201, 123 ∷ 125 ∷ [])

abbrev pub posted_session : Session
posted_session = (service_transfer test_env deposit test_claim test_render opened).1

pub deposit-valid : validate_transfer deposit ≡ ok tt
unfolding validate_transfer valid_currency all_letters
deposit-valid = refl

abbrev pub test_result : TransferResult
test_result = record {
  status = 201;
  body = 123 ∷ 125 ∷ [];
  replayed = false;
  transaction = some (transaction_of test_env deposit 2);
}

pub deposit-run :
    ((service_transfer test_env deposit test_claim test_render opened).0 ≡ ok test_result)
    × (length posted_session.store.transactions ≡ 1)
    × (length opened.store.transactions ≡ 0)
unfolding serve serve_all open_account service_transfer validate_account valid_kind
    validate_transfer valid_currency all_letters balanced create_account insert_account_row transfer
    begin_tx claim_key exec draw_uuid insert_claim find_key key_matches perform prepare
    lock_accounts select_for_update where_any_of any_of order_by_id insert_by_id collect lookup
    require_found write_transaction insert_transaction_row insert_leg insert_entry_row ref_taken
    apply_balances update_balances update_rows update_row record_event record_answer insert_event
    insert_event_row new_transaction_created store_response update_claim answer_rows commit
    run_deferred assert_transaction_balanced sum_legs count_legs wrap64 ◌+ℤ◌ ◌-ℤ◌ has_nul
deposit-run = (refl, refl, refl)

pub opened-WellFormed : WellFormed opened.store
opened-WellFormed =
    serve_all-WellFormed start (opens test_env funding ∷ opens test_env user ∷ [])
      empty_database-WellFormed

abbrev due_event : Event
due_event = record {
  id = 7;
  aggregate_type = "transaction";
  aggregate_id = 3;
  event_type = "transaction.created";
  schema_version = 1;
  payload = [];
  status = pending;
  attempts = 0;
  last_error = none;
  available_at = 0;
  published_at = none;
  created_at = 0;
}

abbrev pub outbox_start : Session
outbox_start = record start { store = record empty_database { outbox_events = due_event ∷ [] } }

pub outbox_start-Valid : OutboxValid outbox_start.store
unfolding count_deliveries
outbox_start-Valid = record {
  distinct = (refl, tt);
  counted = λ id. ground arith;
  consistent = λ id e found. ground arith;
}
