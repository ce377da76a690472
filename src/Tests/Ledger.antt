-- ===== src/Tests/Ledger.antt =====
-- The deposit, its retries and a COMMIT whose acknowledgement is lost.
use go_ledger.Base.{
  ℕ, ◌≡◌, ◌≢◌, refl, wrap64, none, some, [], ◌∷◌, Bytes, bytes_equal, bytes_equal_refl,
  if◌then◌else◌, ap, length, arith, ◌+ℤ◌, ◌-ℤ◌,
}
use go_ledger.Domain.Errors.{ok, err}
use go_ledger.Domain.Account.{validate_account, valid_kind}
use go_ledger.Domain.Money.{valid_currency, all_letters}
use go_ledger.Domain.Transaction.{validate_transfer, balanced}
use go_ledger.Storage.Text.{has_nul}
use go_ledger.Storage.Database.{KeyRow}
use go_ledger.Storage.Session.{Env, Session, ack_lost, rolled_back}
use go_ledger.Storage.Transfer.{transfer}
use go_ledger.Storage.Transfer.Cases.{transaction_of}
use go_ledger.Storage.Transfer.Outcome.{Outcome, transfer-Outcome}
use go_ledger.Storage.Transfer.Retry.{transfer_used_key, replay_of, reuse_error}
use go_ledger.Storage.Invariant.{WellFormed}
use go_ledger.Service.{open_account, service_transfer}
use go_ledger.Service.Cases.{opens, moves, serve, serve_all}
use go_ledger.Service.Requests.{empty_database, service_transfer-validated, serve_all-WellFormed}
use go_ledger.Service.Retries.{told, retry_after_success, retry_after_change}
use go_ledger.Storage.Accounts.{create_account, insert_account_row}
use go_ledger.Storage.Session.{begin_tx, exec, draw_uuid}
use go_ledger.Storage.Transfer.{
  claim_key, perform, prepare, lock_accounts, collect, lookup, require_found, write_transaction,
  insert_leg, apply_balances, record_event, record_answer, insert_event, store_response, commit,
}
use go_ledger.Storage.Statements.{
  insert_claim, select_for_update, where_any_of, any_of, order_by_id, insert_by_id,
  insert_transaction_row, insert_entry_row, ref_taken, update_balances, update_rows, update_row,
  insert_event_row, update_claim, answer_rows, run_deferred, assert_transaction_balanced, sum_legs,
  count_legs,
}
use go_ledger.Storage.Database.{find_key, key_matches}
use go_ledger.Outbox.Event.{new_transaction_created}
use go_ledger.Tests.{
  test_env, start, user, opened, deposit, test_claim, test_render, posted_session, deposit-valid,
  test_result, deposit-run, opened-WellFormed,
}

serve_all-WellFormed_example :
    WellFormed (serve_all opened (moves test_env deposit test_claim test_render ∷ [])).store
serve_all-WellFormed_example =
    serve_all-WellFormed opened (moves test_env deposit test_claim test_render ∷ [])
      opened-WellFormed

transfer-Outcome_example :
    Outcome test_env deposit test_claim test_render opened
      (transfer test_env deposit test_claim test_render opened)
transfer-Outcome_example = transfer-Outcome test_env deposit test_claim test_render opened

service_transfer-validated_example :
    service_transfer test_env deposit test_claim test_render opened
    ≡ transfer test_env deposit test_claim test_render opened
service_transfer-validated_example =
    service_transfer-validated test_env deposit test_claim test_render opened deposit-valid

-- a retry of the deposit with another fingerprint, after a third account has been opened
retry_after_success_example :
    service_transfer test_env deposit
      (record test_claim { fingerprint = 3 ∷ [] })
      test_render
      (serve_all posted_session (opens test_env user ∷ []))
    ≡ told test_claim
        (3 ∷ [])
        201
        (123 ∷ 125 ∷ [])
        (serve_all posted_session (opens test_env user ∷ []))
retry_after_success_example =
    retry_after_success test_env deposit test_claim test_render opened test_result posted_session
      (opens test_env user ∷ []) test_env deposit (3 ∷ []) test_render deposit-valid deposit-run.0
      refl refl (λ _. refl) deposit-valid

-- the deposit, with a COMMIT whose acknowledgement is lost
abbrev lossy_env : Env
lossy_env = record test_env { commit_fault = some (ack_lost "connection reset") }

abbrev lossy_session : Session
lossy_session = (service_transfer lossy_env deposit test_claim test_render opened).1

lossy-run : (length lossy_session.store.transactions ≡ 1) × (length opened.store.transactions ≡ 0)
unfolding serve serve_all open_account service_transfer validate_account valid_kind
    validate_transfer valid_currency all_letters balanced create_account insert_account_row transfer
    begin_tx claim_key exec draw_uuid insert_claim find_key key_matches perform prepare
    lock_accounts select_for_update where_any_of any_of order_by_id insert_by_id collect lookup
    require_found write_transaction insert_transaction_row insert_leg insert_entry_row ref_taken
    apply_balances update_balances update_rows update_row record_event record_answer insert_event
    insert_event_row new_transaction_created store_response update_claim answer_rows commit
    run_deferred assert_transaction_balanced sum_legs count_legs wrap64 ◌+ℤ◌ ◌-ℤ◌ has_nul
lossy-run = (refl, refl)

lossy-changed : lossy_session.store ≢ opened.store
lossy-changed same =
    let counts : length lossy_session.store.transactions ≡ length opened.store.transactions =
      ap (λ db. length db.transactions) same in
    absurd (omega (arith, counts, lossy-run.0, lossy-run.1))

retry_after_change_example :
    (status : ℕ) × (body : Bytes) × (test_render (transaction_of lossy_env deposit opened.drawn)
      ≡ ok (status, body))
    × (service_transfer test_env deposit
          (record test_claim { fingerprint = 1 ∷ 2 ∷ [] })
          test_render
          (serve_all lossy_session [])
        ≡ told test_claim (1 ∷ 2 ∷ []) status body (serve_all lossy_session []))
retry_after_change_example =
    retry_after_change lossy_env deposit test_claim test_render opened lossy_session [] test_env
      deposit (1 ∷ 2 ∷ []) test_render deposit-valid lossy-changed refl (λ _. refl) deposit-valid

abbrev used_row : KeyRow
used_row = record {
  key = 107 ∷ [];
  endpoint = "POST /transfers";
  request_hash = 9 ∷ [];
  response_status = some 201;
  response_body = some (123 ∷ 125 ∷ []);
  transaction_id = none;
  expires_at = 0;
  created_at = 0;
}

abbrev keyed : Session
keyed = record start { store = record empty_database { idempotency_keys = used_row ∷ [] } }

used_row-found :
    find_key test_claim.key test_claim.endpoint keyed.store.idempotency_keys ≡ some used_row
unfolding find_key key_matches
used_row-found = rw (bytes_equal_refl (107 ∷ [])) refl

transfer_used_key_example : transfer test_env deposit test_claim test_render keyed ≡ (
  (if bytes_equal used_row.request_hash test_claim.fingerprint
      then ok (replay_of 201 (123 ∷ 125 ∷ []))
      else err (reuse_error test_claim)),
  rolled_back keyed,
)
transfer_used_key_example =
    transfer_used_key test_env deposit test_claim test_render keyed used_row 201 (123 ∷ 125 ∷ [])
      (λ _. refl) used_row-found refl refl
