-- ===== src/Tests/Http.antt =====
-- POST /transactions at a concrete input: the deposit, its retry, and another request with its key.
use go_ledger.Base.{
  pos, ◌≡◌, ◌≢◌, refl, wrap64, true, false, none, some, [], ◌∷◌, Bytes, if◌then◌else◌, arith, ◌+ℤ◌,
  ◌-ℤ◌,
}
use text.Mathlib.Text.{◌==◌}
use go_ledger.Domain.Errors.{ok}
use go_ledger.Http.Wire.{CreateTransactionRequest, new_transaction_response}
use go_ledger.Http.Handler.{
  Library, HttpRequest, whole, problem, goes_on, calling, read_json_body, unmarshal_json,
  parse_uuid_field,
}
use go_ledger.Idempotency.{validate_key, check_bytes, fingerprint, canonical_json}
use go_ledger.Storage.Text.{has_nul}
use go_ledger.Storage.Session.{Session}
use go_ledger.Http.Transactions.{
  render, transfer_request, handle_create_transaction, transfer_command, claim_of,
}
use go_ledger.Http.Transactions.Retries.{
  retry_replays, reused_key_refused, replayed_answer, new_answer,
}
use go_ledger.System.{IsSound}
use go_ledger.Domain.Account.{validate_account, valid_kind}
use go_ledger.Domain.Money.{valid_currency, all_letters}
use go_ledger.Domain.Transaction.{TransferCommand, validate_transfer, balanced}
use go_ledger.Domain.Idempotency.{Claim}
use go_ledger.Storage.Session.{rolled_back, begin_tx, exec, draw_uuid}
use go_ledger.Storage.Transfer.Retry.{reuse_error}
use go_ledger.Service.{open_account, service_transfer}
use go_ledger.Service.Cases.{opens, serve, serve_all}
use go_ledger.Storage.Accounts.{create_account, insert_account_row}
use go_ledger.Storage.Transfer.{
  claim_key, perform, prepare, lock_accounts, collect, lookup, require_found, write_transaction,
  insert_leg, apply_balances, record_event, record_answer, insert_event, store_response, commit,
  transfer,
}
use go_ledger.Storage.Statements.{
  insert_claim, select_for_update, where_any_of, any_of, order_by_id, insert_by_id,
  insert_transaction_row, insert_entry_row, ref_taken, update_balances, update_rows, update_row,
  insert_event_row, update_claim, answer_rows, run_deferred, assert_transaction_balanced, sum_legs,
  count_legs,
}
use go_ledger.Storage.Database.{find_key, key_matches}
use go_ledger.Outbox.Event.{new_transaction_created}
use go_ledger.Http.Errors.{write_domain_error}
use go_ledger.Idempotency.{hash_input}
use go_ledger.System.{requests, perform_call, perform_all}
use go_ledger.System.Outbox.{perform_all-IsSound}
use go_ledger.Base.{All}
use go_ledger.Http.Router.{create_transaction, routes, found, answer_request}
use go_ledger.Http.Router.Sound.{answer_request-IsSound, GetKeeps, get_routes_change_nothing}
use go_ledger.Tests.{test_env, start, opened, funding, user}
use go_ledger.Tests.Relay.{start-IsSound}

abbrev pub deposit_request : CreateTransactionRequest
deposit_request = record {
  debit_account_id = "user";
  credit_account_id = "funding";
  amount = pos 500;
  currency = "BRL";
  description = "deposit";
  external_ref = none;
}

-- a library for the test, whose hash is the identity
abbrev pub test_library : Library
test_library = record {
  Json = Bytes;
  decode = λ b. ok b;
  encode = λ b. ok b;
  sha256 = λ b. b;
  utf8 = λ _. 80 ∷ [];
  parse_uuid = λ text. some (if text == "user" then 101 else 100);
  decode_account =
      λ _. ok (record { name = ""; kind = ""; currency = ""; allow_negative_balance = false });
  decode_transaction = λ _. ok deposit_request;
  at_end = λ _. true;
  format = λ _. "";
  marshal_transaction = λ _. ok (123 ∷ 125 ∷ []);
  error_text = λ _. "";
}

abbrev pub post : Bytes → HttpRequest
post body = record {
  method = "POST";
  path = "/transactions";
  key = 107 ∷ [];
  id_param = "";
  body = whole body;
}

abbrev pub first : HttpRequest
first = post (1 ∷ [])

abbrev other : HttpRequest
other = post (2 ∷ [])

abbrev deposited : Session
deposited = (handle_create_transaction test_library test_env first opened).1

abbrev pub deposit_claim : Bytes → Claim
deposit_claim body = claim_of (107 ∷ []) (hash_input (80 ∷ []) (80 ∷ []) body)

abbrev pub the_command : TransferCommand
the_command = transfer_command 101 100 deposit_request

pub request-run :
    (transfer_request test_library first ≡ goes_on (the_command, deposit_claim (1 ∷ [])))
    × (transfer_request test_library other ≡ goes_on (the_command, deposit_claim (2 ∷ [])))
unfolding transfer_request validate_key check_bytes read_json_body unmarshal_json parse_uuid_field
    fingerprint canonical_json
request-run = (refl, refl)

post-run :
    (handle_create_transaction test_library test_env first opened).0
    ≡ new_answer test_library 201 (123 ∷ 125 ∷ [])
unfolding handle_create_transaction calling transfer_request validate_key check_bytes read_json_body
    unmarshal_json parse_uuid_field fingerprint canonical_json render new_transaction_response serve
    serve_all open_account service_transfer validate_account valid_kind validate_transfer
    valid_currency all_letters balanced create_account insert_account_row transfer begin_tx
    claim_key exec draw_uuid insert_claim find_key key_matches perform prepare lock_accounts
    select_for_update where_any_of any_of order_by_id insert_by_id collect lookup require_found
    write_transaction insert_transaction_row insert_leg insert_entry_row ref_taken apply_balances
    update_balances update_rows update_row record_event record_answer insert_event insert_event_row
    new_transaction_created store_response update_claim answer_rows commit run_deferred
    assert_transaction_balanced sum_legs count_legs wrap64 ◌+ℤ◌ ◌-ℤ◌ has_nul
post-run = refl

pub opened-IsSound : IsSound opened.store
unfolding serve_all perform_all perform_call
opened-IsSound =
    perform_all-IsSound start
      (requests (opens test_env funding) ∷ requests (opens test_env user) ∷ []) start-IsSound

pub command-valid : validate_transfer the_command ≡ ok tt
unfolding validate_transfer valid_currency all_letters
command-valid = refl

retry_replays_example :
    handle_create_transaction test_library test_env first
      (perform_all deposited (requests (opens test_env user) ∷ []))
    ≡ (
      replayed_answer test_library 201 (123 ∷ 125 ∷ []),
      rolled_back (perform_all deposited (requests (opens test_env user) ∷ [])),
    )
retry_replays_example =
    retry_replays test_library test_env first opened 201 (123 ∷ 125 ∷ []) deposited
      (requests (opens test_env user) ∷ []) test_env opened-IsSound post-run refl (λ _. refl)

other_fingerprint : (deposit_claim (2 ∷ [])).fingerprint ≢ (deposit_claim (1 ∷ [])).fingerprint
other_fingerprint same = absurd (ground arith)

reused_key_refused_example :
    ((handle_create_transaction test_library test_env other (perform_all deposited [])).0.status
      ≡ 422)
    × ((handle_create_transaction test_library test_env other (perform_all deposited [])).0.body
        ≡ problem
            (write_domain_error test_library.error_text (reuse_error (deposit_claim (2 ∷ [])))))
    × ((handle_create_transaction test_library test_env other (perform_all deposited [])).1
        ≡ rolled_back (perform_all deposited []))
reused_key_refused_example =
    reused_key_refused test_library test_env first opened 201 (123 ∷ 125 ∷ []) deposited [] test_env
      other the_command the_command (deposit_claim (1 ∷ [])) (deposit_claim (2 ∷ [])) opened-IsSound
      post-run refl (λ _. refl) request-run.0 request-run.1 refl other_fingerprint command-valid

answer_request-IsSound_example :
    IsSound
      (answer_request test_library
        (λ _. none)
        test_env
        none
        first
        (found
          (record { method = "POST"; pattern = "/transactions/"; endpoint = create_transaction }))
        opened).1.store
answer_request-IsSound_example =
    answer_request-IsSound test_library (λ _. none) test_env none first
      (found
        (record { method = "POST"; pattern = "/transactions/"; endpoint = create_transaction }))
      opened opened-IsSound

get_routes_change_nothing_example :
    All
      (λ r.
        GetKeeps r deposited
          (answer_request test_library (λ _. none) test_env none first (found r) deposited).1)
      routes
get_routes_change_nothing_example =
    get_routes_change_nothing test_library (λ _. none) test_env none first deposited
