-- ===== src/Tests/Postings.antt =====
-- The deposit, which the ledger has room for, at the store and over HTTP.
use go_ledger.Base.{suc, pos, ◌≡◌, refl, true, false, some, [], ◌∷◌, Bytes, arith, ◌+ℤ◌, ◌-ℤ◌}
use go_ledger.Domain.Errors.{ok}
use go_ledger.Domain.Account.{Account, validate_account, valid_kind}
use go_ledger.Domain.Money.{valid_currency, all_letters}
use go_ledger.Idempotency.{validate_key}
use go_ledger.Storage.Text.{has_nul}
use go_ledger.Storage.Accounts.{create_account, insert_account_row}
use go_ledger.Storage.Database.{find_key, key_matches}
use go_ledger.Storage.Session.{begin_tx, exec, draw_uuid}
use go_ledger.Storage.Statements.{run_deferred, ref_taken}
use go_ledger.Storage.Transfer.{commit, transfer}
use go_ledger.Storage.Transfer.Cases.{transaction_of}
use go_ledger.Storage.Transfer.Room.{CanPost}
use go_ledger.Storage.Transfer.Complete.{posted_store, transfer_posts}
use go_ledger.Service.{open_account}
use go_ledger.Service.Cases.{serve, serve_all}
use go_ledger.Tests.Http.{test_library, first}
use go_ledger.Tests.{test_env, opened, opened-WellFormed, deposit, test_claim, test_render}
use go_ledger.Domain.Errors.{ok}
use go_ledger.Http.Transactions.{render, handle_create_transaction}
use go_ledger.Http.Transactions.Retries.{new_answer}
use go_ledger.Http.Transactions.Creates.{post_creates}
use go_ledger.Http.Wire.{new_transaction_response}
use go_ledger.Tests.Http.{the_command, deposit_claim, request-run, command-valid}

abbrev pub the_user : Account
the_user = record {
  id = 101;
  name = "user";
  kind = "asset";
  currency = "BRL";
  balance = pos 0;
  allow_negative_balance = false;
  created_at = 1000;
  updated_at = 1000;
}

abbrev pub the_funding : Account
the_funding = record {
  id = 100;
  name = "funding";
  kind = "equity";
  currency = "BRL";
  balance = pos 0;
  allow_negative_balance = true;
  created_at = 1000;
  updated_at = 1000;
}

abbrev braces : Bytes
braces = 123 ∷ 125 ∷ []

deposit-CanPost :
    CanPost test_env deposit test_claim test_render opened.store opened.drawn the_user the_funding
      201 braces braces
unfolding serve serve_all open_account validate_account valid_kind valid_currency all_letters
    create_account insert_account_row begin_tx exec draw_uuid commit run_deferred find_key
    key_matches ref_taken ◌+ℤ◌ ◌-ℤ◌ has_nul validate_key
deposit-CanPost = record {
  positive = omega arith;
  amount_fits = (omega arith, omega arith);
  debit_found = refl;
  credit_found = refl;
  same_currency = refl;
  covered = refl;
  debit_fits = (omega arith, omega arith);
  credit_fits = (omega arith, omega arith);
  new_key = refl;
  new_ref = refl;
  valid_key = refl;
  plain_endpoint = refl;
  indexed_endpoint = refl;
  plain_description = refl;
  plain_ref = refl;
  indexed_ref = refl;
  new_transaction = refl;
  new_debit_entry = refl;
  new_credit_entry = refl;
  entries_differ = refl;
  new_event = refl;
  marshalled = refl;
  jsonb_payload = refl;
  int_status = omega arith;
  rendered = refl;
  valid_json = refl;
}

transfer_posts_example : transfer test_env deposit test_claim test_render opened ≡ (
  ok (record {
    status = 201;
    body = braces;
    replayed = false;
    transaction = some (transaction_of test_env deposit opened.drawn);
  }),
  record opened {
    store = posted_store test_env deposit test_claim 201 braces braces opened;
    tx = posted_store test_env deposit test_claim 201 braces braces opened;
    deferred = [];
    drawn = suc (suc (suc (suc opened.drawn)));
  },
)
transfer_posts_example =
    transfer_posts test_env deposit test_claim test_render (λ _. refl) the_user the_funding 201
      braces braces opened refl opened-WellFormed deposit-CanPost

request-CanPost :
    CanPost test_env the_command
      (deposit_claim (1 ∷ []))
      (render test_library)
      opened.store
      opened.drawn
      the_user
      the_funding
      201
      braces
      braces
unfolding serve serve_all open_account validate_account valid_kind valid_currency all_letters
    create_account insert_account_row begin_tx exec draw_uuid commit run_deferred find_key
    key_matches ref_taken ◌+ℤ◌ ◌-ℤ◌ render new_transaction_response has_nul validate_key
request-CanPost = record {
  positive = omega arith;
  amount_fits = (omega arith, omega arith);
  debit_found = refl;
  credit_found = refl;
  same_currency = refl;
  covered = refl;
  debit_fits = (omega arith, omega arith);
  credit_fits = (omega arith, omega arith);
  new_key = refl;
  new_ref = refl;
  valid_key = refl;
  plain_endpoint = refl;
  indexed_endpoint = refl;
  plain_description = refl;
  plain_ref = refl;
  indexed_ref = refl;
  new_transaction = refl;
  new_debit_entry = refl;
  new_credit_entry = refl;
  entries_differ = refl;
  new_event = refl;
  marshalled = refl;
  jsonb_payload = refl;
  int_status = omega arith;
  rendered = refl;
  valid_json = refl;
}

post_creates_example : handle_create_transaction test_library test_env first opened ≡ (
  new_answer test_library 201 braces,
  record opened {
    store = posted_store test_env the_command (deposit_claim (1 ∷ [])) 201 braces braces opened;
    tx = posted_store test_env the_command (deposit_claim (1 ∷ [])) 201 braces braces opened;
    deferred = [];
    drawn = suc (suc (suc (suc opened.drawn)));
  },
)
post_creates_example =
    post_creates test_library test_env first opened the_command (deposit_claim (1 ∷ [])) the_user
      the_funding 201 braces braces (λ _. refl) refl opened-WellFormed request-run.0 command-valid
      request-CanPost
