-- ===== src/Tests/Transfers.antt =====
-- The deposit read back, and deposits that are refused.
use go_ledger.Base.{pos, ◌≡◌, refl, none, some}
use go_ledger.Domain.Errors.{ok, err, sentinel, annotate, insufficient_funds, shortfall}
use go_ledger.Domain.Account.{validate_account, valid_kind}
use go_ledger.Domain.Money.{valid_currency, all_letters}
use go_ledger.Domain.Transaction.{TransferCommand}
use go_ledger.Storage.Text.{has_nul}
use go_ledger.Storage.Session.{begin_tx, exec, draw_uuid, rolled_back}
use go_ledger.Storage.Database.{find_key, key_matches}
use go_ledger.Storage.Accounts.{create_account, insert_account_row}
use go_ledger.Storage.Transfer.{transfer, commit}
use go_ledger.Storage.Statements.{run_deferred}
use go_ledger.Storage.Transfer.Cases.{transaction_of}
use go_ledger.Storage.Transfer.Refusal.{refusal, transfer_refuses}
use go_ledger.Service
use go_ledger.Service.{open_account}
use go_ledger.Service.Cases.{serve, serve_all}
use go_ledger.Service.ReadBack.{as_read, transfer_read_back}
use go_ledger.Tests.{
  test_env, opened, opened-WellFormed, deposit, deposit-valid, deposit-run, test_claim, test_render,
  test_result, posted_session,
}

transfer_read_back_example :
    (test_render (transaction_of test_env deposit opened.drawn)
      ≡ ok (test_result.status, test_result.body))
    × (Service.get_transaction test_env (test_env.new_uuid opened.drawn) posted_session
        ≡ (ok (as_read test_env deposit opened.drawn), posted_session))
transfer_read_back_example =
    transfer_read_back test_env deposit test_claim test_render opened test_result test_env
      posted_session opened-WellFormed deposit-valid deposit-run.0 refl refl (λ _. refl)

-- the user, who has nothing, pays the funding account
abbrev withdrawal : TransferCommand
withdrawal = record deposit { debit_account_id = 100; credit_account_id = 101 }

withdrawal-run :
    (find_key test_claim.key test_claim.endpoint opened.store.idempotency_keys ≡ none)
    × (refusal withdrawal opened.store
        ≡ some (annotate (sentinel insufficient_funds) (shortfall 101 (pos 0) (pos 500))))
unfolding serve serve_all open_account validate_account valid_kind valid_currency all_letters
    create_account insert_account_row begin_tx exec draw_uuid commit run_deferred find_key
    key_matches has_nul
withdrawal-run = (refl, refl)

transfer_refuses_example : transfer test_env withdrawal test_claim test_render opened ≡ (
  err (annotate (sentinel insufficient_funds) (shortfall 101 (pos 0) (pos 500))),
  rolled_back opened,
)
transfer_refuses_example =
    transfer_refuses test_env withdrawal test_claim test_render (λ _. refl) opened
      (annotate (sentinel insufficient_funds) (shortfall 101 (pos 0) (pos 500)))
      opened-WellFormed.accounts_distinct withdrawal-run.0 withdrawal-run.1
