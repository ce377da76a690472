-- ===== src/Service.antt =====
-- internal/ledger/service.go over the store: the Repository that every program of the repository
-- gives the service is Store.
pub mod Balanced
pub mod Cases
pub mod Requests
pub mod Retries
pub mod ReadBack
use go_ledger.Base.{ℕ, pos, Bool, true, false, not, Option, none, some, String, List, if◌then◌else◌}
use go_ledger.Domain.Errors.{Uuid, opaque, Result}
use go_ledger.Domain.Account.{Account, CreateAccountCommand, validate_account}
use go_ledger.Domain.Transaction.{Transaction, balanced, TransferCommand, validate_transfer}
use go_ledger.Domain.Idempotency.{Claim, RenderFunc, TransferResult}
use go_ledger.Storage.Session.{
  Env, Session, Action, continue, ◌>>=◌, ◌>>◌, pure, raise, lift, in_context, draw_uuid,
}
use go_ledger.Storage.Transfer.{transfer}
use go_ledger.Storage.Accounts
use go_ledger.Storage.Accounts.{create_account}

-- A new account; the database fills the two times.
abbrev pub new_account : Uuid → CreateAccountCommand → Account
new_account id cmd = record {
  id = id;
  name = cmd.name;
  kind = cmd.kind;
  currency = cmd.currency;
  balance = pos 0;
  allow_negative_balance = cmd.allow_negative_balance;
  created_at = 0;
  updated_at = 0;
}

-- Service.CreateAccount
unfoldable pub open_account : Env → CreateAccountCommand → Action Account
open_account env cmd = do
  lift (validate_account cmd)
  id ← draw_uuid env
  in_context "create account" (create_account env (new_account id cmd))

-- Service.GetAccount and Service.GetTransaction only delegate.
unfoldable pub get_account : Env → Uuid → Action Account
get_account = Accounts.get_account

unfoldable pub get_transaction : Env → Uuid → Action Transaction
get_transaction = Accounts.get_transaction

abbrev checked : Option Transaction → TransferResult → Action TransferResult
checked none result = pure result
checked (some t) result =
    if not (balanced t) then raise (opaque "internal: transaction is not balanced") else pure result

-- Service.Transfer
unfoldable pub service_transfer : Env → TransferCommand → Claim → RenderFunc → Action TransferResult
service_transfer env cmd claim render = do
  lift (validate_transfer cmd)
  result ← transfer env cmd claim render
  checked result.transaction result
