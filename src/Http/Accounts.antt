-- ===== src/Http/Accounts.antt =====
-- internal/httpapi/accounts.go
use go_ledger.Domain.Account.{CreateAccountCommand}
use go_ledger.Storage.Session.{Env, Session}
use go_ledger.Service.{open_account, get_account}
use go_ledger.Http.Errors.{write_domain_error}
use go_ledger.Http.Wire.{CreateAccountRequest, new_account_response}
use go_ledger.Http.Handler.{
  Library, HttpRequest, Body, Response, write_json, calling, decode_json, parse_uuid_param,
}

abbrev pub account_command : CreateAccountRequest → CreateAccountCommand
account_command req = record {
  name = req.name;
  kind = req.kind;
  currency = req.currency;
  allow_negative_balance = req.allow_negative_balance;
}

module _ (lib : Library) (env : Env) (req : HttpRequest) where
  -- handleCreateAccount
  unfoldable pub handle_create_account : Session → Response × Session
  unfolding decode_json new_account_response
  handle_create_account =
      calling (decode_json lib lib.decode_account req.body)
        (λ body. open_account env (account_command body)) (write_domain_error lib.error_text)
        (λ a. write_json 201 (Body.account (new_account_response lib.format a)))

  -- handleGetAccount
  unfoldable pub handle_get_account : Session → Response × Session
  unfolding parse_uuid_param new_account_response
  handle_get_account =
      calling (parse_uuid_param lib "id" req) (get_account env) (write_domain_error lib.error_text)
        (λ a. write_json 200 (Body.account (new_account_response lib.format a)))
