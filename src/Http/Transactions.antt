-- ===== src/Http/Transactions.antt =====
-- internal/httpapi/transactions.go
pub mod Prepared
pub mod Retries
pub mod Creates
use go_ledger.Base.{ℕ, String, Bytes}
use go_ledger.Domain.Errors.{Uuid, Error, Result, ok, err}
use go_ledger.Domain.Transaction.{Transaction, TransferCommand}
use go_ledger.Domain.Idempotency.{Claim, RenderFunc, TransferResult}
use go_ledger.Storage.Session.{Env, Session}
use go_ledger.Service.{service_transfer, get_transaction}
use go_ledger.Idempotency.{validate_key, fingerprint}
use go_ledger.Http.Problem.{write}
use go_ledger.Http.Errors.{write_domain_error}
use go_ledger.Http.Wire.{CreateTransactionRequest, new_transaction_response}
use go_ledger.Http.Handler.{
  Library, HttpRequest, Body, Response, Answer, goes_on, answers, ◌>>=◌, ◌>>◌, write_json, refuse,
  calling, read_json_body, unmarshal_json, parse_uuid_field, parse_uuid_param,
}

abbrev pub transactions_endpoint : String
transactions_endpoint = "POST /transactions"

abbrev or_domain_error : {A : Type 0} → (Error → String) → Result A → Answer A
or_domain_error text (ok a) = goes_on a
or_domain_error text (err e) = answers (refuse (write_domain_error text e))

abbrev or_invalid_json : {A : Type 0} → (Error → String) → Result A → Answer A
or_invalid_json text (ok a) = goes_on a
or_invalid_json text (err e) = answers (refuse (write 400 "invalid_json" "Invalid JSON" (text e)))

abbrev pub transfer_command : Uuid → Uuid → CreateTransactionRequest → TransferCommand
transfer_command debit credit req = record {
  debit_account_id = debit;
  credit_account_id = credit;
  amount = req.amount;
  currency = req.currency;
  description = req.description;
  external_ref = req.external_ref;
}

abbrev pub claim_of : Bytes → Bytes → Claim
claim_of key hash = record { key = key; endpoint = transactions_endpoint; fingerprint = hash }

abbrev created : Result Bytes → Result (ℕ × Bytes)
created (ok encoded) = ok (201, encoded)
created (err e) = err e

-- the stored body, written back verbatim
abbrev pub transaction_written : TransferResult → Response
transaction_written result = record {
  status = result.status;
  replayed = result.replayed;
  body = Body.raw result.body;
}

module _ (lib : Library) where
  -- the callback `render`
  unfoldable pub render : RenderFunc
  unfolding new_transaction_response
  render t = created (lib.marshal_transaction (new_transaction_response lib.format t))

  -- handleCreateTransaction up to the call of the service
  unfoldable pub transfer_request : HttpRequest → Answer (TransferCommand × Claim)
  unfolding validate_key read_json_body unmarshal_json parse_uuid_field fingerprint write
  transfer_request req = do
    or_domain_error lib.error_text (validate_key req.key)
    body ← read_json_body req.body
    r ← unmarshal_json lib lib.decode_transaction body
    debit ← parse_uuid_field lib "debit_account_id" r.debit_account_id
    credit ← parse_uuid_field lib "credit_account_id" r.credit_account_id
    hash ← or_invalid_json lib.error_text (
        fingerprint lib.decode lib.encode lib.sha256 (lib.utf8 req.method) (lib.utf8 req.path) body)
    goes_on (transfer_command debit credit r, claim_of req.key hash)

  -- handleCreateTransaction
  unfoldable pub handle_create_transaction : Env → HttpRequest → Session → Response × Session
  handle_create_transaction env req =
      calling (transfer_request req) (λ p. service_transfer env p.0 p.1 render)
        (write_domain_error lib.error_text) transaction_written

  -- handleGetTransaction
  unfoldable pub handle_get_transaction : Env → HttpRequest → Session → Response × Session
  unfolding parse_uuid_param new_transaction_response
  handle_get_transaction env req =
      calling (parse_uuid_param lib "id" req) (get_transaction env)
        (write_domain_error lib.error_text)
        (λ t. write_json 200 (Body.transaction (new_transaction_response lib.format t)))
