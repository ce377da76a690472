-- ===== src/Domain/Idempotency.antt =====
-- internal/ledger/idempotency.go: the claim on a key, and the result of an idempotent transfer.
use go_ledger.Base.{ℕ, String, Bool, Option, Bytes}
use go_ledger.Domain.Errors.{Result}
use go_ledger.Domain.Transaction.{Transaction}

pub record Claim : Type 0 where
  pub key : Bytes
  pub endpoint : String
  pub fingerprint : Bytes

-- Status and body of the response; the callback may fail.
abbrev pub RenderFunc : Type 0
RenderFunc = Transaction → Result (ℕ × Bytes)

pub record TransferResult : Type 0 where
  pub status : ℕ
  pub body : Bytes
  pub replayed : Bool
  pub transaction : Option Transaction
