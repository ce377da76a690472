-- ===== src/Service/Balanced.antt =====
-- Balanced and the int64 sum.
use go_ledger.Base.{ℕ, ℤ, pos, neg, ◌+ℤ◌, ◌-ℤ◌, wrap64, ◌≡◌, true, arith}
use go_ledger.Domain.Transaction.{balanced}
use go_ledger.Domain.Transaction.{TransferCommand}
use go_ledger.Storage.Session.{Env}
use go_ledger.Storage.Transfer.Cases.{transaction_of}

wraps_to_zero : (a : ℤ) → wrap64 (wrap64 (pos 0 +ℤ a) +ℤ wrap64 (neg a)) ≡ pos 0
unfolding wrap64 ◌+ℤ◌ ◌-ℤ◌
wraps_to_zero a = ground arith

-- The transaction that Store.Transfer returns passes the check of Balanced.
pub transaction_of-balanced :
    (env : Env) (cmd : TransferCommand) (n : ℕ) → balanced (transaction_of env cmd n) ≡ true
unfolding balanced
transaction_of-balanced env cmd n = rw (wraps_to_zero cmd.amount)
