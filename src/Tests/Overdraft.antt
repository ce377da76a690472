-- ===== src/Tests/Overdraft.antt =====
-- Two withdrawals of all that an account has, at once.
use go_ledger.Base.{refl, pos, List, [], ◌∷◌, map, All, arith}
use go_ledger.Domain.Errors.{Uuid}
use go_ledger.Domain.Account.{Account}
use go_ledger.Domain.Transaction.{TransferCommand}
use go_ledger.Storage.Statements.Facts.{move_account}
use go_ledger.Locks.Funds.{
  Worker, works, done, readers, locks, commits, this, later, Leads, stays, goes, started,
}
use go_ledger.Locks.Overdraft.{HasFloor, IsCurrent, no_overdraft}
use go_ledger.Tests.{test_env, deposit}
use go_ledger.Tests.Postings.{the_user, the_funding}

abbrev rich_user : Account
rich_user = record the_user { balance = pos 500 }

abbrev withdrawal : TransferCommand
withdrawal = record deposit { debit_account_id = 100; credit_account_id = 101 }

abbrev rows : List Account
rows = rich_user ∷ the_funding ∷ []

abbrev withdrawals : List (TransferCommand × List Uuid)
withdrawals = (withdrawal, 100 ∷ 101 ∷ []) ∷ (withdrawal, 100 ∷ 101 ∷ []) ∷ []

abbrev paid : List Account
paid = map (move_account test_env 100 101 (pos 500)) rows

-- the first has committed, and the second has locked the funding account behind it
abbrev second_waits : List Worker
second_waits =
    done
    ∷ works withdrawal (101 ∷ []) (move_account test_env 100 101 (pos 500) the_funding ∷ [])
    ∷ []

to_second : Leads rows (map started withdrawals) paid second_waits
unfolding readers
to_second =
    goes
      (goes
        (goes (goes stays (this (locks the_funding refl refl))) (this (locks rich_user refl refl)))
        (this (commits test_env the_funding rich_user refl refl refl (omega arith))))
      (later (this (locks (move_account test_env 100 101 (pos 500) the_funding) refl refl)))

no_overdraft_example : All HasFloor paid × All (IsCurrent paid) second_waits
no_overdraft_example =
    no_overdraft withdrawals rows paid second_waits (refl, (refl, tt)) (refl, (refl, tt)) to_second
