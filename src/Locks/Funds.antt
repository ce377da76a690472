-- ===== src/Locks/Funds.antt =====
-- What transfers that run at once read and write of the accounts: Store.Transfer of
-- internal/storage/postgres/store.go from lockAccounts to the COMMIT. A row is read when it is locked,
-- the balances are checked on the rows that were read, and the update acts on the table as it is at
-- the COMMIT. The constraint accounts_balance_floor is left out.
use go_ledger.Base.{
  ℕ, ◌+◌, pos, ◌<ℤ◌, ◌≡◌, Bool, true, false, some, is_some, List, [], ◌∷◌, ◌++◌, map,
}
use go_ledger.Base.Table.{find}
use go_ledger.Domain.Errors.{Uuid}
use go_ledger.Domain.Account.{Account}
use go_ledger.Domain.Transaction.{TransferCommand}
use go_ledger.Storage.Session.{Env}
use go_ledger.Storage.Statements.Facts.{move_account}
use go_ledger.Storage.Transfer.{uncovered}
use go_ledger.Storage.Transfer.Locked.{id_of}

-- a transfer, with the accounts that it has still to lock and the rows that it has read
pub data Worker : Type 0 where
  works : TransferCommand → List Uuid → List Account → Worker
  done : Worker

abbrev pub reads : Uuid → Worker → Bool
reads id (works cmd wanted read) = is_some (find id_of id read)
reads id done = false

abbrev pub one : Bool → ℕ
one true = 1
one false = 0

-- how many transfers have locked an account
unfoldable pub readers : Uuid → List Worker → ℕ
readers id [] = 0
readers id (w ∷ ws) = one (reads id w) + readers id ws

-- A step of one transfer among the others, on the table of accounts: it locks and reads its next row,
-- which no other has locked, commits what its checks have let through, or ends without a change.
pub data Acts (others : List Worker) : List Account → Worker → List Account → Worker → Type 0 where
  locks :
      {table : List Account} {cmd : TransferCommand} {id : Uuid} {wanted : List Uuid}
      {read : List Account} (a : Account)
      → readers id others ≡ 0
      → find id_of id table ≡ some a
      → Acts others table (works cmd (id ∷ wanted) read) table (works cmd wanted (a ∷ read))
  commits :
      {table : List Account} {cmd : TransferCommand} {read : List Account} (env : Env)
      (debit credit : Account)
      → find id_of cmd.debit_account_id read ≡ some debit
      → find id_of cmd.credit_account_id read ≡ some credit
      → uncovered cmd credit ≡ false
      → pos 0 <ℤ cmd.amount
      → Acts others table
          (works cmd [] read)
          (map (move_account env cmd.debit_account_id cmd.credit_account_id cmd.amount) table)
          done
  ends :
      {table : List Account} {cmd : TransferCommand} {wanted : List Uuid} {read : List Account}
      → Acts others table (works cmd wanted read) table done

-- one of the transfers acts; `seen` are those before it
pub data OneActs
    : List Worker → List Account → List Worker → List Account → List Worker → Type 0 where
  this :
      {seen ws : List Worker} {t t' : List Account} {w w' : Worker}
      → Acts (seen ++ ws) t w t' w'
      → OneActs seen t (w ∷ ws) t' (w' ∷ ws)
  later :
      {seen ws ws' : List Worker} {t t' : List Account} {w : Worker}
      → OneActs (w ∷ seen) t ws t' ws'
      → OneActs seen t (w ∷ ws) t' (w ∷ ws')

-- the tables and the transfers that a sequence of steps can lead to
pub data Leads : List Account → List Worker → List Account → List Worker → Type 0 where
  stays : {t : List Account} {ws : List Worker} → Leads t ws t ws
  goes :
      {t t' t'' : List Account} {ws ws' ws'' : List Worker}
      → Leads t ws t' ws'
      → OneActs [] t' ws' t'' ws''
      → Leads t ws t'' ws''

abbrev pub started : TransferCommand × List Uuid → Worker
started (cmd, ids) = works cmd ids []
