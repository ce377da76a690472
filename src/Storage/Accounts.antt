-- ===== src/Storage/Accounts.antt =====
-- CreateAccount, GetAccount and GetTransaction of internal/storage/postgres/store.go.
use go_ledger.Base.{
  ℕ, pos, leb_ℤ, Bool, not, ◌&&◌, ◌||◌, Option, none, some, is_some, String, List, [], ◌∷◌, ◌==◌,
  ltb, leb, if◌then◌else◌,
}
use go_ledger.Domain.Errors.{
  Uuid, accounts_pkey, accounts_balance_floor, Error, sentinel, opaque, wrap, account_not_found,
  transaction_not_found, Result, ok, err,
}
use go_ledger.Domain.Account.{Account, valid_kind}
use go_ledger.Domain.Transaction.{Direction, Entry, Transaction}
use go_ledger.Storage.Database.{Database, TransactionRow, find_account, find_transaction}
use go_ledger.Storage.Session.{
  Site, Env, Action, ◌>>=◌, ◌>>◌, pure, in_context, exec, begun, with_rollback,
}
use go_ledger.Storage.Text.{has_nul}
use go_ledger.Storage.Statements.{violates, refused}
use go_ledger.Storage.Transfer.{commit}

abbrev pub stamped : Env → Account → Account
stamped env a = record a { created_at = env.now; updated_at = env.now }

-- INSERT INTO accounts … RETURNING created_at, updated_at; the kind is an enumeration.
unfoldable pub insert_account_row : Env → Account → Database → Result (Account × Database)
insert_account_row env a db =
    if has_nul a.name
    then refused "invalid byte sequence for encoding"
    else if not (valid_kind a.kind)
    then refused "invalid enum value"
    else if not (a.allow_negative_balance || leb_ℤ (pos 0) a.balance)
    then violates accounts_balance_floor
    else if is_some (find_account a.id db)
    then violates accounts_pkey
    else ok (stamped env a, record db { accounts = stamped env a ∷ db.accounts })

-- A statement outside a transaction is one of its own.
unfoldable pub create_account : Env → Account → Action Account
create_account env a = with_rollback (
    in_context "insert account" do
      begun none
      created ← exec env Site.insert_account (insert_account_row env a)
      commit env
      pure created)

-- a query of the pool, on the committed database
abbrev pub query_result : {A : Type 0} → String → Option String → Result A → Result A
query_result context none r = r
query_result context (some message) r = err (wrap context (opaque message))

abbrev pub or_not_found : {A : Type 0} → Error → Option A → Result A
or_not_found e none = err e
or_not_found e (some a) = ok a

unfoldable pub get_account : Env → Uuid → Action Account
get_account env id s = (
  query_result "select account" (env.fault Site.select)
      (or_not_found (sentinel account_not_found) (find_account id s.store)),
  s,
)

-- the declaration order of the type entry_direction
abbrev rank : Direction → ℕ
rank Direction.debit = 0
rank Direction.credit = 1

-- ORDER BY direction DESC, id
abbrev pub precedes : Entry → Entry → Bool
precedes a b =
    ltb (rank b.direction) (rank a.direction)
    || (rank a.direction == rank b.direction) && leb a.id b.id

unfoldable pub insert_ordered : Entry → List Entry → List Entry
insert_ordered e [] = e ∷ []
insert_ordered e (x ∷ xs) = if precedes e x then e ∷ x ∷ xs else x ∷ insert_ordered e xs

-- SELECT … FROM ledger_entries WHERE transaction_id = $1 ORDER BY direction DESC, id
unfoldable pub entries_of : Uuid → List Entry → List Entry
unfolding insert_ordered
entries_of id [] = []
entries_of id (e ∷ es) =
    if e.transaction_id == id then insert_ordered e (entries_of id es) else entries_of id es

abbrev pub with_entries : TransactionRow → List Entry → Transaction
with_entries row entries = record {
  id = row.id;
  external_ref = row.external_ref;
  description = row.description;
  currency = row.currency;
  created_at = row.created_at;
  entries = entries;
}

abbrev pub with_result : Result TransactionRow → Result (List Entry) → Result Transaction
with_result (err e) entries = err e
with_result (ok row) (err e) = err e
with_result (ok row) (ok entries) = ok (with_entries row entries)

-- Two queries, which see the same database here.
unfoldable pub get_transaction : Env → Uuid → Action Transaction
unfolding entries_of
get_transaction env id s = (
  with_result
      (query_result "select transaction" (env.fault Site.select)
        (or_not_found (sentinel transaction_not_found) (find_transaction id s.store)))
      (query_result "select entries" (env.fault Site.select_entries)
        (ok (entries_of id s.store.ledger_entries))),
  s,
)
