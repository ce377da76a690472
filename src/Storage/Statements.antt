-- ===== src/Storage/Statements.antt =====
-- The SQL statements of the transfer, in store.go and outbox.go, on the tables: what each reads and
-- writes, and the constraints of the migrations that it can violate.
pub mod Facts
use go_ledger.Base.{
  ℕ, zero, suc, ◌+◌, ◌-◌, ◌*◌, ◌^◌, ℤ, pos, neg, ◌+ℤ◌, ltb_ℤ, leb_ℤ, eqb_ℤ, fits_int64, String,
  Bool, true, false, not, ◌||◌, Option, none, some, is_some, List, [], ◌∷◌, length, Bytes, ◌==◌,
  ltb, leb, if◌then◌else◌,
}
use text.Mathlib.Text.{◌==◌ as str_eq}
use go_ledger.Base.Table.{find}
use go_ledger.Domain.Errors
use go_ledger.Domain.Errors.{
  Uuid, Constraint, unnamed, accounts_balance_floor, transactions_pkey,
  transactions_external_ref_key, ledger_entries_pkey, ledger_entries_amount_check,
  ledger_entries_transaction_id_fkey, ledger_entries_account_id_fkey,
  idempotency_keys_transaction_id_fkey, outbox_events_pkey, PgError, Error, Result, ok, err,
}
use go_ledger.Domain.Account.{Account}
use go_ledger.Domain.Transaction.{Direction, debit, credit, Entry}
use go_ledger.Domain.Idempotency.{Claim}
use go_ledger.Outbox.Event.{Event, pending}
use go_ledger.Storage.Database.{
  Database, TransactionRow, KeyRow, find_account, find_transaction, find_event, key_matches,
  find_key,
}
use go_ledger.Storage.Session.{Env}
use go_ledger.Storage.Text.{has_nul, ref_has_nul}

abbrev pub violates : {A : Type 0} → Constraint → Result A
violates c = err (Errors.database (record { constraint_name = c; message = "violates constraint" }))

-- a refusal that is not by a constraint
abbrev pub refused : {A : Type 0} → String → Result A
refused message = err (Errors.database (record { constraint_name = unnamed; message = message }))

abbrev pub out_of_range : {A : Type 0} → Result A
out_of_range = refused "bigint out of range"

abbrev pub index_takes_ref : Env → Option String → Bool
index_takes_ref env none = true
index_takes_ref env (some ref) = env.index_takes ref

abbrev pub claimed_row : Env → Claim → KeyRow
claimed_row env claim = record {
  key = claim.key;
  endpoint = claim.endpoint;
  request_hash = claim.fingerprint;
  response_status = none;
  response_body = none;
  transaction_id = none;
  created_at = env.now;
  expires_at = env.now + 24 * 3_600_000;
}

-- A claim's key and endpoint are texts that the columns take: ValidateKey lets only printable
-- characters through, and the endpoint is a constant of the handler.
-- INSERT INTO idempotency_keys … ON CONFLICT (key, endpoint) DO NOTHING, and the rows affected
unfoldable pub insert_claim : Env → Claim → Database → Result (ℕ × Database)
insert_claim env claim db = elim (find_key claim.key claim.endpoint db.idempotency_keys) [
  | some _ ↦ ok (0, db)
  | none ↦ ok (1, record db { idempotency_keys = claimed_row env claim ∷ db.idempotency_keys })
]

-- SELECT request_hash, response_status, response_body … WHERE key = $1 AND endpoint = $2
unfoldable pub select_claim : Claim → Database → Result (KeyRow × Database)
select_claim claim db = elim (find_key claim.key claim.endpoint db.idempotency_keys) [
  | some row ↦ ok (row, db)
  | none ↦ err (Errors.opaque "no rows in result set")
]

-- ORDER BY id
unfoldable pub insert_by_id : Account → List Account → List Account
insert_by_id a [] = a ∷ []
insert_by_id a (b ∷ rows) = if leb a.id b.id then a ∷ b ∷ rows else b ∷ insert_by_id a rows

unfoldable pub order_by_id : List Account → List Account
unfolding insert_by_id
order_by_id [] = []
order_by_id (a ∷ rows) = insert_by_id a (order_by_id rows)

-- id = ANY($1)
unfoldable pub any_of : List Uuid → Uuid → Bool
any_of [] id = false
any_of (x ∷ ids) id = x == id || any_of ids id

unfoldable pub where_any_of : List Uuid → List Account → List Account
unfolding any_of
where_any_of ids [] = []
where_any_of ids (a ∷ rows) =
    if any_of ids a.id then a ∷ where_any_of ids rows else where_any_of ids rows

-- SELECT … FROM accounts WHERE id = ANY($1) ORDER BY id FOR UPDATE
unfoldable pub select_for_update : List Uuid → Database → Result (List Account × Database)
unfolding order_by_id where_any_of
select_for_update ids db = ok (order_by_id (where_any_of ids db.accounts), db)

-- the partial unique index transactions_external_ref_key
abbrev pub same_ref : Option String → Option String → Bool
same_ref (some a) (some b) = str_eq a b
same_ref _ _ = false

unfoldable pub ref_taken : Option String → List TransactionRow → Bool
ref_taken ref [] = false
ref_taken ref (t ∷ rows) = same_ref t.external_ref ref || ref_taken ref rows

-- INSERT INTO transactions … RETURNING created_at
unfoldable pub insert_transaction_row : Env → TransactionRow → Database → Result (ℕ × Database)
insert_transaction_row env row db =
    if has_nul row.description || ref_has_nul row.external_ref
    then refused "invalid byte sequence for encoding"
    else if is_some (find_transaction row.id db)
    then violates transactions_pkey
    else if ref_taken row.external_ref db.transactions
    then violates transactions_external_ref_key
    else if not (index_takes_ref env row.external_ref)
    then refused "index row size exceeds maximum"
    else ok (row.created_at, record db { transactions = row ∷ db.transactions })

abbrev pub find_entry : Uuid → Database → Option Entry
find_entry id db = find (λ (e : Entry). e.id) id db.ledger_entries

-- INSERT INTO ledger_entries … RETURNING created_at
unfoldable pub insert_entry_row : Entry → Database → Result (ℕ × Database)
insert_entry_row e db =
    if leb_ℤ e.amount (pos 0)
    then violates ledger_entries_amount_check
    else if is_some (find_entry e.id db)
    then violates ledger_entries_pkey
    else if not (is_some (find_transaction e.transaction_id db))
    then violates ledger_entries_transaction_id_fkey
    else if not (is_some (find_account e.account_id db))
    then violates ledger_entries_account_id_fkey
    else ok (e.created_at, record db { ledger_entries = e ∷ db.ledger_entries })

-- CASE WHEN id = $1 THEN $3 ELSE -$3 END
abbrev pub movement : Uuid → ℤ → Uuid → ℤ
movement debit_id amount id = if id == debit_id then amount else neg amount

abbrev pub moved : Env → Uuid → ℤ → Account → Account
moved env debit_id amount a = record a {
  balance = a.balance +ℤ movement debit_id amount a.id;
  updated_at = env.now;
}

-- the new version of one row, with the range of bigint and accounts_balance_floor
unfoldable pub update_row : Env → Uuid → ℤ → Account → Result Account
update_row env debit_id amount a =
    if not (fits_int64 (movement debit_id amount a.id))
    then out_of_range
    else if not (fits_int64 (a.balance +ℤ movement debit_id amount a.id))
    then out_of_range
    else if not
        (a.allow_negative_balance || leb_ℤ (pos 0) (a.balance +ℤ movement debit_id amount a.id))
    then violates accounts_balance_floor
    else ok (moved env debit_id amount a)

abbrev pub cons_result : Result Account → Result (List Account) → Result (List Account)
cons_result (ok a) (ok rows) = ok (a ∷ rows)
cons_result (ok a) (err e) = err e
cons_result (err e) _ = err e

-- UPDATE accounts … WHERE id IN ($1, $2)
unfoldable pub update_rows : Env → Uuid → Uuid → ℤ → List Account → Result (List Account)
unfolding update_row
update_rows env d c amount [] = ok []
update_rows env d c amount (a ∷ rows) =
    cons_result (if a.id == d || a.id == c then update_row env d amount a else ok a)
      (update_rows env d c amount rows)

abbrev with_accounts : Database → Result (List Account) → Result (Unit {0} × Database)
with_accounts db (ok rows) = ok (tt, record db { accounts = rows })
with_accounts db (err e) = err e

unfoldable pub update_balances : Env → Uuid → Uuid → ℤ → Database → Result (Unit {0} × Database)
unfolding update_rows
update_balances env d c amount db = with_accounts db (update_rows env d c amount db.accounts)

-- what RETURNING fills in
abbrev pub scanned_event : Env → Event → Event
scanned_event env e = record e { status = pending; available_at = env.now; created_at = env.now }

-- The row that the statement stores, with the columns' defaults; jsonb keeps the value of the
-- payload, and not its bytes.
abbrev pub stored_event : Env → Event → Event
stored_event env e = record (scanned_event env e) {
  payload = env.jsonb e.payload;
  attempts = 0;
  last_error = none;
  published_at = none;
}

-- INSERT INTO outbox_events … RETURNING created_at, available_at, status
unfoldable pub insert_event_row : Env → Event → Database → Result (Event × Database)
insert_event_row env e db =
    if not (env.jsonb_takes e.payload)
    then refused "unsupported Unicode escape sequence"
    else if is_some (find_event e.id db)
    then violates outbox_events_pkey
    else ok
        (scanned_event env e, record db { outbox_events = stored_event env e ∷ db.outbox_events })

abbrev pub answered_row : ℕ → Bytes → Uuid → KeyRow → KeyRow
answered_row status body id row = record row {
  response_status = some status;
  response_body = some body;
  transaction_id = some id;
}

-- the largest int, the type of the column response_status
abbrev pub max_int32 : ℕ
max_int32 = 2 ^ 31 - 1

unfoldable pub answer_rows : Claim → ℕ → Bytes → Uuid → List KeyRow → List KeyRow
answer_rows claim status body id [] = []
answer_rows claim status body id (row ∷ rows) =
    (if key_matches claim.key claim.endpoint row then answered_row status body id row else row)
    ∷ answer_rows claim status body id rows

-- UPDATE idempotency_keys SET response_status, response_body = $4::json, transaction_id
unfoldable pub update_claim :
    Env → Claim → ℕ → Bytes → Uuid → Database → Result (Unit {0} × Database)
unfolding answer_rows
update_claim env claim status body id db =
    if ltb max_int32 status
    then refused "integer out of range"
    else if not (env.json_valid body)
    then refused "invalid json"
    else if not (is_some (find_transaction id db))
    then violates idempotency_keys_transaction_id_fkey
    else ok
        (tt, record db { idempotency_keys = answer_rows claim status body id db.idempotency_keys })

-- the generated column signed_amount
abbrev pub signed_by : Direction → ℤ → ℤ
signed_by debit amount = amount
signed_by credit amount = neg amount

abbrev pub signed_column : Entry → ℤ
signed_column e = signed_by e.direction e.amount

-- SELECT COALESCE(SUM(signed_amount), 0), COUNT(*) … WHERE transaction_id = txid
unfoldable pub sum_legs : Uuid → List Entry → ℤ
sum_legs id [] = pos 0
sum_legs id (e ∷ es) =
    if e.transaction_id == id then signed_column e +ℤ sum_legs id es else sum_legs id es

unfoldable pub count_legs : Uuid → List Entry → ℕ
count_legs id [] = 0
count_legs id (e ∷ es) = if e.transaction_id == id then suc (count_legs id es) else count_legs id es

abbrev raise_exception : String → Result (Unit {0})
raise_exception message = refused message

-- The function assert_transaction_balanced, on an inserted entry of the transaction. The sum is
-- assigned to a bigint.
unfoldable pub assert_transaction_balanced : Uuid → Database → Result (Unit {0})
unfolding sum_legs count_legs
assert_transaction_balanced id db =
    if not (fits_int64 (sum_legs id db.ledger_entries))
    then out_of_range
    else if count_legs id db.ledger_entries == 0
    then ok tt
    else if ltb (count_legs id db.ledger_entries) 2
    then raise_exception "at least 2 legs required"
    else if not (eqb_ℤ (sum_legs id db.ledger_entries) (pos 0))
    then raise_exception "transaction is unbalanced"
    else ok tt

abbrev pub and_then : Result (Unit {0}) → Result (Unit {0}) → Result (Unit {0})
and_then (ok _) r = r
and_then (err e) _ = err e

-- the constraint trigger ledger_entries_balanced, deferred to COMMIT
unfoldable pub run_deferred : List Uuid → Database → Result (Unit {0})
unfolding assert_transaction_balanced
run_deferred [] db = ok tt
run_deferred (id ∷ ids) db = and_then (assert_transaction_balanced id db) (run_deferred ids db)
