-- ===== src/Storage/Transfer.antt =====
-- Store.Transfer of internal/storage/postgres/store.go, with the helpers that it calls.
pub mod Cases
pub mod Prepared
pub mod Outcome
pub mod Retry
pub mod Locked
pub mod Refusal
pub mod Success
pub mod Room
pub mod Complete
use go_ledger.Base.{
  ℕ, ℤ, ltb_ℤ, String, Bool, true, false, not, ◌&&◌, ◌||◌, Option, none, some, is_some, List, [],
  ◌∷◌, Bytes, bytes_equal, ◌==◌, if◌then◌else◌,
}
use go_ledger.Base.Table.{find}
use text.Mathlib.Text.{◌==◌ as str_eq}
use go_ledger.Domain.Errors
use go_ledger.Domain.Errors.{
  Uuid, Constraint, PgError, Error, sentinel, opaque, wrap, annotate, currencies, shortfall, of_id,
  of_key, account_not_found, currency_mismatch, insufficient_funds, duplicate_external_ref,
  invalid_amount, idempotency_key_reuse, as_pg_error, Result, ok, err,
}
use go_ledger.Domain.Account.{Account}
use go_ledger.Domain.Transaction.{Direction, Entry, Transaction, TransferCommand}
use go_ledger.Domain.Idempotency.{Claim, RenderFunc, TransferResult}
use go_ledger.Outbox.Event.{Event, new_transaction_created}
use go_ledger.Storage.Database.{Database, TransactionRow, KeyRow}
use go_ledger.Storage.Session.{
  Site, Env, Session, Action, CommitFault, refused, ack_lost, continue, ◌>>=◌, ◌>>◌, pure, raise,
  lift, in_context, raise_if, deref, exec, draw_uuid, begin_tx, with_rollback,
}
use go_ledger.Storage.Statements.{
  insert_claim, select_claim, select_for_update, insert_transaction_row, insert_entry_row,
  update_balances, insert_event_row, update_claim, run_deferred,
}

-- The switch of translateWriteError on the constraint's name.
abbrev translate_constraint : Constraint → Error → Error
translate_constraint Constraint.transactions_external_ref_key e = sentinel duplicate_external_ref
translate_constraint Constraint.ledger_entries_amount_check e = sentinel invalid_amount
translate_constraint Constraint.accounts_balance_floor e = sentinel insufficient_funds
translate_constraint _ e = e

unfoldable pub translate_write_error : Error → Error
unfolding as_pg_error
translate_write_error e = elim (as_pg_error e) [
  | none ↦ e
  | some pg ↦ translate_constraint pg.constraint_name e
]

abbrev pub translate_result : {A : Type 0} → Result A → Result A
translate_result (ok a) = ok a
translate_result (err e) = err (translate_write_error e)

abbrev pub translated : {A : Type 0} → Action A → Action A
translated m s = let (r, s') = m s in (translate_result r, s')

-- whether the claim is this transaction's: tag.RowsAffected() == 1
unfoldable pub claim_key : Env → Claim → Action Bool
claim_key env claim = do
  affected ← in_context "claim idempotency key" (exec env Site.claim (insert_claim env claim))
  pure (affected == 1)

-- The status is a nullable column, and so is the body, which is then an empty slice.
abbrev pub body_or_empty : Option Bytes → Bytes
body_or_empty none = []
body_or_empty (some body) = body

abbrev pub stored_result : Option ℕ → Option Bytes → Action TransferResult
stored_result none body = raise (opaque "internal: idempotency key committed without a response")
stored_result (some status) body =
    pure
      (record { status = status; body = body_or_empty body; replayed = true; transaction = none })

unfoldable pub replay_stored_response : Env → Claim → Action TransferResult
replay_stored_response env claim = do
  row ←
      in_context "read stored idempotent response" (exec env Site.read_stored (select_claim claim))
  raise_if (not (bytes_equal row.request_hash claim.fingerprint))
      (annotate (sentinel idempotency_key_reuse) (of_key claim.key))
  stored_result row.response_status row.response_body

abbrev pub FoundAccounts : Type 0
FoundAccounts = List (Uuid × Account)

-- found[a.ID] = &a, for each row
unfoldable pub collect : FoundAccounts → List Account → FoundAccounts
collect found [] = found
collect found (a ∷ rows) = collect ((a.id, a) ∷ found) rows

unfoldable pub lookup : Uuid → FoundAccounts → Option Account
lookup id [] = none
lookup id ((k, a) ∷ found) = if k == id then some a else lookup id found

-- the loop that names the first missing account
unfoldable pub require_found : List Uuid → FoundAccounts → Result (Unit {0})
unfolding lookup
require_found [] found = ok tt
require_found (id ∷ ids) found =
    if is_some (lookup id found)
    then require_found ids found
    else err (annotate (sentinel account_not_found) (of_id id))

unfoldable pub lock_accounts : Env → List Uuid → Action FoundAccounts
unfolding collect require_found
lock_accounts env ids = do
  rows ← in_context "lock accounts" (exec env Site.lock (select_for_update ids))
  lift (require_found ids (collect [] rows))
  pure (collect [] rows)

abbrev pub transaction_row : Env → Uuid → TransferCommand → TransactionRow
transaction_row env id cmd = record {
  id = id;
  external_ref = cmd.external_ref;
  description = cmd.description;
  currency = cmd.currency;
  created_at = env.now;
}

abbrev pub entry_row : Env → Uuid → TransferCommand → Uuid → Uuid → Direction → Entry
entry_row env tx_id cmd id account direction = record {
  id = id;
  transaction_id = tx_id;
  account_id = account;
  direction = direction;
  amount = cmd.amount;
  currency = cmd.currency;
  created_at = env.now;
}

-- An inserted entry queues a check of its transaction.
abbrev pub defer_check : Uuid → Action (Unit {0})
defer_check id s = (ok tt, record s { deferred = id ∷ s.deferred })

abbrev pub entry_context : Direction → String
entry_context Direction.debit = "insert debit entry"
entry_context Direction.credit = "insert credit entry"

-- one round of the loop over the legs
unfoldable pub insert_leg : Env → Uuid → TransferCommand → Uuid × Direction → Action Entry
insert_leg env tx_id cmd (account, direction) = do
  id ← draw_uuid env
  translated (
      in_context (entry_context direction) (
        exec env (Site.insert_entry direction)
          (insert_entry_row (entry_row env tx_id cmd id account direction))))
  defer_check tx_id
  pure (entry_row env tx_id cmd id account direction)

-- The loop over the two legs, and the transaction that writeTransaction returns.
abbrev pub insert_legs : Env → TransferCommand → Uuid → ℕ → Action Transaction
insert_legs env cmd id created_at = do
  debited ← insert_leg env id cmd (cmd.debit_account_id, Direction.debit)
  credited ← insert_leg env id cmd (cmd.credit_account_id, Direction.credit)
  pure (record {
    id = id;
    external_ref = cmd.external_ref;
    description = cmd.description;
    currency = cmd.currency;
    created_at = created_at;
    entries = debited ∷ credited ∷ [];
  })

unfoldable pub write_transaction : Env → TransferCommand → Action Transaction
write_transaction env cmd = do
  id ← draw_uuid env
  created_at ← translated (
      in_context "insert transaction" (
        exec env Site.insert_transaction (insert_transaction_row env (transaction_row env id cmd))))
  insert_legs env cmd id created_at

unfoldable pub apply_balances : Env → TransferCommand → Action (Unit {0})
apply_balances env cmd = translated (
    in_context "apply balances" (
      exec env Site.apply
        (update_balances env cmd.debit_account_id cmd.credit_account_id cmd.amount)))

unfoldable pub insert_event : Env → Event → Action Event
insert_event env event =
    in_context "insert outbox event" (exec env Site.insert_event (insert_event_row env event))

unfoldable pub store_response : Env → Claim → ℕ → Bytes → Uuid → Action (Unit {0})
store_response env claim status body id =
    in_context "store idempotent response"
      (exec env Site.store_response (update_claim env claim status body id))

abbrev after_checks : Option CommitFault → Result (Unit {0}) → Action (Unit {0})
after_checks fault (err e) s = (err e, s)
after_checks none (ok _) s = (ok tt, record s { store = s.tx })
after_checks (some (refused message)) (ok _) s = (err (opaque message), s)
after_checks (some (ack_lost message)) (ok _) s = (err (opaque message), record s { store = s.tx })

-- tx.Commit: the deferred trigger runs first.
unfoldable pub commit : Env → Action (Unit {0})
unfolding run_deferred
commit env s = after_checks env.commit_fault (run_deferred s.deferred s.tx) s

abbrev pub mismatched : TransferCommand → Account → Account → Bool
mismatched cmd debit credit =
    not (str_eq debit.currency cmd.currency) || not (str_eq credit.currency cmd.currency)

abbrev pub uncovered : TransferCommand → Account → Bool
uncovered cmd credit = not credit.allow_negative_balance && ltb_ℤ credit.balance cmd.amount

-- Rendering the response and storing it with the claim.
unfoldable pub record_answer :
    Env → Claim → RenderFunc → Transaction → Action (ℕ × Bytes × Transaction)
record_answer env claim render result = do
  answer ← in_context "render response for storage" (lift (render result))
  store_response env claim answer.0 answer.1 result.id
  pure (answer.0, answer.1, result)

-- The outbox event, and then the response. The id is drawn before the payload is marshalled here,
-- which only tells when that fails: the id is then never used.
unfoldable pub record_event :
    Env → Claim → RenderFunc → Transaction → Action (ℕ × Bytes × Transaction)
record_event env claim render result = do
  event_id ← draw_uuid env
  event ← lift (new_transaction_created env.marshal event_id result)
  insert_event env event
  record_answer env claim render result

-- What a request that owns its key does before it commits: the answer and the transaction.
unfoldable pub prepare :
    Env → TransferCommand → Claim → RenderFunc → Action (ℕ × Bytes × Transaction)
unfolding lookup
prepare env cmd claim render = do
  accounts ← lock_accounts env (cmd.debit_account_id ∷ cmd.credit_account_id ∷ [])
  debit ← deref (lookup cmd.debit_account_id accounts)
  credit ← deref (lookup cmd.credit_account_id accounts)
  raise_if (mismatched cmd debit credit) (
      annotate (sentinel currency_mismatch)
        (currencies cmd.currency debit.currency credit.currency))
  raise_if (uncovered cmd credit)
      (annotate (sentinel insufficient_funds) (shortfall credit.id credit.balance cmd.amount))
  result ← write_transaction env cmd
  apply_balances env cmd
  record_event env claim render result

-- The commit, and the result that Transfer returns.
unfoldable pub perform : Env → TransferCommand → Claim → RenderFunc → Action TransferResult
perform env cmd claim render = do
  prepared ← prepare env cmd claim render
  translated (commit env)
  pure (record {
    status = prepared.0;
    body = prepared.1;
    replayed = false;
    transaction = some prepared.2;
  })

unfoldable pub transfer : Env → TransferCommand → Claim → RenderFunc → Action TransferResult
transfer env cmd claim render = with_rollback do
  in_context "begin transfer" (begin_tx env)
  owned ← claim_key env claim
  if owned then perform env cmd claim render else replay_stored_response env claim
