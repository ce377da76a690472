-- ===== src/Storage/Statements/Facts.antt =====
-- What a statement has checked and changed when it succeeds.
use go_ledger.Base.{
  ℕ, ◌≤◌, ℤ, pos, ◌≤ℤ◌, ◌<ℤ◌, IsInt64, ◌≡◌, refl, ◌⊎◌, inl, inr, true, false, ◌||◌, none, some,
  is_some, List, [], ◌∷◌, map, All, Bytes, ◌==◌, if◌then◌else◌, Option-cases, arith,
}
use go_ledger.Domain.Errors.{Uuid, Result, ok, err}
use go_ledger.Domain.Account.{Account}
use go_ledger.Domain.Transaction.{Entry}
use go_ledger.Domain.Idempotency.{Claim}
use go_ledger.Outbox.Event.{Event}
use go_ledger.Storage.Database.{
  Database, TransactionRow, KeyRow, find_account, find_transaction, find_event, find_key,
}
use go_ledger.Storage.Session.{Env}
use go_ledger.Storage.Text.{has_nul, ref_has_nul}
use go_ledger.Storage.Statements.{
  claimed_row, select_claim, insert_claim, index_takes_ref, max_int32, insert_transaction_row,
  ref_taken, find_entry, insert_entry_row, moved, update_row, cons_result, update_rows,
  with_accounts, update_balances, stored_event, insert_event_row, answer_rows, update_claim,
}

pub insert_transaction_row-ok :
    (env : Env) (row : TransactionRow) (db db' : Database) (created : ℕ)
    → insert_transaction_row env row db ≡ ok (created, db')
    → ((has_nul row.description || ref_has_nul row.external_ref) ≡ false)
      × (find_transaction row.id db ≡ none)
      × (ref_taken row.external_ref db.transactions ≡ false)
      × (index_takes_ref env row.external_ref ≡ true)
      × (created ≡ row.created_at)
      × (db' ≡ record db { transactions = row ∷ db.transactions })
unfolding insert_transaction_row
insert_transaction_row-ok env row db db' created h = ground arith

pub insert_entry_row-ok :
    (e : Entry) (db db' : Database) (created : ℕ)
    → insert_entry_row e db ≡ ok (created, db')
    → (pos 0 <ℤ e.amount)
      × (find_entry e.id db ≡ none)
      × (is_some (find_transaction e.transaction_id db) ≡ true)
      × (is_some (find_account e.account_id db) ≡ true)
      × (db' ≡ record db { ledger_entries = e ∷ db.ledger_entries })
unfolding insert_entry_row
insert_entry_row-ok e db db' created h = ground arith

pub insert_event_row-ok :
    (env : Env) (e e' : Event) (db db' : Database)
    → insert_event_row env e db ≡ ok (e', db')
    → (env.jsonb_takes e.payload ≡ true)
      × (find_event e.id db ≡ none)
      × (db' ≡ record db { outbox_events = stored_event env e ∷ db.outbox_events })
unfolding insert_event_row
insert_event_row-ok env e e' db db' h = ground arith

pub update_claim-ok :
    (env : Env) (claim : Claim) (status : ℕ) (body : Bytes) (id : Uuid) (db db' : Database)
    → update_claim env claim status body id db ≡ ok (tt, db')
    → (status ≤ max_int32)
      × (env.json_valid body ≡ true)
      × (db'
          ≡ record db { idempotency_keys = answer_rows claim status body id db.idempotency_keys })
unfolding update_claim
update_claim-ok env claim status body id db db' h = ground arith

-- An account of the transfer has the new balance, and no other account changes.
abbrev pub move_account : Env → Uuid → Uuid → ℤ → Account → Account
move_account env d c amount a = if a.id == d || a.id == c then moved env d amount a else a

-- what the constraints of accounts say of one row
abbrev pub IsAllowed : Account → Type 0
IsAllowed a = IsInt64 a.balance × ((a.allow_negative_balance ≡ true) ⊎ (pos 0 ≤ℤ a.balance))

pub update_row-ok :
    (env : Env) (d : Uuid) (amount : ℤ) (a a' : Account)
    → update_row env d amount a ≡ ok a'
    → (a' ≡ moved env d amount a) × IsAllowed a'
unfolding update_row
update_row-ok env d amount a a' h = ground arith

cons_result-ok :
    (r : Result Account) (rs : Result (List Account)) (rows : List Account)
    → cons_result r rs ≡ ok rows
    → (a : Account) × (as' : List Account) × (r ≡ ok a) × (rs ≡ ok as') × (rows ≡ a ∷ as')
cons_result-ok (ok a) (ok as') rows h = (a, as', refl, refl, ground arith)
cons_result-ok (ok a) (err e) rows h = cc
cons_result-ok (err e) rs rows h = cc

update_one-ok :
    (env : Env) (d c : Uuid) (amount : ℤ) (a a' : Account)
    → (if a.id == d || a.id == c then update_row env d amount a else ok a) ≡ ok a'
    → (a' ≡ move_account env d c amount a) × (IsAllowed a → IsAllowed a')
update_one-ok env d c amount a a' h = ground (arith, update_row-ok env d amount a a')

pub update_rows-ok :
    (env : Env) (d c : Uuid) (amount : ℤ) (rows rows' : List Account)
    → update_rows env d c amount rows ≡ ok rows'
    → (rows' ≡ map (move_account env d c amount) rows) × (All IsAllowed rows → All IsAllowed rows')
unfolding update_rows
update_rows-ok env d c amount [] rows' h = ground arith
update_rows-ok env d c amount (a ∷ rows) rows' h =
    let (a', as', one, rest, eq) = cons_result-ok _ _ rows' h in
    let (here, kept) = update_one-ok env d c amount a a' one in
    let (there, all_kept) = update_rows-ok env d c amount rows as' rest in
    rw eq (rw (here, there) refl, λ (p, ps). (kept p, all_kept ps))

with_accounts-ok :
    (db : Database) (r : Result (List Account)) (db' : Database)
    → with_accounts db r ≡ ok (tt, db')
    → (rows : List Account) × (r ≡ ok rows) × (db' ≡ record db { accounts = rows })
with_accounts-ok db (ok rows) db' h = (rows, refl, ground arith)
with_accounts-ok db (err e) db' h = cc

pub update_balances-ok :
    (env : Env) (d c : Uuid) (amount : ℤ) (db db' : Database)
    → update_balances env d c amount db ≡ ok (tt, db')
    → (db' ≡ record db { accounts = map (move_account env d c amount) db.accounts })
      × (All IsAllowed db.accounts → All IsAllowed db'.accounts)
unfolding update_balances
update_balances-ok env d c amount db db' h =
    let (rows, updated, same) = with_accounts-ok db _ db' h in
    let (eq, kept) = update_rows-ok env d c amount db.accounts rows updated in
    rw same (rw (← eq) refl, kept)

pub answer_rows_fresh :
    (claim : Claim) (status : ℕ) (body : Bytes) (id : Uuid) (rows : List KeyRow)
    → find_key claim.key claim.endpoint rows ≡ none
    → answer_rows claim status body id rows ≡ rows
unfolding answer_rows find_key
answer_rows_fresh claim status body id [] h = refl
answer_rows_fresh claim status body id (row ∷ rows) h =
    ground (arith, answer_rows_fresh claim status body id rows)

pub select_claim-ok :
    (claim : Claim) (db db' : Database) (row : KeyRow)
    → select_claim claim db ≡ ok (row, db')
    → find_key claim.key claim.endpoint db.idempotency_keys ≡ some row
unfolding select_claim
select_claim-ok claim db db' row h =
    elim (Option-cases (find_key claim.key claim.endpoint db.idempotency_keys)) [
      | inl missing ↦ absurd (ground arith)
      | inr (row', found) ↦ ground arith
    ]

-- The key was taken and nothing is written, or it was free and has a row now.
pub insert_claim-ok :
    (env : Env) (claim : Claim) (db db' : Database) (affected : ℕ)
    → insert_claim env claim db ≡ ok (affected, db')
    → ((affected ≡ 0)
        × ((row : KeyRow) × (find_key claim.key claim.endpoint db.idempotency_keys ≡ some row))
        × (db' ≡ db))
      ⊎ ((affected ≡ 1)
          × (find_key claim.key claim.endpoint db.idempotency_keys ≡ none)
          × (db' ≡ record db { idempotency_keys = claimed_row env claim ∷ db.idempotency_keys }))
unfolding insert_claim
insert_claim-ok env claim db db' affected h =
    elim (Option-cases (find_key claim.key claim.endpoint db.idempotency_keys)) [
      | inl free ↦ inr (ground arith, free, ground arith)
      | inr (row, taken) ↦ inl (ground arith, (row, taken), ground arith)
    ]
