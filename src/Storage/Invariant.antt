-- ===== src/Storage/Invariant.antt =====
-- What holds of the committed database between requests.
pub mod Posting
pub mod Opening
use go_ledger.Base.{
  ℕ, suc, ℤ, pos, neg, ◌+ℤ◌, ◌≤ℤ◌, ◌<ℤ◌, int_laws, ◌≡◌, ◌≢◌, refl, Bool, true, false, Option, none,
  some, is_some, List, [], ◌∷◌, map, All, ◌==◌, if◌then◌else◌, arith,
}
use go_ledger.Base.Table.{find, Distinct}
use go_ledger.Domain.Errors.{Uuid}
use go_ledger.Domain.Account.{Account}
use go_ledger.Domain.Transaction.{Entry}
use go_ledger.Outbox.Event.{Event}
use go_ledger.Storage.Database.{Database, KeyRow, find_account, find_transaction}
use go_ledger.Storage.Statements.{signed_column, sum_legs, count_legs}
use go_ledger.Storage.Statements.Facts.{IsAllowed}

-- SUM(signed_amount) over the entries of one account, the source of truth for its balance
unfoldable pub posted : Uuid → List Entry → ℤ
posted id [] = pos 0
posted id (e ∷ es) = if e.account_id == id then signed_column e +ℤ posted id es else posted id es

abbrev pub balance_or_zero : Option Account → ℤ
balance_or_zero none = pos 0
balance_or_zero (some a) = a.balance

-- how many events are about one aggregate
unfoldable pub count_events : Uuid → List Event → ℕ
count_events id [] = 0
count_events id (e ∷ es) =
    if e.aggregate_id == id then suc (count_events id es) else count_events id es

abbrev pub IsAnswered : KeyRow → Type 0
IsAnswered row = is_some row.response_status ≡ true

pub record WellFormed (db : Database) : Type 0 where
  -- the primary key of accounts, and its CHECK constraint with the range of bigint
  pub accounts_distinct : Distinct (λ (a : Account). a.id) db.accounts
  pub allowed : All IsAllowed db.accounts
  -- the cached balance of an account is the sum of its entries, and without an account there are
  -- none
  pub cached : (id : Uuid) → posted id db.ledger_entries ≡ balance_or_zero (find_account id db)
  -- the entries of every transaction sum to zero, and there are two of them
  pub zero_sum : (id : Uuid) → sum_legs id db.ledger_entries ≡ pos 0
  pub two_legs :
      (id : Uuid)
      → count_legs id db.ledger_entries ≡ (if is_some (find_transaction id db) then 2 else 0)
  -- every transaction has exactly one event, and no event is about anything else
  pub one_event :
      (id : Uuid)
      → count_events id db.outbox_events ≡ (if is_some (find_transaction id db) then 1 else 0)
  -- a committed claim has a response
  pub answered : All IsAnswered db.idempotency_keys
