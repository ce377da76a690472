-- ===== src/Storage/Database.antt =====
-- The tables of internal/storage/postgres/migrations (0001_init and 0002), as lists of rows, the
-- newest first. Reads name their order; no code relies on the order of the rows themselves.
use go_ledger.Base.{
  ℕ, String, Bool, ◌&&◌, Option, none, some, List, [], ◌∷◌, Bytes, bytes_equal, if◌then◌else◌,
}
use go_ledger.Base.Table.{find}
use text.Mathlib.Text.{◌==◌ as str_eq}
use go_ledger.Domain.Errors.{Uuid}
use go_ledger.Domain.Account.{Account}
use go_ledger.Domain.Transaction.{Entry}
use go_ledger.Outbox.Event.{Event, Delivery}

-- table transactions
pub record TransactionRow : Type 0 where
  pub id : Uuid
  pub external_ref : Option String
  pub description : String
  pub currency : String
  pub created_at : ℕ

-- table idempotency_keys
pub record KeyRow : Type 0 where
  pub key : Bytes
  pub endpoint : String
  pub request_hash : Bytes
  pub response_status : Option ℕ
  pub response_body : Option Bytes
  pub transaction_id : Option Uuid
  pub created_at : ℕ
  pub expires_at : ℕ

pub record Database : Type 0 where
  pub accounts : List Account
  pub transactions : List TransactionRow
  pub ledger_entries : List Entry
  pub idempotency_keys : List KeyRow
  pub outbox_events : List Event
  pub outbox_deliveries : List Delivery

abbrev pub find_account : Uuid → Database → Option Account
find_account id db = find (λ (a : Account). a.id) id db.accounts

abbrev pub find_transaction : Uuid → Database → Option TransactionRow
find_transaction id db = find (λ (t : TransactionRow). t.id) id db.transactions

abbrev pub find_event : Uuid → Database → Option Event
find_event id db = find (λ (e : Event). e.id) id db.outbox_events

-- the primary key (key, endpoint)
unfoldable pub key_matches : Bytes → String → KeyRow → Bool
key_matches key endpoint row = bytes_equal row.key key && str_eq row.endpoint endpoint

unfoldable pub find_key : Bytes → String → List KeyRow → Option KeyRow
find_key key endpoint [] = none
find_key key endpoint (row ∷ rows) =
    if key_matches key endpoint row then some row else find_key key endpoint rows
