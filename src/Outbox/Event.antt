-- ===== src/Outbox/Event.antt =====
-- internal/outbox/event.go
pub mod Created
use go_ledger.Base.{
  ℕ, ℤ, String, Bool, Option, none, some, List, [], ◌∷◌, map, Bytes, if◌then◌else◌,
}
use go_ledger.Domain.Errors.{Uuid, Result, ok, err, opaque, wrap}
use go_ledger.Domain.Transaction.{Entry, Transaction, direction_text}

abbrev pub schema_version : ℕ
schema_version = 1

abbrev pub producer : String
producer = "sumzero"

abbrev pub event_type_transaction_created : String
event_type_transaction_created = "ledger.transaction.created"

abbrev pub aggregate_transaction : String
aggregate_transaction = "transaction"

pub record Aggregate : Type 0 where
  pub type : String
  pub id : Uuid

pub record Envelope : Type 0 where
  pub event_id : Uuid
  pub event_type : String
  pub schema_version : ℕ
  pub occurred_at : ℕ
  pub producer : String
  pub aggregate : Aggregate
  pub payload : Bytes

pub record EntryPayload : Type 0 where
  pub account_id : Uuid
  pub direction : String
  pub amount : ℤ

pub record TransactionCreatedPayload : Type 0 where
  pub transaction_id : Uuid
  pub currency : String
  pub external_ref : Option String
  pub description : String
  pub entries : List EntryPayload

pub data Status : Type 0 where
  pending published failed : Status

pub record Event : Type 0 where
  pub id : Uuid
  pub aggregate_type : String
  pub aggregate_id : Uuid
  pub event_type : String
  pub schema_version : ℕ
  pub payload : Bytes
  pub status : Status
  pub attempts : ℕ
  pub last_error : Option String
  pub available_at : ℕ
  pub published_at : Option ℕ
  pub created_at : ℕ

unfoldable pub envelope : Event → Envelope
envelope e = record {
  event_id = e.id;
  event_type = e.event_type;
  schema_version = e.schema_version;
  occurred_at = e.created_at;
  producer = producer;
  aggregate = record { type = e.aggregate_type; id = e.aggregate_id };
  payload = e.payload;
}

abbrev pub entry_payload : Entry → EntryPayload
entry_payload e = record {
  account_id = e.account_id;
  direction = direction_text e.direction;
  amount = e.amount;
}

abbrev pub created_payload : Transaction → TransactionCreatedPayload
created_payload t = record {
  transaction_id = t.id;
  currency = t.currency;
  external_ref = t.external_ref;
  description = t.description;
  entries = map entry_payload t.entries;
}

-- The fields that the source leaves out are zero values; the database fills three of them.
abbrev pub pending_event : Uuid → Transaction → Bytes → Event
pending_event id t payload = record {
  id = id;
  aggregate_type = aggregate_transaction;
  aggregate_id = t.id;
  event_type = event_type_transaction_created;
  schema_version = schema_version;
  payload = payload;
  status = pending;
  attempts = 0;
  last_error = none;
  available_at = 0;
  published_at = none;
  created_at = 0;
}

-- NewTransactionCreated: `marshal` is json.Marshal, `id` what uuid.New returns.
unfoldable pub new_transaction_created :
    (TransactionCreatedPayload → Option Bytes) → Uuid → Transaction → Result Event
new_transaction_created marshal id t = elim (marshal (created_payload t)) [
  | none ↦ err (wrap "marshal transaction.created payload" (opaque "json"))
  | some payload ↦ ok (pending_event id t payload)
]

pub data Trigger : Type 0 where
  relay manual_replay : Trigger

pub record Delivery : Type 0 where
  pub id : ℕ
  pub event_id : Uuid
  pub attempted_at : ℕ
  pub succeeded : Bool
  pub trigger : Trigger
  pub error : Option String
