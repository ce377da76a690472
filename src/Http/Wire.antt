-- ===== src/Http/Wire.antt =====
-- The bodies of internal/httpapi: what accounts.go, transactions.go and events.go decode and encode.
use go_ledger.Base.{ℕ, ℤ, String, Bool, Option, none, some, List, map}
use go_ledger.Domain.Errors.{Uuid}
use go_ledger.Domain.Account.{Account}
use go_ledger.Domain.Transaction.{Entry, Transaction, direction_text}
use go_ledger.Outbox.Event.{
  Status, pending, published, failed, Event, Envelope, envelope, Trigger, relay, manual_replay,
  Delivery,
}

-- createAccountRequest
pub record CreateAccountRequest : Type 0 where
  pub name : String
  pub kind : String
  pub currency : String
  pub allow_negative_balance : Bool

-- accountResponse
pub record AccountResponse : Type 0 where
  pub id : Uuid
  pub name : String
  pub kind : String
  pub currency : String
  pub balance : ℤ
  pub allow_negative_balance : Bool
  pub created_at : String
  pub updated_at : String

-- createTransactionRequest
pub record CreateTransactionRequest : Type 0 where
  pub debit_account_id : String
  pub credit_account_id : String
  pub amount : ℤ
  pub currency : String
  pub description : String
  pub external_ref : Option String

-- entryResponse
pub record EntryResponse : Type 0 where
  pub id : Uuid
  pub account_id : Uuid
  pub direction : String
  pub amount : ℤ
  pub currency : String

-- transactionResponse
pub record TransactionResponse : Type 0 where
  pub id : Uuid
  pub external_ref : Option String
  pub description : String
  pub currency : String
  pub created_at : String
  pub entries : List EntryResponse

-- deliveryResponse
pub record DeliveryResponse : Type 0 where
  pub attempted_at : String
  pub succeeded : Bool
  pub trigger : String
  pub error : Option String

-- eventResponse; a list without deliveries is left out of the encoding.
pub record EventResponse : Type 0 where
  pub event_id : Uuid
  pub event_type : String
  pub schema_version : ℕ
  pub status : String
  pub attempts : ℕ
  pub last_error : Option String
  pub created_at : String
  pub published_at : Option String
  pub envelope : Envelope
  pub deliveries : List DeliveryResponse

-- string(e.Status)
abbrev pub status_text : Status → String
status_text pending = "pending"
status_text published = "published"
status_text failed = "failed"

-- TriggerRelay and TriggerManualReplay
abbrev pub trigger_text : Trigger → String
trigger_text relay = "relay"
trigger_text manual_replay = "manual_replay"

-- the body of the loop of newTransactionResponse
abbrev pub entry_response : Entry → EntryResponse
entry_response e = record {
  id = e.id;
  account_id = e.account_id;
  direction = direction_text e.direction;
  amount = e.amount;
  currency = e.currency;
}

-- `format` is t.UTC().Format(timeFormat).
module _ (format : ℕ → String) where
  -- newAccountResponse
  unfoldable pub new_account_response : Account → AccountResponse
  new_account_response a = record {
    id = a.id;
    name = a.name;
    kind = a.kind;
    currency = a.currency;
    balance = a.balance;
    allow_negative_balance = a.allow_negative_balance;
    created_at = format a.created_at;
    updated_at = format a.updated_at;
  }

  -- newTransactionResponse
  unfoldable pub new_transaction_response : Transaction → TransactionResponse
  new_transaction_response t = record {
    id = t.id;
    external_ref = t.external_ref;
    description = t.description;
    currency = t.currency;
    created_at = format t.created_at;
    entries = map entry_response t.entries;
  }

  -- newDeliveryResponse
  unfoldable pub new_delivery_response : Delivery → DeliveryResponse
  new_delivery_response d = record {
    attempted_at = format d.attempted_at;
    succeeded = d.succeeded;
    trigger = trigger_text d.trigger;
    error = d.error;
  }

  abbrev format_option : Option ℕ → Option String
  format_option none = none
  format_option (some t) = some (format t)

  -- newEventResponse
  unfoldable pub new_event_response : Event → List Delivery → EventResponse
  unfolding new_delivery_response
  new_event_response e deliveries = record {
    event_id = e.id;
    event_type = e.event_type;
    schema_version = e.schema_version;
    status = status_text e.status;
    attempts = e.attempts;
    last_error = e.last_error;
    created_at = format e.created_at;
    published_at = format_option e.published_at;
    envelope = envelope e;
    deliveries = map new_delivery_response deliveries;
  }
