-- ===== src/Locks.antt =====
-- Transfers that run at once, by the locks that they wait for: Store.Transfer with claimKey,
-- lockAccounts and writeTransaction of internal/storage/postgres/store.go, with DispatchBatch and
-- ReplayEvent of internal/storage/postgres/outbox.go. A process takes its locks one after another
-- and releases all of them when its transaction ends, as PostgreSQL does.
pub mod Ranked
pub mod Progress
pub mod Completion
pub mod Funds
pub mod Overdraft
use go_ledger.Base.{
  ◌≡◌, Bool, true, false, ◌&&◌, ◌||◌, Option, none, some, List, [], ◌∷◌, ◌++◌, map, All, String,
  Bytes, bytes_equal, ◌==◌,
}
use text.Mathlib.Text.{◌==◌ as str_eq}
use go_ledger.Domain.Errors.{Uuid}
use go_ledger.Domain.Account.{Account}
use go_ledger.Domain.Transaction.{TransferCommand}
use go_ledger.Domain.Idempotency.{Claim}
use go_ledger.Storage.Statements.{order_by_id, where_any_of}

-- What a transaction can wait for: the key of an uncommitted claim, a row that another transaction
-- has locked, and an uncommitted external reference.
pub data Lock : Type 0 where
  key_row : Bytes → String → Lock
  account_row : Uuid → Lock
  reference_entry : String → Lock
  event_row : Uuid → Lock

abbrev pub conflicts : Lock → Lock → Bool
conflicts (key_row k endpoint) (key_row k' endpoint') =
    bytes_equal k k' && str_eq endpoint endpoint'
conflicts (account_row id) (account_row id') = id == id'
conflicts (reference_entry ref) (reference_entry ref') = str_eq ref ref'
conflicts (event_row id) (event_row id') = id == id'
conflicts _ _ = false

abbrev pub reference_of : Option String → List Lock
reference_of none = []
reference_of (some ref) = reference_entry ref ∷ []

abbrev pub account_lock : Account → Lock
account_lock a = account_row a.id

-- The locks of a transfer in the order of its statements; `accounts` is the table that its SELECT
-- sees.
unfoldable pub transfer_locks : TransferCommand → Claim → List Account → List Lock
unfolding order_by_id where_any_of
transfer_locks cmd claim accounts =
    key_row claim.key claim.endpoint
    ∷ (map account_lock
          (order_by_id (where_any_of (cmd.debit_account_id ∷ cmd.credit_account_id ∷ []) accounts))
        ++ reference_of cmd.external_ref)

-- ReplayEvent: SELECT … FROM outbox_events WHERE id = $1 FOR UPDATE
abbrev pub replay_locks : Uuid → List Lock
replay_locks id = event_row id ∷ []

-- A transaction, by the locks that it holds and those that it has still to take. The transaction of
-- a relay is polling until it has claimed its batch.
pub data Process : Type 0 where
  running : List Lock → List Lock → Process
  polling : Process
  ended : Process

pub data Call : Type 0 where
  transfers : TransferCommand → Claim → List Account → Call
  replays : Uuid → Call
  dispatches : Call

abbrev pub begun : Call → Process
begun (transfers cmd claim accounts) = running [] (transfer_locks cmd claim accounts)
begun (replays id) = running [] (replay_locks id)
begun dispatches = polling

unfoldable pub any_conflicts : Lock → List Lock → Bool
any_conflicts l [] = false
any_conflicts l (h ∷ held) = conflicts h l || any_conflicts l held

abbrev pub holds : Lock → Process → Bool
holds l (running held wanted) = any_conflicts l held
holds l polling = false
holds l ended = false

unfoldable pub taken : Lock → List Process → Bool
taken l [] = false
taken l (p ∷ ps) = holds l p || taken l ps

-- DispatchBatch: FOR UPDATE SKIP LOCKED takes rows that no other holds, and waits for none.
abbrev pub batch_locks : List Uuid → List Lock
batch_locks ids = map event_row ids

-- A step of a process that goes ahead among the others: it takes its next lock when no other holds
-- it, and commits when it has all; a relay claims a batch.
pub data Advances (others : List Process) : Process → Process → Type 0 where
  takes :
      {held wanted : List Lock} {l : Lock}
      → taken l others ≡ false
      → Advances others (running held (l ∷ wanted)) (running (l ∷ held) wanted)
  commits : {held : List Lock} → Advances others (running held []) ended
  claims :
      (ids : List Uuid)
      → All (λ id. taken (event_row id) others ≡ false) ids
      → Advances others polling (running (batch_locks ids) [])

-- Any step: a process can also end early, with a stored response or an error, or rolled back.
pub data Steps (others : List Process) : Process → Process → Type 0 where
  advances : {p p' : Process} → Advances others p p' → Steps others p p'
  ends : {held wanted : List Lock} → Steps others (running held wanted) ended
  gives_up : Steps others polling ended

-- one process of a list makes a step; `seen` are those before it
pub data OneOf (R : List Process → Process → Process → Type 0)
    : List Process → List Process → List Process → Type 0 where
  this :
      {seen ps : List Process} {p p' : Process}
      → R (seen ++ ps) p p'
      → OneOf R seen (p ∷ ps) (p' ∷ ps)
  later :
      {seen ps ps' : List Process} {p : Process}
      → OneOf R (p ∷ seen) ps ps'
      → OneOf R seen (p ∷ ps) (p ∷ ps')

pub data Reaches : List Process → List Process → Type 0 where
  stays : {ps : List Process} → Reaches ps ps
  goes : {ps ps' ps'' : List Process} → Reaches ps ps' → OneOf Steps [] ps' ps'' → Reaches ps ps''
