-- ===== src/Storage/Session.antt =====
-- A connection: the committed database, the working copy of the open transaction, the zero-sum
-- checks deferred to COMMIT, and what the code draws from outside. Everything else that the
-- program does not decide is a field of Env.
pub mod Cases
use go_ledger.Base.{ℕ, suc, String, Bool, Option, none, some, List, [], Bytes, if◌then◌else◌}
use go_ledger.Domain.Errors.{Uuid, Error, opaque, wrap, Result, ok, err}
use go_ledger.Domain.Transaction.{Direction}
use go_ledger.Outbox.Event.{TransactionCreatedPayload}
use go_ledger.Storage.Database.{Database}

-- where the code calls the driver
pub data Site : Type 0 where
  begin claim read_stored lock insert_transaction apply insert_event : Site
  insert_entry : Direction → Site
  store_response select select_entries insert_account : Site
  claim_batch reload read_delivery : Site
  settle deliver : Uuid → Site

-- How a COMMIT can go wrong: the server never ran it, or ran it and its answer was lost.
pub data CommitFault : Type 0 where
  refused ack_lost : String → CommitFault

pub record Env : Type 0 where
  -- what the n-th call of uuid.New returns
  pub new_uuid : ℕ → Uuid
  -- now(), which PostgreSQL keeps fixed within a transaction; in milliseconds
  pub now : ℕ
  -- the driver's error at a call, if there is one
  pub fault : Site → Option String
  pub commit_fault : Option CommitFault
  -- json.Marshal of a payload
  pub marshal : TransactionCreatedPayload → Option Bytes
  -- what a jsonb column gives back for a text, and whether a json column takes one
  pub jsonb : Bytes → Bytes
  pub json_valid : Bytes → Bool
  -- whether a jsonb column takes a text: it refuses what a json column does, and more
  pub jsonb_takes : Bytes → Bool
  -- whether a reference or an endpoint has room in an entry of its unique index
  pub index_takes : String → Bool

pub record Session : Type 0 where
  pub store : Database
  pub tx : Database
  -- the transactions of the entries inserted so far, each to be checked at COMMIT
  pub deferred : List Uuid
  -- how many ids have been drawn
  pub drawn : ℕ
  -- the sequence of outbox_deliveries.id, which a rollback does not turn back
  pub delivery_seq : ℕ

abbrev pub Action : Type 0 → Type 0
Action A = Session → Result A × Session

abbrev pub continue : {A B : Type 0} → Result A × Session → (A → Action B) → Result B × Session
continue (ok a, s) f = f a s
continue (err e, s) f = (err e, s)

infixl 5 ◌>>=◌ ◌>>◌
abbrev pub ◌>>=◌ : {A B : Type 0} → Action A → (A → Action B) → Action B
◌>>=◌ m f s = continue (m s) f

abbrev pub ◌>>◌ : {A B : Type 0} → Action A → Action B → Action B
m >> k = m >>= λ _. k

abbrev pub pure : {A : Type 0} → A → Action A
pure a s = (ok a, s)

abbrev pub raise : {A : Type 0} → Error → Action A
raise e s = (err e, s)

abbrev pub lift : {A : Type 0} → Result A → Action A
lift r s = (r, s)

-- fmt.Errorf("context: %w", err) around a call that fails
abbrev pub contextualise : {A : Type 0} → String → Result A → Result A
contextualise c (ok a) = ok a
contextualise c (err e) = err (wrap c e)

abbrev pub in_context : {A : Type 0} → String → Action A → Action A
in_context c m s = let (r, s') = m s in (contextualise c r, s')

abbrev pub raise_if : Bool → Error → Action (Unit {0})
raise_if b e s = (if b then err e else ok tt, s)

-- A pointer that the code follows: nil panics, and the router's Recoverer answers for it.
abbrev pub deref : {A : Type 0} → Option A → Action A
deref none = raise (opaque "nil pointer dereference")
deref (some a) = pure a

-- A statement of the open transaction.
abbrev pub finish : {A : Type 0} → Option String → Result (A × Database) → Action A
finish none (ok (a, db)) s = (ok a, record s { tx = db })
finish none (err e) s = (err e, s)
finish (some message) r s = (err (opaque message), s)

unfoldable pub exec : {A : Type 0} → Env → Site → (Database → Result (A × Database)) → Action A
exec env site statement s = finish (env.fault site) (statement s.tx) s

-- uuid.New
unfoldable pub draw_uuid : Env → Action Uuid
draw_uuid env s = (ok (env.new_uuid s.drawn), record s { drawn = suc s.drawn })

abbrev pub begun : Option String → Action (Unit {0})
begun none s = (ok tt, record s { tx = s.store; deferred = [] })
begun (some message) s = (err (opaque message), s)

-- pool.BeginTx
unfoldable pub begin_tx : Env → Action (Unit {0})
begin_tx env = begun (env.fault begin)

-- defer tx.Rollback(…), which does nothing after a COMMIT
abbrev pub rolled_back : Session → Session
rolled_back s = record s { tx = s.store; deferred = [] }

abbrev pub with_rollback : {A : Type 0} → Action A → Action A
with_rollback m s = let (r, s') = m s in (r, rolled_back s')

-- the committed database that an action leaves
abbrev pub left_by : {A : Type 0} → Result A × Session → Database
left_by p = p.1.store
