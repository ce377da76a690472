-- ===== src/System/Cases.antt =====
-- What one call of the system can leave in the database: the ledger as it was, a new account, or a
-- posted transfer.
use go_ledger.Base.{ℕ, ◌≡◌, ◌≢◌, refl, pos, none, List, [], ◌∷◌, Bytes, Bool, inl, inr}
use go_ledger.Domain.Errors.{Uuid, Result, ok, err}
use go_ledger.Domain.Account.{Account}
use go_ledger.Domain.Transaction.{TransferCommand}
use go_ledger.Domain.Idempotency.{Claim, RenderFunc}
use go_ledger.Outbox.Event.{Event, Delivery, envelope, relay}
use go_ledger.Storage.Accounts.{stamped}
use go_ledger.Storage.Database.{Database, find_account}
use go_ledger.Storage.Session.{Env, Session}
use go_ledger.Storage.Outbox.{Publisher}
use go_ledger.Storage.Outbox.Settle.{settled_session}
use go_ledger.Storage.Outbox.Batch.{settled_all}
use go_ledger.Storage.Outbox.Dispatch.{claimed_batch, Ended, dispatch_batch-Ends}
use go_ledger.Storage.Outbox.Replay.{Replayed, replay_event-Replays}
use go_ledger.Storage.Transfer.Outcome.{Posted}
use go_ledger.Service.Cases.{serve_cases}
use go_ledger.System.{Call, requests, dispatches, replays, perform_call, perform_all, IsSound}
use go_ledger.System.Outbox.{perform_call-IsSound}

-- Only the outbox has changed.
abbrev pub SameLedger : Database → Database → Type 0
SameLedger db db' =
    (db'.accounts ≡ db.accounts)
    × (db'.transactions ≡ db.transactions)
    × (db'.ledger_entries ≡ db.ledger_entries)
    × (db'.idempotency_keys ≡ db.idempotency_keys)

unchanged-SameLedger : (db db' : Database) → db' ≡ db → SameLedger db db'
unchanged-SameLedger db db' same = rw same (refl, refl, refl, refl)

settled_all-SameLedger :
    (env : Env) (publish : Publisher) (batch : List Event) (s : Session)
    → SameLedger s.tx (settled_all env publish batch s).tx
unfolding settled_all
settled_all-SameLedger env publish [] s = (refl, refl, refl, refl)
settled_all-SameLedger env publish (e ∷ batch) s =
    settled_all-SameLedger env publish batch (settled_session env e (publish (envelope e)) relay s)

Ended-SameLedger :
    (env : Env) (held : Uuid → Bool) (limit : ℕ) (publish : Publisher) (s : Session) (r : Result ℕ)
    (db : Database)
    → Ended env held limit publish s r db
    → SameLedger s.store db
Ended-SameLedger env held limit publish s (ok n) db (_, same) =
    rw same (settled_all-SameLedger env publish (claimed_batch env held limit publish s) _)
Ended-SameLedger env held limit publish s (err x) db (inl same) =
    unchanged-SameLedger s.store db same
Ended-SameLedger env held limit publish s (err x) db (inr (_, same)) =
    rw same (settled_all-SameLedger env publish (claimed_batch env held limit publish s) _)

Replayed-SameLedger :
    (env : Env) (id : Uuid) (publish : Publisher) (s : Session) (sound : IsSound s.store)
    (r : Result (Event × Delivery)) (db : Database)
    → Replayed env id publish s sound.outbox r db
    → SameLedger s.store db
Replayed-SameLedger env id publish s sound (ok _) db (settled, _, _, _) =
    rw settled.database (refl, refl, refl, refl)
Replayed-SameLedger env id publish s sound (err x) db (inl same) =
    unchanged-SameLedger s.store db same
Replayed-SameLedger env id publish s sound (err x) db (inr (_, settled)) =
    rw settled.database (refl, refl, refl, refl)

pub perform_call_cases :
    (P : Database → Type 0) (s : Session) (c : Call)
    → IsSound s.store
    → P s.store
    → ((env : Env) (a : Account)
        → a.balance ≡ pos 0
        → find_account a.id s.store ≡ none
        → P (record s.store { accounts = stamped env a ∷ s.store.accounts }))
    → ((env : Env) (cmd : TransferCommand) (claim : Claim) (render : RenderFunc) (status : ℕ)
          (body : Bytes) (after : Database)
        → cmd.debit_account_id ≢ cmd.credit_account_id
        → Posted env cmd claim render s status body after
        → P after)
    → ((db : Database) → SameLedger s.store db → P db)
    → P (perform_call s c).store
unfolding perform_call
perform_call_cases P s (requests r) sound kept opens_it posts_it outbox =
    serve_cases P s r kept opens_it posts_it
perform_call_cases P s (dispatches env held limit publish) sound kept opens_it posts_it outbox =
    outbox _
      (Ended-SameLedger env held limit publish s _ _ (dispatch_batch-Ends env held limit publish s))
perform_call_cases P s (replays env id publish) sound kept opens_it posts_it outbox = outbox _ (
    Replayed-SameLedger env id publish s sound _ _
      (replay_event-Replays env id publish s sound.outbox))

-- So a property that each of these changes keeps holds after any sequence of calls.
pub perform_all_cases :
    (P : Database → Type 0)
    → ((env : Env) (a : Account) (db : Database)
        → a.balance ≡ pos 0
        → find_account a.id db ≡ none
        → P db
        → P (record db { accounts = stamped env a ∷ db.accounts }))
    → ((env : Env) (cmd : TransferCommand) (claim : Claim) (render : RenderFunc) (s : Session)
          (status : ℕ) (body : Bytes) (after : Database)
        → IsSound s.store
        → cmd.debit_account_id ≢ cmd.credit_account_id
        → Posted env cmd claim render s status body after
        → P s.store
        → P after)
    → ((db db' : Database) → SameLedger db db' → P db → P db')
    → (s : Session) (calls : List Call) → IsSound s.store
    → P s.store
    → P (perform_all s calls).store
unfolding perform_all
perform_all_cases P opens_it posts_it outbox s [] sound held = held
perform_all_cases P opens_it posts_it outbox s (c ∷ calls) sound held =
    perform_all_cases P opens_it posts_it outbox (perform_call s c) calls
      (perform_call-IsSound s c sound)
      (perform_call_cases P s c sound held
        (λ env a zero_balance fresh. opens_it env a s.store zero_balance fresh held)
        (λ env cmd claim render status body after differ posting.
          posts_it env cmd claim render s status body after sound differ posting held)
        (λ db same. outbox s.store db same held))
