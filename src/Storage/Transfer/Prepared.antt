-- ===== src/Storage/Transfer/Prepared.antt =====
-- A transfer that reaches its commit: what it has checked, and the working copy it has written.
use go_ledger.Base.{ℕ, suc, ◌≡◌, refl, false, none, some, [], ◌∷◌, map, All, Bytes}
use go_ledger.Domain.Errors.{Error, Result, ok, err}
use go_ledger.Domain.Account.{Account}
use go_ledger.Domain.Transaction.{Transaction, TransferCommand}
use go_ledger.Domain.Idempotency.{Claim, RenderFunc}
use go_ledger.Outbox.Event.{Event, created_payload, pending_event, new_transaction_created}
use go_ledger.Outbox.Event.Created.{new_transaction_created-ok}
use go_ledger.Storage.Database.{Database, find_event}
use go_ledger.Storage.Session.{
  Site, Env, Session, Action, continue, contextualise, ◌>>◌, pure, draw_uuid,
}
use go_ledger.Storage.Session.Cases.{lift_cases}
use go_ledger.Storage.Statements.{
  order_by_id, where_any_of, stored_event, insert_event_row, answer_rows, update_claim,
  update_balances,
}
use go_ledger.Storage.Statements.Facts.{
  insert_event_row-ok, update_claim-ok, update_balances-ok, move_account, IsAllowed,
}
use go_ledger.Storage.Transfer.{
  FoundAccounts, collect, lookup, transaction_row, apply_balances, insert_event, store_response,
  record_answer, record_event, mismatched, uncovered, prepare,
}
use go_ledger.Storage.Transfer.Cases.{
  written_cases, stated_cases, lock_accounts_cases, deref_then, raise_if_then, lift_then,
  debit_entry, credit_entry, transaction_of, Written, written_session, write_transaction_cases,
}

-- the map that lockAccounts returns for the two accounts of a command
abbrev pub locked : TransferCommand → Database → FoundAccounts
locked cmd db =
    collect []
      (order_by_id (where_any_of (cmd.debit_account_id ∷ cmd.credit_account_id ∷ []) db.accounts))

module _ (env : Env) (cmd : TransferCommand) (n : ℕ) where
  abbrev pub event_of : Bytes → Event
  event_of payload =
      pending_event (env.new_uuid (suc (suc (suc n)))) (transaction_of env cmd n) payload

  -- the database that a transfer leaves behind
  abbrev pub posting : Claim → ℕ → Bytes → Bytes → Database → Database
  posting claim status body payload db = record db {
    accounts =
        map (move_account env cmd.debit_account_id cmd.credit_account_id cmd.amount) db.accounts;
    transactions = transaction_row env (env.new_uuid n) cmd ∷ db.transactions;
    ledger_entries = credit_entry env cmd n ∷ debit_entry env cmd n ∷ db.ledger_entries;
    idempotency_keys = answer_rows claim status body (env.new_uuid n) db.idempotency_keys;
    outbox_events = stored_event env (event_of payload) ∷ db.outbox_events;
  }

pub record Accepted (env : Env) (cmd : TransferCommand) (render : RenderFunc) (s : Session)
    (status : ℕ) (body payload : Bytes) : Type 0 where
  pub debit : Account
  pub credit : Account
  pub debit_locked : lookup cmd.debit_account_id (locked cmd s.tx) ≡ some debit
  pub credit_locked : lookup cmd.credit_account_id (locked cmd s.tx) ≡ some credit
  pub same_currency : mismatched cmd debit credit ≡ false
  pub covered : uncovered cmd credit ≡ false
  pub written : Written env cmd s
  pub still_allowed :
      All IsAllowed s.tx.accounts
      → All IsAllowed (
          map
            (move_account env cmd.debit_account_id cmd.credit_account_id cmd.amount)
            s.tx.accounts)
  pub new_event : find_event (env.new_uuid (suc (suc (suc s.drawn)))) s.tx ≡ none
  pub marshalled : env.marshal (created_payload (transaction_of env cmd s.drawn)) ≡ some payload
  pub rendered : render (transaction_of env cmd s.drawn) ≡ ok (status, body)

-- the session that is ready to commit
abbrev pub prepared_session : Env → TransferCommand → Claim → ℕ → Bytes → Bytes → Session → Session
prepared_session env cmd claim status body payload s = record s {
  tx = posting env cmd s.drawn claim status body payload s.tx;
  deferred = env.new_uuid s.drawn ∷ env.new_uuid s.drawn ∷ s.deferred;
  drawn = suc (suc (suc (suc s.drawn)));
}

-- In the three rules below a failed step has left the committed database alone.
record_answer_cases :
    (Q : Result (ℕ × Bytes × Transaction) × Session → Type 0) (env : Env) (claim : Claim)
    (render : RenderFunc) (t : Transaction) (s : Session)
    → ((e : Error) → Q (err e, s))
    → ((status : ℕ) (body : Bytes)
        → render t ≡ ok (status, body)
        → Q (
          ok (status, body, t),
          record s {
            tx = record s.tx {
              idempotency_keys = answer_rows claim status body t.id s.tx.idempotency_keys;
            };
          },
        ))
    → Q (record_answer env claim render t s)
unfolding record_answer store_response
record_answer_cases Q env claim render t s failed done =
    lift_cases (λ p. Q (continue (contextualise "render response for storage" p.0, p.1) store))
      (render t) s (λ e _. failed _)
      λ answer rendered.
        stated_cases Q "store idempotent response" env Site.store_response
          (update_claim env claim answer.0 answer.1 t.id) (λ _. pure (answer.0, answer.1, t)) s
          failed
          λ _ db updated.
            rw ((update_claim-ok env claim answer.0 answer.1 t.id s.tx db updated).2)
              (done answer.0 answer.1 rendered)
  where
    store : ℕ × Bytes → Action (ℕ × Bytes × Transaction)
    store answer = store_response env claim answer.0 answer.1 t.id >> pure (answer.0, answer.1, t)

abbrev with_event : Env → Event → Session → Session
with_event env event s = record s {
  tx = record s.tx { outbox_events = stored_event env event ∷ s.tx.outbox_events };
  drawn = suc s.drawn;
}

record_event_cases :
    (Q : Result (ℕ × Bytes × Transaction) × Session → Type 0) (env : Env) (claim : Claim)
    (render : RenderFunc) (t : Transaction) (s : Session)
    → ((e : Error) (s' : Session) → s'.store ≡ s.store → Q (err e, s'))
    → ((payload : Bytes)
        → env.marshal (created_payload t) ≡ some payload
        → find_event (env.new_uuid s.drawn) s.tx ≡ none
        → Q (
            record_answer env claim render t
              (with_event env (pending_event (env.new_uuid s.drawn) t payload) s)))
    → Q (record_event env claim render t s)
unfolding record_event insert_event draw_uuid
record_event_cases Q env claim render t s failed done =
    lift_then Q (new_transaction_created env.marshal (env.new_uuid s.drawn) t)
      (λ event. insert_event env event >> record_answer env claim render t) drawn
      (λ e. failed e drawn refl)
      λ event created.
        stated_cases Q "insert outbox event" env Site.insert_event (insert_event_row env event)
          (λ _. record_answer env claim render t) drawn (λ e. failed e drawn refl)
          λ _ db inserted.
            let (payload, marshalled, same_event) =
              new_transaction_created-ok env.marshal (env.new_uuid s.drawn) t event created in
            let (_, new_event, same_db) = insert_event_row-ok env event _ s.tx db inserted in
            rw (same_db, same_event) (done payload marshalled (rw same_event at new_event))
  where
    drawn : Session
    drawn = record s { drawn = suc s.drawn }

pub prepare_cases :
    (Q : Result (ℕ × Bytes × Transaction) × Session → Type 0) (env : Env) (cmd : TransferCommand)
    (claim : Claim) (render : RenderFunc) (s : Session)
    → ((e : Error) (s' : Session) → s'.store ≡ s.store → Q (err e, s'))
    → ((status : ℕ) (body payload : Bytes)
        → Accepted env cmd render s status body payload
        → Q (
          ok (status, body, transaction_of env cmd s.drawn),
          prepared_session env cmd claim status body payload s,
        ))
    → Q (prepare env cmd claim render s)
unfolding prepare apply_balances
prepare_cases Q env cmd claim render s failed done =
    lock_accounts_cases Q env _ _ s (λ e. failed e _ refl)
      λ _.
        deref_then Q _ _ s (λ e. failed e _ refl)
          λ debit debit_locked.
            deref_then Q _ _ s (λ e. failed e _ refl)
              λ credit credit_locked.
                raise_if_then Q _ _ _ s (λ e. failed e _ refl)
                  λ same_currency.
                    raise_if_then Q _ _ _ s (λ e. failed e _ refl)
                      λ covered. write_transaction_cases Q env cmd _ s failed λ written.
                        written_cases Q "apply balances" env Site.apply
                          (update_balances env cmd.debit_account_id cmd.credit_account_id
                            cmd.amount)
                          (λ _. record_event env claim render (transaction_of env cmd s.drawn))
                          (written_session env cmd s) (λ e. failed e _ refl)
                          λ _ db updated.
                            let (same_db, still_allowed) =
                              update_balances-ok env _ _ _ _ db updated in
                            rw same_db (
                              record_event_cases Q env claim render _ _
                                (λ e s' same. failed e s' same)
                                λ payload marshalled new_event.
                                  record_answer_cases Q env claim render _ _ (λ e. failed e _ refl)
                                    λ status body rendered. done status body payload (record {
                                      debit = debit;
                                      credit = credit;
                                      debit_locked = debit_locked;
                                      credit_locked = credit_locked;
                                      same_currency = same_currency;
                                      covered = covered;
                                      written = written;
                                      still_allowed = rw same_db at still_allowed;
                                      new_event = new_event;
                                      marshalled = marshalled;
                                      rendered = rendered;
                                    }))
