-- ===== src/System/History.antt =====
-- The ledger is append-only: what has been posted is never changed or removed.
use go_ledger.Base.{
  ℕ, ◌≡◌, refl, sym, ap, ◌∙◌, Option, none, some, List, [], ◌∷◌, ◌++◌, ◌==◌, ==_iff, Bool-cases,
  inl, inr, Bytes, String,
}
use go_ledger.Domain.Errors.{Uuid, Error, ok, ok-injective}
use go_ledger.Domain.Transaction.{Entry, Transaction, TransferCommand}
use go_ledger.Domain.Idempotency.{Claim, RenderFunc}
use go_ledger.Storage.Database.{Database, TransactionRow, find_transaction}
use go_ledger.Storage.Session.{Site, Env, Session}
use go_ledger.Storage.Accounts
use go_ledger.Storage.Accounts.{entries_of, with_entries, with_result, query_result, or_not_found}
use go_ledger.Storage.Transfer.{transaction_row}
use go_ledger.Storage.Transfer.Cases.{debit_entry, credit_entry}
use go_ledger.Storage.Transfer.Outcome.{Posted}
use go_ledger.Storage.Transfer.Retry.{IsCalm}
use go_ledger.Service
use go_ledger.System.{Call, perform_all, IsSound}
use go_ledger.System.Cases.{perform_all_cases}

-- `later` has the transactions and the entries of `earlier`, under newer ones.
pub record Extends (earlier later : Database) : Type 0 where
  pub transactions : List TransactionRow
  pub entries : List Entry
  pub kept_transactions : later.transactions ≡ transactions ++ earlier.transactions
  pub kept_entries : later.ledger_entries ≡ entries ++ earlier.ledger_entries

abbrev new_row : Env → TransferCommand → ℕ → TransactionRow
new_row env cmd n = transaction_row env (env.new_uuid n) cmd

-- Nothing that has been posted is changed or removed: after any sequence of requests, batches of
-- relays and replays, with any faults, the transactions and the entries are those of before, in
-- their order, under the new ones.
pub perform_all-Extends :
    (s : Session) (calls : List Call)
    → IsSound s.store
    → Extends s.store (perform_all s calls).store
perform_all-Extends s calls sound =
    perform_all_cases (Extends s.store)
      (λ env a db zero_balance fresh kept. record {
        transactions = kept.transactions;
        entries = kept.entries;
        kept_transactions = kept.kept_transactions;
        kept_entries = kept.kept_entries;
      })
      (λ env cmd claim render s' status body after sound' differ posting kept. record {
        transactions = new_row env cmd s'.drawn ∷ kept.transactions;
        entries = credit_entry env cmd s'.drawn ∷ debit_entry env cmd s'.drawn ∷ kept.entries;
        kept_transactions =
            ap (λ db. db.transactions) posting.database
            ∙ ap (λ rows. new_row env cmd s'.drawn ∷ rows) kept.kept_transactions;
        kept_entries =
            ap (λ db. db.ledger_entries) posting.database
            ∙ ap (λ rows. credit_entry env cmd s'.drawn ∷ debit_entry env cmd s'.drawn ∷ rows)
                kept.kept_entries;
      })
      (λ db db' same kept. record {
        transactions = kept.transactions;
        entries = kept.entries;
        kept_transactions = same.1 ∙ kept.kept_transactions;
        kept_entries = same.2 ∙ kept.kept_entries;
      })
      s calls sound
      (record { transactions = []; entries = []; kept_transactions = refl; kept_entries = refl })

-- what GetTransaction reads of one transaction
abbrev Reads : Uuid → TransactionRow → List Entry → Database → Type 0
Reads id row entries db =
    (find_transaction id db ≡ some row) × (entries_of id db.ledger_entries ≡ entries)

some_or_none : (o : Option TransactionRow) (row : TransactionRow) → o ≡ some row → o ≡ none → ⊥
some_or_none o row found absent = cc

Posted-Reads :
    (id : Uuid) (row : TransactionRow) (entries : List Entry) (env : Env) (cmd : TransferCommand)
    (claim : Claim) (render : RenderFunc) (s : Session) (status : ℕ) (body : Bytes)
    (after : Database)
    → Posted env cmd claim render s status body after
    → Reads id row entries s.store
    → Reads id row entries after
unfolding entries_of
Posted-Reads id row entries env cmd claim render s status body after posting reads =
    elim (Bool-cases (env.new_uuid s.drawn == id)) [
      | inl same ↦
          let free : find_transaction (env.new_uuid s.drawn) s.store ≡ none =
            posting.accepted.written.new_transaction in
          absurd (
            some_or_none (find_transaction id s.store) row reads.0
              (rw ((==_iff (env.new_uuid s.drawn) id).0 same) at free))
      | inr other ↦ rw (posting.database, other) reads
    ]

-- what a successful GetTransaction has found
read-inversion :
    (context context' : String) (fault fault' : Option String) (row : Option TransactionRow)
    (missing : Error) (entries : List Entry) (t : Transaction)
    → with_result
        (query_result context fault (or_not_found missing row))
        (query_result context' fault' (ok entries))
      ≡ ok t
    → (r : TransactionRow) × (row ≡ some r) × (t ≡ with_entries r entries)
read-inversion context context' none none (some r) missing entries t is =
    (r, refl, sym (ok-injective is))
read-inversion context context' none none none missing entries t is = cc (is)
read-inversion context context' none (some m) (some r) missing entries t is = cc (is)
read-inversion context context' none (some m) none missing entries t is = cc (is)
read-inversion context context' (some m) fault' row missing entries t is = cc (is)

-- A transaction that has been read stays as it was read: if GetTransaction returns it, then after
-- any sequence of requests, batches of relays and replays, with any faults, GetTransaction over a
-- driver that works returns it again, the same in every field and with the same entries.
pub get_transaction_stable :
    (env env' : Env) (id : Uuid) (s : Session) (t : Transaction) (calls : List Call)
    → IsSound s.store
    → (Service.get_transaction env id s).0 ≡ ok t
    → IsCalm env'
    → Service.get_transaction env' id (perform_all s calls) ≡ (ok t, perform_all s calls)
unfolding Service.get_transaction Accounts.get_transaction
get_transaction_stable env env' id s t calls sound read calm =
    let (row, found, is) = read-inversion _ _ _ _ (find_transaction id s.store) _ _ t read in
    let reads : Reads id row (entries_of id s.store.ledger_entries) (perform_all s calls).store =
      perform_all_cases (Reads id row (entries_of id s.store.ledger_entries))
        (λ env a db zero_balance fresh held. held)
        (λ env cmd claim render s' status body after sound' differ posting.
          Posted-Reads id row (entries_of id s.store.ledger_entries) env cmd claim render s' status
            body after posting)
        (λ db db' same held. rw (same.1, same.2) held) s calls sound (found, refl) in
    rw (calm Site.select, calm Site.select_entries, reads.0, reads.1, is) refl
