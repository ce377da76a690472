-- ===== src/Storage/Invariant/Posting.antt =====
-- The database that a posted transfer leaves is well formed.
use go_ledger.Base.{
  ℕ, ℤ, pos, neg, ◌+ℤ◌, int_laws, ◌≡◌, ◌≢◌, refl, inl, inr, true, false, none, some, is_some, List,
  ◌∷◌, map, Bytes, ◌==◌, if◌then◌else◌, Option-cases, Bool-cases, ==_iff, ◌||◌, arith,
}
use go_ledger.Base.Table.{find, find_key_lem, find-map-some, find-map-none, Distinct-map}
use go_ledger.Domain.Errors.{Uuid}
use go_ledger.Domain.Account.{Account}
use go_ledger.Domain.Transaction.{Entry, TransferCommand}
use go_ledger.Domain.Idempotency.{Claim, RenderFunc}
use go_ledger.Storage.Database.{Database, find_account, find_transaction}
use go_ledger.Storage.Session.{Env, Session}
use go_ledger.Storage.Statements.{sum_legs, count_legs, stored_event}
use go_ledger.Storage.Statements.Facts.{move_account}
use go_ledger.Storage.Transfer.Cases.{debit_entry, credit_entry}
use go_ledger.Storage.Transfer.Prepared.{event_of}
use go_ledger.Storage.Transfer.{transaction_row}
use go_ledger.Storage.Keys.{answer_rows-claimed}
use go_ledger.Storage.Transfer.Outcome.{Posted}
use go_ledger.Storage.Invariant.{posted, balance_or_zero, count_events, WellFormed}

move_account-id :
    (env : Env) (d c : Uuid) (amount : ℤ) (a : Account) → (move_account env d c amount a).id ≡ a.id
move_account-id env d c amount a = ground arith

known-ne :
    (db : Database) (known id : Uuid)
    → is_some (find_account known db) ≡ true
    → find_account id db ≡ none
    → (known == id) ≡ false
known-ne db known id k missing = elim (Bool-cases (known == id)) [
  | inl same ↦
      let eq : known ≡ id = (==_iff known id).0 same in
      let absent : find_account known db ≡ none = rw eq missing in
      let wrong : false ≡ true = rw absent at k in absurd (cc)
  | inr differ ↦ differ
]

-- one account's balance with the two new legs, and with the update
legs-move :
    (d c id : Uuid) (amount balance : ℤ)
    → d ≢ c
    → (if c == id
        then neg amount +ℤ (if d == id then amount +ℤ balance else balance)
        else (if d == id then amount +ℤ balance else balance))
      ≡ (if id == d || id == c
          then balance +ℤ (if id == d then amount else neg amount)
          else balance)
legs-move d c id amount balance differ = grind int_laws

module _ (env : Env) (cmd : TransferCommand) (n : ℕ) (db : Database) where
  abbrev move : Account → Account
  move = move_account env cmd.debit_account_id cmd.credit_account_id cmd.amount

  abbrev entries_after : List Entry
  entries_after = credit_entry env cmd n ∷ debit_entry env cmd n ∷ db.ledger_entries

  posted-posting :
      cmd.debit_account_id ≢ cmd.credit_account_id
      → is_some (find_account cmd.debit_account_id db) ≡ true
      → is_some (find_account cmd.credit_account_id db) ≡ true
      → (id : Uuid) → posted id db.ledger_entries ≡ balance_or_zero (find_account id db)
      → posted id entries_after
        ≡ balance_or_zero (find (λ (a : Account). a.id) id (map move db.accounts))
  unfolding posted
  posted-posting differ debit_known credit_known id cached =
      elim (Option-cases (find_account id db)) [
        | inl missing ↦
            rw
              (find-map-none (λ (a : Account). a.id) move (move_account-id env _ _ _) id db.accounts
                missing)
              (rw (known-ne db cmd.debit_account_id id debit_known missing) (
                rw (known-ne db cmd.credit_account_id id credit_known missing)
                  (rw missing at cached)))
        | inr (a, found) ↦
            rw
              (find-map-some (λ (a : Account). a.id) move (move_account-id env _ _ _) id db.accounts
                a found)
              (rw (rw found at cached) (
                ground (
                  arith,
                  find_key_lem (λ (a : Account). a.id) id db.accounts a found,
                  legs-move cmd.debit_account_id cmd.credit_account_id id cmd.amount a.balance
                      differ,
                )))
      ]

  -- The two new legs cancel, and belong to the new transaction alone.
  pub sum_legs-posting :
      (id : Uuid) → sum_legs id db.ledger_entries ≡ pos 0 → sum_legs id entries_after ≡ pos 0
  unfolding sum_legs
  sum_legs-posting id zero_sum = grind int_laws

  pub count_legs-posting :
      (id : Uuid)
      → find_transaction (env.new_uuid n) db ≡ none
      → count_legs id db.ledger_entries ≡ (if is_some (find_transaction id db) then 2 else 0)
      → count_legs id entries_after ≡ (
          if is_some (
            if env.new_uuid n == id
            then some (transaction_row env (env.new_uuid n) cmd)
            else find_transaction id db)
          then 2
          else 0)
  unfolding count_legs
  count_legs-posting id fresh legs = ground arith

  count_events-posting :
      (id : Uuid) (payload : Bytes)
      → find_transaction (env.new_uuid n) db ≡ none
      → count_events id db.outbox_events ≡ (if is_some (find_transaction id db) then 1 else 0)
      → count_events id (stored_event env (event_of env cmd n payload) ∷ db.outbox_events) ≡ (
          if is_some (
            if env.new_uuid n == id
            then some (transaction_row env (env.new_uuid n) cmd)
            else find_transaction id db)
          then 1
          else 0)
  unfolding count_events
  count_events-posting id payload fresh events = ground arith

-- A posted transfer between two different accounts keeps the database well formed.
pub Posted-WellFormed :
    (env : Env) (cmd : TransferCommand) (claim : Claim) (render : RenderFunc) (s : Session)
    (status : ℕ) (body : Bytes) (after : Database)
    → cmd.debit_account_id ≢ cmd.credit_account_id
    → WellFormed s.store
    → Posted env cmd claim render s status body after
    → WellFormed after
Posted-WellFormed env cmd claim render s status body after differ valid posted_transfer =
    let written = posted_transfer.accepted.written in
    rw posted_transfer.database (record {
      accounts_distinct =
          Distinct-map (λ (a : Account). a.id) (move env cmd n db) (move_account-id env _ _ _)
            db.accounts valid.accounts_distinct;
      allowed = posted_transfer.accepted.still_allowed valid.allowed;
      cached = λ id.
          posted-posting env cmd n db differ written.debit_known written.credit_known id
            (valid.cached id);
      zero_sum = λ id. sum_legs-posting env cmd n db id (valid.zero_sum id);
      two_legs =
          λ id. count_legs-posting env cmd n db id written.new_transaction (valid.two_legs id);
      one_event = λ id.
          count_events-posting env cmd n db id posted_transfer.payload written.new_transaction
            (valid.one_event id);
      answered =
          rw
            (answer_rows-claimed env claim status body (env.new_uuid n) db.idempotency_keys
              posted_transfer.new_key)
            (refl, valid.answered);
    })
  where
    n : ℕ
    n = s.drawn

    db : Database
    db = s.store
