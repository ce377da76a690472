-- ===== src/Storage/Transfer/Cases.antt =====
-- Case rules for the steps of a transfer: how each can end, with the session written out.
use go_ledger.Base.{
  ◌||◌, ℕ, suc, pos, ◌<ℤ◌, ◌≡◌, refl, sym, ap, Bool, true, false, Option, none, some, is_some, List,
  [], ◌∷◌, String,
}
use go_ledger.Base.Table.{find}
use go_ledger.Domain.Errors.{Uuid, Error, Result, ok, err, ok-injective}
use go_ledger.Domain.Account.{Account}
use go_ledger.Domain.Transaction.{Direction, Entry, Transaction, TransferCommand}
use go_ledger.Storage.Database.{Database, TransactionRow, find_account, find_transaction}
use go_ledger.Storage.Session.{
  Site, Env, Session, Action, continue, contextualise, ◌>>=◌, ◌>>◌, pure, in_context, exec, lift,
  raise_if, deref, draw_uuid,
}
use go_ledger.Storage.Session.Cases.{lift_cases, exec_cases, raise_if_cases, deref_cases}
use go_ledger.Storage.Text.{has_nul, ref_has_nul}
use go_ledger.Storage.Statements.{
  where_any_of, order_by_id, select_for_update, index_takes_ref, insert_transaction_row,
  insert_entry_row, ref_taken, find_entry,
}
use go_ledger.Storage.Statements.Facts.{insert_transaction_row-ok, insert_entry_row-ok}
use go_ledger.Storage.Transfer.{
  entry_context, FoundAccounts, collect, require_found, lock_accounts, insert_legs,
  translate_result, translated, defer_check, transaction_row, entry_row, insert_leg,
  write_transaction,
}

module _ {A B : Type 0} (Q : Result B × Session → Type 0) where
  -- a statement whose error is put in context and translated
  pub written_cases :
      (context : String) (env : Env) (site : Site) (statement : Database → Result (A × Database))
      (f : A → Action B) (s : Session)
      → ((e : Error) → Q (err e, s))
      → ((a : A) (db : Database) → statement s.tx ≡ ok (a, db) → Q (f a (record s { tx = db })))
      → Q ((translated (in_context context (exec env site statement)) >>= f) s)
  written_cases context env site statement f s failed done =
      exec_cases (λ p. Q (continue (translate_result (contextualise context p.0), p.1) f)) env site
        statement s (λ e. failed _) done

  -- a statement whose error is put in context
  pub stated_cases :
      (context : String) (env : Env) (site : Site) (statement : Database → Result (A × Database))
      (f : A → Action B) (s : Session)
      → ((e : Error) → Q (err e, s))
      → ((a : A) (db : Database) → statement s.tx ≡ ok (a, db) → Q (f a (record s { tx = db })))
      → Q ((in_context context (exec env site statement) >>= f) s)
  stated_cases context env site statement f s failed done =
      exec_cases (λ p. Q (continue (contextualise context p.0, p.1) f)) env site statement s
        (λ e. failed _) done

-- the session in which the entry of a leg has been inserted
abbrev pub after_leg : Env → Uuid → TransferCommand → Uuid → Direction → Session → Session
after_leg env tx_id cmd account direction s = record s {
  drawn = suc s.drawn;
  deferred = tx_id ∷ s.deferred;
  tx = record s.tx {
    ledger_entries =
        entry_row env tx_id cmd (env.new_uuid s.drawn) account direction ∷ s.tx.ledger_entries;
  };
}

-- The rows of a transfer whose first id is the n-th that the program draws.
module _ (env : Env) (cmd : TransferCommand) (n : ℕ) where
  abbrev pub debit_entry : Entry
  debit_entry =
      entry_row env (env.new_uuid n) cmd (env.new_uuid (suc n)) cmd.debit_account_id Direction.debit

  abbrev pub credit_entry : Entry
  credit_entry =
      entry_row env (env.new_uuid n) cmd (env.new_uuid (suc (suc n))) cmd.credit_account_id
        Direction.credit

  abbrev pub transaction_of : Transaction
  transaction_of = record {
    id = env.new_uuid n;
    external_ref = cmd.external_ref;
    description = cmd.description;
    currency = cmd.currency;
    created_at = env.now;
    entries = debit_entry ∷ credit_entry ∷ [];
  }

-- what writeTransaction has found when it succeeds
pub record Written (env : Env) (cmd : TransferCommand) (s : Session) : Type 0 where
  pub texts : (has_nul cmd.description || ref_has_nul cmd.external_ref) ≡ false
  pub new_transaction : find_transaction (env.new_uuid s.drawn) s.tx ≡ none
  pub new_ref : ref_taken cmd.external_ref s.tx.transactions ≡ false
  pub ref_indexed : index_takes_ref env cmd.external_ref ≡ true
  pub positive : pos 0 <ℤ cmd.amount
  pub new_debit_entry : find_entry (env.new_uuid (suc s.drawn)) s.tx ≡ none
  pub new_credit_entry :
      find
        (λ (e : Entry). e.id)
        (env.new_uuid (suc (suc s.drawn)))
        (debit_entry env cmd s.drawn ∷ s.tx.ledger_entries)
      ≡ none
  pub debit_known : is_some (find_account cmd.debit_account_id s.tx) ≡ true
  pub credit_known : is_some (find_account cmd.credit_account_id s.tx) ≡ true

abbrev pub written_session : Env → TransferCommand → Session → Session
written_session env cmd s = record s {
  tx = record s.tx {
    transactions = transaction_row env (env.new_uuid s.drawn) cmd ∷ s.tx.transactions;
    ledger_entries =
        credit_entry env cmd s.drawn ∷ debit_entry env cmd s.drawn ∷ s.tx.ledger_entries;
  };
  deferred = env.new_uuid s.drawn ∷ env.new_uuid s.drawn ∷ s.deferred;
  drawn = suc (suc (suc s.drawn));
}

module _ {B : Type 0} (Q : Result B × Session → Type 0) where
  pub insert_leg_cases :
      (env : Env) (tx_id : Uuid) (cmd : TransferCommand) (account : Uuid) (direction : Direction)
      (f : Entry → Action B) (s : Session)
      → ((e : Error) → Q (err e, record s { drawn = suc s.drawn }))
      → (pos 0 <ℤ cmd.amount
          → find_entry (env.new_uuid s.drawn) s.tx ≡ none
          → is_some (find_transaction tx_id s.tx) ≡ true
          → is_some (find_account account s.tx) ≡ true
          → Q (
              f
                (entry_row env tx_id cmd (env.new_uuid s.drawn) account direction)
                (after_leg env tx_id cmd account direction s)))
      → Q ((insert_leg env tx_id cmd (account, direction) >>= f) s)
  unfolding insert_leg draw_uuid
  insert_leg_cases env tx_id cmd account direction f s failed done =
      let row : Entry = entry_row env tx_id cmd (env.new_uuid s.drawn) account direction in
      exec_cases
        (λ p. Q (
          continue
            (continue (translate_result (contextualise (entry_context direction) p.0), p.1)
              (λ _. defer_check tx_id >> pure row))
            f))
        env (Site.insert_entry direction) (insert_entry_row row) (record s { drawn = suc s.drawn })
        (λ e. failed _)
        λ a db e.
          let (positive, fresh, transaction, account_known, eq) =
            insert_entry_row-ok row s.tx db a e in
          rw eq (done positive fresh transaction account_known)

  -- The found map is the one of the locked rows, and holds every id asked for.
  pub lock_accounts_cases :
      (env : Env) (ids : List Uuid) (f : FoundAccounts → Action B) (s : Session)
      → ((e : Error) → Q (err e, s))
      → (let found = collect [] (order_by_id (where_any_of ids s.tx.accounts)) in
          require_found ids found ≡ ok tt → Q (f found s))
      → Q ((lock_accounts env ids >>= f) s)
  unfolding lock_accounts select_for_update
  lock_accounts_cases env ids f s failed done =
      exec_cases (λ p. Q (continue (continue (contextualise "lock accounts" p.0, p.1) (answer)) f))
        env Site.lock (select_for_update ids) s (λ e. failed _)
        λ rows db e.
          let found : List Account = order_by_id (where_any_of ids s.tx.accounts) in
          let same : (found, s.tx) ≡ (rows, db) = ok-injective e in
          let same_rows : rows ≡ found = sym (ap (λ p. p.0) same) in
          let same_db : db ≡ s.tx = sym (ap (λ p. p.1) same) in
          rw (same_rows, same_db)
            (lift_cases (λ p. Q (continue (continue p (λ _. pure (collect [] found))) f))
              (require_found ids (collect [] found)) s (λ e' _. failed e')
              (λ _ all_found. done all_found))
    where
      answer : List Account → Action FoundAccounts
      answer rows = lift (require_found ids (collect [] rows)) >> pure (collect [] rows)

  pub deref_then :
      {A : Type 0} (o : Option A) (f : A → Action B) (s : Session)
      → ((e : Error) → Q (err e, s))
      → ((a : A) → o ≡ some a → Q (f a s))
      → Q ((deref o >>= f) s)
  deref_then o f s failed done = deref_cases (λ p. Q (continue p f)) o s failed done

  pub raise_if_then :
      (b : Bool) (e : Error) (f : Unit {0} → Action B) (s : Session)
      → ((e' : Error) → Q (err e', s))
      → (b ≡ false → Q (f tt s))
      → Q ((raise_if b e >>= f) s)
  raise_if_then b e f s failed done =
      raise_if_cases (λ p. Q (continue p f)) b e s (λ _. failed e) done

  pub lift_then :
      {A : Type 0} (r : Result A) (f : A → Action B) (s : Session)
      → ((e : Error) → Q (err e, s))
      → ((a : A) → r ≡ ok a → Q (f a s))
      → Q ((lift r >>= f) s)
  lift_then r f s failed done = lift_cases (λ p. Q (continue p f)) r s (λ e _. failed e) done

module _ {B : Type 0} (Q : Result B × Session → Type 0) where
  -- the session after the transaction's row and its two entries
  pub write_transaction_cases :
      (env : Env) (cmd : TransferCommand) (f : Transaction → Action B) (s : Session)
      → ((e : Error) (s' : Session) → s'.store ≡ s.store → Q (err e, s'))
      → (Written env cmd s → Q (f (transaction_of env cmd s.drawn) (written_session env cmd s)))
      → Q ((write_transaction env cmd >>= f) s)
  unfolding write_transaction draw_uuid
  write_transaction_cases env cmd f s failed done =
      exec_cases
        (λ p. Q (
          continue
            (continue (translate_result (contextualise "insert transaction" p.0), p.1)
              (insert_legs env cmd (env.new_uuid s.drawn)))
            f))
        env Site.insert_transaction (insert_transaction_row env row)
        (record s { drawn = suc s.drawn }) (λ e. failed _ _ refl)
        λ created db e.
          let (texts, new_id, new_ref, fits, same_time, same_db) =
            insert_transaction_row-ok env row s.tx db created e in
          rw (same_time, same_db)
            (insert_leg_cases (λ p. Q (continue p f)) env row.id cmd cmd.debit_account_id
              Direction.debit _ opened (λ e'. failed e' _ refl)
              λ positive new_debit _ debit_known.
                insert_leg_cases (λ p. Q (continue p f)) env row.id cmd cmd.credit_account_id
                  Direction.credit _
                  (after_leg env row.id cmd cmd.debit_account_id Direction.debit opened)
                  (λ e'. failed e' _ refl)
                  λ _ new_credit _ credit_known. done (record {
                    texts = texts;
                    new_transaction = new_id;
                    new_ref = new_ref;
                    ref_indexed = fits;
                    positive = positive;
                    new_debit_entry = new_debit;
                    new_credit_entry = new_credit;
                    debit_known = debit_known;
                    credit_known = credit_known;
                  }))
    where
      row : TransactionRow
      row = transaction_row env (env.new_uuid s.drawn) cmd

      opened : Session
      opened = record s {
        drawn = suc s.drawn;
        tx = record s.tx { transactions = row ∷ s.tx.transactions };
      }
