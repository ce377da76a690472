-- ===== src/Storage/Invariant/Opening.antt =====
-- A new account with a zero balance keeps the database well formed.
use go_ledger.Base.{
  pos, ◌≡◌, sym, ap, ◌∙◌, none, [], ◌∷◌, ◌==◌, Bool-cases, ==_iff, inl, inr, arith,
}
use go_ledger.Domain.Errors.{ok}
use go_ledger.Domain.Account.{Account}
use go_ledger.Storage.Database.{Database, find_account}
use go_ledger.Storage.Session.{Site, Env, Session, continue, ◌>>◌, pure}
use go_ledger.Storage.Session.Cases.{exec_cases}
use go_ledger.Storage.Transfer.{commit}
use go_ledger.Storage.Transfer.Outcome.{commit_cases}
use go_ledger.Storage.Accounts.{stamped, insert_account_row, create_account}
use go_ledger.Storage.Invariant.{balance_or_zero, WellFormed}

insert_account_row-ok :
    (env : Env) (a created : Account) (db db' : Database)
    → insert_account_row env a db ≡ ok (created, db')
    → (find_account a.id db ≡ none)
      × (created ≡ stamped env a)
      × (db' ≡ record db { accounts = stamped env a ∷ db.accounts })
unfolding insert_account_row
insert_account_row-ok env a created db db' h = ground arith

pub with_account-WellFormed :
    (env : Env) (a : Account) (db : Database)
    → a.balance ≡ pos 0
    → find_account a.id db ≡ none
    → WellFormed db
    → WellFormed (record db { accounts = stamped env a ∷ db.accounts })
with_account-WellFormed env a db zero_balance fresh valid = record {
  accounts_distinct = (fresh, valid.accounts_distinct);
  allowed = (rw zero_balance (omega arith, inr (omega arith)), valid.allowed);
  cached = λ id. elim (Bool-cases (a.id == id)) [
    | inl same ↦
        let absent : find_account id db ≡ none = rw ((==_iff a.id id).0 same) at fresh in
        rw same (valid.cached id ∙ ap balance_or_zero absent ∙ sym zero_balance)
    | inr differ ↦ rw differ (valid.cached id)
  ];
  zero_sum = valid.zero_sum;
  two_legs = valid.two_legs;
  one_event = valid.one_event;
  answered = valid.answered;
}

-- Whatever happens to the statement, it inserts the row of a new id or changes nothing.
pub create_account_cases :
    (P : Database → Type 0) (env : Env) (a : Account) (s : Session)
    → P s.store
    → (find_account a.id s.store ≡ none
        → P (record s.store { accounts = stamped env a ∷ s.store.accounts }))
    → P (create_account env a s).1.store
unfolding create_account
create_account_cases P env a s unchanged inserts =
    exec_cases (λ p. P (continue p (λ created. commit env >> pure created)).1.store) env
      Site.insert_account (insert_account_row env a) (record s { tx = s.store; deferred = [] })
      (λ _. unchanged)
      λ created db inserted.
        let (fresh, _, same) = insert_account_row-ok env a created s.store db inserted in
        let next : P db = rw same (inserts fresh) in
        commit_cases (λ p. P (continue p (λ _. pure created)).1.store) env
          (record s { tx = db; deferred = [] }) (λ _. unchanged) (λ _. next) (λ _ _ _ _. next)
