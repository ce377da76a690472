-- ===== src/Storage/Transfer/Refusal.antt =====
-- Which transfers the store refuses.
use go_ledger.Base.{◌≡◌, refl, Option, none, some, if◌then◌else◌, Bool-cases, inl, inr}
use go_ledger.Base.Table.{Distinct}
use go_ledger.Domain.Errors.{
  Error, sentinel, annotate, account_not_found, currency_mismatch, insufficient_funds, of_id,
  currencies, shortfall, Result, err,
}
use go_ledger.Domain.Account.{Account}
use go_ledger.Domain.Transaction.{TransferCommand}
use go_ledger.Domain.Idempotency.{Claim, RenderFunc}
use go_ledger.Storage.Database.{Database, find_account, find_key}
use go_ledger.Storage.Session.{Site, Env, Session, begin_tx, exec, rolled_back}
use go_ledger.Storage.Statements.{insert_claim, select_for_update}
use go_ledger.Storage.Transfer.{
  lookup, require_found, lock_accounts, mismatched, uncovered, claim_key, prepare, perform,
  transfer,
}
use go_ledger.Storage.Transfer.Prepared.{locked}
use go_ledger.Storage.Transfer.Locked.{debit_lookup, credit_lookup}
use go_ledger.Storage.Transfer.Retry.{IsCalm}
use go_ledger.Storage.Transfer.Outcome.{claimed}

-- The refusal that the two accounts call for, in the order of the checks.
abbrev pub refusal_of : TransferCommand → Option Account → Option Account → Option Error
refusal_of cmd none credit =
    some (annotate (sentinel account_not_found) (of_id cmd.debit_account_id))
refusal_of cmd (some debit) none =
    some (annotate (sentinel account_not_found) (of_id cmd.credit_account_id))
refusal_of cmd (some debit) (some credit) =
    if mismatched cmd debit credit
    then some (
        annotate (sentinel currency_mismatch)
          (currencies cmd.currency debit.currency credit.currency))
    else if uncovered cmd credit
    then some
        (annotate (sentinel insufficient_funds) (shortfall credit.id credit.balance cmd.amount))
    else none

abbrev pub refusal : TransferCommand → Database → Option Error
refusal cmd db =
    refusal_of cmd (find_account cmd.debit_account_id db) (find_account cmd.credit_account_id db)

refused :
    {A : Type 0} {a b : Error} (s : Session)
    → some a ≡ some b
    → ◌≡◌ {A = Result A × Session} (err a, s) (err b, s)
refused s same = cc

module _ (env : Env) (cmd : TransferCommand) (claim : Claim) (render : RenderFunc)
    (calm : IsCalm env) where
  -- the accounts as they were found decide
  prepare_refuses :
      (s : Session) (debit credit : Option Account) (e : Error)
      → lookup cmd.debit_account_id (locked cmd s.tx) ≡ debit
      → lookup cmd.credit_account_id (locked cmd s.tx) ≡ credit
      → refusal_of cmd debit credit ≡ some e
      → prepare env cmd claim render s ≡ (err e, s)
  unfolding prepare lock_accounts exec select_for_update require_found
  prepare_refuses s none credit e missing found is = rw (calm Site.lock, missing) (refused s is)
  prepare_refuses s (some debit) none e found missing is =
      rw (calm Site.lock, found, missing) (refused s is)
  prepare_refuses s (some debit) (some credit) e found found' is =
      elim (Bool-cases (mismatched cmd debit credit)) [
        | inl differ ↦
            let said : some (
                  annotate (sentinel currency_mismatch)
                    (currencies cmd.currency debit.currency credit.currency))
                ≡ some e =
              rw differ at is in
            rw (calm Site.lock, found, found', found, found', differ) (refused s said)
        | inr same ↦ elim (Bool-cases (uncovered cmd credit)) [
          | inl short ↦
              let said : some (
                    annotate (sentinel insufficient_funds)
                      (shortfall credit.id credit.balance cmd.amount))
                  ≡ some e =
                rw (same, short) at is in
              rw (calm Site.lock, found, found', found, found', same, short) (refused s said)
          | inr covered ↦ let none_said : none ≡ some e = rw (same, covered) at is in cc (none_said)
        ]
      ]

  -- A transfer is refused for its accounts. Over a driver that works, with accounts whose ids are
  -- distinct and a key that is not in use, if an account is missing, a currency differs or the
  -- credited account does not cover the amount, then Transfer returns the error of the first of
  -- these checks that fails, and leaves the database as it was.
  pub transfer_refuses :
      (s : Session) (e : Error)
      → Distinct (λ (a : Account). a.id) s.store.accounts
      → find_key claim.key claim.endpoint s.store.idempotency_keys ≡ none
      → refusal cmd s.store ≡ some e
      → transfer env cmd claim render s ≡ (err e, rolled_back s)
  unfolding transfer begin_tx claim_key exec insert_claim perform find_key
  transfer_refuses s e distinct new_key is =
      rw
        (
          calm Site.begin,
          calm Site.claim,
          new_key,
          prepare_refuses (claimed env claim s) _ _ e
              (debit_lookup cmd (claimed env claim s).tx distinct)
              (credit_lookup cmd (claimed env claim s).tx distinct) is,
        )
        refl
