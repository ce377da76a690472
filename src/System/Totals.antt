-- ===== src/System/Totals.antt =====
-- The money of the ledger: in every currency the balances of all accounts sum to zero.
use go_ledger.Base.{
  ℕ, ℤ, pos, neg, ◌+ℤ◌, int_laws, ◌≡◌, ◌≢◌, refl, sym, ◌∙◌, subst, String, Bool, true, false, ◌&&◌,
  ◌||◌, Option, none, some, List, [], ◌∷◌, map, ◌==◌, ==_iff, if◌then◌else◌, Bool-cases, inl, inr,
  Bytes, arith,
}
use go_ledger.Base.Table.{find, Distinct}
use text.Mathlib.Text.{◌==◌ as str_eq}
use text.Mathlib.TextEquality.{eq_iff}
use go_ledger.Domain.Errors.{Uuid}
use go_ledger.Domain.Account.{Account}
use go_ledger.Domain.Transaction.{TransferCommand}
use go_ledger.Domain.Idempotency.{Claim, RenderFunc}
use go_ledger.Storage.Accounts.{stamped}
use go_ledger.Storage.Database.{Database, find_account}
use go_ledger.Storage.Session.{Env, Session}
use go_ledger.Storage.Statements.Facts.{move_account}
use go_ledger.Storage.Transfer.{mismatched}
use go_ledger.Storage.Transfer.Outcome.{Posted, claimed}
use go_ledger.Storage.Transfer.Locked.{debit_lookup, credit_lookup}
use go_ledger.System.{Call, perform_all, IsSound}
use go_ledger.System.Cases.{perform_all_cases}

-- the sum of the balances in a currency
unfoldable pub total : String → List Account → ℤ
total c [] = pos 0
total c (a ∷ rows) = if str_eq a.currency c then a.balance +ℤ total c rows else total c rows

-- what an account with this currency gets, if there is one
abbrev share : String → ℤ → Option Account → ℤ
share c amount none = pos 0
share c amount (some a) = if str_eq a.currency c then amount else pos 0

-- One row that is in the currency or not, debited, credited or neither.
moved-total :
    (amount balance before after debit credit : ℤ) (counted is_d is_e : Bool)
    → after ≡ before +ℤ (debit +ℤ credit)
    → (is_d && is_e) ≡ false
    → (is_d ≡ true → debit ≡ pos 0)
    → (is_e ≡ true → credit ≡ pos 0)
    → (if counted
        then (if is_d || is_e then balance +ℤ (if is_d then amount else neg amount) else balance)
          +ℤ after
        else after)
      ≡ (if counted then balance +ℤ before else before)
        +ℤ ((if is_d then (if counted then amount else pos 0) else debit)
            +ℤ (if is_e then (if counted then neg amount else pos 0) else credit))
moved-total amount balance before after debit credit counted true true tail both no_debit
      no_credit =
    cc (both)
moved-total amount balance before after debit credit true true false tail both no_debit no_credit =
    grind (int_laws, no_debit refl)
moved-total amount balance before after debit credit false true false tail both no_debit no_credit =
    grind (int_laws, no_debit refl)
moved-total amount balance before after debit credit true false true tail both no_debit no_credit =
    grind (int_laws, no_credit refl)
moved-total amount balance before after debit credit false false true tail both no_debit no_credit =
    grind (int_laws, no_credit refl)
moved-total amount balance before after debit credit true false false tail both no_debit no_credit =
    grind int_laws
moved-total amount balance before after debit credit false false false tail both no_debit
      no_credit =
    grind int_laws

abbrev id_of : Account → Uuid
id_of a = a.id

abbrev share_of : String → Uuid → ℤ → List Account → ℤ
share_of c id amount rows = share c amount (find id_of id rows)

absent-share :
    (c : String) (id : Uuid) (amount : ℤ) (a : Account) (rows : List Account)
    → find id_of a.id rows ≡ none
    → (a.id == id) ≡ true
    → share_of c id amount rows ≡ pos 0
absent-share c id amount a rows absent same =
    let gone : find id_of id rows ≡ none =
      subst (λ k. find id_of k rows ≡ none) ((==_iff a.id id).0 same) absent in
    rw gone refl

share-cons :
    (c : String) (id : Uuid) (amount : ℤ) (a : Account) (rows : List Account)
    → share_of c id amount (a ∷ rows) ≡ (
        if a.id == id
        then (if str_eq a.currency c then amount else pos 0)
        else share_of c id amount rows)
share-cons c id amount a rows = elim (Bool-cases (a.id == id)) [
  | inl same ↦ rw same refl
  | inr other ↦ rw other refl
]

move-balance :
    (env : Env) (d e : Uuid) (amount : ℤ) (a : Account)
    → (move_account env d e amount a).balance ≡ (
        if a.id == d || a.id == e
        then a.balance +ℤ (if a.id == d then amount else neg amount)
        else a.balance)
move-balance env d e amount a = elim (Bool-cases (a.id == d || a.id == e)) [
  | inl moves ↦ rw moves refl
  | inr stays ↦ rw stays refl
]

move-currency :
    (env : Env) (d e : Uuid) (amount : ℤ) (a : Account)
    → (move_account env d e amount a).currency ≡ a.currency
move-currency env d e amount a = elim (Bool-cases (a.id == d || a.id == e)) [
  | inl moves ↦ rw moves refl
  | inr stays ↦ rw stays refl
]

module _ (env : Env) (d e : Uuid) (amount : ℤ) (differ : d ≢ e) (c : String) where
  not_both : (k : Uuid) → ((k == d) && (k == e)) ≡ false
  not_both k = ground arith

  -- what an update does to a total
  map-total :
      (rows : List Account)
      → Distinct id_of rows
      → total c (map (move_account env d e amount) rows)
        ≡ total c rows +ℤ (share_of c d amount rows +ℤ share_of c e (neg amount) rows)
  unfolding total
  map-total [] distinct = grind int_laws
  map-total (a ∷ rows) distinct =
      rw
        (
          share-cons c d amount a rows,
          share-cons c e (neg amount) a rows,
          move-balance env d e amount a,
          move-currency env d e amount a,
        )
        (moved-total amount a.balance (total c rows) _ _ _ (str_eq a.currency c) (a.id == d)
          (a.id == e) (map-total rows distinct.1) (not_both a.id)
          (absent-share c d amount a rows distinct.0)
          (absent-share c e (neg amount) a rows distinct.0))

  shares_cancel :
      (rows : List Account) (debit credit : Account)
      → find id_of d rows ≡ some debit
      → find id_of e rows ≡ some credit
      → debit.currency ≡ credit.currency
      → share_of c d amount rows +ℤ share_of c e (neg amount) rows ≡ pos 0
  shares_cancel rows debit credit found found' same =
      rw (found, found', same)
        (elim (Bool-cases (str_eq credit.currency c)) [
          | inl counted ↦ rw counted (grind int_laws)
          | inr not_counted ↦ rw not_counted (grind int_laws)
        ])

equal_currencies :
    (cmd : TransferCommand) (debit credit : Account)
    → mismatched cmd debit credit ≡ false
    → debit.currency ≡ credit.currency
equal_currencies cmd debit credit fits =
    let debit_fits : str_eq debit.currency cmd.currency ≡ true = ground arith in
    let credit_fits : str_eq credit.currency cmd.currency ≡ true = ground arith in
    (eq_iff debit.currency cmd.currency).0 debit_fits
    ∙ sym ((eq_iff credit.currency cmd.currency).0 credit_fits)

abbrev pub IsZeroSum : Database → Type 0
IsZeroSum db = (c : String) → total c db.accounts ≡ pos 0

Posted-IsZeroSum :
    (env : Env) (cmd : TransferCommand) (claim : Claim) (render : RenderFunc) (s : Session)
    (status : ℕ) (body : Bytes) (after : Database)
    → IsSound s.store
    → cmd.debit_account_id ≢ cmd.credit_account_id
    → Posted env cmd claim render s status body after
    → IsZeroSum s.store
    → IsZeroSum after
Posted-IsZeroSum env cmd claim render s status body after sound differ posting zero_sum c =
    let distinct = sound.ledger.accounts_distinct in
    let a = posting.accepted in
    let debit_found : find_account cmd.debit_account_id s.store ≡ some a.debit =
      sym (debit_lookup cmd (claimed env claim s).tx distinct) ∙ a.debit_locked in
    let credit_found : find_account cmd.credit_account_id s.store ≡ some a.credit =
      sym (credit_lookup cmd (claimed env claim s).tx distinct) ∙ a.credit_locked in
    let moved =
      map-total env cmd.debit_account_id cmd.credit_account_id cmd.amount differ c s.store.accounts
        distinct in
    let cancel =
      shares_cancel env cmd.debit_account_id cmd.credit_account_id cmd.amount differ c
        s.store.accounts a.debit a.credit debit_found credit_found
        (equal_currencies cmd a.debit a.credit a.same_currency) in
    rw posting.database (moved ∙ rw (cancel, zero_sum c) (grind int_laws))

opening-total :
    (env : Env) (a : Account) (rows : List Account) (c : String)
    → a.balance ≡ pos 0
    → total c rows ≡ pos 0
    → total c (stamped env a ∷ rows) ≡ pos 0
unfolding total
opening-total env a rows c zero_balance zero_sum = elim (Bool-cases (str_eq a.currency c)) [
  | inl counted ↦ rw (counted, zero_balance, zero_sum) (grind int_laws)
  | inr not_counted ↦ rw (not_counted, zero_sum) refl
]

-- Money is neither created nor lost. From a sound database whose balances sum to zero in every
-- currency, after any sequence of requests, batches of relays and replays, with any faults, the
-- balances still sum to zero in every currency.
pub perform_all-IsZeroSum :
    (s : Session) (calls : List Call)
    → IsSound s.store
    → IsZeroSum s.store
    → IsZeroSum (perform_all s calls).store
perform_all-IsZeroSum =
    perform_all_cases IsZeroSum
      (λ env a db zero_balance fresh zero_sum c.
        opening-total env a db.accounts c zero_balance (zero_sum c))
      Posted-IsZeroSum (λ db db' same zero_sum c. rw same.0 (zero_sum c))
