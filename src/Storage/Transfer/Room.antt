-- ===== src/Storage/Transfer/Room.antt =====
-- What a transfer asks of the database: the balances that it moves stay allowed.
use go_ledger.Base.{
  ℕ, suc, ℤ, pos, neg, ◌+ℤ◌, ◌≤◌, ◌<ℤ◌, ◌≤ℤ◌, leb_ℤ, ltb_ℤ, fits_int64, IsInt64, int_laws, ◌≡◌, ◌⊎◌,
  subst, Bool, true, false, not, ◌&&◌, ◌||◌, none, some, All, All-map, All-zip, Bytes, ◌==◌, ==_iff,
  Bool-cases, inl, inr, arith,
}
use go_ledger.Base.Table.{Distinct-find}
use go_ledger.Domain.Errors.{Uuid, ok}
use go_ledger.Domain.Account.{Account}
use go_ledger.Domain.Transaction.{TransferCommand}
use go_ledger.Domain.Idempotency.{Claim, RenderFunc}
use go_ledger.Outbox.Event.{created_payload}
use go_ledger.Storage.Database.{Database, find_account, find_transaction, find_event, find_key}
use go_ledger.Storage.Session.{Env}
use go_ledger.Idempotency.{validate_key}
use go_ledger.Storage.Text.{has_nul, ref_has_nul}
use go_ledger.Storage.Statements.{index_takes_ref, max_int32, ref_taken, find_entry}
use go_ledger.Storage.Statements.Facts.{IsAllowed}
use go_ledger.Storage.Invariant.{WellFormed}
use go_ledger.Storage.Transfer.{mismatched, uncovered}
use go_ledger.Storage.Transfer.Cases.{transaction_of}
use go_ledger.Storage.Transfer.Retry.{IsCalm}
use go_ledger.Storage.Transfer.Success.{Fits, FitsIfMoved}

-- What a transfer asks of the accounts, of the new ids, of its texts and of the rendering.
pub record CanPost (env : Env) (cmd : TransferCommand) (claim : Claim) (render : RenderFunc)
    (db : Database) (n : ℕ) (debit credit : Account) (status : ℕ) (body payload : Bytes)
    : Type 0 where
  -- the command
  pub positive : pos 0 <ℤ cmd.amount
  pub amount_fits : IsInt64 cmd.amount
  -- the accounts
  pub debit_found : find_account cmd.debit_account_id db ≡ some debit
  pub credit_found : find_account cmd.credit_account_id db ≡ some credit
  pub same_currency : mismatched cmd debit credit ≡ false
  pub covered : uncovered cmd credit ≡ false
  pub debit_fits : IsInt64 (debit.balance +ℤ cmd.amount)
  pub credit_fits : IsInt64 (credit.balance +ℤ neg cmd.amount)
  -- the key, the reference and the four ids are new
  pub new_key : find_key claim.key claim.endpoint db.idempotency_keys ≡ none
  pub new_ref : ref_taken cmd.external_ref db.transactions ≡ false
  pub new_transaction : find_transaction (env.new_uuid n) db ≡ none
  pub new_debit_entry : find_entry (env.new_uuid (suc n)) db ≡ none
  pub new_credit_entry : find_entry (env.new_uuid (suc (suc n))) db ≡ none
  pub entries_differ : (env.new_uuid (suc n) == env.new_uuid (suc (suc n))) ≡ false
  pub new_event : find_event (env.new_uuid (suc (suc (suc n)))) db ≡ none
  -- The texts, the payload and the response are such as PostgreSQL takes.
  pub valid_key : validate_key claim.key ≡ ok tt
  pub plain_endpoint : has_nul claim.endpoint ≡ false
  pub indexed_endpoint : env.index_takes claim.endpoint ≡ true
  pub plain_description : has_nul cmd.description ≡ false
  pub plain_ref : ref_has_nul cmd.external_ref ≡ false
  pub indexed_ref : index_takes_ref env cmd.external_ref ≡ true
  pub marshalled : env.marshal (created_payload (transaction_of env cmd n)) ≡ some payload
  pub jsonb_payload : env.jsonb_takes payload ≡ true
  pub rendered : render (transaction_of env cmd n) ≡ ok (status, body)
  pub int_status : status ≤ max_int32
  pub valid_json : env.json_valid body ≡ true

fits : (a : ℤ) → IsInt64 a → fits_int64 a ≡ true
fits a h = ground arith

neg_fits : (m : ℤ) → pos 0 <ℤ m → IsInt64 m → IsInt64 (neg m)
neg_fits m positive h = grind int_laws

above_floor :
    (allow : Bool) (b m : ℤ)
    → pos 0 <ℤ m
    → (allow ≡ true) ⊎ (pos 0 ≤ℤ b)
    → (allow || leb_ℤ (pos 0) (b +ℤ m)) ≡ true
above_floor allow b m positive h = grind int_laws

pub covers_floor :
    (allow : Bool) (b m : ℤ)
    → (not allow && ltb_ℤ b m) ≡ false
    → (allow || leb_ℤ (pos 0) (b +ℤ neg m)) ≡ true
covers_floor allow b m h = grind int_laws

same_row :
    (id : Uuid) (db : Database) (a b : Account)
    → (a.id == id) ≡ true
    → find_account a.id db ≡ some a
    → find_account id db ≡ some b
    → a ≡ b
same_row id db a b is found found' =
    let here : find_account id db ≡ some a =
      subst (λ k. find_account k db ≡ some a) ((==_iff a.id id).0 is) found in
    cc (here, found')

module _ (env : Env) (cmd : TransferCommand) (claim : Claim) (render : RenderFunc)
    (calm : IsCalm env) (debit credit : Account) (status : ℕ) (body payload : Bytes) where
  debit_Fits :
      (db : Database) (n : ℕ) (a : Account)
      → CanPost env cmd claim render db n debit credit status body payload
      → (a.id == cmd.debit_account_id) ≡ true
      → a ≡ debit
      → IsAllowed a
      → Fits env cmd calm a
  debit_Fits db n a can is_debit same allowed =
      let fitting : IsInt64 (a.balance +ℤ cmd.amount) = rw same can.debit_fits in
      rw is_debit (
        fits cmd.amount can.amount_fits,
        fits (a.balance +ℤ cmd.amount) fitting,
        above_floor a.allow_negative_balance a.balance cmd.amount can.positive allowed.1,
      )

  credit_Fits :
      (db : Database) (n : ℕ) (a : Account)
      → CanPost env cmd claim render db n debit credit status body payload
      → (a.id == cmd.debit_account_id) ≡ false
      → a ≡ credit
      → Fits env cmd calm a
  credit_Fits db n a can not_debit same =
      let fitting : IsInt64 (a.balance +ℤ neg cmd.amount) = rw same can.credit_fits in
      let enough : uncovered cmd a ≡ false = rw same can.covered in
      rw not_debit (
        fits (neg cmd.amount) (neg_fits cmd.amount can.positive can.amount_fits),
        fits (a.balance +ℤ neg cmd.amount) fitting,
        covers_floor a.allow_negative_balance a.balance cmd.amount enough,
      )

  pub All-FitsIfMoved :
      (db : Database) (n : ℕ)
      → CanPost env cmd claim render db n debit credit status body payload
      → WellFormed db
      → All (FitsIfMoved env cmd calm) db.accounts
  All-FitsIfMoved db n can valid =
      All-map db.accounts
        (λ a found moves. elim (Bool-cases (a.id == cmd.debit_account_id)) [
          | inl is_debit ↦
              debit_Fits db n a can is_debit
                (same_row cmd.debit_account_id db a debit is_debit found.0 can.debit_found) found.1
          | inr not_debit ↦
              let is_credit : (a.id == cmd.credit_account_id) ≡ true =
                ground (arith, moves, not_debit) in
              credit_Fits db n a can not_debit
                (same_row cmd.credit_account_id db a credit is_credit found.0 can.credit_found)
        ])
        (All-zip _ _ db.accounts
          (Distinct-find (λ (a : Account). a.id) db.accounts valid.accounts_distinct) valid.allowed)
