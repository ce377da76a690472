-- ===== src/Domain/Transaction.antt =====
-- internal/ledger/transaction.go
use go_ledger.Base.{
  ℕ, ℤ, pos, neg, ◌+ℤ◌, leb_ℤ, eqb_ℤ, wrap64, String, Bool, not, Option, List, [], ◌∷◌, ◌==◌,
  if◌then◌else◌,
}
use go_ledger.Domain.Errors.{
  Uuid, Result, ok, err, sentinel, invalid_amount, invalid_currency, same_account,
}
use go_ledger.Domain.Money.{valid_currency}

pub data Direction : Type 0 where
  debit credit : Direction

-- string(e.Direction)
abbrev pub direction_text : Direction → String
direction_text debit = "debit"
direction_text credit = "credit"

pub record Entry : Type 0 where
  pub id : Uuid
  pub transaction_id : Uuid
  pub account_id : Uuid
  pub direction : Direction
  pub amount : ℤ
  pub currency : String
  pub created_at : ℕ

abbrev signed_by : Direction → ℤ → ℤ
signed_by debit amount = amount
signed_by credit amount = wrap64 (neg amount)

-- Entry.SignedAmount; the minus sign wraps at the smallest int64.
unfoldable pub signed_amount : Entry → ℤ
signed_amount e = signed_by e.direction e.amount

pub record Transaction : Type 0 where
  pub id : Uuid
  pub external_ref : Option String
  pub description : String
  pub currency : String
  pub created_at : ℕ
  pub entries : List Entry

-- the loop of Balanced, with the int64 sum so far
unfoldable pub balanced_from : ℤ → List Entry → Bool
unfolding signed_amount
balanced_from sum [] = eqb_ℤ sum (pos 0)
balanced_from sum (e ∷ es) = balanced_from (wrap64 (sum +ℤ signed_amount e)) es

unfoldable pub balanced : Transaction → Bool
unfolding balanced_from
balanced t = balanced_from (pos 0) t.entries

pub record TransferCommand : Type 0 where
  pub debit_account_id : Uuid
  pub credit_account_id : Uuid
  pub amount : ℤ
  pub currency : String
  pub description : String
  pub external_ref : Option String

unfoldable pub validate_transfer : TransferCommand → Result (Unit {0})
validate_transfer c =
    if leb_ℤ c.amount (pos 0)
    then err (sentinel invalid_amount)
    else if not (valid_currency c.currency)
    then err (sentinel invalid_currency)
    else if c.debit_account_id == c.credit_account_id
    then err (sentinel same_account)
    else ok tt
