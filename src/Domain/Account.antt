-- ===== src/Domain/Account.antt =====
-- internal/ledger/account.go
use go_ledger.Base.{ℕ, ℤ, String, Bool, not, ◌||◌, if◌then◌else◌}
use text.Mathlib.Text.{◌==◌}
use go_ledger.Domain.Errors.{
  Uuid, Result, ok, err, sentinel, empty_name, invalid_account_kind, invalid_currency,
}
use go_ledger.Domain.Money.{Money, valid_currency}

-- The Go type is a string, so a request may hold any.
abbrev pub AccountKind : Type 0
AccountKind = String

abbrev pub kind_asset : AccountKind
kind_asset = "asset"

abbrev pub kind_liability : AccountKind
kind_liability = "liability"

abbrev pub kind_equity : AccountKind
kind_equity = "equity"

abbrev pub kind_revenue : AccountKind
kind_revenue = "revenue"

abbrev pub kind_expense : AccountKind
kind_expense = "expense"

unfoldable pub valid_kind : AccountKind → Bool
valid_kind k =
    k == kind_asset
    || k == kind_liability
    || k == kind_equity
    || k == kind_revenue
    || k == kind_expense

pub record Account : Type 0 where
  pub id : Uuid
  pub name : String
  pub kind : AccountKind
  pub currency : String
  pub balance : ℤ
  pub allow_negative_balance : Bool
  pub created_at : ℕ
  pub updated_at : ℕ

unfoldable pub money : Account → Money
money a = record { amount = a.balance; currency = a.currency }

pub record CreateAccountCommand : Type 0 where
  pub name : String
  pub kind : AccountKind
  pub currency : String
  pub allow_negative_balance : Bool

unfoldable pub validate_account : CreateAccountCommand → Result (Unit {0})
validate_account c =
    if c.name == ""
    then err (sentinel empty_name)
    else if not (valid_kind c.kind)
    then err (sentinel invalid_account_kind)
    else if not (valid_currency c.currency)
    then err (sentinel invalid_currency)
    else ok tt
