-- ===== src/Domain/Errors.antt =====
-- The error values of internal/ledger/errors.go and internal/ledger/idempotency.go, with those of
-- internal/idempotency and internal/storage/postgres/outbox.go that the HTTP layer also names.
-- An error is kept as the chain that fmt.Errorf builds, so that errors.Is and errors.As walk it;
-- the interpolated values stand beside it as data instead of being formatted into the text.
use go_ledger.Base.{◌≡◌, ℕ, ℤ, String, Bool, true, false, Option, none, some, Bytes}
use mathlib.Core.Logic.{ite}

abbrev pub Uuid : Type 0
Uuid = ℕ

-- the variables declared with errors.New, which errors.Is compares by identity
pub data Sentinel : Type 0 where
  account_not_found transaction_not_found currency_mismatch insufficient_funds : Sentinel
  same_account duplicate_external_ref invalid_amount invalid_currency : Sentinel
  invalid_account_kind empty_name idempotency_key_reuse : Sentinel
  key_required key_invalid event_not_found : Sentinel

unfoldable pub Sentinel-discrete : Discrete Sentinel
Sentinel-discrete = hlevel

-- pgconn.PgError.ConstraintName: a constraint of the schema, or the empty string
pub data Constraint : Type 0 where
  unnamed : Constraint
  accounts_pkey accounts_balance_floor : Constraint
  transactions_pkey transactions_external_ref_key : Constraint
  ledger_entries_pkey ledger_entries_amount_check : Constraint
  ledger_entries_transaction_id_fkey ledger_entries_account_id_fkey : Constraint
  idempotency_keys_transaction_id_fkey : Constraint
  outbox_events_pkey outbox_deliveries_event_id_fkey : Constraint

-- *pgconn.PgError
pub record PgError : Type 0 where
  pub constraint_name : Constraint
  pub message : String

-- what a format string interpolates behind a wrapped sentinel
pub data Detail : Type 0 where
  currencies : String → String → String → Detail
  shortfall : Uuid → ℤ → ℤ → Detail
  of_id : Uuid → Detail
  of_key : Bytes → Detail
  text : String → Detail

pub data Error : Type 0 where
  sentinel : Sentinel → Error
  database : PgError → Error
  -- an error that nothing else identifies: of the driver, of the network, or "internal: …"
  opaque : String → Error
  -- fmt.Errorf("context: %w", err)
  wrap : String → Error → Error
  -- fmt.Errorf("%w: …", err, …)
  annotate : Error → Detail → Error

pub data Result (A : Type 0) : Type 0 where
  ok : A → Result A
  err : Error → Result A

-- errors.Is
unfoldable pub is : Error → Sentinel → Bool
unfolding Sentinel-discrete
is (sentinel s) target = ite (Sentinel-discrete s target) true false
is (database _) target = false
is (opaque _) target = false
is (wrap _ e) target = is e target
is (annotate e _) target = is e target

-- errors.As(err, &pgErr)
unfoldable pub as_pg_error : Error → Option PgError
as_pg_error (sentinel s) = none
as_pg_error (database e) = some e
as_pg_error (opaque _) = none
as_pg_error (wrap _ e) = as_pg_error e
as_pg_error (annotate e _) = as_pg_error e

pub ok-injective : {A : Type 0} {a b : A} → ok a ≡ ok b → a ≡ b
ok-injective e = cc
