-- ===== src/Http/Errors.antt =====
-- internal/httpapi/errors.go: domain errors as responses.
use go_ledger.Base.{ℕ, ◌≡◌, refl, String, Option, none, some, List, [], ◌∷◌, if◌then◌else◌}
use go_ledger.Domain.Errors.{
  Sentinel, account_not_found, transaction_not_found, currency_mismatch, insufficient_funds,
  same_account, duplicate_external_ref, invalid_amount, invalid_currency, invalid_account_kind,
  empty_name, idempotency_key_reuse, key_required, key_invalid, event_not_found, Error, sentinel,
  database, opaque, wrap, annotate, is,
}
use go_ledger.Http.Problem.{Problem, write, internal}

pub record ErrorMapping : Type 0 where
  pub status : ℕ
  pub typ : String
  pub title : String

abbrev mapping : ℕ → String → String → ErrorMapping
mapping status typ title = record { status = status; typ = typ; title = title }

abbrev domain_errors : List (Sentinel × ErrorMapping)
domain_errors =
    (account_not_found, mapping 404 "account_not_found" "Account Not Found")
    ∷ (transaction_not_found, mapping 404 "transaction_not_found" "Transaction Not Found")
    ∷ (insufficient_funds, mapping 422 "insufficient_funds" "Insufficient Funds")
    ∷ (currency_mismatch, mapping 422 "currency_mismatch" "Currency Mismatch")
    ∷ (duplicate_external_ref, mapping 409 "duplicate_external_ref" "Duplicate External Reference")
    ∷ (same_account, mapping 400 "same_account" "Same Account")
    ∷ (invalid_amount, mapping 400 "invalid_amount" "Invalid Amount")
    ∷ (invalid_currency, mapping 400 "invalid_currency" "Invalid Currency")
    ∷ (invalid_account_kind, mapping 400 "invalid_account_kind" "Invalid Account Kind")
    ∷ (empty_name, mapping 400 "invalid_name" "Invalid Name")
    ∷ (key_required, mapping 400 "idempotency_key_required" "Idempotency-Key Required")
    ∷ (key_invalid, mapping 400 "idempotency_key_invalid" "Invalid Idempotency-Key")
    ∷ (idempotency_key_reuse, mapping 422 "idempotency_key_reuse" "Idempotency-Key Reuse")
    ∷ []

-- the loop over domainErrors, with err.Error() beside the error
unfoldable pub first_match : String → Error → List (Sentinel × ErrorMapping) → Problem
unfolding is write internal
first_match message e [] = internal
first_match message e ((target, m) ∷ rows) =
    if is e target then write m.status m.typ m.title message else first_match message e rows

-- writeDomainError; `text` is the method Error.
unfoldable pub write_domain_error : (Error → String) → Error → Problem
unfolding first_match
write_domain_error text e = first_match (text e) e domain_errors

-- the variable that an error wraps, if there is one
abbrev pub root : Error → Option Sentinel
root (sentinel s) = some s
root (database _) = none
root (opaque _) = none
root (wrap _ e) = root e
root (annotate e _) = root e

-- the status that a client sees: what is not found, what is wrong with the request, what conflicts
-- with the ledger, and 500 for everything else
abbrev pub status_of : Option Sentinel → ℕ
status_of none = 500
status_of (some account_not_found) = 404
status_of (some transaction_not_found) = 404
status_of (some duplicate_external_ref) = 409
status_of (some insufficient_funds) = 422
status_of (some currency_mismatch) = 422
status_of (some idempotency_key_reuse) = 422
status_of (some event_not_found) = 500
status_of (some _) = 400

-- the detail that a client sees
abbrev pub detail_of : Option Sentinel → String → String
detail_of none message = ""
detail_of (some event_not_found) message = ""
detail_of (some _) message = message

sentinel-response :
    (message : String) (s : Sentinel)
    → ((first_match message (sentinel s) domain_errors).status ≡ status_of (some s))
      × ((first_match message (sentinel s) domain_errors).detail ≡ detail_of (some s) message)
unfolding first_match
sentinel-response message account_not_found = (refl, refl)
sentinel-response message transaction_not_found = (refl, refl)
sentinel-response message currency_mismatch = (refl, refl)
sentinel-response message insufficient_funds = (refl, refl)
sentinel-response message same_account = (refl, refl)
sentinel-response message duplicate_external_ref = (refl, refl)
sentinel-response message invalid_amount = (refl, refl)
sentinel-response message invalid_currency = (refl, refl)
sentinel-response message invalid_account_kind = (refl, refl)
sentinel-response message empty_name = (refl, refl)
sentinel-response message idempotency_key_reuse = (refl, refl)
sentinel-response message key_required = (refl, refl)
sentinel-response message key_invalid = (refl, refl)
sentinel-response message event_not_found = (refl, refl)

first_match-response :
    (message : String) (e : Error)
    → ((first_match message e domain_errors).status ≡ status_of (root e))
      × ((first_match message e domain_errors).detail ≡ detail_of (root e) message)
unfolding first_match
first_match-response message (sentinel s) = sentinel-response message s
first_match-response message (database _) = (refl, refl)
first_match-response message (opaque _) = (refl, refl)
first_match-response message (wrap _ e) = first_match-response message e
first_match-response message (annotate e _) = first_match-response message e

pub write_domain_error-response :
    (text : Error → String) (e : Error)
    → ((write_domain_error text e).status ≡ status_of (root e))
      × ((write_domain_error text e).detail ≡ detail_of (root e) (text e))
unfolding write_domain_error
write_domain_error-response text e = first_match-response (text e) e
