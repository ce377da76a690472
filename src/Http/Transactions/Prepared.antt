-- ===== src/Http/Transactions/Prepared.antt =====
-- What the handler of POST /transactions has when it calls the service.
use go_ledger.Base.{◌≡◌, refl, subst, Bool, true, false, Option, none, some, String}
use go_ledger.Domain.Errors.{Uuid, Error, Result, ok, err}
use go_ledger.Domain.Transaction.{TransferCommand}
use go_ledger.Domain.Idempotency.{Claim}
use go_ledger.Idempotency.{validate_key, fingerprint}
use go_ledger.Http.Problem.{Problem}
use go_ledger.Http.Handler.{
  Library, HttpRequest, BodyRead, whole, too_large, unreadable, Answer, goes_on, answers, ◌>>=◌,
  refuse, read_json_body, unmarshal_json, parse_uuid_field, decoded, parsed,
}
use go_ledger.Http.Transactions.{
  transactions_endpoint, or_domain_error, or_invalid_json, transfer_request,
}

-- A step that writes a response writes a problem, and what one that goes on hands over is as said.
abbrev pub Gives : {A : Type 0} → (A → Type 0) → Answer A → Type 0
Gives P (goes_on a) = P a
Gives P (answers r) = (p : Problem) × (r ≡ refuse p)

abbrev OnlyRefuses : {A : Type 0} → Answer A → Type 0
OnlyRefuses = Gives (λ _. Unit {0})

>>=-Gives :
    {A B : Type 0} (P : B → Type 0) (m : Answer A) (f : A → Answer B)
    → OnlyRefuses m
    → ((a : A) → Gives P (f a))
    → Gives P (m >>= f)
>>=-Gives P (goes_on a) f here there = there a
>>=-Gives P (answers r) f here there = here

or_domain_error-OnlyRefuses :
    {A : Type 0} (text : Error → String) (r : Result A) → OnlyRefuses (or_domain_error text r)
or_domain_error-OnlyRefuses text (ok a) = tt
or_domain_error-OnlyRefuses text (err e) = (_, refl)

or_invalid_json-OnlyRefuses :
    {A : Type 0} (text : Error → String) (r : Result A) → OnlyRefuses (or_invalid_json text r)
or_invalid_json-OnlyRefuses text (ok a) = tt
or_invalid_json-OnlyRefuses text (err e) = (_, refl)

read_json_body-OnlyRefuses : (read : BodyRead) → OnlyRefuses (read_json_body read)
unfolding read_json_body
read_json_body-OnlyRefuses (whole body) = tt
read_json_body-OnlyRefuses too_large = (_, refl)
read_json_body-OnlyRefuses unreadable = (_, refl)

decoded-OnlyRefuses :
    {A : Type 0} (text : Error → String) (end : Bool) (r : Result A)
    → OnlyRefuses (decoded text end r)
decoded-OnlyRefuses text end (err e) = (_, refl)
decoded-OnlyRefuses text true (ok a) = tt
decoded-OnlyRefuses text false (ok a) = (_, refl)

parsed-OnlyRefuses : (message : String) (o : Option Uuid) → OnlyRefuses (parsed message o)
parsed-OnlyRefuses message (some id) = tt
parsed-OnlyRefuses message none = (_, refl)

-- the claim of a request has its key
abbrev pub HasKey : HttpRequest → TransferCommand × Claim → Type 0
HasKey req p = (p.1.key ≡ req.key) × (p.1.endpoint ≡ transactions_endpoint)

module _ (lib : Library) where
  pub transfer_request-Gives : (req : HttpRequest) → Gives (HasKey req) (transfer_request lib req)
  unfolding transfer_request unmarshal_json parse_uuid_field
  transfer_request-Gives req =
      >>=-Gives (HasKey req) (or_domain_error lib.error_text (validate_key req.key)) _
        (or_domain_error-OnlyRefuses lib.error_text (validate_key req.key))
        λ _.
          >>=-Gives (HasKey req) (read_json_body req.body) _ (read_json_body-OnlyRefuses req.body)
            λ body.
              >>=-Gives (HasKey req) (unmarshal_json lib lib.decode_transaction body) _
                (decoded-OnlyRefuses lib.error_text (lib.at_end body) (lib.decode_transaction body))
                λ r.
                  >>=-Gives (HasKey req)
                    (parse_uuid_field lib "debit_account_id" r.debit_account_id) _
                    (parsed-OnlyRefuses _ (lib.parse_uuid r.debit_account_id))
                    λ debit.
                      >>=-Gives (HasKey req)
                        (parse_uuid_field lib "credit_account_id" r.credit_account_id) _
                        (parsed-OnlyRefuses _ (lib.parse_uuid r.credit_account_id))
                        λ credit.
                          >>=-Gives (HasKey req)
                            (or_invalid_json lib.error_text (
                              fingerprint lib.decode lib.encode lib.sha256 (lib.utf8 req.method)
                                (lib.utf8 req.path) body))
                            _ (or_invalid_json-OnlyRefuses lib.error_text _) λ hash. (refl, refl)

  pub claim-HasKey :
      (req : HttpRequest) (p : TransferCommand × Claim)
      → transfer_request lib req ≡ goes_on p
      → HasKey req p
  claim-HasKey req p prepared = subst (Gives (HasKey req)) prepared (transfer_request-Gives req)
