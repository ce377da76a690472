-- ===== src/Service/Cases.antt =====
-- What a request to the service can leave in the database: what was there, a new account, or a
-- posted transfer.
use go_ledger.Base.{◌≡◌, ◌≢◌, refl, pos, none, List, [], arith, ◌∷◌, ℕ, Bytes}
use go_ledger.Domain.Errors.{Result, ok}
use go_ledger.Domain.Account.{Account, CreateAccountCommand, validate_account}
use go_ledger.Domain.Transaction.{TransferCommand, validate_transfer}
use go_ledger.Domain.Idempotency.{Claim, RenderFunc, TransferResult}
use go_ledger.Storage.Database.{Database, find_account}
use go_ledger.Storage.Session.{Env, Session, continue, in_context, draw_uuid, left_by, ◌>>=◌}
use go_ledger.Storage.Session.Cases.{lift_cases}
use go_ledger.Storage.Transfer.{transfer}
use go_ledger.Storage.Transfer.Outcome.{
  Posted, Outcome, replays, posts, loses_ack, fails, transfer-Outcome,
}
use go_ledger.Storage.Accounts.{stamped, create_account}
use go_ledger.Storage.Invariant.Opening.{create_account_cases}
use go_ledger.Service.{new_account, open_account, checked, service_transfer}
use go_ledger.Service.Balanced.{transaction_of-balanced}

pub validate_transfer-differ :
    (cmd : TransferCommand)
    → validate_transfer cmd ≡ ok tt
    → cmd.debit_account_id ≢ cmd.credit_account_id
unfolding validate_transfer
validate_transfer-differ cmd valid = ground arith

pub checked-Outcome :
    (env : Env) (cmd : TransferCommand) (claim : Claim) (render : RenderFunc) (s : Session)
    (p : Result TransferResult × Session)
    → Outcome env cmd claim render s p
    → continue p (λ result. checked result.transaction result) ≡ p
checked-Outcome env cmd claim render s _ (replays _ _ _ _ _ eq _) = rw eq
checked-Outcome env cmd claim render s _ (posts _ _ _ eq) =
    rw eq (rw (transaction_of-balanced env cmd s.drawn))
checked-Outcome env cmd claim render s _ (loses_ack _ _ _ _ _) = refl
checked-Outcome env cmd claim render s _ (fails _) = refl

Outcome_cases :
    (P : Database → Type 0) (env : Env) (cmd : TransferCommand) (claim : Claim)
    (render : RenderFunc) (s : Session) (p : Result TransferResult × Session)
    → P s.store
    → ((status : ℕ) (body : Bytes) (after : Database)
        → Posted env cmd claim render s status body after
        → P after)
    → Outcome env cmd claim render s p
    → P p.1.store
Outcome_cases P env cmd claim render s _ kept posts_it (replays _ _ _ _ _ _ same) = rw same kept
Outcome_cases P env cmd claim render s _ kept posts_it (posts status body posting _) =
    posts_it status body _ posting
Outcome_cases P env cmd claim render s _ kept posts_it (loses_ack _ status body _ posting) =
    posts_it status body _ posting
Outcome_cases P env cmd claim render s _ kept posts_it (fails same) = rw same kept

-- A request to the service, with the environment that it meets.
pub data Request : Type 0 where
  opens : Env → CreateAccountCommand → Request
  moves : Env → TransferCommand → Claim → RenderFunc → Request

unfoldable pub serve : Session → Request → Session
serve s (opens env cmd) = (open_account env cmd s).1
serve s (moves env cmd claim render) = (service_transfer env cmd claim render s).1

unfoldable pub serve_all : Session → List Request → Session
serve_all s [] = s
serve_all s (r ∷ rs) = serve_all (serve s r) rs

pub serve_cases :
    (P : Database → Type 0) (s : Session) (r : Request)
    → P s.store
    → ((env : Env) (a : Account)
        → a.balance ≡ pos 0
        → find_account a.id s.store ≡ none
        → P (record s.store { accounts = stamped env a ∷ s.store.accounts }))
    → ((env : Env) (cmd : TransferCommand) (claim : Claim) (render : RenderFunc) (status : ℕ)
          (body : Bytes) (after : Database)
        → cmd.debit_account_id ≢ cmd.credit_account_id
        → Posted env cmd claim render s status body after
        → P after)
    → P (serve s r).store
unfolding serve open_account service_transfer draw_uuid
serve_cases P s (opens env cmd) kept opens_it posts_it =
    lift_cases
      (λ p. P (
        left_by (
          continue p (λ _. draw_uuid env >>= λ id.
          in_context "create account" (create_account env (new_account id cmd))))))
      (validate_account cmd) s (λ _ _. kept)
      λ _ _.
        create_account_cases P env (new_account (env.new_uuid s.drawn) cmd) _ kept
          (opens_it env (new_account (env.new_uuid s.drawn) cmd) refl)
serve_cases P s (moves env cmd claim render) kept opens_it posts_it =
    lift_cases
      (λ p. P (
        left_by (
          continue p
            (λ _. transfer env cmd claim render >>= λ result. checked result.transaction result))))
      (validate_transfer cmd) s (λ _ _. kept)
      λ _ passed.
        rw (checked-Outcome env cmd claim render s _ (transfer-Outcome env cmd claim render s)) (
          Outcome_cases P env cmd claim render s _ kept
            (λ status body after.
              posts_it env cmd claim render status body after (validate_transfer-differ cmd passed))
            (transfer-Outcome env cmd claim render s))
