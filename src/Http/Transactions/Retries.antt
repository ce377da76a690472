-- ===== src/Http/Transactions/Retries.antt =====
-- Exactly once, as a client of POST /transactions sees it.
use go_ledger.Base.{
  ℕ, ◌≡◌, ◌≢◌, refl, sym, ap, subst, ◌∙◌, true, false, some, List, Bytes, bytes_equal,
  bytes_equal_refl, bytes_equal_sound, Bool-cases, inl, inr,
}
use go_ledger.Domain.Errors.{Result, ok, err}
use go_ledger.Domain.Transaction.{TransferCommand, validate_transfer}
use go_ledger.Domain.Idempotency.{Claim, TransferResult}
use go_ledger.Storage.Database.{find_key}
use go_ledger.Storage.Session.{Env, Session, rolled_back}
use go_ledger.Storage.Transfer.{transfer}
use go_ledger.Storage.Transfer.Outcome.{Posted, transfer-Outcome}
use go_ledger.Storage.Transfer.Retry.{IsCalm, Posted-row, reuse_error}
use go_ledger.Service.{service_transfer}
use go_ledger.Service.Cases.{moves, serve}
use go_ledger.Service.Requests.{service_transfer-validated}
use go_ledger.Service.Retries.{told, kept_row, kept_row-answers, Outcome-Posted}
use go_ledger.System.{Call, requests, perform_call, perform_all, IsSound}
use go_ledger.System.Outbox.{perform_call-IsSound}
use go_ledger.System.Keys.{perform_all-find_key}
use native.Mathlib.Omega.{arith}
use go_ledger.Http.Problem.{Problem}
use go_ledger.Http.Errors.{write_domain_error, write_domain_error-response}
use go_ledger.Http.Handler.{
  Library, HttpRequest, raw, problem, Response, Answer, goes_on, answers, refuse, respond, calling,
}
use go_ledger.Http.Transactions.{
  transaction_written, render, transfer_request, handle_create_transaction,
}
use go_ledger.Http.Transactions.Prepared.{Gives, HasKey, transfer_request-Gives, claim-HasKey}

with_fingerprint :
    (c c' : Claim)
    → c'.key ≡ c.key
    → c'.endpoint ≡ c.endpoint
    → c' ≡ record c { fingerprint = c'.fingerprint }
with_fingerprint c c' key endpoint = ground arith

bytes_differ : (a b : Bytes) → a ≢ b → bytes_equal a b ≡ false
bytes_differ a b other = elim (Bool-cases (bytes_equal a b)) [
  | inl same ↦ absurd (other (bytes_equal_sound a b same))
  | inr differ ↦ differ
]

module _ (lib : Library) where
  -- a new answer of POST /transactions, which carries the bytes that the service returned
  abbrev pub new_answer : ℕ → Bytes → Response
  new_answer status body = record { status = status; replayed = false; body = raw body }

  abbrev pub replayed_answer : ℕ → Bytes → Response
  replayed_answer status body = record { status = status; replayed = true; body = raw body }

  module _ (env : Env) (req : HttpRequest) (s : Session) (status : ℕ) (body : Bytes) where
    -- what a new answer shows: the request was well formed and valid, and its transfer was posted
    record IsPosted : Type 0 where
      cmd : TransferCommand
      claim : Claim
      prepared : transfer_request lib req ≡ goes_on (cmd, claim)
      is_valid : validate_transfer cmd ≡ ok tt
      left :
          (handle_create_transaction lib env req s).1
          ≡ (service_transfer env cmd claim (render lib) s).1
      posted :
          Posted env cmd claim
            (render lib)
            s
            status
            body
            (service_transfer env cmd claim (render lib) s).1.store

    service_transfer-valid :
        (cmd : TransferCommand) (claim : Claim) (checks : Result (Unit {0}))
        (result : TransferResult)
        → validate_transfer cmd ≡ checks
        → (service_transfer env cmd claim (render lib) s).0 ≡ ok result
        → validate_transfer cmd ≡ ok tt
    unfolding service_transfer
    service_transfer-valid cmd claim (ok tt) result same answered = same
    service_transfer-valid cmd claim (err e) result same answered =
        let refused : err e ≡ ok result = rw same at answered in cc (refused)

    result-IsPosted :
        (cmd : TransferCommand) (claim : Claim) (result : Result TransferResult) (s' : Session)
        → transfer_request lib req ≡ goes_on (cmd, claim)
        → service_transfer env cmd claim (render lib) s ≡ (result, s')
        → (respond (write_domain_error lib.error_text) transaction_written (result, s')).0
          ≡ new_answer status body
        → IsPosted
    unfolding handle_create_transaction calling
    result-IsPosted cmd claim (err e) s' prepared same answered =
        let bodies = ap (λ (r : Response). r.body) answered in cc (bodies)
    result-IsPosted cmd claim (ok result) s' prepared same answered =
        let ends : (service_transfer env cmd claim (render lib) s).0 ≡ ok result =
          ap (λ p. p.0) same in
        let valid : validate_transfer cmd ≡ ok tt =
          service_transfer-valid cmd claim (validate_transfer cmd) result refl ends in
        let transferred : transfer env cmd claim (render lib) s ≡ (ok result, s') =
          sym (service_transfer-validated env cmd claim (render lib) s valid) ∙ same in
        let its_body : result.body ≡ body = cc (ap (λ (r : Response). r.body) answered) in
        let its_status : result.status ≡ status = ap (λ (r : Response). r.status) answered in
        record {
          cmd = cmd;
          claim = claim;
          prepared = prepared;
          is_valid = valid;
          left = rw (prepared, same) refl;
          posted =
              rw
                (
                  service_transfer-validated env cmd claim (render lib) s valid,
                  ← its_status,
                  ← its_body,
                )
                (Outcome-Posted env cmd claim (render lib) s (transfer env cmd claim (render lib) s)
                  result (ap (λ p. p.0) transferred) (ap (λ (r : Response). r.replayed) answered)
                  (transfer-Outcome env cmd claim (render lib) s));
        }

    answer-IsPosted :
        (a : Answer (TransferCommand × Claim))
        → transfer_request lib req ≡ a
        → (handle_create_transaction lib env req s).0 ≡ new_answer status body
        → IsPosted
    unfolding handle_create_transaction calling
    answer-IsPosted (goes_on (cmd, claim)) prepared answered =
        result-IsPosted cmd claim (service_transfer env cmd claim (render lib) s).0
          (service_transfer env cmd claim (render lib) s).1 prepared refl (rw prepared at answered)
    answer-IsPosted (answers r) refused answered =
        let written : r ≡ new_answer status body = rw refused at answered in
        let (p, is_problem) : (p : Problem) × (r ≡ refuse p) =
          subst (Gives (HasKey req)) refused (transfer_request-Gives lib req) in
        let bodies : problem p ≡ raw body =
          ap (λ (r : Response). r.body) (sym is_problem ∙ written) in
        cc (bodies)

    -- the row of the key, at any later time
    posted-find_key :
        (p : IsPosted) (s' : Session) (calls : List Call)
        → IsSound s.store
        → s'.store ≡ (handle_create_transaction lib env req s).1.store
        → find_key p.claim.key p.claim.endpoint (perform_all s' calls).store.idempotency_keys
          ≡ some (kept_row env p.cmd p.claim (render lib) s status body)
    unfolding perform_call serve
    posted-find_key p s' calls sound after_it =
        let same : s'.store ≡ (service_transfer env p.cmd p.claim (render lib) s).1.store =
          after_it ∙ ap (λ (x : Session). x.store) p.left in
        perform_all-find_key p.claim.key p.claim.endpoint
          (kept_row env p.cmd p.claim (render lib) s status body) s' calls
          (rw same (perform_call-IsSound s (requests (moves env p.cmd p.claim (render lib))) sound))
          (rw same (Posted-row env p.cmd p.claim (render lib) s status body _ p.posted))

  -- Exactly once, for a client. If POST /transactions has given a new answer, then the same request
  -- at any later time, after any other requests, relayed batches and replays and from a driver that
  -- works, gets that status and that body byte for byte, marked as a replay, and changes nothing.
  pub retry_replays :
      (env : Env) (req : HttpRequest) (s : Session) (status : ℕ) (body : Bytes) (s' : Session)
      (calls : List Call) (env' : Env)
      → IsSound s.store
      → (handle_create_transaction lib env req s).0 ≡ new_answer status body
      → s'.store ≡ (handle_create_transaction lib env req s).1.store
      → IsCalm env'
      → handle_create_transaction lib env' req (perform_all s' calls)
        ≡ (replayed_answer status body, rolled_back (perform_all s' calls))
  unfolding handle_create_transaction calling
  retry_replays env req s status body s' calls env' sound answered after_it calm =
      let p : IsPosted env req s status body =
        answer-IsPosted env req s status body (transfer_request lib req) refl answered in
      rw
        (
          p.prepared,
          kept_row-answers env p.cmd p.claim (render lib) s status body (perform_all s' calls) env'
              p.cmd p.claim.fingerprint (render lib)
              (posted-find_key env req s status body p s' calls sound after_it) calm p.is_valid,
          bytes_equal_refl p.claim.fingerprint,
        )
        refl

  -- One key, two requests. If POST /transactions has given a new answer, then a well-formed and
  -- valid request with the same key and another fingerprint, at any later time and under the same
  -- conditions, is refused with 422 and the detail of ErrIdempotencyKeyReuse, and changes nothing.
  pub reused_key_refused :
      (env : Env) (req : HttpRequest) (s : Session) (status : ℕ) (body : Bytes) (s' : Session)
      (calls : List Call) (env' : Env) (req' : HttpRequest) (cmd cmd' : TransferCommand)
      (claim claim' : Claim)
      → IsSound s.store
      → (handle_create_transaction lib env req s).0 ≡ new_answer status body
      → s'.store ≡ (handle_create_transaction lib env req s).1.store
      → IsCalm env'
      → transfer_request lib req ≡ goes_on (cmd, claim)
      → transfer_request lib req' ≡ goes_on (cmd', claim')
      → req'.key ≡ req.key
      → claim'.fingerprint ≢ claim.fingerprint
      → validate_transfer cmd' ≡ ok tt
      → ((handle_create_transaction lib env' req' (perform_all s' calls)).0.status ≡ 422)
        × ((handle_create_transaction lib env' req' (perform_all s' calls)).0.body
            ≡ problem (write_domain_error lib.error_text (reuse_error claim')))
        × ((handle_create_transaction lib env' req' (perform_all s' calls)).1
            ≡ rolled_back (perform_all s' calls))
  unfolding handle_create_transaction calling
  reused_key_refused env req s status body s' calls env' req' cmd cmd' claim claim' sound answered
        after_it calm prepared prepared' same_key other valid =
      let p : IsPosted env req s status body =
        answer-IsPosted env req s status body (transfer_request lib req) refl answered in
      let pair : goes_on (cmd, claim) ≡ goes_on (p.cmd, p.claim) = sym prepared ∙ p.prepared in
      let same : p.claim ≡ claim = cc (pair) in
      let of_key : HasKey req (cmd, claim) = claim-HasKey lib req (cmd, claim) prepared in
      let of_key' : HasKey req' (cmd', claim') = claim-HasKey lib req' (cmd', claim') prepared' in
      let its_claim : claim' ≡ record p.claim { fingerprint = claim'.fingerprint } = rw same (
        with_fingerprint claim claim' (of_key'.0 ∙ same_key ∙ sym of_key.0)
          (of_key'.1 ∙ sym of_key.1)) in
      let told_it : service_transfer env' cmd' claim' (render lib) (perform_all s' calls)
          ≡ told p.claim claim'.fingerprint status body (perform_all s' calls) =
        subst
          (λ c.
            service_transfer env' cmd' c (render lib) (perform_all s' calls)
            ≡ told p.claim claim'.fingerprint status body (perform_all s' calls))
          (sym its_claim)
          (kept_row-answers env p.cmd p.claim (render lib) s status body (perform_all s' calls) env'
            cmd' claim'.fingerprint (render lib)
            (posted-find_key env req s status body p s' calls sound after_it) calm valid) in
      let differ : bytes_equal p.claim.fingerprint claim'.fingerprint ≡ false =
        rw same (bytes_differ claim.fingerprint claim'.fingerprint (λ e. other (sym e))) in
      let same_error : reuse_error (record p.claim { fingerprint = claim'.fingerprint })
          ≡ reuse_error claim' =
        ap reuse_error (sym its_claim) in
      rw (prepared', told_it, differ)
        (
          (write_domain_error-response lib.error_text (reuse_error p.claim)).0,
          ap (λ e. problem (write_domain_error lib.error_text e)) same_error,
          refl,
        )
