-- ===== src/Service/Retries.antt =====
-- Exactly once: what a retry with the same Idempotency-Key gets, at any later time.
use go_ledger.Base.{
  ℕ, ◌≡◌, ◌≢◌, refl, ◌∙◌, true, false, some, List, [], ◌∷◌, Bytes, bytes_equal, String,
  if◌then◌else◌,
}
use go_ledger.Domain.Errors.{Result, ok, err, ok-injective}
use go_ledger.Domain.Transaction.{TransferCommand, validate_transfer}
use go_ledger.Domain.Idempotency.{Claim, RenderFunc, TransferResult}
use go_ledger.Storage.Database.{Database, KeyRow, find_key}
use go_ledger.Storage.Session.{Env, Session, rolled_back, left_by}
use go_ledger.Storage.Transfer.{transfer}
use go_ledger.Storage.Transfer.Cases.{transaction_of}
use go_ledger.Storage.Transfer.Outcome.{
  Posted, Outcome, replays, posts, loses_ack, fails, transfer-Outcome,
}
use go_ledger.Storage.Transfer.Retry.{
  IsCalm, replay_of, reuse_error, row_of, Posted-row, Posted-find_key, transfer_used_key,
}
use go_ledger.Service.{service_transfer}
use go_ledger.Service.Cases.{serve_cases, Request, serve, serve_all}
use go_ledger.Service.Requests.{service_transfer-validated}

module _ (k : Bytes) (e : String) (row : KeyRow) where
  abbrev Holds : Database → Type 0
  Holds db = find_key k e db.idempotency_keys ≡ some row

  pub serve-find_key : (s : Session) (r : Request) → Holds s.store → Holds (serve s r).store
  serve-find_key s r found =
      serve_cases Holds s r found (λ _ _ _ _. found)
        (λ env cmd claim render status body after _ posting.
          Posted-find_key k e row env cmd claim render s status body after found posting)

  serve_all-find_key :
      (s : Session) (rs : List Request) → Holds s.store → Holds (serve_all s rs).store
  unfolding serve_all
  serve_all-find_key s [] found = found
  serve_all-find_key s (r ∷ rs) found = serve_all-find_key (serve s r) rs (serve-find_key s r found)

-- what a later request with the key of the claim is told, and the session that it leaves
abbrev pub told : Claim → Bytes → ℕ → Bytes → Session → Result TransferResult × Session
told claim fingerprint status body s = (
  (if bytes_equal claim.fingerprint fingerprint
      then ok (replay_of status body)
      else err (reuse_error (record claim { fingerprint = fingerprint }))),
  rolled_back s,
)

module _ (env : Env) (cmd : TransferCommand) (claim : Claim) (render : RenderFunc)
    (s : Session) where
  -- the row that the posted transfer has left for its key
  abbrev pub kept_row : ℕ → Bytes → KeyRow
  kept_row status body = row_of env claim status body (env.new_uuid s.drawn)

  pub kept_row-answers :
      (status : ℕ) (body : Bytes) (s' : Session) (env' : Env) (cmd' : TransferCommand)
      (fingerprint : Bytes) (render' : RenderFunc)
      → find_key claim.key claim.endpoint s'.store.idempotency_keys ≡ some (kept_row status body)
      → IsCalm env'
      → validate_transfer cmd' ≡ ok tt
      → service_transfer env' cmd' (record claim { fingerprint = fingerprint }) render' s'
        ≡ told claim fingerprint status body s'
  kept_row-answers status body s' env' cmd' fingerprint render' found calm valid =
      let claim' : Claim = record claim { fingerprint = fingerprint } in
      service_transfer-validated env' cmd' claim' render' s' valid
      ∙ transfer_used_key env' cmd' claim' render' s' (kept_row status body) status body calm found
          refl refl

  Posted-answers :
      (status : ℕ) (body : Bytes) (after : Database) (s' : Session) (rs : List Request) (env' : Env)
      (cmd' : TransferCommand) (fingerprint : Bytes) (render' : RenderFunc)
      → Posted env cmd claim render s status body after
      → s'.store ≡ after
      → IsCalm env'
      → validate_transfer cmd' ≡ ok tt
      → service_transfer env' cmd'
          (record claim { fingerprint = fingerprint })
          render'
          (serve_all s' rs)
        ≡ told claim fingerprint status body (serve_all s' rs)
  Posted-answers status body after s' rs env' cmd' fingerprint render' posting same calm valid =
      kept_row-answers status body (serve_all s' rs) env' cmd' fingerprint render'
        (serve_all-find_key claim.key claim.endpoint (kept_row status body) s' rs
          (rw same (Posted-row env cmd claim render s status body after posting)))
        calm valid

  pub Outcome-Posted :
      (p : Result TransferResult × Session) (result : TransferResult)
      → p.0 ≡ ok result
      → result.replayed ≡ false
      → Outcome env cmd claim render s p
      → Posted env cmd claim render s result.status result.body p.1.store
  Outcome-Posted _ result same fresh (replays _ status {r = r} _ _ _ eq _) =
      let replayed : result.replayed ≡ true = rw (← ok-injective same, eq) in cc (replayed, fresh)
  Outcome-Posted _ result same fresh (posts status body {r = r} posting eq) =
      rw (← ok-injective same, eq) posting
  Outcome-Posted _ result same fresh (loses_ack _ _ _ _ _) = cc
  Outcome-Posted _ result same fresh (fails _) = cc

  Outcome-changed :
      (p : Result TransferResult × Session)
      → p.1.store ≢ s.store
      → Outcome env cmd claim render s p
      → (status : ℕ) × (body : Bytes) × Posted env cmd claim render s status body p.1.store
  Outcome-changed _ changed (replays _ _ _ _ _ _ same) = absurd (changed same)
  Outcome-changed _ changed (posts status body posting _) = (status, body, posting)
  Outcome-changed _ changed (loses_ack _ status body _ posting) = (status, body, posting)
  Outcome-changed _ changed (fails same) = absurd (changed same)

  -- Exactly once. If a transfer that passes validation answers with a new result, then any later
  -- request with the same key and endpoint that passes validation, after any other requests and
  -- from a driver that works, gets that status and body as a replay if its fingerprint is the same,
  -- and ErrIdempotencyKeyReuse if it is another; it changes nothing in either case.
  pub retry_after_success :
      (result : TransferResult) (s' : Session) (rs : List Request) (env' : Env)
      (cmd' : TransferCommand) (fingerprint : Bytes) (render' : RenderFunc)
      → validate_transfer cmd ≡ ok tt
      → (service_transfer env cmd claim render s).0 ≡ ok result
      → result.replayed ≡ false
      → s'.store ≡ left_by (service_transfer env cmd claim render s)
      → IsCalm env'
      → validate_transfer cmd' ≡ ok tt
      → service_transfer env' cmd'
          (record claim { fingerprint = fingerprint })
          render'
          (serve_all s' rs)
        ≡ told claim fingerprint result.status result.body (serve_all s' rs)
  retry_after_success result s' rs env' cmd' fingerprint render' valid answered fresh after calm
        valid' =
      let same = service_transfer-validated env cmd claim render s valid in
      Posted-answers result.status result.body (left_by (transfer env cmd claim render s)) s' rs
        env' cmd' fingerprint render'
        (Outcome-Posted (transfer env cmd claim render s) result (rw same at answered) fresh
          (transfer-Outcome env cmd claim render s))
        (rw same at after) calm valid'

  -- The same for a caller who does not know how the transfer ended: if it changed the database,
  -- even though its acknowledgement was lost, then the handler rendered an answer for the new
  -- transaction, and a later request with the key, under the same conditions, gets exactly that
  -- answer if its fingerprint is the same, and ErrIdempotencyKeyReuse if it is another.
  pub retry_after_change :
      (s' : Session) (rs : List Request) (env' : Env) (cmd' : TransferCommand) (fingerprint : Bytes)
      (render' : RenderFunc)
      → validate_transfer cmd ≡ ok tt
      → left_by (service_transfer env cmd claim render s) ≢ s.store
      → s'.store ≡ left_by (service_transfer env cmd claim render s)
      → IsCalm env'
      → validate_transfer cmd' ≡ ok tt
      → (status : ℕ) × (body : Bytes) × (render (transaction_of env cmd s.drawn)
          ≡ ok (status, body))
        × (service_transfer env' cmd'
              (record claim { fingerprint = fingerprint })
              render'
              (serve_all s' rs)
            ≡ told claim fingerprint status body (serve_all s' rs))
  retry_after_change s' rs env' cmd' fingerprint render' valid changed after calm valid' =
      let same = service_transfer-validated env cmd claim render s valid in
      let (status, body, posting) =
        Outcome-changed (transfer env cmd claim render s) (rw same at changed)
          (transfer-Outcome env cmd claim render s) in
      (
        status,
        body,
        posting.accepted.rendered,
        Posted-answers status body (left_by (transfer env cmd claim render s)) s' rs env' cmd'
            fingerprint render' posting (rw same at after) calm valid',
      )
