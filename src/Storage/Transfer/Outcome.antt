-- ===== src/Storage/Transfer/Outcome.antt =====
-- How a call of Store.Transfer can end, with what it leaves in the database: a replay, a commit, a
-- commit whose acknowledgement was lost, or an error without a trace.
use go_ledger.Base.{
  ℕ, ◌≡◌, refl, Bool, true, false, not, Option, none, some, [], ◌∷◌, Bytes, bytes_equal,
  bytes_equal_sound, ◌==◌, String, inl, inr, ◌⊎◌, if◌then◌else◌, arith,
}
use go_ledger.Domain.Errors.{Error, opaque, Result, ok, err}
use go_ledger.Domain.Transaction.{Transaction, TransferCommand}
use go_ledger.Domain.Idempotency.{Claim, RenderFunc, TransferResult}
use go_ledger.Storage.Database.{Database, KeyRow, find_key}
use go_ledger.Storage.Session.{
  Site, Env, Session, CommitFault, refused, ack_lost, continue, contextualise, ◌>>=◌, ◌>>◌, pure,
  begun, begin_tx, rolled_back,
}
use go_ledger.Storage.Session.Cases.{exec_cases}
use go_ledger.Storage.Statements.Facts.{select_claim-ok, insert_claim-ok}
use go_ledger.Storage.Statements.{claimed_row, insert_claim, select_claim, run_deferred}
use go_ledger.Storage.Transfer.{
  translate_result, translated, claim_key, stored_result, body_or_empty, replay_stored_response,
  after_checks, commit, perform, transfer,
}
use go_ledger.Storage.Transfer.Cases.{stated_cases, raise_if_then, transaction_of}
use go_ledger.Storage.Transfer.Prepared.{posting, Accepted, prepared_session, prepare_cases}

-- the working copy once the key has been claimed
abbrev pub claimed : Env → Claim → Session → Session
claimed env claim s = record s {
  tx = record s.store { idempotency_keys = claimed_row env claim ∷ s.store.idempotency_keys };
  deferred = [];
}

-- a new transfer, with all that it has checked, and the database that it leaves
pub record Posted (env : Env) (cmd : TransferCommand) (claim : Claim) (render : RenderFunc)
    (s : Session) (status : ℕ) (body : Bytes) (after : Database) : Type 0 where
  pub payload : Bytes
  pub new_key : find_key claim.key claim.endpoint s.store.idempotency_keys ≡ none
  pub accepted : Accepted env cmd render (claimed env claim s) status body payload
  pub balanced_at_commit :
      run_deferred (env.new_uuid s.drawn ∷ env.new_uuid s.drawn ∷ []) after ≡ ok tt
  pub database : after ≡ posting env cmd s.drawn claim status body payload (claimed env claim s).tx

pub data Outcome (env : Env) (cmd : TransferCommand) (claim : Claim) (render : RenderFunc)
    (s : Session) : Result TransferResult × Session → Type 0 where
  replays :
      (row : KeyRow) (status : ℕ) {r : TransferResult} {s' : Session}
      → find_key claim.key claim.endpoint s.store.idempotency_keys ≡ some row
      → row.request_hash ≡ claim.fingerprint
      → row.response_status ≡ some status
      → r ≡ record {
        status = status;
        body = body_or_empty row.response_body;
        replayed = true;
        transaction = none;
      }
      → s'.store ≡ s.store
      → Outcome env cmd claim render s (ok r, s')
  posts :
      (status : ℕ) (body : Bytes) {r : TransferResult} {s' : Session}
      → Posted env cmd claim render s status body s'.store
      → r ≡ record {
        status = status;
        body = body;
        replayed = false;
        transaction = some (transaction_of env cmd s.drawn);
      }
      → Outcome env cmd claim render s (ok r, s')
  loses_ack :
      (message : String) (status : ℕ) (body : Bytes) {e : Error} {s' : Session}
      → env.commit_fault ≡ some (ack_lost message)
      → Posted env cmd claim render s status body s'.store
      → Outcome env cmd claim render s (err e, s')
  fails :
      {e : Error} {s' : Session} → s'.store ≡ s.store → Outcome env cmd claim render s (err e, s')

pub commit_cases :
    (Q : Result (Unit {0}) × Session → Type 0) (env : Env) (s : Session)
    → ((e : Error) → Q (err e, s))
    → (run_deferred s.deferred s.tx ≡ ok tt → Q (ok tt, record s { store = s.tx }))
    → ((m : String) (e : Error)
        → env.commit_fault ≡ some (ack_lost m)
        → run_deferred s.deferred s.tx ≡ ok tt
        → Q (err e, record s { store = s.tx }))
    → Q (commit env s)
unfolding commit
commit_cases Q env s failed done lost =
    settle env.commit_fault (run_deferred s.deferred s.tx) refl refl
  where
    settle :
        (fault : Option CommitFault) (checks : Result (Unit {0}))
        → env.commit_fault ≡ fault
        → run_deferred s.deferred s.tx ≡ checks
        → Q (after_checks fault checks s)
    settle none (ok tt) same passed = done passed
    settle (some (refused m)) (ok tt) same passed = failed (opaque m)
    settle (some (ack_lost m)) (ok tt) same passed = lost m (opaque m) same passed
    settle none (err e) same passed = failed e
    settle (some _) (err e) same passed = failed e

module _ (env : Env) (cmd : TransferCommand) (claim : Claim) (render : RenderFunc)
    (s : Session) where
  abbrev answer_of : ℕ × Bytes × Transaction → TransferResult
  answer_of prepared = record {
    status = prepared.0;
    body = prepared.1;
    replayed = false;
    transaction = some prepared.2;
  }

  perform-Outcome :
      find_key claim.key claim.endpoint s.store.idempotency_keys ≡ none
      → Outcome env cmd claim render s (perform env cmd claim render (claimed env claim s))
  unfolding perform
  perform-Outcome new_key =
      prepare_cases
        (λ p.
          Outcome env cmd claim render s
            (continue p (λ prepared. translated (commit env) >> pure (answer_of prepared))))
        env cmd claim render (claimed env claim s) (λ _ _ same. fails same)
        λ status body payload accepted.
          commit_cases
            (λ p. Outcome env cmd claim render s (
              continue (translate_result p.0, p.1)
                (λ _. pure (answer_of (status, body, transaction_of env cmd s.drawn)))))
            env (prepared_session env cmd claim status body payload (claimed env claim s))
            (λ _. fails refl)
            (λ passed.
              posts status body
                (record {
                  payload = payload;
                  new_key = new_key;
                  accepted = accepted;
                  balanced_at_commit = passed;
                  database = refl;
                })
                refl)
            λ m _ lost passed. loses_ack m status body lost (record {
              payload = payload;
              new_key = new_key;
              accepted = accepted;
              balanced_at_commit = passed;
              database = refl;
            })

  stored_result-Outcome :
      (row : KeyRow) (status : Option ℕ) (s' : Session)
      → find_key claim.key claim.endpoint s.store.idempotency_keys ≡ some row
      → row.request_hash ≡ claim.fingerprint
      → row.response_status ≡ status
      → s'.store ≡ s.store
      → Outcome env cmd claim render s (stored_result status row.response_body s')
  stored_result-Outcome row none s' found same_hash answered same = fails same
  stored_result-Outcome row (some status) s' found same_hash answered same =
      replays row status found same_hash answered refl same

  replay-Outcome :
      (s' : Session)
      → s'.store ≡ s.store
      → s'.tx ≡ s.store
      → Outcome env cmd claim render s (replay_stored_response env claim s')
  unfolding replay_stored_response
  replay-Outcome s' same same_tx =
      stated_cases (Outcome env cmd claim render s) "read stored idempotent response" env
        Site.read_stored (select_claim claim) _ s' (λ _. fails same)
        λ row' db selected.
          let found' : find_key claim.key claim.endpoint s.store.idempotency_keys ≡ some row' =
            rw same_tx at (select_claim-ok claim s'.tx db row' selected) in
          raise_if_then (Outcome env cmd claim render s)
            (not (bytes_equal row'.request_hash claim.fingerprint)) _ _ (record s' { tx = db })
            (λ _. fails same)
            λ equal.
              stored_result-Outcome row' row'.response_status (record s' { tx = db }) found'
                (bytes_equal_sound row'.request_hash claim.fingerprint (ground arith)) refl same

  owned-Outcome :
      (owned : Bool) (s' : Session)
      → ((owned ≡ false)
          × ((row : KeyRow) × (find_key claim.key claim.endpoint s.store.idempotency_keys
                ≡ some row))
          × (s' ≡ record s { tx = s.store; deferred = [] }))
        ⊎ ((owned ≡ true)
            × (find_key claim.key claim.endpoint s.store.idempotency_keys ≡ none)
            × (s' ≡ claimed env claim s))
      → Outcome env cmd claim render s
          ((if owned then perform env cmd claim render else replay_stored_response env claim) s')
  owned-Outcome owned s' (inl (not_owned, (row, found), eq)) =
      rw (not_owned, eq) (replay-Outcome (record s { tx = s.store; deferred = [] }) refl refl)
  owned-Outcome owned s' (inr (is_owned, free, eq)) = rw (is_owned, eq) (perform-Outcome free)

  body-Outcome : Outcome env cmd claim render s (
      (claim_key env claim >>= λ owned.
      if owned then perform env cmd claim render else replay_stored_response env claim)
        (record s { tx = s.store; deferred = [] }))
  unfolding claim_key
  body-Outcome =
      exec_cases
        (λ p. Outcome env cmd claim render s (
          continue (continue (contextualise "claim idempotency key" p.0, p.1) (λ n. pure (n == 1)))
            (λ owned.
              if owned then perform env cmd claim render else replay_stored_response env claim)))
        env Site.claim (insert_claim env claim) (record s { tx = s.store; deferred = [] })
        (λ _. fails refl)
        λ n db inserted.
          owned-Outcome (n == 1) (record s { tx = db; deferred = [] })
            (elim (insert_claim-ok env claim s.store db n inserted) [
              | inl (none_affected, taken, same) ↦ inl (ground arith, taken, rw same)
              | inr (one_affected, free, same) ↦ inr (ground arith, free, rw same)
            ])

  rolled_back-Outcome :
      {p : Result TransferResult × Session}
      → Outcome env cmd claim render s p
      → Outcome env cmd claim render s (p.0, rolled_back p.1)
  rolled_back-Outcome (replays row status found same_hash answered eq same) =
      replays row status found same_hash answered eq same
  rolled_back-Outcome (posts status body posted eq) = posts status body posted eq
  rolled_back-Outcome (loses_ack m status body lost posted) = loses_ack m status body lost posted
  rolled_back-Outcome (fails same) = fails same

  begun-Outcome :
      (fault : Option String)
      → Outcome env cmd claim render s (
          continue
            (contextualise "begin transfer" (begun fault s).0, (begun fault s).1)
            (λ _. claim_key env claim >>= λ owned.
              if owned then perform env cmd claim render else replay_stored_response env claim))
  begun-Outcome none = body-Outcome
  begun-Outcome (some m) = fails refl

  -- Every call of Transfer, under any driver faults, ends in one of the four ways of Outcome: it
  -- replays the stored response of a key used for the same request and leaves the database alone; it
  -- posts the transfer, with every check of Accepted passed; it fails because the acknowledgement of
  -- the COMMIT was lost after the transfer was posted; or it fails and the database is unchanged.
  pub transfer-Outcome : Outcome env cmd claim render s (transfer env cmd claim render s)
  unfolding transfer begin_tx
  transfer-Outcome = rolled_back-Outcome (begun-Outcome (env.fault Site.begin))
