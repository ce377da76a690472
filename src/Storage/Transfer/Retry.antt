-- ===== src/Storage/Transfer/Retry.antt =====
-- A request whose key has been used: replayed, or refused for another payload.
use go_ledger.Base.{
  ℕ, ◌≡◌, refl, true, none, some, List, ◌∷◌, Bytes, bytes_equal, bytes_equal_sound, String,
  if◌then◌else◌, Bool-cases, inl, inr, ◌&&◌, &&_left, &&_right,
}
use text.Mathlib.Text.{◌==◌ as str_eq}
use text.Mathlib.TextEquality.{eq_iff}
use go_ledger.Domain.Errors.{Error, sentinel, annotate, of_key, idempotency_key_reuse, ok, err}
use go_ledger.Domain.Transaction.{TransferCommand}
use go_ledger.Domain.Idempotency.{Claim, RenderFunc, TransferResult}
use go_ledger.Storage.Database.{Database, KeyRow, key_matches, find_key}
use go_ledger.Storage.Session.{Site, Env, Session, exec, begin_tx, rolled_back}
use go_ledger.Storage.Statements.{claimed_row, insert_claim, select_claim, answered_row}
use go_ledger.Storage.Keys.{answer_rows-claimed, find_key-claimed}
use go_ledger.Storage.Transfer.{claim_key, replay_stored_response, transfer}
use go_ledger.Storage.Transfer.Outcome.{Posted}

-- no call of the driver fails
abbrev pub IsCalm : Env → Type 0
IsCalm env = (site : Site) → env.fault site ≡ none

abbrev pub replay_of : ℕ → Bytes → TransferResult
replay_of status body = record { status = status; body = body; replayed = true; transaction = none }

abbrev pub reuse_error : Claim → Error
reuse_error claim = annotate (sentinel idempotency_key_reuse) (of_key claim.key)

-- With an answered key and a driver that works, Transfer returns the stored response if the
-- fingerprint is the one that the key was first used for, and ErrIdempotencyKeyReuse if it is
-- another; either way nothing is written.
pub transfer_used_key :
    (env : Env) (cmd : TransferCommand) (claim : Claim) (render : RenderFunc) (s : Session)
    (row : KeyRow) (status : ℕ) (body : Bytes)
    → IsCalm env
    → find_key claim.key claim.endpoint s.store.idempotency_keys ≡ some row
    → row.response_status ≡ some status
    → row.response_body ≡ some body
    → transfer env cmd claim render s ≡ (
      (if bytes_equal row.request_hash claim.fingerprint
          then ok (replay_of status body)
          else err (reuse_error claim)),
      rolled_back s,
    )
unfolding transfer begin_tx claim_key exec insert_claim replay_stored_response select_claim find_key
transfer_used_key env cmd claim render s row status body calm found answered stored =
    rw (calm Site.begin, calm Site.claim, found, calm Site.read_stored, found)
      (elim (Bool-cases (bytes_equal row.request_hash claim.fingerprint)) [
        | inl same ↦ rw (same, answered, stored) refl
        | inr other ↦ rw other refl
      ])

-- The row of a claim that has been answered stays what it is under any later transfer.
answered-find_key :
    (k : Bytes) (e : String) (env : Env) (claim : Claim) (status : ℕ) (body : Bytes) (id : ℕ)
    (rows : List KeyRow) (row : KeyRow)
    → find_key claim.key claim.endpoint rows ≡ none
    → find_key k e rows ≡ some row
    → find_key k e (answered_row status body id (claimed_row env claim) ∷ rows) ≡ some row
unfolding find_key key_matches
answered-find_key k e env claim status body id rows row free found =
    elim (Bool-cases (bytes_equal claim.key k && str_eq claim.endpoint e)) [
      | inl same ↦
          let same_key : claim.key ≡ k = bytes_equal_sound claim.key k (&&_left _ _ same) in
          let same_endpoint : claim.endpoint ≡ e =
            (eq_iff claim.endpoint e).0 (&&_right _ _ same) in
          let absent : find_key k e rows ≡ none = rw (same_key, same_endpoint) at free in
          cc (absent, found)
      | inr differ ↦ rw differ found
    ]

pub Posted-find_key :
    (k : Bytes) (e : String) (row : KeyRow) (env : Env) (cmd : TransferCommand) (claim : Claim)
    (render : RenderFunc) (s : Session) (status : ℕ) (body : Bytes) (after : Database)
    → find_key k e s.store.idempotency_keys ≡ some row
    → Posted env cmd claim render s status body after
    → find_key k e after.idempotency_keys ≡ some row
Posted-find_key k e row env cmd claim render s status body after found posting =
    rw posting.database (
      rw
        (answer_rows-claimed env claim status body (env.new_uuid s.drawn) s.store.idempotency_keys
          posting.new_key)
        (answered-find_key k e env claim status body (env.new_uuid s.drawn) s.store.idempotency_keys
          row posting.new_key found))

-- The row that a posted transfer leaves for its claim.
abbrev pub row_of : Env → Claim → ℕ → Bytes → ℕ → KeyRow
row_of env claim status body id = answered_row status body id (claimed_row env claim)

pub Posted-row :
    (env : Env) (cmd : TransferCommand) (claim : Claim) (render : RenderFunc) (s : Session)
    (status : ℕ) (body : Bytes) (after : Database)
    → Posted env cmd claim render s status body after
    → find_key claim.key claim.endpoint after.idempotency_keys
      ≡ some (row_of env claim status body (env.new_uuid s.drawn))
Posted-row env cmd claim render s status body after posting = rw posting.database (
    rw
      (answer_rows-claimed env claim status body (env.new_uuid s.drawn) s.store.idempotency_keys
        posting.new_key)
      (find_key-claimed env claim status body (env.new_uuid s.drawn) s.store.idempotency_keys))
