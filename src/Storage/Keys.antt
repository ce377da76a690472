-- ===== src/Storage/Keys.antt =====
-- The rows of idempotency_keys under the claim and its answer.
use go_ledger.Base.{ℕ, ◌≡◌, true, none, some, List, ◌∷◌, Bytes, bytes_equal_refl}
use text.Mathlib.TextPositions.{eq_refl}
use go_ledger.Domain.Errors.{Uuid}
use go_ledger.Domain.Idempotency.{Claim}
use go_ledger.Storage.Database.{KeyRow, key_matches, find_key}
use go_ledger.Storage.Session.{Env}
use go_ledger.Storage.Statements.{claimed_row, answered_row, answer_rows}
use go_ledger.Storage.Statements.Facts.{answer_rows_fresh}

pub claimed_row-key_matches :
    (env : Env) (claim : Claim)
    → key_matches claim.key claim.endpoint (claimed_row env claim) ≡ true
unfolding key_matches
claimed_row-key_matches env claim = rw (bytes_equal_refl claim.key, eq_refl claim.endpoint)

-- Answering a claim that has just been made gives its row the answer and leaves the others.
pub answer_rows-claimed :
    (env : Env) (claim : Claim) (status : ℕ) (body : Bytes) (id : Uuid) (rows : List KeyRow)
    → find_key claim.key claim.endpoint rows ≡ none
    → answer_rows claim status body id (claimed_row env claim ∷ rows)
      ≡ answered_row status body id (claimed_row env claim) ∷ rows
unfolding answer_rows
answer_rows-claimed env claim status body id rows free =
    rw (claimed_row-key_matches env claim, answer_rows_fresh claim status body id rows free)

pub find_key-claimed :
    (env : Env) (claim : Claim) (status : ℕ) (body : Bytes) (id : Uuid) (rows : List KeyRow)
    → find_key claim.key claim.endpoint (answered_row status body id (claimed_row env claim) ∷ rows)
      ≡ some (answered_row status body id (claimed_row env claim))
unfolding find_key key_matches
find_key-claimed env claim status body id rows =
    rw (bytes_equal_refl claim.key, eq_refl claim.endpoint)
