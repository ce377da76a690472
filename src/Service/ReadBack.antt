-- ===== src/Service/ReadBack.antt =====
-- GetTransaction after a transfer.
use go_ledger.Base.{
  ℕ, suc, ◌≡◌, refl, false, none, List, [], ◌∷◌, Bytes, ◌==◌, ==_refl, Bool-cases, inl, inr, arith,
}
use go_ledger.Domain.Errors.{Uuid, ok}
use go_ledger.Domain.Transaction.{Entry, Transaction, TransferCommand, validate_transfer}
use go_ledger.Domain.Idempotency.{Claim, RenderFunc, TransferResult}
use go_ledger.Storage.Database.{Database, find_transaction}
use go_ledger.Storage.Session.{Env, Session, Site, left_by}
use go_ledger.Storage.Statements.{count_legs}
use go_ledger.Storage.Accounts
use go_ledger.Storage.Accounts.{entries_of, insert_ordered, query_result}
use go_ledger.Storage.Transfer.{transfer}
use go_ledger.Storage.Transfer.Cases.{transaction_of, debit_entry, credit_entry}
use go_ledger.Storage.Transfer.Outcome.{Posted, transfer-Outcome}
use go_ledger.Storage.Transfer.Retry.{IsCalm}
use go_ledger.Storage.Invariant.{WellFormed}
use go_ledger.Service
use go_ledger.Service.{service_transfer}
use go_ledger.Service.Requests.{service_transfer-validated}
use go_ledger.Service.Retries.{Outcome-Posted}

-- the transaction of a transfer as it is read, with the credited leg first
abbrev pub as_read : Env → TransferCommand → ℕ → Transaction
as_read env cmd n = record (transaction_of env cmd n) {
  entries = credit_entry env cmd n ∷ debit_entry env cmd n ∷ [];
}

no_entries : (id : Uuid) (es : List Entry) → count_legs id es ≡ 0 → entries_of id es ≡ []
unfolding count_legs entries_of
no_entries id [] none_counted = refl
no_entries id (e ∷ es) none_counted = elim (Bool-cases (e.transaction_id == id)) [
  | inl same ↦
      let counted : suc (count_legs id es) ≡ 0 = rw same at none_counted in
      absurd (omega (arith, counted))
  | inr other ↦ rw other (no_entries id es (rw other at none_counted))
]

module _ (env : Env) (cmd : TransferCommand) (claim : Claim) (render : RenderFunc)
    (s : Session) where
  Posted-read_back :
      (status : ℕ) (body : Bytes) (after : Database) (env' : Env) (s' : Session)
      → WellFormed s.store
      → Posted env cmd claim render s status body after
      → s'.store ≡ after
      → IsCalm env'
      → Accounts.get_transaction env' (env.new_uuid s.drawn) s' ≡ (ok (as_read env cmd s.drawn), s')
  unfolding Accounts.get_transaction entries_of insert_ordered
  Posted-read_back status body after env' s' valid posting same calm =
      let free : find_transaction (env.new_uuid s.drawn) s.store ≡ none =
        posting.accepted.written.new_transaction in
      let unused : count_legs (env.new_uuid s.drawn) s.store.ledger_entries ≡ 0 =
        rw free at (valid.two_legs (env.new_uuid s.drawn)) in
      rw
        (
          same,
          posting.database,
          calm Site.select,
          calm Site.select_entries,
          ==_refl (env.new_uuid s.drawn),
          no_entries (env.new_uuid s.drawn) s.store.ledger_entries unused,
        )
        refl

  -- A transfer is read back as it was rendered. From a well-formed database, if a transfer that
  -- passes validation answers with a new result, then its answer is the rendering of a transaction
  -- that GetTransaction returns, over a driver that works, with all its fields and both entries, the
  -- credited one first.
  pub transfer_read_back :
      (result : TransferResult) (env' : Env) (s' : Session)
      → WellFormed s.store
      → validate_transfer cmd ≡ ok tt
      → (service_transfer env cmd claim render s).0 ≡ ok result
      → result.replayed ≡ false
      → s'.store ≡ left_by (service_transfer env cmd claim render s)
      → IsCalm env'
      → (render (transaction_of env cmd s.drawn) ≡ ok (result.status, result.body))
        × (Service.get_transaction env' (env.new_uuid s.drawn) s'
            ≡ (ok (as_read env cmd s.drawn), s'))
  unfolding Service.get_transaction
  transfer_read_back result env' s' well_formed valid answered fresh after calm =
      let same = service_transfer-validated env cmd claim render s valid in
      let posting : Posted env cmd claim render s result.status result.body
          (left_by (transfer env cmd claim render s)) =
        Outcome-Posted env cmd claim render s (transfer env cmd claim render s) result
          (rw same at answered) fresh (transfer-Outcome env cmd claim render s) in
      (
        posting.accepted.rendered,
        Posted-read_back result.status result.body (left_by (transfer env cmd claim render s)) env'
            s' well_formed posting (rw same at after) calm,
      )
